-- ===== src/Memory/Laws.antt =====
-- What loads, stores and C strings give where they stay in range.
use dreamboat_rpc.Prelude.{
  ℕ, zero, suc, ◌+◌, ◌≤◌, ◌<◌, ◌≡◌, ◌≢◌, ◌↔◌, refl, subst, sym, ap, ◌∙◌, List, [], ◌∷◌, ◌++◌, true,
  arith, length, take, drop, length-append, length-take, length-drop, take-append,
}
use mathlib.Core.List.{append-nil}
use dreamboat_rpc.Run.{ok, faults, ◌>>=◌, >>=-eq-ok, ok-injective}
use dreamboat_rpc.Memory.{load, store, c_str, strcpy, str_eq}

-- No zero byte.
abbrev pub IsText : List ℕ → Type 0
IsText [] = Unit {0}
IsText (b ∷ s) = (b ≢ 0) × IsText s

pub load-ok : (n : ℕ) (buf : List ℕ) → n ≤ length buf → load n buf ≡ ok (take n buf)
unfolding load
load-ok n buf h = ground arith

pub take-all : (n : ℕ) (s : List ℕ) → length s ≡ n → take n s ≡ s
take-all n s e = ap (take n) (sym (append-nil s)) ∙ take-append n s [] e

pub load-append : (s rest : List ℕ) (n : ℕ) → length s ≡ n → load n (s ++ rest) ≡ ok s
load-append s rest n e =
    load-ok n (s ++ rest) (omega (arith, length-append s rest)) ∙ ap ok (take-append n s rest e)

pub store-ok :
    (buf : List ℕ) (off : ℕ) (s : List ℕ)
    → off + length s ≤ length buf
    → store buf off s ≡ ok (take off buf ++ s ++ drop (off + length s) buf)
unfolding store
store-ok buf off s h = ground arith

pub store-faults :
    (buf : List ℕ) (off : ℕ) (s : List ℕ) → length buf < off + length s → store buf off s ≡ faults
unfolding store
store-faults buf off s h = ground arith

pub length-store :
    (buf : List ℕ) (off : ℕ) (s : List ℕ)
    → off + length s ≤ length buf
    → length (take off buf ++ s ++ drop (off + length s) buf) ≡ length buf
length-store buf off s h = omega (
  arith,
  length-append (take off buf ++ s) (drop (off + length s) buf),
  length-append (take off buf) s,
  length-take off buf (omega arith),
  length-drop (off + length s) buf,
)

-- A text is read back from any buffer that holds it and a zero byte.
pub c_str-append : (s rest : List ℕ) → IsText s → c_str (s ++ 0 ∷ rest) ≡ ok s
unfolding c_str
c_str-append [] rest t = refl
c_str-append (zero ∷ s) rest t = absurd (t.0 refl)
c_str-append (suc b ∷ s) rest t = ground (arith, c_str-append s rest t.1)

-- What c_str gives is a text.
pub c_str-IsText : (buf s : List ℕ) → c_str buf ≡ ok s → IsText s
unfolding c_str
c_str-IsText [] s e = cc
c_str-IsText (zero ∷ buf) s e = subst IsText (ok-injective e) tt
c_str-IsText (suc b ∷ buf) s e =
    let step : (c_str buf >>= λ t. ok (suc b ∷ t)) ≡ ok s = ground arith in
    let (t, p, q) = >>=-eq-ok (c_str buf) (λ t. ok (suc b ∷ t)) step in
    subst IsText (ok-injective q) (ground arith, c_str-IsText buf t p)

pub str_eq_iff : (s t : List ℕ) → (str_eq s t ≡ true) ↔ (s ≡ t)
unfolding str_eq
str_eq_iff [] [] = (λ e. refl, λ e. refl)
str_eq_iff [] (b ∷ t) = ground arith
str_eq_iff (a ∷ s) [] = ground arith
str_eq_iff (a ∷ s) (b ∷ t) = ground (arith, str_eq_iff s t)

pub str_eq_refl : (s : List ℕ) → str_eq s s ≡ true
str_eq_refl s = (str_eq_iff s s).1 refl

-- A store at the front of a buffer.
pub store_front :
    (out s : List ℕ) → length s ≤ length out → store out 0 s ≡ ok (s ++ drop (length s) out)
store_front out s h =
    let start : 0 + length s ≡ length s = omega arith in
    store-ok out 0 s (omega arith) ∙ ap (λ k. ok (s ++ drop k out)) start

-- strcpy of a text in front of anything.
pub strcpy_front :
    (out s rest : List ℕ)
    → IsText s
    → length s + 1 ≤ length out
    → strcpy out 0 (s ++ 0 ∷ rest) ≡ ok (s ++ 0 ∷ [] ++ drop (length s + 1) out)
unfolding strcpy
strcpy_front out s rest t h =
    let size : length (s ++ 0 ∷ []) ≡ length s + 1 = length-append s (0 ∷ []) ∙ omega arith in
    rw (c_str-append s rest t, store_front out (s ++ 0 ∷ []) (omega arith), size)
