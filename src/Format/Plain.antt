-- ===== src/Format/Plain.antt =====
-- Text without a percent sign is its own format; a percent sign asks for an argument.
use mathlib.Core.List.{append-nil}
use dreamboat_rpc.Prelude.{
  ℕ, ◌≡◌, ◌≢◌, refl, ap, sym, ◌∙◌, List, [], ◌∷◌, ◌++◌, arith, ◌==◌, if◌then◌else◌, false,
}
use dreamboat_rpc.Run.{Run, ok, aborts, faults, out_of_fuel, ◌>>=◌, >>=-twice}
use dreamboat_rpc.Format.{Arg, convert, format}

abbrev pub IsPlain : List ℕ → Type 0
IsPlain [] = Unit {0}
IsPlain (b ∷ s) = (b ≢ b'%') × IsPlain s

format-char :
    (b : ℕ) (f : List ℕ) (args : List Arg)
    → b ≢ b'%'
    → format (b ∷ f) args ≡ (format f args >>= λ out. ok (b ∷ out))
unfolding format
format-char b [] args ne = ground arith
format-char b (c ∷ f) args ne = let apart : (b == b'%') ≡ false = ground arith in rw apart

same_run : (run : Run (List ℕ)) → run ≡ (run >>= λ out. ok out)
same_run (ok v) = refl
same_run aborts = refl
same_run faults = refl
same_run out_of_fuel = refl

-- The formatted text begins with what stands in front of the first percent sign.
pub format-prefix :
    (s f : List ℕ) (args : List Arg)
    → IsPlain s
    → format (s ++ f) args ≡ (format f args >>= λ out. ok (s ++ out))
format-prefix [] f args v = same_run (format f args)
format-prefix (b ∷ s) f args v =
    format-char b (s ++ f) args v.0
    ∙ ap (λ run. run >>= λ out. ok (b ∷ out)) (format-prefix s f args v.1)
    ∙ >>=-twice (format f args) (λ out. s ++ out) (λ out. b ∷ out)

pub format-plain : (s : List ℕ) (args : List Arg) → IsPlain s → format s args ≡ ok s
unfolding format
format-plain s args v =
    ap (λ l. format l args) (sym (append-nil s)) ∙ format-prefix s [] args v ∙ ap ok (append-nil s)

-- A percent sign that no argument is left for.
pub format-percent :
    (s : List ℕ) (c : ℕ) (f : List ℕ)
    → IsPlain s
    → c ≢ b'%'
    → format (s ++ b'%' ∷ c ∷ f) [] ≡ faults
unfolding format convert
format-percent s c f v ne =
    let other : (c == b'%') ≡ false = ground arith in
    format-prefix s (b'%' ∷ c ∷ f) [] v
    ∙ ap
        (λ b.
          (if b then (format f [] >>= λ out. ok (c ∷ out)) else faults) >>= λ out. ok (s ++ out))
        other

pub IsPlain-append : (s t : List ℕ) → IsPlain s → IsPlain t → IsPlain (s ++ t)
IsPlain-append [] t v w = w
IsPlain-append (b ∷ s) t v w = (v.0, IsPlain-append s t v.1 w)
