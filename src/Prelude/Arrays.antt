-- ===== src/Prelude/Arrays.antt =====
-- Arrays of numbers: reads with a default of 0, and the exchange of two entries.
use Prim.Native.Nat.{ℕ, zero, suc, ◌≤◌, ◌<◌}
use mathlib.Core.Path.{◌≡◌, refl, ap, ◌∙◌}
use mathlib.Core.Logic.{◌≢◌}
use mathlib.Core.List.{List, [], ◌∷◌, ◌++◌, Perm}
use mathlib.Core.List.Perm
use native.Mathlib.Omega.{arith}
use dreamboat_rpc.Prelude.Tests.{◌==◌, if◌then◌else◌}
use dreamboat_rpc.Prelude.Lists.{length, get_or, set, take, length-set}

abbrev pub at : List ℕ → ℕ → ℕ
at h i = get_or h i 0

unfoldable pub swap : List ℕ → ℕ → ℕ → List ℕ
swap h i j = set (set h i (at h j)) j (at h i)

pub at-set :
    (h : List ℕ) (i j v : ℕ) → i < length h → at (set h i v) j ≡ (if i == j then v else at h j)
at-set [] i j v p = absurd (omega arith)
at-set (x ∷ h) zero zero v p = refl
at-set (x ∷ h) (suc i) (suc j) v p = ground (arith, at-set h i j v)
at-set (x ∷ h) i j v p = ground arith

pub at-append : (h g : List ℕ) (i : ℕ) → i < length h → at (h ++ g) i ≡ at h i
at-append [] g i p = absurd (omega arith)
at-append (x ∷ h) g zero p = refl
at-append (x ∷ h) g (suc i) p = at-append h g i (omega arith)

pub at-take : (n : ℕ) (h : List ℕ) (i : ℕ) → i < n → at (take n h) i ≡ at h i
at-take zero h i p = absurd (omega arith)
at-take (suc n) [] i p = refl
at-take (suc n) (x ∷ h) zero p = refl
at-take (suc n) (x ∷ h) (suc i) p = at-take n h i (omega arith)

pub at-past : (h : List ℕ) (i : ℕ) → length h ≤ i → at h i ≡ 0
at-past [] i p = refl
at-past (x ∷ h) zero p = absurd (omega arith)
at-past (x ∷ h) (suc i) p = at-past h i (omega arith)

pub take-append-last : (n : ℕ) (h : List ℕ) → length h ≡ suc n → take n h ++ at h n ∷ [] ≡ h
take-append-last zero (x ∷ []) p = refl
take-append-last (suc n) (x ∷ h) p = ap (◌∷◌ x) (take-append-last n h (omega arith))
take-append-last n h p = absurd (omega arith)

-- A write trades the old entry for the new one.
set-perm : (h : List ℕ) (i v : ℕ) → i < length h → Perm (at h i ∷ set h i v) (v ∷ h)
set-perm [] i v p = absurd (omega arith)
set-perm (x ∷ h) zero v p = Perm.swap v x h
set-perm (x ∷ h) (suc i) v p =
    let rest = Perm.cons x (set-perm h i v (omega arith)) in
    Perm.trans (Perm.swap x _ _) (Perm.trans rest (Perm.swap v x h))

pub length-swap : (h : List ℕ) (i j : ℕ) → length (swap h i j) ≡ length h
unfolding swap
length-swap h i j = simp length-set

module _ (h : List ℕ) (i j : ℕ) (pi : i < length h) (pj : j < length h) where
  pub at-swap :
      (c : ℕ) → at (swap h i j) c ≡ (if j == c then at h i else if i == c then at h j else at h c)
  unfolding swap
  at-swap c =
      rw (at-set (set h i (at h j)) j c (at h i) (rw length-set pj), at-set h i c (at h j) pi)

  pub swap-perm : Perm (swap h i j) h
  unfolding swap
  swap-perm =
      let b = set h i (at h j) in
      let kept : at b j ≡ at h j = ground (arith, at-set h i j (at h j)) in
      let second = rw kept at (set-perm b j (at h i) (rw length-set pj)) in
      Perm.cons_inv (Perm.trans second (set-perm h i (at h j) pi))

pub at-set_ne : (h : List ℕ) (i j v : ℕ) → i ≢ j → at (set h i v) j ≡ at h j
at-set_ne [] i j v p = refl
at-set_ne (x ∷ h) zero zero v p = absurd (p refl)
at-set_ne (x ∷ h) zero (suc j) v p = refl
at-set_ne (x ∷ h) (suc i) zero v p = refl
at-set_ne (x ∷ h) (suc i) (suc j) v p = at-set_ne h i j v (λ e. p (ap suc e))

pub at-swap_ne : (h : List ℕ) (i j c : ℕ) → i ≢ c → j ≢ c → at (swap h i j) c ≡ at h c
unfolding swap
at-swap_ne h i j c p q = at-set_ne (set h i (at h j)) j c (at h i) q ∙ at-set_ne h i c (at h j) p
