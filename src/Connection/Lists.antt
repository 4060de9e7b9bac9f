-- ===== src/Connection/Lists.antt =====
-- Lists whose entries satisfy a predicate, and lists of different numbers.
use dreamboat_rpc.Prelude.{ℕ, ◌≢◌, List, [], ◌∷◌, ◌++◌, map}

module _ {ℓ κ} {A : Type ℓ} (Holds : A → Type κ) where
  abbrev pub All : List A → Type κ
  All [] = Unit {κ}
  All (x ∷ xs) = Holds x × All xs

  pub All-append : (xs ys : List A) → All xs → All ys → All (xs ++ ys)
  All-append [] ys v w = w
  All-append (x ∷ xs) ys v w = (v.0, All-append xs ys v.1 w)

  pub All-split : (xs ys : List A) → All (xs ++ ys) → All xs × All ys
  All-split [] ys v = (tt, v)
  All-split (x ∷ xs) ys v = let rest = All-split xs ys v.1 in ((v.0, rest.0), rest.1)

module _ {ℓ κ κ'} {A : Type ℓ} (Holds : A → Type κ) (Then : A → Type κ') where
  pub All-map : (xs : List A) → All Holds xs → ((x : A) → Holds x → Then x) → All Then xs
  All-map [] v f = tt
  All-map (x ∷ xs) v f = (f x v.0, All-map xs v.1 f)

  pub All-both : (xs : List A) → All Holds xs → All Then xs → All (λ x. Holds x × Then x) xs
  All-both [] v w = tt
  All-both (x ∷ xs) v w = ((v.0, w.0), All-both xs v.1 w.1)

-- No number occurs twice.
abbrev pub Distinct : List ℕ → Type 0
Distinct [] = Unit {0}
Distinct (i ∷ is) = All (λ k. i ≢ k) is × Distinct is

pub Distinct-without :
    (is : List ℕ) (k : ℕ) (ks : List ℕ) → Distinct (is ++ k ∷ ks) → Distinct (is ++ ks)
Distinct-without [] k ks v = v.1
Distinct-without (i ∷ is) k ks v =
    let apart = All-split (λ k. i ≢ k) is (k ∷ ks) v.0 in
    (All-append (λ k. i ≢ k) is ks apart.0 apart.1.1, Distinct-without is k ks v.1)

pub Distinct-concat :
    (is : List ℕ) (k : ℕ) → Distinct is → All (λ i. i ≢ k) is → Distinct (is ++ k ∷ [])
Distinct-concat [] k v w = (tt, tt)
Distinct-concat (i ∷ is) k v w =
    (All-append (λ k. i ≢ k) is (k ∷ []) v.0 (w.0, tt), Distinct-concat is k v.1 w.1)

pub All-through {ℓ κ κ'} :
    {A : Type ℓ} {B : Type κ} (f : A → B) (Holds : B → Type κ') (xs : List A)
    → All (λ x. Holds (f x)) xs
    → All Holds (map f xs)
All-through f Holds [] v = tt
All-through f Holds (x ∷ xs) v = (v.0, All-through f Holds xs v.1)

pub All-from {ℓ κ κ'} :
    {A : Type ℓ} {B : Type κ} (f : A → B) (Holds : B → Type κ') (xs : List A)
    → All Holds (map f xs)
    → All (λ x. Holds (f x)) xs
All-from f Holds [] v = tt
All-from f Holds (x ∷ xs) v = (v.0, All-from f Holds xs v.1)
