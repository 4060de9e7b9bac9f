-- ===== src/Apps/Load.antt =====
-- The requests of the client program.
use dreamboat_rpc.Prelude.{
  ℕ, zero, suc, ◌+◌, ◌%◌, ◌≤◌, ◌<◌, ◌≡◌, refl, List, [], ◌∷◌, arith, lt→ltb,
}
use dreamboat_rpc.Run.{out_of_fuel}
use dreamboat_rpc.Apps.{crazy_ids}

-- Numbers from `i` on that do not descend, below 10000.
abbrev pub Rises : ℕ → List ℕ → Type 0
Rises i [] = Unit {0}
Rises i (j ∷ js) = (i ≤ j) × (j < 10000) × Rises j js

-- How far `n` calls of rand, from the k-th on, move a loop.
abbrev pub moved : (ℕ → ℕ) → ℕ → ℕ → ℕ
moved rand k zero = 0
moved rand k (suc n) = rand k % 100 + moved rand (k + 1) n

-- A rand that gives multiples of 100.
pub crazy_ids-stays :
    (fuel : ℕ) (rand : ℕ → ℕ) (k i : ℕ)
    → ((n : ℕ) → rand n % 100 ≡ 0)
    → i < 10000
    → crazy_ids fuel rand k i ≡ out_of_fuel
unfolding crazy_ids
crazy_ids-stays zero rand k i stays low = refl
crazy_ids-stays (suc fuel) rand k i stays low =
    let still = stays k in
    rw (
      lt→ltb i 10000 low,
      crazy_ids-stays fuel rand (k + 1) (i + rand k % 100) stays (omega (arith, still)),
    )
