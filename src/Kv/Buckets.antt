-- ===== src/Kv/Buckets.antt =====
-- Which bucket an id has, and which ids have none.
use dreamboat_rpc.Prelude.{
  ℕ, zero, suc, ◌-◌, ◌/◌, ◌%◌, ◌^◌, ◌≤◌, ◌<◌, ◌≡◌, ◌≢◌, refl, List, [], ◌∷◌, arith, length,
  get_elem?, none,
}
use dreamboat_rpc.Run.{faults}
use dreamboat_rpc.Memory.{to_size}
use dreamboat_rpc.Kv.{
  Dicts, num_name_dictionary_buckets, get_allotted_bucket, get_value_internal, set_value_internal,
}

-- An id that has a bucket.
abbrev pub HasBucket : ℕ → Type 0
HasBucket id = to_size (get_allotted_bucket id) < num_name_dictionary_buckets

-- An id from 0 on, in blocks of 2000.
pub get_allotted_bucket-HasBucket : (id : ℕ) → id < 2 ^ 31 → HasBucket id
unfolding get_allotted_bucket
get_allotted_bucket-HasBucket id h = ground arith

pub get_elem?-none {ℓ} : {A : Type ℓ} (l : List A) (i : ℕ) → length l ≤ i → get_elem? l i ≡ none
get_elem?-none [] i h = refl
get_elem?-none (x ∷ l) zero h = absurd (omega arith)
get_elem?-none (x ∷ l) (suc i) h = get_elem?-none l i (omega arith)

-- Of five buckets, a negative id whose absolute value, divided by 2000, is no multiple of 5 has an
-- index below 0: both operations leave the array.
pub get_allotted_bucket-faults :
    (id : ℕ) (name : List ℕ) (dicts : Dicts)
    → length dicts ≡ num_name_dictionary_buckets
    → 2 ^ 31 ≤ id
    → id < 2 ^ 32
    → (2 ^ 32 - id) / 2000 % 5 ≢ 0
    → (get_value_internal (record { id = id }) dicts ≡ faults)
      × (set_value_internal (record { id = id; name = name }) dicts ≡ faults)
unfolding get_value_internal set_value_internal get_allotted_bucket
get_allotted_bucket-faults id name dicts five negative small apart =
    let outside = get_elem?-none dicts (to_size (get_allotted_bucket id)) (ground arith) in
    (rw outside, rw outside)
