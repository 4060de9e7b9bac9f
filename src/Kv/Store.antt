-- ===== src/Kv/Store.antt =====
-- The service as one map from ids to names: the buckets are not to be seen.
use dreamboat_rpc.Prelude.{
  ℕ, zero, suc, ◌<◌, ◌≡◌, inl, inr, refl, sym, ap, ◌∙◌, List, [], ◌∷◌, false, ◌==◌, if◌then◌else◌,
  Option, none, some, arith, length, get_or, set, length-set, get_elem?-get_or, get_or-set_self,
  get_or-set_ne, Option-cases, Bool-cases, ==_iff,
}
use native.Mathlib.Decide.{ℕ_discrete}
use dreamboat_rpc.Run.{ok, Returns, returns}
use dreamboat_rpc.Memory.{to_size}
use dreamboat_rpc.Kv.{
  Dict, Dicts, num_name_dictionary_buckets, no_names, get_allotted_bucket, find, overwrite, found,
  updated, get_value_internal, set_value_internal,
}
use dreamboat_rpc.Kv.Buckets.{HasBucket}

-- What the service promises: a map, and what the two operations do to it.
abbrev pub Names : Type 0
Names = ℕ → Option (List ℕ)

abbrev pub stored : Names → ℕ → List ℕ → Names
stored f id name k = if id == k then some name else f k

abbrev pub code_of : Option (List ℕ) → ℕ
code_of none = 2
code_of (some old) = 1

abbrev index : ℕ → ℕ
index id = to_size (get_allotted_bucket id)

-- The buckets hold the map, each id in its own bucket.
pub record Implements (dicts : Dicts) (f : Names) : Type 0 where
  pub buckets : length dicts ≡ num_name_dictionary_buckets
  pub entries : (id : ℕ) → HasBucket id → find (get_or dicts (index id) []) id ≡ f id

-- The buckets that a service starts with hold no name.
-- What a reader is told of a name.
abbrev pub told : Option (List ℕ) → List ℕ
told none = b'n' ∷ b'o' ∷ b't' ∷ b' ' ∷ b'f' ∷ b'o' ∷ b'u' ∷ b'n' ∷ b'd' ∷ []
told (some name) = name

pub found-told : (r : Option (List ℕ)) → found r ≡ record { name = told r }
unfolding found
found-told none = refl
found-told (some name) = refl

pub no_names-Implements : Implements no_names (λ id. none)
unfolding find
no_names-Implements = record { buckets = refl; entries = λ id h. empty_bucket (index id) id }
  where
    empty_bucket : (i id : ℕ) → find (get_or no_names i []) id ≡ none
    empty_bucket zero id = refl
    empty_bucket (suc zero) id = refl
    empty_bucket (suc (suc zero)) id = refl
    empty_bucket (suc (suc (suc zero))) id = refl
    empty_bucket (suc (suc (suc (suc zero)))) id = refl
    empty_bucket (suc (suc (suc (suc (suc i))))) id = refl

find-overwrite :
    (d : Dict) (id k : ℕ) (name old : List ℕ)
    → find d id ≡ some old
    → find (overwrite d id name) k ≡ (if id == k then some name else find d k)
unfolding find overwrite
find-overwrite [] id k name old e = cc
find-overwrite ((j, v) ∷ d) id k name old e = ground (arith, find-overwrite d id k name old)

-- The bucket after an update, and the code.
updated_lem :
    (d : Dict) (id : ℕ) (name : List ℕ)
    → let (rsp, d') = updated (find d id) d id name in
      (rsp.code ≡ code_of (find d id))
      × ((k : ℕ) → find d' k ≡ (if id == k then some name else find d k))
unfolding updated find
updated_lem d id name = elim (Option-cases (find d id)) [
  | inl e ↦ rw e (refl, λ k. refl)
  | inr (old, e) ↦ rw e (refl, λ k. find-overwrite d id k name old e)
]

-- An update of one bucket is an update of the map.
set-entries :
    (dicts : Dicts) (f : Names) (id : ℕ) (name : List ℕ) (d' : Dict)
    → Implements dicts f
    → index id < length dicts
    → ((k : ℕ) → find d' k ≡ (if id == k then some name else find (get_or dicts (index id) []) k))
    → (k : ℕ) → HasBucket k
    → find (get_or (set dicts (index id) d') (index k) []) k ≡ stored f id name k
set-entries dicts f id name d' i room after k g = elim (ℕ_discrete (index id) (index k)) [
  | yes e ↦
      let self = get_or-set_self dicts (index id) d' [] room in
      let old = ap (λ j. find (get_or dicts j []) k) e ∙ i.entries k g in
      ap (λ j. find (get_or (set dicts (index id) d') j []) k) (sym e)
      ∙ ap (λ b. find b k) self
      ∙ after k
      ∙ ap (λ o. if id == k then some name else o) old
  | no ne ↦
      let apart : (id == k) ≡ false = elim (Bool-cases (id == k)) [
        | inl same ↦ absurd (ne (ap index ((==_iff id k).0 same)))
        | inr e ↦ e
      ] in
      rw (get_or-set_ne dicts (index id) (index k) d' [] ne, i.entries k g, apart)
]

-- Of buckets that hold a map, GetValue of an id that has a bucket gives the name that the map has,
-- or "not found".
pub get_value_internal-Implements :
    (id : ℕ) (dicts : Dicts) (f : Names)
    → Implements dicts f
    → HasBucket id
    → get_value_internal (record { id = id }) dicts ≡ ok (found (f id))
unfolding get_value_internal
get_value_internal-Implements id dicts f i h =
    rw (get_elem?-get_or dicts (index id) [] (omega (arith, i.buckets)), i.entries id h)

-- Of buckets that hold a map, SetValue of an id that has a bucket makes buckets that hold the map
-- with the new name; its code is 1 where the id had a name, else 2.
pub set_value_internal-Implements :
    (id : ℕ) (name : List ℕ) (dicts : Dicts) (f : Names)
    → Implements dicts f
    → HasBucket id
    → Returns
        (λ (rsp, dicts'). (rsp.code ≡ code_of (f id)) × Implements dicts' (stored f id name))
        (set_value_internal (record { id = id; name = name }) dicts)
unfolding set_value_internal
set_value_internal-Implements id name dicts f i h =
    let d = get_or dicts (index id) [] in
    let (code, after) = updated_lem d id name in
    let room : index id < length dicts = omega (arith, i.buckets) in
    rw (get_elem?-get_or dicts (index id) [] room) (
      returns (
        code ∙ ap code_of (i.entries id h),
        record {
          buckets = length-set dicts (index id) _ ∙ i.buckets;
          entries = set-entries dicts f id name _ i room after;
        },
      ))
