-- ===== src/Kv/History.antt =====
-- Any sequence of requests to the service, against the one map.
use dreamboat_rpc.Prelude.{ℕ, ◌≡◌, refl, ap, List, [], ◌∷◌, none}
use dreamboat_rpc.Run.{Run, ok, ◌>>=◌, Returns, returns, Returns-bind}
use dreamboat_rpc.Kv.{Dicts, no_names, get_value_internal, set_value_internal}
use dreamboat_rpc.Kv.Buckets.{HasBucket}
use dreamboat_rpc.Kv.Store.{
  Names, Implements, stored, told, found-told, code_of, no_names-Implements,
  get_value_internal-Implements, set_value_internal-Implements,
}

pub data Request : Type 0 where
  get : ℕ → Request
  set_name : ℕ → List ℕ → Request

-- A name, or a code.
pub data Reply : Type 0 where
  name_is : List ℕ → Reply
  code_is : ℕ → Reply

-- The service, one request behind the other.
unfoldable pub serve_one : Request → Dicts → Run (Reply × Dicts)
serve_one (get id) dicts = do
  rsp ← get_value_internal (record { id = id }) dicts
  ok (name_is rsp.name, dicts)
serve_one (set_name id name) dicts = do
  (rsp, dicts') ← set_value_internal (record { id = id; name = name }) dicts
  ok (code_is rsp.code, dicts')

unfoldable pub serve_all : List Request → Dicts → Run (List Reply × Dicts)
unfolding serve_one
serve_all [] dicts = ok ([], dicts)
serve_all (r ∷ rs) dicts = do
  (reply, dicts') ← serve_one r dicts
  (replies, dicts'') ← serve_all rs dicts'
  ok (reply ∷ replies, dicts'')

-- One map.
abbrev pub reply_of : Request → Names → Reply
reply_of (get id) f = name_is (told (f id))
reply_of (set_name id name) f = code_is (code_of (f id))

abbrev pub names_after : Request → Names → Names
names_after (get id) f = f
names_after (set_name id name) f = stored f id name

abbrev pub replies_of : List Request → Names → List Reply
replies_of [] f = []
replies_of (r ∷ rs) f = reply_of r f ∷ replies_of rs (names_after r f)

abbrev pub id_of : Request → ℕ
id_of (get id) = id
id_of (set_name id name) = id

abbrev pub AllHaveBuckets : List Request → Type 0
AllHaveBuckets [] = Unit {0}
AllHaveBuckets (r ∷ rs) = HasBucket (id_of r) × AllHaveBuckets rs

serve_one-Implements :
    (r : Request) (dicts : Dicts) (f : Names)
    → Implements dicts f
    → HasBucket (id_of r)
    → Returns
        (λ (reply, dicts'). (reply ≡ reply_of r f) × Implements dicts' (names_after r f))
        (serve_one r dicts)
unfolding serve_one
serve_one-Implements (get id) dicts f i h =
    rw (get_value_internal-Implements id dicts f i h)
      (returns (ap (λ rsp. name_is rsp.name) (found-told (f id)), i))
serve_one-Implements (set_name id name) dicts f i h =
    Returns-bind (set_value_internal-Implements id name dicts f i h)
      λ (rsp, dicts') (code, after). returns (ap code_is code, after)

serve_from :
    (rs : List Request) (dicts : Dicts) (f : Names)
    → Implements dicts f
    → AllHaveBuckets rs
    → Returns (λ (replies, dicts'). replies ≡ replies_of rs f) (serve_all rs dicts)
unfolding serve_all
serve_from [] dicts f i h = returns refl
serve_from (r ∷ rs) dicts f i h =
    Returns-bind (serve_one-Implements r dicts f i h.0) λ (reply, dicts') (e, after).
      Returns-bind (serve_from rs dicts' (names_after r f) after h.1)
        λ (replies, dicts'') es. returns (λ k. e k ∷ es k)

-- For every sequence of reads and writes of ids that have buckets, from the buckets of a new
-- service, the service returns, and its replies are those of one map from ids to names.
pub serve_all-replies :
    (rs : List Request)
    → AllHaveBuckets rs
    → Returns (λ (replies, dicts). replies ≡ replies_of rs (λ id. none)) (serve_all rs no_names)
serve_all-replies rs h = serve_from rs no_names (λ id. none) no_names-Implements h
