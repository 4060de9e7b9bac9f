-- ===== src/Kv/Tests.antt =====
-- The key-value service on concrete ids.
use dreamboat_rpc.Prelude.{List, ◌≡◌, refl, [], ◌∷◌, arith, none}
use dreamboat_rpc.Run.{faults, Returns}
use dreamboat_rpc.Kv.{no_names, get_value_internal, set_value_internal}
use dreamboat_rpc.Kv.Buckets.{get_allotted_bucket-HasBucket, get_allotted_bucket-faults}
use dreamboat_rpc.Kv.History.{Request, get, set_name, replies_of, serve_all, serve_all-replies}
use dreamboat_rpc.Kv.Store.{Names}

abbrev nothing : Names
nothing id = none

-- The id -2000.
get_allotted_bucket-faults_example :
    (get_value_internal (record { id = 4294965296 }) no_names ≡ faults)
    × (set_value_internal (record { id = 4294965296; name = [] }) no_names ≡ faults)
get_allotted_bucket-faults_example =
    get_allotted_bucket-faults 4294965296 [] no_names refl (omega arith) (omega arith)
      (λ e. omega (arith, e))

-- Two writes and two reads.
abbrev requests : List Request
requests = set_name 2001 (7 ∷ []) ∷ get 2001 ∷ set_name 2001 (8 ∷ []) ∷ get 4 ∷ []

serve_all-replies_example :
    Returns
      (λ (replies, dicts). replies ≡ replies_of requests nothing)
      (serve_all requests no_names)
serve_all-replies_example = serve_all-replies requests (
  get_allotted_bucket-HasBucket 2001 (omega arith),
  (
    get_allotted_bucket-HasBucket 2001 (omega arith),
    (
      get_allotted_bucket-HasBucket 2001 (omega arith),
      (get_allotted_bucket-HasBucket 4 (omega arith), tt),
    ),
  ),
)
