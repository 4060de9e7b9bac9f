-- ===== src/Guid/Session.antt =====
-- Histories of the allocator: any interleaving of GetGuid with RecycleGuid of ids in use. The mutex
-- of Guid.cc makes each call one step.
use dreamboat_rpc.Prelude.{ℕ, ◌≡◌, ◌≢◌, ◌↔◌, Option, none, some, length, subst, sym}
use dreamboat_rpc.Run.{ok, Returns, Returns-map, Returns-at, IfOk-at, faults}
use dreamboat_rpc.Guid.{Guid, fresh, get_guid, recycle_guid}
use dreamboat_rpc.Guid.Live.{
  IsLive, Inv, Allocated, fresh-Inv, get_guid-Allocated, get_guid-faults, get_guid-gives,
  recycle_guid-frees,
}

pub data Step (g g' : Guid) : Type 0 where
  allocate : (r : Option ℕ) → get_guid g ≡ ok (r, g') → Step g g'
  recycle : (id : ℕ) → IsLive g id → recycle_guid g id ≡ ok g' → Step g g'

pub data Reach : Guid → Type 0 where
  start : Reach fresh
  next : {g g' : Guid} → Reach g → Step g g' → Reach g'

Allocated-Inv : (g g' : Guid) (r : Option ℕ) → Inv g → Allocated g (r, g') → Inv g'
Allocated-Inv g g' none v a = subst Inv (sym a.0) v
Allocated-Inv g g' (some id) v a = a.3

Step-Inv : {g g' : Guid} → Step g g' → Inv g → Inv g'
Step-Inv {g} {g'} (allocate r e) v =
    Allocated-Inv g g' r v (IfOk-at (Allocated g) (get_guid g) (get_guid-gives g v) e)
Step-Inv {g} {g'} (recycle id live e) v = (Returns-at (recycle_guid-frees g id v live) e).0

pub Reach-Inv : {g : Guid} → Reach g → Inv g
Reach-Inv start = fresh-Inv
Reach-Inv (next r s) = Step-Inv s (Reach-Inv r)

-- After any history of GetGuid and of RecycleGuid of ids in use: unless exactly one recycled id is
-- left, GetGuid returns a number from 1 to 1024 that is not in use, which it puts in use and
-- leaves all others as they were, or -1 only if all 1024 numbers are in use. With exactly one
-- recycled id, it reads past the end of the vector.
pub get_guid-unused :
    {g : Guid}
    → Reach g
    → (length g.heap ≢ 1 → Returns (Allocated g) (get_guid g))
      × (length g.heap ≡ 1 → get_guid g ≡ faults)
get_guid-unused {g} r = (get_guid-Allocated g (Reach-Inv r), get_guid-faults g)

-- After any history of GetGuid and of RecycleGuid of ids in use, RecycleGuid of an id in use
-- returns, and then exactly that id is no longer in use.
pub recycle_guid-exact :
    {g : Guid} (id : ℕ)
    → Reach g
    → IsLive g id
    → Returns (λ g'. (j : ℕ) → IsLive g' j ↔ (IsLive g j × (j ≢ id))) (recycle_guid g id)
recycle_guid-exact id r live = Returns-map (recycle_guid-frees _ id (Reach-Inv r) live) λ g' s. s.1
