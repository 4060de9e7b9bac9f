-- ===== src/Guid.antt =====
-- include/common/Guid.hh and source/common/Guid.cc: the allocator of call ids, a vector kept as a
-- binary heap of recycled ids, and the bound below which ids have been handed out.
-- An id is a non-negative `int`: the one caller of RecycleGuid has used it as an index before.
pub mod Entries
pub mod Live
pub mod Order
pub mod Disorder
pub mod Session
mod Tests
use dreamboat_rpc.Prelude.{
  ℕ, zero, suc, ◌+◌, ◌-◌, ◌*◌, ◌/◌, List, [], ◌∷◌, ◌++◌, Option, none, some, ◌&&◌, not, ltb, leb,
  ◌==◌, if◌then◌else◌, length, get_or, take, at, swap,
}
use dreamboat_rpc.Run.{Run, ok, faults, out_of_fuel, ◌>>=◌}

abbrev pub max_guid : ℕ
max_guid = 1024

pub record Guid : Type 0 where
  pub heap : List ℕ
  pub bound : ℕ

abbrev pub fresh : Guid
fresh = record { heap = []; bound = 0 }

abbrev pub parent : ℕ → ℕ
parent c = (c - 1) / 2

-- One round of the percolation: the heap so far, `nvalue` and `nextnid`.
pub record Round : Type 0 where
  pub heap : List ℕ
  pub nvalue : ℕ
  pub nextnid : ℕ

pub sink_left : List ℕ → ℕ → ℕ → Round
sink_left heap nid nvalue =
    let lid = nid * 2 + 1 in
    let lvalue = at heap lid in
    if not (lvalue == 0) && ltb lvalue nvalue
    then record { heap = swap heap nid lid; nvalue = lvalue; nextnid = lid }
    else record { heap = heap; nvalue = nvalue; nextnid = nid }

pub sink_right : ℕ → ℕ → Round → Round
sink_right nid rvalue r =
    if not (rvalue == 0) && ltb rvalue r.nvalue
    then record r {
      heap = swap r.heap nid (nid * 2 + 2);
      nextnid = if r.nextnid == nid then nid * 2 + 2 else r.nextnid;
    }
    else r

-- `rvalue` is read before the first exchange.
pub sink : List ℕ → ℕ → Round
unfolding sink_left sink_right
sink heap nid = sink_right nid (at heap (nid * 2 + 2)) (sink_left heap nid (at heap nid))

-- `Heap[nid]` out of range is undefined behaviour: the last entry has just been popped.
pub percolate_down : ℕ → List ℕ → ℕ → Run (List ℕ)
percolate_down zero heap nid = out_of_fuel
percolate_down (suc f) heap nid =
    let r = sink heap nid in
    let rest = percolate_down f r.heap r.nextnid in
    if ltb nid (length heap) then (if r.nextnid == nid then ok r.heap else rest) else faults

pub pop_item : Guid → Run (ℕ × Guid)
pop_item g =
    let last = length g.heap - 1 in
    let cut = take last (swap g.heap 0 last) in
    percolate_down (suc (length cut)) cut 0 >>= λ h. ok (at g.heap 0, record g { heap = h })

-- `none` is the -1 of the source.
unfoldable pub get_guid : Guid → Run (Option ℕ × Guid)
get_guid g =
    if length g.heap == 0
    then (if leb max_guid g.bound
        then ok (none, g)
        else ok (some (g.bound + 1), record g { bound = g.bound + 1 }))
    else (pop_item g >>= λ (id, g'). ok (some id, g'))

pub percolate_up : ℕ → List ℕ → ℕ → Run (List ℕ)
percolate_up zero heap nid = out_of_fuel
percolate_up (suc f) heap nid =
    let rootid = parent nid in
    let rest = percolate_up f (swap heap nid rootid) rootid in
    if nid == 0 then ok heap else if ltb (at heap nid) (at heap rootid) then rest else ok heap

unfoldable pub recycle_guid : Guid → ℕ → Run Guid
recycle_guid g id =
    let pushed = g.heap ++ id ∷ [] in
    percolate_up (length pushed) pushed (length pushed - 1) >>= λ h. ok (record g { heap = h })
