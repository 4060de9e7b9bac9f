-- ===== src/Guid/Order.antt =====
-- The heap order: RecycleGuid keeps it, and with it GetGuid gives the least id that is not in use.
use mathlib.Core.Logic.Or
use dreamboat_rpc.Prelude.{
  ℕ, zero, suc, ◌-◌, ◌≤◌, ◌<◌, ◌≡◌, ◌≢◌, List, [], ◌∷◌, ◌++◌, arith, ltb, ◌==◌, length, at, swap,
  Option, none, some, at-swap, at-append, length-swap, length-append,
}
use dreamboat_rpc.Run.{Returns, returns, Returns-bind, Returns-if}
use dreamboat_rpc.Guid.{Guid, max_guid, parent, percolate_up, recycle_guid}
use dreamboat_rpc.Guid.Live.{IsLive}

-- Every entry is at least its parent.
abbrev pub IsHeap : List ℕ → Type 0
IsHeap h = (c : ℕ) → 0 < c → c < length h → at h (parent c) ≤ at h c

-- Only the edge above `nid` may be out of order.
record IsRising (h : List ℕ) (nid : ℕ) : Type 0 where
  inside : nid < length h
  edges : (c : ℕ) → 0 < c → c < length h → c ≢ nid → at h (parent c) ≤ at h c
  across : (c : ℕ) → 0 < c → c < length h → parent c ≡ nid → 0 < nid → at h (parent nid) ≤ at h c

swap-IsRising :
    (h : List ℕ) (nid : ℕ)
    → IsRising h nid
    → 0 < nid
    → at h nid < at h (parent nid)
    → IsRising (swap h nid (parent nid)) (parent nid)
swap-IsRising h nid v pos below =
    let size = length-swap h nid (parent nid) in
    let moved = at-swap h nid (parent nid) v.inside (omega (arith, v.inside)) in
    record {
      inside = omega (arith, size, v.inside);
      edges = λ c p q r. ground (arith, size, moved c, moved (parent c), v.edges c, v.across c);
      across = λ c p q r s.
          ground
            (arith, size, moved c, moved (parent (parent nid)), v.edges c, v.edges (parent nid));
    }

percolate_up-IsHeap :
    (f : ℕ) (h : List ℕ) (nid : ℕ)
    → nid < f
    → IsRising h nid
    → Returns IsHeap (percolate_up f h nid)
unfolding percolate_up
percolate_up-IsHeap zero h nid p v = absurd (omega arith)
percolate_up-IsHeap (suc f) h nid p v =
    Returns-if (nid == 0) (λ root. returns λ c q r. v.edges c q r (ground arith))
      λ e.
        Returns-if (ltb (at h nid) (at h (parent nid)))
          (λ below.
            percolate_up-IsHeap f (swap h nid (parent nid)) (parent nid) (ground arith)
              (swap-IsRising h nid v (ground arith) (ground arith)))
          λ settled. returns λ c q r. ground (arith, v.edges c)

-- RecycleGuid of any id into a vector in heap order leaves one in heap order.
pub recycle_guid-IsHeap :
    (g : Guid) (id : ℕ) → IsHeap g.heap → Returns (λ g'. IsHeap g'.heap) (recycle_guid g id)
unfolding recycle_guid
recycle_guid-IsHeap g id v =
    let pushed = g.heap ++ id ∷ [] in
    let size = length-append g.heap (id ∷ []) in
    let kept = at-append g.heap (id ∷ []) in
    Returns-bind
      (percolate_up-IsHeap (length pushed) pushed (length pushed - 1) (omega arith) (record {
        inside = omega arith;
        edges = λ c p q r. ground (arith, size, v c, kept c, kept (parent c));
        across = λ c p q r s. absurd (omega (arith, size));
      }))
      λ h s. returns s

-- The id that GetGuid gives is the least of those from 1 to 1024 that are not in use.
abbrev pub IsLeast : Guid → Option ℕ × Guid → Type 0
IsLeast g (none, g') = (j : ℕ) → 1 ≤ j → j ≤ max_guid → IsLive g j
IsLeast g (some id, g') = (j : ℕ) → 1 ≤ j → ¬ IsLive g j → id ≤ j
