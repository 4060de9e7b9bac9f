-- ===== src/Guid/Disorder.antt =====
-- Where the percolation of Popitem goes wrong: after a double exchange it goes on below the left
-- child alone, and leaves the larger value above the children of the right one.
use dreamboat_rpc.Prelude.{
  ℕ, zero, suc, ◌+◌, ◌-◌, ◌*◌, ◌≤◌, ◌<◌, ◌≡◌, ◌≢◌, ◌⊎◌, inl, ◌∙◌, List, [], ◌∷◌, arith, ◌==◌,
  length, at, swap, at-swap, at-swap_ne, lt→ltb, at-take, length-swap, length-take, length-perm,
}
use dreamboat_rpc.Run.{Returns, returns, Returns-map, Returns-bind, Returns-if}
use dreamboat_rpc.Guid.{Guid, Round, sink, sink_left, sink_right, percolate_down, pop_item}
use dreamboat_rpc.Guid.Entries.{cut, sink-IsRound}
use dreamboat_rpc.Guid.Order.{IsHeap}

-- A round moves only the entry it is at and the two children.
record Touches (h : List ℕ) (nid : ℕ) (r : Round) : Type 0 where
  kept : (c : ℕ) → c ≢ nid → c ≢ nid * 2 + 1 → c ≢ nid * 2 + 2 → at r.heap c ≡ at h c
  next : (r.nextnid ≡ nid) ⊎ (nid * 2 + 1 ≤ r.nextnid)
  below : r.nextnid ≤ nid * 2 + 2

sink_left-Touches : (h : List ℕ) (nid v : ℕ) → Touches h nid (sink_left h nid v)
unfolding sink_left
sink_left-Touches h nid v = record {
  kept = λ c p q r. ground (arith, at-swap_ne h nid (nid * 2 + 1) c);
  next = ground arith;
  below = ground arith;
}

sink-Touches : (h : List ℕ) (nid : ℕ) → Touches h nid (sink h nid)
unfolding sink sink_right
sink-Touches h nid =
    let left = sink_left h nid (at h nid) in
    let t = sink_left-Touches h nid (at h nid) in
    record {
      kept = λ c p q r. ground (arith, t.kept c, at-swap_ne left.heap nid (nid * 2 + 2) c);
      next = ground (arith, t.next);
      below = ground (arith, t.below);
    }

-- Indices from which the percolation stays off the entries 2 and 5.
abbrev IsAside : ℕ → Type 0
IsAside nid = (nid ≡ 1) ⊎ (nid ≡ 3) ⊎ (nid ≡ 4) ⊎ (7 ≤ nid)

percolate_down-aside :
    (f : ℕ) (h : List ℕ) (nid : ℕ)
    → IsAside nid
    → nid < length h
    → length h - nid < f
    → Returns
        (λ h'. (at h' 2 ≡ at h 2) × (at h' 5 ≡ at h 5) × (length h' ≡ length h))
        (percolate_down f h nid)
unfolding percolate_down
percolate_down-aside zero h nid a q p = absurd (omega arith)
percolate_down-aside (suc f) h nid a q p =
    let r = sink h nid in
    let s = sink-IsRound h nid in
    let t = sink-Touches h nid in
    let size = length-perm s.same in
    let two : at r.heap 2 ≡ at h 2 = ground (arith, t.kept 2) in
    let five : at r.heap 5 ≡ at h 5 = ground (arith, t.kept 5) in
    rw (lt→ltb nid (length h) q) (
      Returns-if (r.nextnid == nid) (λ e. returns (two, five, size))
        λ e.
          Returns-map
            (percolate_down-aside f r.heap r.nextnid (ground (arith, t.next, t.below))
              (ground (arith, s.next, size)) (ground (arith, s.next, size)))
            λ h' (x, y, z). (x ∙ two, y ∙ five, z ∙ size))

-- Both exchanges at the root: the left child's value ends on the right, and the percolation goes on
-- at the left child.
sink_both :
    (h : List ℕ)
    → 6 ≤ length h
    → 0 < at h 2
    → at h 2 < at h 1
    → at h 1 < at h 0
    → ((sink h 0).nextnid ≡ 1) × (at (sink h 0).heap 2 ≡ at h 1) × (at (sink h 0).heap 5 ≡ at h 5)
unfolding sink sink_left sink_right
sink_both (x ∷ h) size pos right left =
    let once = swap (x ∷ h) 0 1 in
    let kept = length-swap (x ∷ h) 0 1 in
    ground (
      arith,
      at-swap (x ∷ h) 0 1 (omega arith) (omega arith) 0,
      at-swap once 0 2 (omega (arith, kept)) (omega (arith, kept)) 2,
      at-swap_ne once 0 2 5,
      at-swap_ne (x ∷ h) 0 1 5,
    )
sink_both [] size pos right left = absurd (omega arith)

-- Of at least seven recycled ids, where both children of the root are less than the entry that was
-- last, the right child the lesser, and the left child more than the first child of the right one,
-- Popitem returns and leaves a vector out of heap order.
pub pop_item-disorders :
    (g : Guid)
    → 7 ≤ length g.heap
    → 0 < at g.heap 2
    → at g.heap 2 < at g.heap 1
    → at g.heap 5 < at g.heap 1
    → at g.heap 1 < at g.heap (length g.heap - 1)
    → Returns (λ r. ¬ IsHeap r.1.heap) (pop_item g)
unfolding pop_item percolate_down
pop_item-disorders g size pos right child last =
    let h = g.heap in
    let n = length h - 1 in
    let c = cut h in
    let inner = λ (i : ℕ) (p : i < n) (q : 0 < i).
      at-take n (swap h 0 n) i p ∙ at-swap_ne h 0 n i (omega arith) (omega arith) in
    let one : at c 1 ≡ at h 1 = inner 1 (omega arith) (omega arith) in
    let two : at c 2 ≡ at h 2 = inner 2 (omega arith) (omega arith) in
    let five : at c 5 ≡ at h 5 = inner 5 (omega arith) (omega arith) in
    let top : at c 0 ≡ at h n =
      at-take n (swap h 0 n) 0 (omega arith)
      ∙ ground (arith, at-swap h 0 n (omega arith) (omega arith) 0) in
    let long : length c ≡ n = length-take n (swap h 0 n) (omega (arith, length-swap h 0 n)) in
    let (next, b, d) = sink_both c (omega arith) (omega arith) (omega arith) (omega arith) in
    let same = length-perm (sink-IsRound c 0).same in
    rw (lt→ltb 0 (length c) (omega arith)) (
      Returns-bind
        (Returns-if ((sink c 0).nextnid == 0) (λ e. absurd (ground arith))
          (λ e.
            percolate_down-aside (length c) (sink c 0).heap (sink c 0).nextnid (inl next)
              (omega arith) (omega arith)))
        λ h' (p, q, r). returns λ order. omega (arith, order 5 (omega arith) (omega arith)))
