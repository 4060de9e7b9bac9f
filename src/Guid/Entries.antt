-- ===== src/Guid/Entries.antt =====
-- The percolations of Guid.cc end, and move entries without losing or repeating one.
use mathlib.Core.List.Perm
use dreamboat_rpc.Prelude.{
  ℕ, zero, suc, ◌+◌, ◌-◌, ◌*◌, ◌<◌, ◌≡◌, refl, ◌∙◌, List, [], ◌∷◌, Perm, arith, ◌⊎◌, ltb, ◌==◌,
  length, take, at, swap, length-swap, swap-perm, length-perm, take-append-last, at-swap,
  concat-perm, lt→ltb, false,
}
use dreamboat_rpc.Run.{faults, Returns, returns, Returns-map, Returns-bind, Returns-if}
use dreamboat_rpc.Guid.{
  Guid, Round, parent, sink_left, sink_right, sink, percolate_down, percolate_up, pop_item,
}

-- A round keeps the entries; its next index is the old one, or a child of it within the heap.
pub record IsRound (heap : List ℕ) (nid : ℕ) (r : Round) : Type 0 where
  pub same : Perm r.heap heap
  pub next : (r.nextnid ≡ nid) ⊎ ((nid < r.nextnid) × (r.nextnid < length heap))

pub in_range : (h : List ℕ) (i : ℕ) → 0 < at h i → i < length h
in_range [] i p = absurd (omega arith)
in_range (x ∷ h) zero p = omega arith
in_range (x ∷ h) (suc i) p = omega (arith, in_range h i p)

pub sink_left-IsRound : (h : List ℕ) (nid v : ℕ) → IsRound h nid (sink_left h nid v)
unfolding sink_left
sink_left-IsRound h nid v =
    ground (arith, in_range h (nid * 2 + 1), swap-perm h nid (nid * 2 + 1), Perm.refl h)

sink_right-IsRound :
    (h : List ℕ) (nid : ℕ) (r : Round)
    → IsRound h nid r
    → IsRound h nid (sink_right nid (at h (nid * 2 + 2)) r)
unfolding sink_right
sink_right-IsRound h nid r s =
    let inside = in_range h (nid * 2 + 2) in
    let size = length-perm s.same in
    let moved = λ (p : nid < length r.heap) (q : nid * 2 + 2 < length r.heap).
      Perm.trans (swap-perm r.heap nid (nid * 2 + 2) p q) s.same in
    ground (arith, inside, size, moved, s.same, s.next)

pub sink-IsRound : (h : List ℕ) (nid : ℕ) → IsRound h nid (sink h nid)
unfolding sink
sink-IsRound h nid = sink_right-IsRound h nid _ (sink_left-IsRound h nid _)

pub percolate_down-perm :
    (f : ℕ) (h : List ℕ) (nid : ℕ)
    → nid < length h
    → length h - nid < f
    → Returns (λ h'. Perm h' h) (percolate_down f h nid)
unfolding percolate_down
percolate_down-perm zero h nid q p = absurd (omega arith)
percolate_down-perm (suc f) h nid q p =
    let r = sink h nid in
    let s = sink-IsRound h nid in
    rw (lt→ltb nid (length h) q) (
      Returns-if (r.nextnid == nid) (λ e. returns s.same)
        λ e.
          Returns-map
            (percolate_down-perm f r.heap r.nextnid (ground (arith, s.next, length-perm s.same))
              (ground (arith, s.next, length-perm s.same)))
            λ h' t. Perm.trans t s.same)

pub percolate_up-perm :
    (f : ℕ) (h : List ℕ) (nid : ℕ)
    → nid < f
    → nid < length h
    → Returns (λ h'. Perm h' h) (percolate_up f h nid)
unfolding percolate_up
percolate_up-perm zero h nid p q = absurd (omega arith)
percolate_up-perm (suc f) h nid p q =
    Returns-if (nid == 0) (λ e. returns Perm.rfl)
      λ e.
        Returns-if (ltb (at h nid) (at h (parent nid)))
          (λ below.
            Returns-map
              (percolate_up-perm f (swap h nid (parent nid)) (parent nid) (ground arith)
                (omega (arith, length-swap h nid (parent nid))))
              λ h' s. Perm.trans s (swap-perm h nid (parent nid) q (omega arith)))
          λ settled. returns Perm.rfl

-- What Popitem takes off the heap, and the heap that it percolates through.
abbrev pub cut : List ℕ → List ℕ
cut h = take (length h - 1) (swap h 0 (length h - 1))

pub cut-perm : (h : List ℕ) → 0 < length h → Perm (at h 0 ∷ cut h) h
cut-perm h p =
    let n = length h - 1 in
    let size : length (swap h 0 n) ≡ suc n = length-swap h 0 n ∙ omega arith in
    let whole = take-append-last n (swap h 0 n) size in
    let top : at (swap h 0 n) n ≡ at h 0 = ground (arith, at-swap h 0 n p (omega arith) n) in
    Perm.trans (Perm.symm (concat-perm (cut h) (at h 0)))
      (rw (← top, whole) (swap-perm h 0 n p (omega arith)))

pub pop_item-perm :
    (g : Guid)
    → 1 < length g.heap
    → Returns
        (λ r. (r.0 ≡ at g.heap 0) × Perm (r.0 ∷ r.1.heap) g.heap × (r.1.bound ≡ g.bound))
        (pop_item g)
unfolding pop_item
pop_item-perm g p =
    let size = length-perm (cut-perm g.heap (omega arith)) in
    Returns-bind
      (percolate_down-perm (suc (length (cut g.heap))) (cut g.heap) 0 (omega (arith, size))
        (omega arith))
      λ h q. returns (refl, Perm.trans (Perm.cons _ q) (cut-perm g.heap (omega arith)), refl)

-- With one entry, what is left is empty, and is read all the same.
pub pop_item-faults : (g : Guid) → length g.heap ≡ 1 → pop_item g ≡ faults
unfolding pop_item percolate_down
pop_item-faults g e =
    let size = length-perm (cut-perm g.heap (omega (arith, e))) in
    let outside : ltb 0 (length (cut g.heap)) ≡ false = ground (arith, size, e) in rw outside refl
