-- ===== src/Pool/Fifo.antt =====
-- The queue over any sequence of operations, and what the reactor loses.
use mathlib.Core.List.{append_assoc, append-nil}
use dreamboat_rpc.Prelude.{
  ℕ, ◌≤◌, ◌<◌, ◌≡◌, ◌⊎◌, inl, inr, refl, sym, ap, ◌∙◌, List, [], ◌∷◌, ◌++◌, Bool, true, false,
  arith, leb, Option, none, some, length, take, length-append, take-past, take-append, Bool-cases,
  leb→le,
}
use dreamboat_rpc.Pool.{SafeQueue, enqueue, take_front, dequeue, add_tasks}

-- What the threads do with the queue, in the order of the mutex.
pub data Op (T : Type 0) : Type 0 where
  put : T → Op T
  get : Op T

-- The elements that were accepted, the elements that were taken, and the queue after.
pub record Log (T : Type 0) : Type 0 where
  pub accepted : List T
  pub taken : List T
  pub left : SafeQueue T

module _ {T : Type 0} where
  abbrev log_put : T → Bool → Log T → Log T
  log_put t true l = record l { accepted = t ∷ l.accepted }
  log_put t false l = l

  abbrev log_get : Option T → Log T → Log T
  log_get none l = l
  log_get (some t) l = record l { taken = t ∷ l.taken }

  unfoldable pub run_ops : List (Op T) → SafeQueue T → Log T
  run_ops [] s = record { accepted = []; taken = []; left = s }
  run_ops (put t ∷ ops) s = let step = enqueue t s in log_put t step.0 (run_ops ops step.1)
  run_ops (get ∷ ops) s = let step = dequeue false [] s in log_get step.0 (run_ops ops step.1)

  pub enqueue-cases :
      (t : T) (s : SafeQueue T)
      → ((enqueue t s ≡ (false, s)) × (s.maxsize ≤ length s.q))
        ⊎ ((enqueue t s ≡ (true, record s { q = s.q ++ t ∷ [] })) × (length s.q < s.maxsize))
  unfolding enqueue
  enqueue-cases t s = elim (Bool-cases (leb s.maxsize (length s.q))) [
    | inl full ↦ inl (rw full, leb→le s.maxsize (length s.q) full)
    | inr room ↦ inr (rw room, ground arith)
  ]

  dequeue-cases :
      (s : SafeQueue T)
      → (dequeue false [] s ≡ (none, s))
        ⊎ ((t : T) × (rest : List T) × (dequeue false [] s ≡ (some t, record s { q = rest }))
            × (s.q ≡ t ∷ rest))
  unfolding dequeue take_front
  dequeue-cases s = elim (front s.q) [
    | inl e ↦ inl (rw e)
    | inr (t, rest, e) ↦ inr (t, rest, rw e, e)
  ]
    where
      front : (q : List T) → (q ≡ []) ⊎ ((t : T) × (rest : List T) × (q ≡ t ∷ rest))
      front [] = inl refl
      front (t ∷ rest) = inr (t, rest, refl)

  -- Over any sequence of Enqueue and Dequeue without blocking, from a queue within its bound, the
  -- elements come out in the order in which they were accepted, none is lost or doubled, and the
  -- queue stays within its bound.
  pub run_ops-fifo :
      (ops : List (Op T)) (s : SafeQueue T)
      → length s.q ≤ s.maxsize
      → let l = run_ops ops s in
        (s.q ++ l.accepted ≡ l.taken ++ l.left.q)
        × (length l.left.q ≤ s.maxsize)
        × (l.left.maxsize ≡ s.maxsize)
  unfolding run_ops
  run_ops-fifo [] s h = (append-nil s.q, h, refl)
  run_ops-fifo (put t ∷ ops) s h = elim (enqueue-cases t s) [
    | inl (e, full) ↦ rw e (run_ops-fifo ops s h)
    | inr (e, room) ↦
        let size = length-append s.q (t ∷ []) in
        let (order, bound, kept) =
          run_ops-fifo ops (record s { q = s.q ++ t ∷ [] }) (omega (arith, size)) in
        rw e (sym (append_assoc s.q (t ∷ []) _) ∙ order, bound, kept)
  ]
  run_ops-fifo (get ∷ ops) s h = elim (dequeue-cases s) [
    | inl e ↦ rw e (run_ops-fifo ops s h)
    | inr (t, rest, e, front) ↦
        let size = ap length front in
        let (order, bound, kept) = run_ops-fifo ops (record s { q = rest }) (omega (arith, size)) in
        rw e (
          ap (λ q. q ++ (run_ops ops (record s { q = rest })).accepted) front ∙ ap (◌∷◌ t) order,
          bound,
          kept,
        )
  ]

  full_take : (n : ℕ) (q a b : List T) → length q ≡ n → take n (q ++ a) ≡ take n (q ++ b)
  full_take n q a b e = take-append n q a e ∙ sym (take-append n q b e)

  -- Reactor::Run fills a queue that is within its bound with the first tasks of a dispatch, in
  -- order, up to the bound; the tasks that find no room are dropped.
  pub add_tasks-take :
      (ts : List T) (s : SafeQueue T)
      → length s.q ≤ s.maxsize
      → (add_tasks ts s).q ≡ take s.maxsize (s.q ++ ts)
  unfolding add_tasks
  add_tasks-take [] s h =
      sym (take-past s.maxsize (s.q ++ []) (omega (arith, length-append s.q [])) ∙ append-nil s.q)
  add_tasks-take (t ∷ ts) s h = elim (enqueue-cases t s) [
    | inl (e, full) ↦
        rw (add_tasks, e)
          (add_tasks-take ts s h ∙ full_take s.maxsize s.q ts (t ∷ ts) (omega arith))
    | inr (e, room) ↦
        rw (add_tasks, e)
          (add_tasks-take ts (record s { q = s.q ++ t ∷ [] })
              (omega (arith, length-append s.q (t ∷ [])))
            ∙ ap (take s.maxsize) (append_assoc s.q (t ∷ []) ts))
  ]
