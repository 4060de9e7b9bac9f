-- ===== src/Pool.antt =====
-- include/runtime/threadmodel/SafeQueue.hh, source/runtime/threadmodel/ThreadPool.cc and
-- source/runtime/iomodel/Reactor.cc: the bounded queue of tasks between the reactor and its workers.
-- The queue's mutex makes each operation one step. A task is a function on the state `S` of the
-- program.
pub mod Fifo
pub mod Workers
pub mod Awake
pub mod Started
mod Tests
use dreamboat_rpc.Prelude.{
  ℕ, zero, suc, ◌+◌, ◌<◌, List, [], ◌∷◌, ◌++◌, Bool, true, false, leb, if◌then◌else◌, Option, none,
  some, length,
}
use dreamboat_rpc.Run.{Run, ok, ◌>>=◌}

pub record SafeQueue (T : Type 0) : Type 0 where
  pub q : List T
  pub maxsize : ℕ

abbrev pub new_queue : {T : Type 0} → ℕ → SafeQueue T
new_queue size = record { q = []; maxsize = size }

-- The queue of the reactor's pool.
abbrev pub task_queue_size : ℕ
task_queue_size = 10000

module _ {T : Type 0} where
  unfoldable pub enqueue : T → SafeQueue T → Bool × SafeQueue T
  enqueue t s =
      if leb s.maxsize (length s.q) then (false, s) else (true, record s { q = s.q ++ t ∷ [] })

  unfoldable pub take_front : List T → SafeQueue T → Option T × SafeQueue T
  take_front [] s = (none, record s { q = [] })
  take_front (t ∷ rest) s = (some t, record s { q = rest })

  -- `none` is the false of the source. Where an empty queue is waited on, `woken` is what it holds
  -- when the wait is over: what others have added, nothing after a wake-up without an element.
  unfoldable pub dequeue : Bool → List T → SafeQueue T → Option T × SafeQueue T
  unfolding take_front
  dequeue block woken s = elim s.q [
    | [] ↦ if block then take_front woken s else (none, s)
    | t ∷ rest ↦ take_front (t ∷ rest) s
  ]

  -- The loop of Reactor::Run over the tasks of one Dispatch, with ThreadPool::AddTask: what AddTask
  -- returns is not looked at.
  unfoldable pub add_tasks : List T → SafeQueue T → SafeQueue T
  unfolding enqueue
  add_tasks [] s = s
  add_tasks (t ∷ ts) s = let (added, s') = enqueue t s in add_tasks ts s'

-- One round of ThreadPool::Run.
unfoldable pub work :
    {S : Type 0} → List (S → Run S) → SafeQueue (S → Run S) → S → Run (SafeQueue (S → Run S) × S)
unfolding dequeue
work woken s app =
    let (task, s') = dequeue true woken s in
    elim task [ none ↦ ok (s', app) | some t ↦ t app >>= λ app'. ok (s', app') ]
