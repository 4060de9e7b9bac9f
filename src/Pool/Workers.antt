-- ===== src/Pool/Workers.antt =====
-- The threads of ThreadPool around the queue, as a step relation: ThreadPool::Run, AddTask and Stop of
-- source/runtime/threadmodel/ThreadPool.cc, with the waiting in SafeQueue::Dequeue. A part of a
-- thread under the queue's mutex is one step.
use dreamboat_rpc.Prelude.{
  ℕ, ◌≤◌, ◌≡◌, ◌≢◌, List, [], Bool, true, false, if◌then◌else◌, none, some, get_elem?, set,
  replicate,
}
use dreamboat_rpc.Pool.{SafeQueue, new_queue, enqueue, take_front}

-- A worker in front of the test of `m_stop`, in front of Dequeue, in c.wait, behind it, in a task, or
-- at its end.
pub data Worker (T : Type 0) : Type 0 where
  checking fetching waiting woken exited : Worker T
  running : T → Worker T

pub record ThreadPool (T : Type 0) : Type 0 where
  pub tasks : SafeQueue T
  pub threads : List (Worker T)
  pub m_stop : Bool

-- ThreadPool::ThreadPool; its assertions stand in `Reach`.
abbrev pub new_pool : {T : Type 0} → ℕ → ℕ → ThreadPool T
new_pool thread_num task_queue_size = record {
  tasks = new_queue task_queue_size;
  threads = replicate thread_num Worker.checking;
  m_stop = false;
}

module _ {T : Type 0} where
  abbrev pub with_worker : ThreadPool T → ℕ → Worker T → ThreadPool T
  with_worker p i w = record p { threads = set p.threads i w }

  pub data Step (p : ThreadPool T) : ThreadPool T → Type 0 where
    check :
        (i : ℕ)
        → get_elem? p.threads i ≡ some Worker.checking
        → Step p (with_worker p i (if p.m_stop then Worker.exited else Worker.fetching))
    wait :
        (i : ℕ)
        → get_elem? p.threads i ≡ some Worker.fetching
        → p.tasks.q ≡ []
        → Step p (with_worker p i Worker.waiting)
    fetch :
        (i : ℕ) (t : T) (tasks : SafeQueue T)
        → get_elem? p.threads i ≡ some Worker.fetching
        → take_front p.tasks.q p.tasks ≡ (some t, tasks)
        → Step p (record (with_worker p i (running t)) { tasks = tasks })
    wake :
        (i : ℕ)
        → get_elem? p.threads i ≡ some Worker.waiting
        → Step p (with_worker p i Worker.woken)
    take :
        (i : ℕ) (t : T) (tasks : SafeQueue T)
        → get_elem? p.threads i ≡ some Worker.woken
        → take_front p.tasks.q p.tasks ≡ (some t, tasks)
        → Step p (record (with_worker p i (running t)) { tasks = tasks })
    miss :
        (i : ℕ) (tasks : SafeQueue T)
        → get_elem? p.threads i ≡ some Worker.woken
        → take_front p.tasks.q p.tasks ≡ (none, tasks)
        → Step p (record (with_worker p i Worker.checking) { tasks = tasks })
    finish :
        (i : ℕ) (t : T)
        → get_elem? p.threads i ≡ some (running t)
        → Step p (with_worker p i Worker.checking)
    add_notify :
        (t : T) (i : ℕ) (tasks : SafeQueue T)
        → enqueue t p.tasks ≡ (true, tasks)
        → get_elem? p.threads i ≡ some Worker.waiting
        → Step p (record (with_worker p i Worker.woken) { tasks = tasks })
    add_quiet :
        (t : T) (tasks : SafeQueue T)
        → enqueue t p.tasks ≡ (true, tasks)
        → ((i : ℕ) → get_elem? p.threads i ≢ some Worker.waiting)
        → Step p (record p { tasks = tasks })
    add_full :
        (t : T) (tasks : SafeQueue T)
        → enqueue t p.tasks ≡ (false, tasks)
        → Step p (record p { tasks = tasks })
    stop : Step p (record p { m_stop = true })

  -- The steps that a worker takes by itself: it is not woken, and nothing is added.
  abbrev pub is_own : {p p' : ThreadPool T} → Step p p' → Bool
  is_own (check i there) = true
  is_own (wait i there empty) = true
  is_own (fetch i t tasks there took) = true
  is_own (wake i there) = false
  is_own (take i t tasks there took) = true
  is_own (miss i tasks there missed) = true
  is_own (finish i t there) = true
  is_own (add_notify t i tasks added there) = false
  is_own (add_quiet t tasks added none_waits) = false
  is_own (add_full t tasks refused) = false
  is_own stop = false

  pub data Reach (thread_num task_queue_size : ℕ) : ThreadPool T → Type 0 where
    start :
        1 ≤ thread_num
        → 1 ≤ task_queue_size
        → Reach thread_num task_queue_size (new_pool thread_num task_queue_size)
    next :
        {p p' : ThreadPool T}
        → Reach thread_num task_queue_size p
        → Step p p'
        → Reach thread_num task_queue_size p'
