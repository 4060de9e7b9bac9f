-- ===== src/Pool/Tests.antt =====
-- A queue of numbers that has room for two, and a pool of one worker with it.
use dreamboat_rpc.Prelude.{
  ℕ, zero, suc, ◌≤◌, ◌≡◌, ◌≢◌, refl, List, [], ◌∷◌, ◌++◌, true, some, arith, length, get_elem?,
}
use dreamboat_rpc.Pool.{SafeQueue, new_queue, enqueue}
use dreamboat_rpc.Pool.Fifo.{Op, put, get, run_ops, run_ops-fifo}
use dreamboat_rpc.Pool.Workers.{ThreadPool, Worker, new_pool, Reach, start, next, add_quiet}
use dreamboat_rpc.Pool.Started.{Started, first_task-Started}

abbrev two : SafeQueue ℕ
two = new_queue 2

abbrev ops : List (Op ℕ)
ops = put 5 ∷ put 6 ∷ put 7 ∷ get ∷ put 8 ∷ []

run_ops-fifo_example :
    ((run_ops ops two).accepted ≡ (run_ops ops two).taken ++ (run_ops ops two).left.q)
    × (length (run_ops ops two).left.q ≤ 2)
    × ((run_ops ops two).left.maxsize ≡ 2)
run_ops-fifo_example = run_ops-fifo ops two (omega arith)

abbrev added : SafeQueue ℕ
added = record two { q = 5 ∷ [] }

abbrev one_worker : ThreadPool ℕ
one_worker = record (new_pool 1 2) { tasks = added }

nobody_waits : (i : ℕ) → get_elem? (new_pool {T = ℕ} 1 2).threads i ≢ some Worker.waiting
nobody_waits zero e = cc
nobody_waits (suc i) e = cc

added-enqueue : enqueue 5 two ≡ (true, added)
unfolding enqueue
added-enqueue = refl

one_worker-Reach : Reach 1 2 one_worker
one_worker-Reach =
    next (start (omega arith) (omega arith)) (add_quiet 5 added added-enqueue nobody_waits)

first_task-Started_example : Started 5 [] one_worker
first_task-Started_example = first_task-Started 5 [] one_worker one_worker-Reach refl refl
