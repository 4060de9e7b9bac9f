-- ===== src/Pool/Started.antt =====
-- A task that waits gets a worker, and what Stop leaves waiting.
use dreamboat_rpc.Prelude.{
  ℕ, ◌≡◌, ◌⊎◌, inl, inr, refl, ap, sym, ◌∙◌, subst, List, [], ◌∷◌, true, false, if◌then◌else◌, some,
  get_elem?, get_elem?-set_self,
}
use dreamboat_rpc.Pool.{take_front}
use dreamboat_rpc.Pool.Workers.{
  is_own, Worker, running, ThreadPool, with_worker, Step, check, wait, fetch, wake, take, miss,
  finish, add_notify, add_quiet, add_full, stop, Reach,
}
use dreamboat_rpc.Pool.Awake.{awake, SomeAwake, inside, Reach-Inv}

module _ {T : Type 0} where
  -- Steps of workers, one after the other.
  pub data Steps : ThreadPool T → ThreadPool T → Type 0 where
    done : {p : ThreadPool T} → Steps p p
    more : {p p' p'' : ThreadPool T} (s : Step p p') → is_own s ≡ true → Steps p' p'' → Steps p p''

  -- The first task has gone to a worker.
  pub record Started (t : T) (rest : List T) (p : ThreadPool T) : Type 0 where
    pub after : ThreadPool T
    pub steps : Steps p after
    pub left : after.tasks.q ≡ rest
    pub worker : ℕ
    pub runs : get_elem? after.threads worker ≡ some (running t)

  module _ (t : T) (rest : List T) where
    taken_front :
        (p : ThreadPool T)
        → p.tasks.q ≡ t ∷ rest
        → take_front p.tasks.q p.tasks ≡ (some t, record (p.tasks) { q = rest })
    unfolding take_front
    taken_front p e = ap (λ q. take_front q p.tasks) e

    from_fetching :
        (p : ThreadPool T) (i : ℕ)
        → p.tasks.q ≡ t ∷ rest
        → get_elem? p.threads i ≡ some Worker.fetching
        → Started t rest p
    from_fetching p i e there = record {
      after = record (with_worker p i (running t)) { tasks = record (p.tasks) { q = rest } };
      steps = more (fetch i t (record (p.tasks) { q = rest }) there (taken_front p e)) refl done;
      left = refl;
      worker = i;
      runs = get_elem?-set_self p.threads i (running t) (inside p.threads i there);
    }

    step_first :
        (p p' : ThreadPool T) (s : Step p p')
        → is_own s ≡ true
        → Started t rest p'
        → Started t rest p
    step_first p p' s own later = record {
      after = later.after;
      steps = more s own later.steps;
      left = later.left;
      worker = later.worker;
      runs = later.runs;
    }

    from_checking :
        (p : ThreadPool T) (i : ℕ)
        → p.m_stop ≡ false
        → p.tasks.q ≡ t ∷ rest
        → get_elem? p.threads i ≡ some Worker.checking
        → Started t rest p
    from_checking p i on e there =
        let now = get_elem?-set_self p.threads i Worker.fetching (inside p.threads i there) in
        step_first p (with_worker p i (if p.m_stop then Worker.exited else Worker.fetching))
          (check i there) refl
          (subst
            (λ b. Started t rest (with_worker p i (if b then Worker.exited else Worker.fetching)))
            (sym on) (from_fetching (with_worker p i Worker.fetching) i e now))

    from_awake :
        (p : ThreadPool T) (i : ℕ) (w : Worker T)
        → p.m_stop ≡ false
        → p.tasks.q ≡ t ∷ rest
        → get_elem? p.threads i ≡ some w
        → awake w ≡ true
        → Started t rest p
    from_awake p i Worker.checking on e there is = from_checking p i on e there
    from_awake p i Worker.fetching on e there is = from_fetching p i e there
    from_awake p i Worker.woken on e there is = record {
      after = record (with_worker p i (running t)) { tasks = record (p.tasks) { q = rest } };
      steps = more (take i t (record (p.tasks) { q = rest }) there (taken_front p e)) refl done;
      left = refl;
      worker = i;
      runs = get_elem?-set_self p.threads i (running t) (inside p.threads i there);
    }
    from_awake p i (running u) on e there is =
        let now = get_elem?-set_self p.threads i Worker.checking (inside p.threads i there) in
        step_first p (with_worker p i Worker.checking) (finish i u there) refl
          (from_checking (with_worker p i Worker.checking) i on e now)
    from_awake p i Worker.waiting on e there is = cc
    from_awake p i Worker.exited on e there is = cc

    attended_by :
        (p : ThreadPool T)
        → p.m_stop ≡ false
        → p.tasks.q ≡ t ∷ rest
        → (p.tasks.q ≡ []) ⊎ SomeAwake p.threads
        → Started t rest p
    attended_by p on e (inl empty) = let none_left = sym e ∙ empty in cc
    attended_by p on e (inr (i, w, there, is)) = from_awake p i w on e there is

    -- In every state that a pool of workers reaches before Stop, whatever was added and whoever
    -- was woken: if a task waits in the queue, some steps that workers take by themselves, without
    -- being woken, bring the first task to a worker and leave the rest of the queue.
    pub first_task-Started :
        {thread_num task_queue_size : ℕ} (p : ThreadPool T)
        → Reach thread_num task_queue_size p
        → p.m_stop ≡ false
        → p.tasks.q ≡ t ∷ rest
        → Started t rest p
    first_task-Started p r on e = attended_by p on e ((Reach-Inv r).attended on)

  -- All workers in c.wait.
  abbrev pub AllWait : ThreadPool T → Type 0
  AllWait p = (i : ℕ) (w : Worker T) → get_elem? p.threads i ≡ some w → w ≡ Worker.waiting

  -- Sleeping workers do not go on by themselves, whatever `m_stop` is.
  pub asleep-stays : {p p' : ThreadPool T} → AllWait p → (s : Step p p') → is_own s ≡ false
  asleep-stays asleep (check i there) = let e = asleep i _ there in cc
  asleep-stays asleep (wait i there empty) = let e = asleep i _ there in cc
  asleep-stays asleep (fetch i t tasks there took) = let e = asleep i _ there in cc
  asleep-stays asleep (wake i there) = refl
  asleep-stays asleep (take i t tasks there took) = let e = asleep i _ there in cc
  asleep-stays asleep (miss i tasks there missed) = let e = asleep i _ there in cc
  asleep-stays asleep (finish i t there) = let e = asleep i _ there in cc
  asleep-stays asleep (add_notify t i tasks added there) = refl
  asleep-stays asleep (add_quiet t tasks added none_waits) = refl
  asleep-stays asleep (add_full t tasks refused) = refl
  asleep-stays asleep stop = refl
