-- ===== src/Pool/Awake.antt =====
-- No task waits while all workers sleep.
use dreamboat_rpc.Prelude.{
  ℕ, zero, suc, ◌≤◌, ◌<◌, ◌≡◌, ◌≢◌, ◌⊎◌, inl, inr, refl, ap, sym, ◌∙◌, subst, List, [], ◌∷◌, Bool,
  true, false, arith, if◌then◌else◌, Option, none, some, length, get_elem?, set, replicate,
  length-set, length-replicate, get_elem?-set_self, get_elem?-set_ne,
}
use native.Mathlib.Decide.{ℕ_discrete}
use dreamboat_rpc.Pool.{SafeQueue, enqueue}
use dreamboat_rpc.Pool.Fifo.{enqueue-cases}
use dreamboat_rpc.Pool.Workers.{
  Worker, running, ThreadPool, with_worker, Step, check, wait, fetch, wake, take, miss, finish,
  add_notify, add_quiet, add_full, stop, Reach, start, next,
}

module _ {T : Type 0} where
  -- A worker that will come to the queue by itself.
  abbrev pub awake : Worker T → Bool
  awake Worker.checking = true
  awake Worker.fetching = true
  awake Worker.woken = true
  awake (running t) = true
  awake Worker.waiting = false
  awake Worker.exited = false

  abbrev pub SomeAwake : List (Worker T) → Type 0
  SomeAwake threads = (i : ℕ) × (w : Worker T) × (get_elem? threads i ≡ some w) × (awake w ≡ true)

  pub record Inv (p : ThreadPool T) : Type 0 where
    pub some_thread : 1 ≤ length p.threads
    pub exits : (i : ℕ) → get_elem? p.threads i ≡ some Worker.exited → p.m_stop ≡ true
    pub attended : p.m_stop ≡ false → (p.tasks.q ≡ []) ⊎ SomeAwake p.threads

  pub inside :
      (threads : List (Worker T)) (i : ℕ) {w : Worker T}
      → get_elem? threads i ≡ some w
      → i < length threads
  inside [] i e = cc
  inside (w ∷ ws) zero e = omega arith
  inside (w ∷ ws) (suc i) e = omega (arith, inside ws i e)

  awake_at : Option (Worker T) → Bool
  awake_at none = false
  awake_at (some w) = awake w

  not_exited : (w : Worker T) → awake w ≡ true → ¬ (some w ≡ some Worker.exited)
  unfolding awake_at
  not_exited w is e = let gone : awake w ≡ false = ap awake_at e in cc

  -- A worker that goes on to an awake state.
  onward :
      (p : ThreadPool T) (i : ℕ) (w w' : Worker T) (tasks : SafeQueue T)
      → Inv p
      → get_elem? p.threads i ≡ some w
      → awake w' ≡ true
      → Inv (record (with_worker p i w') { tasks = tasks })
  onward p i w w' tasks v there is =
      let now = get_elem?-set_self p.threads i w' (inside p.threads i there) in
      record {
        some_thread = omega (arith, length-set p.threads i w', v.some_thread);
        exits = λ k e. elim (ℕ_discrete i k) [
          | yes same ↦ absurd (
              not_exited w' is (
                sym now
                ∙ subst (λ j. get_elem? (set p.threads i w') j ≡ some Worker.exited) (sym same) e))
          | no ne ↦ v.exits k (sym (get_elem?-set_ne p.threads i k w' ne) ∙ e)
        ];
        attended = λ on. inr (i, w', now, is);
      }

  -- A worker that ends or sleeps, where that is all right.
  leaves :
      (p : ThreadPool T) (i : ℕ) (w w' : Worker T)
      → Inv p
      → get_elem? p.threads i ≡ some w
      → (some w' ≡ some Worker.exited → p.m_stop ≡ true)
      → (p.m_stop ≡ false → p.tasks.q ≡ [])
      → Inv (with_worker p i w')
  leaves p i w w' v there ends empty =
      let now = get_elem?-set_self p.threads i w' (inside p.threads i there) in
      record {
        some_thread = omega (arith, length-set p.threads i w', v.some_thread);
        exits = λ k e. elim (ℕ_discrete i k) [
          | yes same ↦ ends (
              sym now
              ∙ subst (λ j. get_elem? (set p.threads i w') j ≡ some Worker.exited) (sym same) e)
          | no ne ↦ v.exits k (sym (get_elem?-set_ne p.threads i k w' ne) ∙ e)
        ];
        attended = λ on. inl (empty on);
      }

  checked :
      (p : ThreadPool T) (i : ℕ) (b : Bool)
      → p.m_stop ≡ b
      → Inv p
      → get_elem? p.threads i ≡ some Worker.checking
      → Inv (with_worker p i (if b then Worker.exited else Worker.fetching))
  checked p i true e v there = leaves p i Worker.checking Worker.exited v there (λ f. e) (λ off. cc)
  checked p i false e v there = onward p i Worker.checking Worker.fetching p.tasks v there refl

  first_thread :
      (threads : List (Worker T))
      → 1 ≤ length threads
      → (w : Worker T) × (get_elem? threads 0 ≡ some w)
  first_thread [] h = absurd (omega arith)
  first_thread (w ∷ ws) h = (w, refl)

  -- Where nobody waits and nobody has ended, everybody is awake.
  all_awake : (w : Worker T) → w ≢ Worker.waiting → w ≢ Worker.exited → awake w ≡ true
  all_awake Worker.checking n m = refl
  all_awake Worker.fetching n m = refl
  all_awake Worker.woken n m = refl
  all_awake (running t) n m = refl
  all_awake Worker.waiting n m = absurd (n refl)
  all_awake Worker.exited n m = absurd (m refl)

  nobody_waits :
      (p : ThreadPool T) (tasks : SafeQueue T)
      → Inv p
      → ((i : ℕ) → get_elem? p.threads i ≢ some Worker.waiting)
      → Inv (record p { tasks = tasks })
  nobody_waits p tasks v none_waits = record {
    some_thread = v.some_thread;
    exits = v.exits;
    attended = λ on.
        let (w, there) = first_thread p.threads v.some_thread in
        inr (
          0,
          w,
          there,
          all_awake w (λ e. none_waits 0 (there ∙ ap some e))
              (λ e. let off = v.exits 0 (there ∙ ap some e) in cc),
        );
  }

  still_full :
      (t : T) (p : ThreadPool T) (tasks : SafeQueue T)
      → Inv p
      → enqueue t p.tasks ≡ (false, tasks)
      → Inv (record p { tasks = tasks })
  still_full t p tasks v refused = elim (enqueue-cases t p.tasks) [
    | inl (e, full) ↦
        let same : p.tasks ≡ tasks = ap (λ r. r.1) (sym e ∙ refused) in
        subst (λ q. Inv (record p { tasks = q })) same v
    | inr (e, room) ↦ let other = ap (λ r. r.0) (sym e ∙ refused) in cc
  ]

  Step-Inv : {p p' : ThreadPool T} → Inv p → Step p p' → Inv p'
  Step-Inv {p} v (check i there) = checked p i p.m_stop refl v there
  Step-Inv {p} v (wait i there empty) =
      leaves p i Worker.fetching Worker.waiting v there (λ e. cc) (λ on. empty)
  Step-Inv {p} v (fetch i t tasks there took) =
      onward p i Worker.fetching (running t) tasks v there refl
  Step-Inv {p} v (wake i there) = onward p i Worker.waiting Worker.woken p.tasks v there refl
  Step-Inv {p} v (take i t tasks there took) =
      onward p i Worker.woken (running t) tasks v there refl
  Step-Inv {p} v (miss i tasks there missed) =
      onward p i Worker.woken Worker.checking tasks v there refl
  Step-Inv {p} v (finish i t there) = onward p i (running t) Worker.checking p.tasks v there refl
  Step-Inv {p} v (add_notify t i tasks added there) =
      onward p i Worker.waiting Worker.woken tasks v there refl
  Step-Inv {p} v (add_quiet t tasks added none_waits) = nobody_waits p tasks v none_waits
  Step-Inv {p} v (add_full t tasks refused) = still_full t p tasks v refused
  Step-Inv {p} v stop = record {
    some_thread = v.some_thread;
    exits = λ i e. refl;
    attended = λ on. cc;
  }

  abbrev idle : Worker T
  idle = Worker.checking

  start_exits : (n i : ℕ) → ¬ (get_elem? (replicate n idle) i ≡ some Worker.exited)
  start_exits zero i e = cc
  start_exits (suc n) zero e = cc
  start_exits (suc n) (suc i) e = start_exits n i e

  pub Reach-Inv :
      {thread_num task_queue_size : ℕ} {p : ThreadPool T}
      → Reach thread_num task_queue_size p
      → Inv p
  Reach-Inv {thread_num} (start h k) = record {
    some_thread = omega (arith, length-replicate thread_num idle);
    exits = λ i e. absurd (start_exits thread_num i e);
    attended = λ on. inl refl;
  }
  Reach-Inv (next r s) = Step-Inv (Reach-Inv r) s
