-- ===== src/Timer/Due.antt =====
-- Which tasks a tick runs.
use dreamboat_rpc.Prelude.{
  ℕ, ◌+◌, ◌≤◌, ◌<◌, ◌≡◌, refl, ap, inl, inr, List, [], ◌∷◌, false, arith, leb, ltb, if◌then◌else◌,
  Bool-cases,
}
use dreamboat_rpc.Run.{Run, ok, aborts, faults, out_of_fuel, ◌>>=◌}
use dreamboat_rpc.Timer.{TimerTask, push_task, add_timer, tick}

after_run :
    {S T : Type 0} (r : Run S) (g : S → Run S) (h k : S → Run T)
    → ((s : S) → h s ≡ (g s >>= k))
    → (r >>= h) ≡ ((r >>= g) >>= k)
after_run (ok s) g h k e = e s
after_run aborts g h k e = refl
after_run faults g h k e = refl
after_run out_of_fuel g h k e = refl

module _ {S : Type 0} where
  -- No task of the list expires before `bound`, and each expires no later than the next.
  abbrev pub SortedFrom : ℕ → List (TimerTask S) → Type 0
  SortedFrom bound [] = Unit {0}
  SortedFrom bound (t ∷ ts) = (bound ≤ t.expire) × SortedFrom t.expire ts

  abbrev pub run_all : List (TimerTask S) → S → Run S
  run_all [] s = ok s
  run_all (t ∷ ts) s = t.execution s >>= λ s'. run_all ts s'

  push_task-SortedFrom :
      (t : TimerTask S) (bound : ℕ) (ts : List (TimerTask S))
      → bound ≤ t.expire
      → SortedFrom bound ts
      → SortedFrom bound (push_task t ts)
  unfolding push_task
  push_task-SortedFrom t bound [] h v = (h, tt)
  push_task-SortedFrom t bound (u ∷ ts) h v = elim (Bool-cases (ltb t.expire u.expire)) [
    | inl earlier ↦ rw earlier (h, (ground arith, v.1))
    | inr later ↦ rw later (v.0, push_task-SortedFrom t u.expire ts (ground arith) v.1)
  ]

  -- The tasks that have expired at `now`, and those that have not.
  abbrev pub due : ℕ → List (TimerTask S) → List (TimerTask S)
  due now [] = []
  due now (t ∷ ts) = let rest = due now ts in if leb t.expire now then t ∷ rest else rest

  abbrev pub later : ℕ → List (TimerTask S) → List (TimerTask S)
  later now [] = []
  later now (t ∷ ts) = let rest = later now ts in if leb t.expire now then rest else t ∷ rest

  none_due :
      (now bound : ℕ) (ts : List (TimerTask S))
      → now < bound
      → SortedFrom bound ts
      → (due now ts ≡ []) × (later now ts ≡ ts)
  none_due now bound [] h v = (refl, refl)
  none_due now bound (t ∷ ts) h v =
      let (none_left, all_left) = none_due now t.expire ts (omega (arith, v.0)) v.1 in
      let not_yet : leb t.expire now ≡ false = ground (arith, v.0) in
      rw not_yet (none_left, ap (◌∷◌ t) all_left)

  -- A tick at the time `now` of a queue in order runs the functions of exactly the timers that have
  -- expired, in the order of their expiry, and leaves the others in the queue.
  pub tick-due :
      (now i bound : ℕ) (timers : List (TimerTask S)) (s : S)
      → SortedFrom bound timers
      → tick (λ j. now) i timers s
        ≡ (run_all (due now timers) s >>= λ s'. ok (later now timers, s'))
  unfolding tick
  tick-due now i bound [] s v = refl
  tick-due now i bound (t ∷ ts) s v = elim (Bool-cases (leb t.expire now)) [
    | inl expired ↦ rw expired (
        after_run (t.execution s) _ _ (λ s'. ok (later now ts, s'))
          λ s'. tick-due now (i + 1) t.expire ts s' v.1)
    | inr not_yet ↦
        let (none_left, all_left) = none_due now t.expire ts (ground arith) v.1 in
        rw (not_yet, none_left, all_left) refl
  ]

  -- AddTimer keeps the queue in order, whatever it holds.
  pub add_timer-SortedFrom :
      (now sec : ℕ) (func : S → Run S) (timers : List (TimerTask S))
      → SortedFrom 0 timers
      → SortedFrom 0 (add_timer now sec func timers)
  unfolding add_timer
  add_timer-SortedFrom now sec func timers v =
      push_task-SortedFrom (record { expire = now + sec; execution = func }) 0 timers (omega arith)
        v
