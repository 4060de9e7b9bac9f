-- ===== src/Timer/Clock.antt =====
-- Timer::Start and Stop, the thread for the signals, and GlobalTimer of include/common/Timer.hh.
use dreamboat_rpc.Prelude.{
  ℕ, zero, suc, ◌+◌, ◌-◌, ◌≡◌, refl, ap, ◌∙◌, List, [], ◌∷◌, Bool, true, false, ◌==◌, not,
  if◌then◌else◌, arith,
}
use dreamboat_rpc.Run.{Run, ok, aborts, ◌>>=◌, Returns, returns}
use dreamboat_rpc.Timer.{TimerTask, tick, stop}

abbrev pub tick_interval : ℕ
tick_interval = 1

-- What the timer asks of the system.
pub data ClockCall : Type 0 where
  block_signals create_thread cancel_thread : ClockCall
  alarm : ℕ → ClockCall

pub record Clock (S : Type 0) : Type 0 where
  pub calls : List ClockCall
  pub timers : List (TimerTask S)
  pub construct_counter : ℕ

by_counter : {B : Type 0} (k n : ℕ) → k ≡ n → (x y : B) → (if not (k == n) then x else y) ≡ y
by_counter k n e x y = let same : (k == n) ≡ true = ground arith in rw same

not_zero : {B : Type 0} (k : ℕ) → k ≡ 1 → (x y : B) → (if not (k == 0) then x else y) ≡ x
not_zero k e x y = let other : (k == 0) ≡ false = ground arith in rw other

module _ {S : Type 0} where
  -- Timer::Start: whether the signals could be blocked, and the thread created.
  unfoldable pub start : Bool → Bool → Clock S → Run (Clock S)
  start masked created c =
      if not masked
      then aborts
      else if not created
      then aborts
      else ok (record c { calls = alarm tick_interval ∷ create_thread ∷ block_signals ∷ c.calls })

  -- A round of the thread for the signals: whether sigwait succeeded, and the signal is SIGALRM.
  unfoldable pub on_signal : Bool → Bool → (ℕ → ℕ) → Clock S × S → Run (Clock S × S)
  unfolding tick
  on_signal waited is_alarm clock (c, s) =
      if not waited then aborts else if not is_alarm then ok (c, s) else do
        (timers, s') ← tick clock 0 c.timers s
        ok (record c { timers = timers; calls = alarm tick_interval ∷ c.calls }, s')

  -- Timer::Stop: whether the thread could be cancelled.
  unfoldable pub stop_clock : Bool → Clock S → Run (Clock S)
  unfolding stop
  stop_clock cancelled c =
      if not cancelled
      then aborts
      else ok (record c { calls = cancel_thread ∷ alarm 0 ∷ c.calls; timers = stop c.timers })

  -- The constructor and the destructor of GlobalTimer.
  unfoldable pub construct : Bool → Bool → Clock S → Run (Clock S)
  unfolding start
  construct masked created c = if not (c.construct_counter == 0) then ok c else do
    c' ← start masked created c
    ok (record c' { construct_counter = c'.construct_counter + 1 })

  unfoldable pub destroy : Bool → Clock S → Run (Clock S)
  unfolding stop_clock
  destroy cancelled c = if not (c.construct_counter == 1) then ok c else do
    c' ← stop_clock cancelled c
    ok (record c' { construct_counter = c'.construct_counter - 1 })

  -- So many more GlobalTimers.
  unfoldable pub construct_all : ℕ → Clock S → Run (Clock S)
  unfolding construct
  construct_all zero c = ok c
  construct_all (suc n) c = construct true true c >>= construct_all n

  stop-nil : (timers : List (TimerTask S)) → stop timers ≡ []
  unfolding stop
  stop-nil [] = refl
  stop-nil (t ∷ ts) = stop-nil ts

  abbrev started : Clock S → Clock S
  started c = record c {
    calls = alarm tick_interval ∷ create_thread ∷ block_signals ∷ c.calls;
    construct_counter = c.construct_counter + 1;
  }

  construct-first : (c : Clock S) → c.construct_counter ≡ 0 → construct true true c ≡ ok (started c)
  unfolding construct start
  construct-first c e = by_counter c.construct_counter 0 e _ _

  construct-again : (c : Clock S) → c.construct_counter ≡ 1 → construct true true c ≡ ok c
  unfolding construct
  construct-again c e = not_zero c.construct_counter e _ _

  construct_all-again : (n : ℕ) (c : Clock S) → c.construct_counter ≡ 1 → construct_all n c ≡ ok c
  unfolding construct_all
  construct_all-again zero c one = refl
  construct_all-again (suc n) c one =
      ap (λ run. run >>= construct_all n) (construct-again c one) ∙ construct_all-again n c one

  -- However many GlobalTimers there are, with the first one having started the timer, the first to
  -- be destroyed stops it: the alarm is off, the thread is cancelled and no task is left.
  pub destroy-stops :
      (n : ℕ) (c : Clock S)
      → c.construct_counter ≡ 0
      → Returns
          (λ c'.
            (c'.timers ≡ [])
            × (c'.construct_counter ≡ 0)
            × (c'.calls
                ≡ cancel_thread
                  ∷ alarm 0
                  ∷ alarm tick_interval
                  ∷ create_thread
                  ∷ block_signals
                  ∷ c.calls))
          (construct_all (suc n) c >>= destroy true)
  unfolding construct_all destroy stop_clock
  destroy-stops n c none =
      let one : (started c).construct_counter ≡ 1 = omega arith in
      rw
        (
          construct-first c none,
          construct_all-again n (started c) one,
          by_counter (c.construct_counter + 1) 1 one (ok (started c)),
        )
        (returns (stop-nil c.timers, omega arith, refl))
