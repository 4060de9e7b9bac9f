-- ===== src/Timer/Tests.antt =====
-- Timers that count, at the time 20.
use dreamboat_rpc.Prelude.{ℕ, ◌+◌, ◌≡◌, refl, true, List, [], ◌∷◌, arith}
use dreamboat_rpc.Run.{Run, ok, ◌>>=◌, Returns}
use dreamboat_rpc.Timer.Clock.{
  Clock, alarm, block_signals, create_thread, cancel_thread, tick_interval, construct_all, destroy,
  destroy-stops,
}
use dreamboat_rpc.Timer.{TimerTask, add_timer, push_task, tick}
use dreamboat_rpc.Timer.Due.{due, later, run_all, tick-due}

abbrev add : ℕ → ℕ → Run ℕ
add n s = ok (s + n)

abbrev timers : List (TimerTask ℕ)
timers =
    record { expire = 12; execution = add 1 } ∷ record { expire = 25; execution = add 100 } ∷ []

added :
    add_timer 5 10 (add 10) timers
    ≡ record { expire = 12; execution = add 1 }
      ∷ record { expire = 15; execution = add 10 }
      ∷ record { expire = 25; execution = add 100 }
      ∷ []
unfolding add_timer push_task
added = refl

tick-due_example :
    tick (λ j. 20) 0 timers 0 ≡ (run_all (due 20 timers) 0 >>= λ s'. ok (later 20 timers, s'))
tick-due_example = tick-due 20 0 0 timers 0 (omega arith, (omega arith, tt))

abbrev stopped : Clock ℕ
stopped = record { calls = []; timers = timers; construct_counter = 0 }

-- Three GlobalTimers, one of which is destroyed.
destroy-stops_example :
    Returns
      (λ c'.
        (c'.timers ≡ [])
        × (c'.construct_counter ≡ 0)
        × (c'.calls
            ≡ cancel_thread ∷ alarm 0 ∷ alarm tick_interval ∷ create_thread ∷ block_signals ∷ []))
      (construct_all 3 stopped >>= destroy true)
destroy-stops_example = destroy-stops 2 stopped refl
