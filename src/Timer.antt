-- ===== src/Timer.antt =====
-- source/common/Timer.cc: the queue of timers and a tick of the clock.
-- `S` is the state that the functions of the timers change; a function that adds a timer of its own
-- is left out. Signals and the thread that waits for them are left out.
pub mod Due
pub mod Clock
mod Tests
use dreamboat_rpc.Prelude.{ℕ, ◌+◌, List, [], ◌∷◌, leb, ltb, if◌then◌else◌}
use dreamboat_rpc.Run.{Run, ok, ◌>>=◌}

pub record TimerTask (S : Type 0) : Type 0 where
  pub expire : ℕ
  pub execution : S → Run S

module _ {S : Type 0} where
  -- The priority queue by its order: the top is a task that expires first. Among equal ones the
  -- library promises no order; here the earlier comes first.
  unfoldable pub push_task : TimerTask S → List (TimerTask S) → List (TimerTask S)
  push_task t [] = t ∷ []
  push_task t (u ∷ ts) =
      let rest = push_task t ts in if ltb t.expire u.expire then t ∷ u ∷ ts else u ∷ rest

  -- `now` is what time(NULL) gives.
  unfoldable pub add_timer : ℕ → ℕ → (S → Run S) → List (TimerTask S) → List (TimerTask S)
  unfolding push_task
  add_timer now sec func timers = push_task (record { expire = now + sec; execution = func }) timers

  -- `clock i` is what time(NULL) gives in the round `i` of the loop.
  unfoldable pub tick : (ℕ → ℕ) → ℕ → List (TimerTask S) → S → Run (List (TimerTask S) × S)
  tick clock i [] s = ok ([], s)
  tick clock i (t ∷ ts) s =
      let rest = t.execution s >>= λ s'. tick clock (i + 1) ts s' in
      if leb t.expire (clock i) then rest else ok (t ∷ ts, s)

  unfoldable pub stop : List (TimerTask S) → List (TimerTask S)
  stop [] = []
  stop (t ∷ ts) = stop ts
