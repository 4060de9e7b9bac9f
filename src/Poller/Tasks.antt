-- ===== src/Poller/Tasks.antt =====
-- The tasks of a dispatch.
use dreamboat_rpc.Prelude.{
  ℕ, List, [], ◌∷◌, ◌≡◌, refl, map, Bool, true, false, ◌&&◌, ◌||◌, arith, if◌then◌else◌,
}
use dreamboat_rpc.Run.{ok, aborts}
use dreamboat_rpc.Events.{read_event, write_event, close_event}
use dreamboat_rpc.Poller.{Flags, Event, dispatch}

abbrev pub is_known : Flags → Bool
is_known f = f.error || f.hangup || f.input || f.output

abbrev pub all_known : List Event → Bool
all_known [] = true
all_known (e ∷ es) = is_known e.events && all_known es

-- One type per event: an error hides all else, then a hang-up hides input, then input hides output.
abbrev pub urgent : Flags → ℕ
urgent f =
    if f.error
    then 0
    else if f.hangup
    then close_event
    else if f.input
    then read_event
    else write_event

-- If every event has a known flag, each becomes one task, in order, of the type of its most urgent
-- flag; if one has none, the process ends.
pub dispatch-tasks :
    (es : List Event)
    → (all_known es ≡ true
        → dispatch es ≡ ok (map (λ e. record { sockfd = e.fd; type = urgent e.events }) es))
      × (all_known es ≡ false → dispatch es ≡ aborts)
unfolding dispatch
dispatch-tasks [] = (λ h. refl, λ h. ground arith)
dispatch-tasks (e ∷ es) = ground (arith, dispatch-tasks es)
