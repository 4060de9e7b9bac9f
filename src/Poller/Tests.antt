-- ===== src/Poller/Tests.antt =====
-- Tasks of concrete events.
use dreamboat_rpc.Prelude.{List, [], ◌∷◌, ◌≡◌, map, true, false}
use dreamboat_rpc.Run.{ok, aborts}
use dreamboat_rpc.Poller.{Event, flags_in, dispatch}
use dreamboat_rpc.Poller.Tasks.{urgent, all_known, dispatch-tasks}

abbrev readable : List Event
readable = record { fd = 5; events = record flags_in { error = false; hangup = false } } ∷ []

dispatch-tasks_example :
    (all_known readable ≡ true
      → dispatch readable
        ≡ ok (map (λ e. record { sockfd = e.fd; type = urgent e.events }) readable))
    × (all_known readable ≡ false → dispatch readable ≡ aborts)
dispatch-tasks_example = dispatch-tasks readable
