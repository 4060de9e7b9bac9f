-- ===== src/Server/Loop/Tests.antt =====
-- The event loop over one request on descriptor 5.
use dreamboat_rpc.Prelude.{
  ℕ, ◌≤◌, ◌≡◌, refl, List, [], ◌∷◌, ◌++◌, Bool, true, false, ◌==◌, if◌then◌else◌, arith, some,
  length, take,
}
use dreamboat_rpc.Run.{Returns}
use dreamboat_rpc.Memory.{store, c_str, str_eq}
use dreamboat_rpc.Packet.{RpcResult, header_bytes, header_of, result_bytes}
use dreamboat_rpc.Events.{read_event, write_event}
use dreamboat_rpc.Poller.{
  Flags, epoll_add, epoll_mod, flags_in_oneshot, flags_inout_oneshot, task_type, mod_event,
}
use dreamboat_rpc.Server.{
  received, sent, handle_request_event, read_body, receive_into, check_message, lookup,
  call_service, serve, write, file_descriptor_event_done, is_empty, handle_write_event,
}
use dreamboat_rpc.Server.Results.{Taken}
use dreamboat_rpc.Server.Tests.{Echo, idle, answer, header, body, served}
use dreamboat_rpc.Server.Loop.{
  Loop, Reach, armed, is_open, updated, delivered, start, next, arrive, request,
}
use dreamboat_rpc.Server.Loop.Reached.{one_task, write_finds_result}

abbrev event : Bool → Bool → Flags
event input output = record {
  input = input;
  output = output;
  error = false;
  hangup = false;
  oneshot = false;
  edge = false;
}

abbrev Turn : Type 0
Turn = Loop (Unit {0}) ℕ

abbrev armed_server : Echo
armed_server = record idle {
  poller = record { et = false; calls = epoll_add 5 flags_in_oneshot ∷ [] };
}

abbrev first : Turn
first = record { server = armed_server; pending = λ fd. [] }

-- A descriptor that is armed is armed for input alone.
armed_quiet :
    (fd : ℕ) (f : Flags)
    → armed armed_server.poller.calls fd ≡ some f
    → (f.output ≡ false) × (f.oneshot ≡ true) × (is_open armed_server.poller.calls fd ≡ true)
armed_quiet fd f e = (ground arith, ground arith, ground arith)

first-Reach : Reach answer first
first-Reach = start (record { idle = λ fd. refl; quiet = armed_quiet })

abbrev second : Turn
second = record {
  server = delivered armed_server 5;
  pending = updated first.pending 5 ([] ++ read_event ∷ []);
}

second-Reach : Reach answer second
unfolding task_type
second-Reach =
    next first-Reach (arrive 5 flags_in_oneshot (event true false) read_event refl (λ o. cc) refl)

one_task_example :
    (length (second.pending 5) ≤ 1)
    × ((f : Flags) → armed second.server.poller.calls 5 ≡ some f → second.pending 5 ≡ [])
one_task_example = one_task answer {l = second} 5 second-Reach (omega arith)

abbrev answered : Echo
answered = record second.server {
  pipe = λ k. if 5 == k then served ∷ [] else [];
  app = 1;
  poller = record {
    et = false;
    calls = epoll_mod 5 flags_inout_oneshot ∷ second.server.poller.calls;
  };
}

abbrev third : Turn
third = record { server = answered; pending = updated second.pending 5 [] }

third-Reach : Reach answer third
unfolding handle_request_event read_body receive_into store check_message c_str lookup str_eq
    call_service serve write file_descriptor_event_done is_empty mod_event header_of header_bytes
third-Reach = next second-Reach (
    request 5 [] (received (header_bytes (header 2))) (received body) answered (omega arith) refl
      refl)

abbrev fourth : Turn
fourth = record {
  server = delivered answered 5;
  pending = updated third.pending 5 ([] ++ write_event ∷ []);
}

fourth-Reach : Reach answer fourth
unfolding task_type
fourth-Reach =
    next third-Reach
      (arrive 5 flags_inout_oneshot (event false true) write_event refl (λ o. refl) refl)

write_finds_result_example :
    (r : RpcResult) × (rest : List RpcResult) × (fourth.server.pipe 5 ≡ r ∷ rest)
    × ((n : ℕ)
        → Returns
            (λ s'.
              Taken 5 rest fourth.server s'
              × (s'.outbox ≡ (5, take n (result_bytes r)) ∷ fourth.server.outbox))
            (handle_write_event (sent n) 5 fourth.server))
write_finds_result_example =
    write_finds_result answer {l = fourth} 5 [] fourth-Reach (omega arith) refl
