-- ===== src/Client/Tests.antt =====
-- The client on descriptor 3, its calls and their results. Callbacks add to a number.
use dreamboat_rpc.Prelude.{
  ℕ, ◌+◌, ◌<◌, ◌^◌, ◌≡◌, refl, List, [], ◌∷◌, true, false, arith, some, set, replicate,
}
use dreamboat_rpc.Run.{ok, faults, IfOk, Returns-at}
use dreamboat_rpc.Memory.{store, strcpy, c_str, str_eq}
use dreamboat_rpc.Params.{pack_proto_struct, pack_param, serialize, copy_text}
use dreamboat_rpc.Packet.{RpcMessage, RpcResult, IsResult, result_bytes}
use dreamboat_rpc.Params.Tests.{bytes_codec}
use dreamboat_rpc.Guid.{Guid, fresh, get_guid}
use dreamboat_rpc.Guid.Live.{fresh-Inv, get_guid-Allocated}
use dreamboat_rpc.Server.{Recv, received, sent}
use dreamboat_rpc.Events.{read_event, write_event}
use dreamboat_rpc.Client.Loop.{Event, main_loop, main_loop-Inv}
use dreamboat_rpc.Poller.{new_poller, add_event, mod_event, flags_in, flags_inout}
use dreamboat_rpc.Client.{
  Callback, Client, World, Connected, new_client, connect_to, initialize, push, make_request,
  invoke_with, async_invoke, register, send_request, call_rpc_async, handle_read_event,
}
use dreamboat_rpc.Client.Requests.{CanSend, request}
use dreamboat_rpc.Client.Calls
use dreamboat_rpc.Client.Calls.{invoke_with-Called, Finished}
use dreamboat_rpc.Client.Start.{initialize-starts}
use dreamboat_rpc.Client.Replies.{Outcome, call_rpc_async-Outcome, handle_read_event-unknown}

abbrev pub good : Connected
good = record {
  valid_ip = true;
  sockfd = 3;
  receive_buffer_set = true;
  send_buffer_set = true;
  connected = true;
}

pub connect_to-good : connect_to good ≡ 3
unfolding connect_to
connect_to-good = refl

abbrev pub connected : Client ℕ
connected = record new_client {
  connfd = 3;
  poller = add_event (new_poller false) 3 flags_in;
  initialized = true;
}

abbrev pub quiet : World ℕ
quiet = record { guid = fresh; client = connected; app = 0 }

pub quiet-Inv : Calls.Inv quiet
unfolding initialize connect_to
quiet-Inv = Returns-at (initialize-starts good 0 (omega (arith, connect_to-good))) refl

abbrev pub count : Callback ℕ
count bytes n = ok (n + 1)

abbrev pub echo : List ℕ
echo = b'e' ∷ []

abbrev pub ping : RpcMessage
ping = request bytes_codec true 0 1 echo (5 ∷ [])

pub echo-CanSend : CanSend bytes_codec echo (5 ∷ [])
echo-CanSend = record {
  named = (ground arith, tt);
  name_fits = omega arith;
  text = (ground arith, tt);
  fits = omega arith;
}

abbrev pub one : Guid
one = record { heap = []; bound = 1 }

call_rpc_async-Outcome_example :
    Outcome bytes_codec 0 echo
      (5 ∷ [])
      count
      echo-CanSend
      (omega arith)
      quiet
      (some 1)
      one
      (call_rpc_async bytes_codec true 0 echo (5 ∷ []) count quiet)
unfolding get_guid
call_rpc_async-Outcome_example =
    call_rpc_async-Outcome bytes_codec 0 echo (5 ∷ []) count echo-CanSend (omega arith) quiet
      (some 1) one quiet-Inv refl

-- The client with that call under way.
abbrev pub calling : World ℕ
calling = record {
  guid = one;
  client = record connected {
    callbacks = set connected.callbacks 1 (some count);
    pending_requests = ping ∷ [];
    poller = mod_event connected.poller 3 flags_inout;
  };
  app = 0;
}

abbrev pong : RpcResult
pong = record { seqno = 1; return_buffer = replicate 480 0 }

pong-IsResult : (id : ℕ) → id < 2 ^ 32 → IsResult (record pong { seqno = id })
pong-IsResult id h = record { seqno = h; return_buffer = refl }

calling-Inv : Calls.Inv calling
unfolding get_guid invoke_with make_request strcpy store c_str pack_proto_struct pack_param
    serialize copy_text str_eq async_invoke register send_request push
calling-Inv =
    let first = Returns-at (get_guid-Allocated fresh fresh-Inv (omega arith)) refl in
    (Returns-at
      (invoke_with-Called bytes_codec 0 echo (5 ∷ []) count echo-CanSend (omega arith) 1 one quiet
        quiet-Inv first (omega arith))
      refl).inv

-- A result for the id 2, which no call has.
handle_read_event-unknown_example :
    handle_read_event (received (result_bytes (record pong { seqno = 2 }))) calling ≡ faults
handle_read_event-unknown_example =
    handle_read_event-unknown (record pong { seqno = 2 }) calling (pong-IsResult 2 (omega arith))
      calling-Inv (λ l. omega (arith, l.1))

-- The socket takes the request, the result comes in, and a later event finds nothing to send.
abbrev rounds : List (List Event)
rounds =
    (record { fd = 3; type = write_event; recv = Recv.would_block; send = sent 50 } ∷ [])
    ∷ (record { fd = 3; type = read_event; recv = received (result_bytes pong); send = sent 0 }
        ∷ [])
    ∷ (record { fd = 3; type = write_event; recv = Recv.would_block; send = sent 0 } ∷ [])
    ∷ []

main_loop-Inv_example : IfOk Calls.Inv (main_loop rounds calling)
main_loop-Inv_example = main_loop-Inv rounds calling calling-Inv
