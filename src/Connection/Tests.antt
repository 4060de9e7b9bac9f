-- ===== src/Connection/Tests.antt =====
-- A connection on which the call of the client's tests goes out, is served, and is answered.
use dreamboat_rpc.Prelude.{
  ℕ, ◌+◌, ◌≡◌, refl, sym, ap, List, [], ◌∷◌, true, false, arith, ◌==◌, if◌then◌else◌, none, some,
  length, take, replicate,
}
use dreamboat_rpc.Run.{Run, ok, ok-injective, Returns}
use dreamboat_rpc.Memory.{load, store, strcpy, c_str, str_eq}
use dreamboat_rpc.Packet.{
  RpcMessage, RpcResult, serialize_message, header_bytes, header_of, result_bytes, sizeof_result,
}
use dreamboat_rpc.Packet.RoundTrip.{packet_bytes}
use dreamboat_rpc.Params.{pack_proto_struct, pack_param, serialize, copy_text}
use dreamboat_rpc.Params.Tests.{bytes_codec}
use dreamboat_rpc.Guid.{get_guid}
use dreamboat_rpc.Poller.{
  new_poller, add_event, mod_event, flags_in, flags_in_oneshot, flags_inout_oneshot,
}
use dreamboat_rpc.Server.{
  sent, Server, Pipe, lookup, call_service, check_message, read_body, receive_into, write, read,
  after_send, is_empty, file_descriptor_event_done, handle_request_event,
}
use dreamboat_rpc.Server
use dreamboat_rpc.Server.Loop.{delivered}
use dreamboat_rpc.Client
use dreamboat_rpc.Client.{
  Callback, max_buffer, Client, World, call_rpc_async, invoke_with, make_request, async_invoke,
  register, send_request, push, send_front, stop_watching,
}
use dreamboat_rpc.Client.Tests.{count, echo, ping, one, calling, quiet, quiet-Inv, echo-CanSend}
use dreamboat_rpc.Connection.{
  Connection, deliver_next, with_asked, with_client, serve_next, call, send, serve, reply,
}
use dreamboat_rpc.Connection.Answering.{some-injective}
use dreamboat_rpc.Connection.Reached.{Starts, Reach, start, next, Reach-Inv, deliver_next-finds}
use dreamboat_rpc.Connection.UnderWay.{Given, Inv}
use dreamboat_rpc.Connection.Silent.{Later, unknown-Silent}
use dreamboat_rpc.Client.Calls.{Finished}

abbrev blank : RpcResult
blank = record { seqno = 0; return_buffer = replicate 480 0 }

-- A service that counts its calls.
abbrev counting : Unit {0} → RpcMessage → ℕ → Run (RpcResult × ℕ)
counting u m a = ok (blank, a + 1)

abbrev Names : Type 0
Names = List (List ℕ × Unit {0})

abbrev known : Names
known = (echo, tt) ∷ []

abbrev listening : Names → Server (Unit {0}) ℕ
listening names = record {
  dictionary = names;
  pipe = λ fd. [];
  app = 0;
  poller = add_event (new_poller false) 5 flags_in_oneshot;
  table = λ i. none;
  listenfd = 3;
  outbox = [];
}

abbrev first : Names → Connection ℕ (Unit {0}) ℕ
first names = record {
  world = quiet;
  server = listening names;
  to_server = [];
  to_client = [];
  asked = λ id. none;
}

first-Starts : (names : Names) → Starts names 5 (first names)
unfolding add_event
first-Starts names = record {
  world = quiet-Inv;
  dictionary_lem = refl;
  pending = refl;
  queue = refl;
  inbound = refl;
  outbound = refl;
  arming = λ f e.
      let same = some-injective (sym e) in
      (ap (λ g. g.input) same, ap (λ g. g.output) same, ap (λ g. g.oneshot) same);
}

called : call_rpc_async bytes_codec true 0 echo (5 ∷ []) count quiet ≡ ok calling
unfolding call_rpc_async get_guid invoke_with make_request strcpy store c_str pack_proto_struct
    pack_param serialize copy_text str_eq async_invoke register send_request push
called = refl

abbrev second : Names → Connection ℕ (Unit {0}) ℕ
second names = record (first names) {
  world = calling;
  asked = with_asked (first names).asked 1 (record { message = ping; callback = count });
}

abbrev sender : Client ℕ
sender = record (calling.client) {
  pending_requests = [];
  poller = mod_event calling.client.poller 3 flags_in;
  outbox = packet_bytes ping ∷ [];
}

sends_ping : dreamboat_rpc.Client.handle_write_event (sent max_buffer) 3 calling.client ≡ ok sender
unfolding dreamboat_rpc.Client.handle_write_event send_front dreamboat_rpc.Client.send
    serialize_message store load stop_watching header_bytes
sends_ping = refl

abbrev third : Names → Connection ℕ (Unit {0}) ℕ
third names = record (with_client (second names) sender) { to_server = packet_bytes ping }

abbrev served : Server (Unit {0}) ℕ
served = record (listening known) {
  pipe = λ k. if 5 == k then record blank { seqno = 1 } ∷ [] else [];
  app = 1;
  poller = mod_event (delivered (listening known) 5).poller 5 flags_inout_oneshot;
}

serves_ping : serve_next counting 5 (third known) ≡ ok served
unfolding serve_next handle_request_event read_body receive_into check_message call_service
    dreamboat_rpc.Server.serve write file_descriptor_event_done is_empty store c_str lookup str_eq
    header_bytes header_of mod_event
serves_ping = refl

abbrev pong : RpcResult
pong = record blank { seqno = 1 }

abbrev fourth : Connection ℕ (Unit {0}) ℕ
fourth = record (third known) { server = served; to_server = [] }

abbrev replied : Server (Unit {0}) ℕ
replied = record served {
  pipe = λ k. if 5 == k then [] else served.pipe k;
  poller = mod_event (delivered served 5).poller 5 flags_in_oneshot;
  outbox = (5, result_bytes pong) ∷ [];
}

replies_pong :
    dreamboat_rpc.Server.handle_write_event (sent sizeof_result) 5 (delivered served 5) ≡ ok replied
unfolding dreamboat_rpc.Server.handle_write_event read after_send file_descriptor_event_done
    is_empty mod_event result_bytes
replies_pong = refl

abbrev fifth : Connection ℕ (Unit {0}) ℕ
fifth = record fourth { server = replied; to_client = result_bytes pong }

first-Reach : (names : Names) → Reach counting names 5 (first names)
first-Reach names = start (first-Starts names)

second-Reach : (names : Names) → Reach counting names 5 (second names)
unfolding get_guid
second-Reach names =
    next (first-Reach names)
      (call bytes_codec 0 1 one echo (5 ∷ []) count calling echo-CanSend (omega arith) refl called)

third-Reach : (names : Names) → Reach counting names 5 (third names)
unfolding mod_event
third-Reach names =
    next (second-Reach names) (send sender ping [] (packet_bytes ping) refl refl sends_ping refl)

fourth-Reach : Reach counting known 5 fourth
unfolding add_event header_of header_bytes
fourth-Reach =
    next (third-Reach known) (serve flags_in_oneshot served refl refl (λ e. cc) serves_ping)

fifth-Reach : Reach counting known 5 fifth
unfolding mod_event add_event
fifth-Reach =
    next fourth-Reach (
      reply flags_inout_oneshot replied pong [] (result_bytes pong) refl refl refl replies_pong
        refl)

counting-sized :
    (u : Unit {0}) (m : RpcMessage) (a : ℕ) (r : RpcResult) (a' : ℕ)
    → counting u m a ≡ ok (r, a')
    → length r.return_buffer ≡ 480
counting-sized u m a r a' e = ap (λ p. length p.0.return_buffer) (sym (ok-injective e))

deliver_next-finds_example :
    (r : RpcResult) × (m : RpcMessage) × (callback : Callback ℕ) × (take sizeof_result
        fifth.to_client
      ≡ result_bytes r)
    × (fifth.asked r.seqno ≡ some (record { message = m; callback = callback }))
    × Given counting known m r
    × ((app : ℕ)
        → callback r.return_buffer 0 ≡ ok app
        → Returns (Finished r app fifth.world) (deliver_next fifth))
unfolding result_bytes
deliver_next-finds_example =
    deliver_next-finds counting known 5 counting-sized (omega arith) fifth fifth-Reach (λ e. cc)

-- A server without services.
unknown-Silent_example :
    (serve_next counting 5 (third []) ≡ ok (delivered (listening []) 5))
    × ((c₁ c₂ : Connection ℕ (Unit {0}) ℕ)
        → c₁.server ≡ delivered (listening []) 5
        → Later counting 5 c₁ c₂
        → c₂.server ≡ delivered (listening []) 5)
unfolding c_str header_of header_bytes lookup
unknown-Silent_example =
    unknown-Silent counting 5 [] counting-sized (omega arith) (third []) echo (third-Reach [])
      (λ e. cc) refl refl

Reach-Inv_example : Inv counting known 5 fifth
Reach-Inv_example = Reach-Inv counting known 5 counting-sized (omega arith) fifth-Reach
