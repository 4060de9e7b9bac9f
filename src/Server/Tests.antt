-- ===== src/Server/Tests.antt =====
-- The server's handlers on a server with one service, on descriptor 5.
use dreamboat_rpc.Prelude.{
  ℕ, ◌+◌, ◌^◌, ◌<◌, ◌≡◌, ◌≢◌, refl, List, [], ◌∷◌, ◌++◌, true, false, arith, none, length,
  replicate,
}
use dreamboat_rpc.Run.{Run, ok, faults, Returns}
use dreamboat_rpc.Memory.{minus_one, c_str, str_eq}
use dreamboat_rpc.Packet.{
  RpcHeader, RpcMessage, RpcResult, IsHeader, rpc_magic_number, rpc_version, sizeof_header,
  header_bytes, header_of,
}
use dreamboat_rpc.Poller.{new_poller}
use dreamboat_rpc.Server.{Recv, received, Server, lookup, handle_request_event}
use dreamboat_rpc.Server.Requests.{
  Served, message_of, handle_request_event-serves, handle_request_event-drops,
  handle_request_event-overflows, handle_request_event-bodiless_Served,
}

abbrev pub echo : List ℕ
echo = b'e' ∷ []

abbrev pub Echo : Type 0
Echo = Server (Unit {0}) ℕ

abbrev pub idle : Echo
idle = record {
  dictionary = (echo, tt) ∷ [];
  pipe = λ fd. [];
  app = 0;
  poller = new_poller false;
  table = λ i. none;
  listenfd = 3;
  outbox = [];
}

-- Handle gives the buffer back, and counts.
abbrev pub answer : Unit {0} → RpcMessage → ℕ → Run (RpcResult × ℕ)
answer u m n = ok (record { seqno = 0; return_buffer = m.body.parameters }, n + 1)

abbrev pub header : ℕ → RpcHeader
header size = record {
  magic = rpc_magic_number;
  version = rpc_version;
  need_return = true;
  padding = 0;
  seqno = 7;
  body_length = size;
  servicename = echo ++ replicate 31 0;
}

header-IsHeader : (size : ℕ) → size < 2 ^ 32 → IsHeader (header size)
header-IsHeader size small = record {
  magic = omega arith;
  version = omega arith;
  padding = omega arith;
  seqno = omega arith;
  body_length = small;
  servicename = refl;
}

abbrev pub body : List ℕ
body = b'h' ∷ 0 ∷ []

abbrev pub served : RpcResult
served = record { seqno = 7; return_buffer = (message_of (header 2) body).body.parameters }

handle_request_event-serves_example :
    Returns
      (Served 5 true served 1 idle)
      (handle_request_event answer (received (header_bytes (header 2))) (received body) 5 idle)
unfolding c_str lookup str_eq
handle_request_event-serves_example =
    handle_request_event-serves answer (header 2) body echo tt 5 idle
      (record { seqno = 0; return_buffer = served.return_buffer }) 1
      (header-IsHeader 2 (omega arith)) refl refl refl (omega arith) refl refl (omega arith) refl

-- A header of five bytes.
handle_request_event-drops_example :
    let first : List ℕ = replicate 5 0 in
    let h = header_of first in
    let run = handle_request_event answer (received first) (received []) 5 idle in
    (length first ≢ sizeof_header → run ≡ ok idle)
    × (0 ≢ h.body_length → run ≡ ok idle)
    × (h.magic ≢ rpc_magic_number → run ≡ ok idle)
    × (h.version ≢ rpc_version → run ≡ ok idle)
    × (c_str h.servicename ≡ ok echo → lookup echo idle.dictionary ≡ none → run ≡ ok idle)
handle_request_event-drops_example =
    handle_request_event-drops answer (replicate 5 0) [] echo 5 idle (omega arith)

handle_request_event-overflows_example :
    handle_request_event answer
      (received (header_bytes (header 481)))
      (received (replicate 481 1))
      5
      idle
    ≡ faults
unfolding header_bytes
handle_request_event-overflows_example =
    handle_request_event-overflows answer (header_bytes (header 481)) (replicate 481 1) 5 idle refl
      (omega arith)

handle_request_event-bodiless_Served_example :
    Returns (Served 5 true (record { seqno = 7; return_buffer = replicate 480 0 }) 1 idle) (
      handle_request_event answer
        (received (header_bytes (header minus_one)))
        Recv.would_block
        5
        idle)
unfolding c_str lookup str_eq
handle_request_event-bodiless_Served_example =
    handle_request_event-bodiless_Served answer (header minus_one) echo tt 5 idle
      (record { seqno = 0; return_buffer = replicate 480 0 }) 1
      (header-IsHeader minus_one (omega arith)) refl refl refl refl refl (omega arith) refl

abbrev busy : Echo
busy = record idle { pipe = λ fd. served ∷ [] }
