-- ===== src/Server.antt =====
-- source/server/RpcEventHandler.cc and RpcServer.cc, on the state that they share with
-- source/transport/ServerTransport.cc (Transport): the handlers
-- of the server, on the state that they share.
-- A service is an element of `Service`; `handle` is its virtual method Handle, on the state `App`
-- of the services. The results of system calls are arguments. Logging is left out.
pub mod Transport
pub mod Rearm
pub mod Requests
pub mod Results
pub mod Loop
pub mod Tests
use dreamboat_rpc.Prelude.{
  ℕ, zero, suc, ◌+◌, ◌*◌, ◌≤◌, ◌<◌, ◌≡◌, List, [], ◌∷◌, ◌++◌, Bool, true, false, ◌==◌, ltb, not,
  if◌then◌else◌, Option, none, some, length, take,
}
use dreamboat_rpc.Run.{Run, ok, aborts, faults, ◌>>=◌}
use dreamboat_rpc.Memory.{store, c_str, str_eq, minus_one}
use dreamboat_rpc.Packet.{
  RpcHeader, RpcMessage, RpcResult, rpc_magic_number, rpc_version, sizeof_header, sizeof_result,
  new_message, header_of, result_bytes,
}
use dreamboat_rpc.Events.{
  read_event, write_event, close_event, max_file_descriptors, Manager, attach_event_handler,
  detach_event_handler,
}
use dreamboat_rpc.Poller.{
  Poller, new_poller, Call, close_fd, add_event, mod_event, del_event, flags_in_oneshot,
  flags_inout_oneshot,
}

-- What recv and send give: the bytes that came, or the count that went; EAGAIN; another error.
pub data Recv : Type 0 where
  received : List ℕ → Recv
  would_block failed : Recv

pub data Send : Type 0 where
  sent : ℕ → Send
  would_block failed : Send

-- The `int` that recv returns.
abbrev pub recv_bytes : Recv → ℕ
recv_bytes (received bytes) = length bytes
recv_bytes Recv.would_block = minus_one
recv_bytes Recv.failed = minus_one

-- The buffer behind a recv: an error writes nothing.
unfoldable pub receive_into : List ℕ → Recv → Run (List ℕ)
receive_into buf (received bytes) = store buf 0 bytes
receive_into buf Recv.would_block = ok buf
receive_into buf Recv.failed = ok buf

-- The handlers that are attached: the ServerTransport, the RpcRequestHandler, the RpcResultSender.
pub data Handler : Type 0 where
  transport receiver sender : Handler

-- ReturnValuePipe: a queue of results for each descriptor.
abbrev pub Pipe : Type 0
Pipe = ℕ → List RpcResult

pub record Server (Service App : Type 0) : Type 0 where
  pub dictionary : List (List ℕ × Service)
  pub pipe : Pipe
  pub app : App
  pub poller : Poller
  pub table : Manager Handler
  pub listenfd : ℕ
  pub outbox : List (ℕ × List ℕ)

unfoldable pub write : Pipe → ℕ → RpcResult → Run Pipe
write pipe fd result =
    if ltb fd max_file_descriptors
    then ok (λ k. if fd == k then pipe k ++ result ∷ [] else pipe k)
    else faults

pop_front : Pipe → ℕ → List RpcResult → Run (RpcResult × Pipe)
pop_front pipe fd [] = aborts
pop_front pipe fd (r ∷ rest) = ok (r, λ k. if fd == k then rest else pipe k)

-- Read asserts that the queue is not empty.
unfoldable pub read : Pipe → ℕ → Run (RpcResult × Pipe)
unfolding pop_front
read pipe fd = if ltb fd max_file_descriptors then pop_front pipe fd (pipe fd) else faults

abbrev pub is_nil : List RpcResult → Bool
is_nil [] = true
is_nil (r ∷ rest) = false

unfoldable pub is_empty : Pipe → ℕ → Run Bool
is_empty pipe fd = if ltb fd max_file_descriptors then ok (is_nil (pipe fd)) else faults

unfoldable pub lookup {ℓ} : {V : Type ℓ} → List ℕ → List (List ℕ × V) → Option V
lookup name [] = none
lookup name ((n, v) ∷ d) = if str_eq n name then some v else lookup name d

module _ {Service App : Type 0} where
  unfoldable pub add_proxy : Server Service App → List ℕ → Service → Server Service App
  unfolding lookup
  add_proxy s name service = elim (lookup name s.dictionary) [
    | none ↦ record s { dictionary = (name, service) ∷ s.dictionary }
    | some _ ↦ s
  ]

  unfoldable pub file_descriptor_event_done : ℕ → Server Service App → Run (Server Service App)
  unfolding is_empty mod_event
  file_descriptor_event_done fd s = do
    empty ← is_empty s.pipe fd
    ok (record s {
      poller = mod_event s.poller fd (if empty then flags_in_oneshot else flags_inout_oneshot);
    })

  -- After the send: what went out, or the branch on errno.
  unfoldable pub after_send : Send → ℕ → RpcResult → Server Service App → Run (Server Service App)
  after_send (sent n) fd r s = ok (record s { outbox = (fd, take n (result_bytes r)) ∷ s.outbox })
  after_send Send.would_block fd r s = ok s
  after_send Send.failed fd r s = aborts

  -- RpcResultSender::HandleWriteEvent
  unfoldable pub handle_write_event : Send → ℕ → Server Service App → Run (Server Service App)
  handle_write_event outcome fd s = do
    (result, pipe) ← read s.pipe fd
    s' ← after_send outcome fd result (record s { pipe = pipe })
    file_descriptor_event_done fd s'

  module _ (handle : Service → RpcMessage → App → Run (RpcResult × App)) where
    -- From the point where the service has been found.
    unfoldable pub serve : Service → RpcMessage → ℕ → Server Service App → Run (Server Service App)
    unfolding write
    serve service message fd s = do
      (r, app) ← handle service message s.app
      let result = record r { seqno = message.header.seqno }
      pipe ← if message.header.need_return then write s.pipe fd result else ok s.pipe
      file_descriptor_event_done fd (record s { pipe = pipe; app = app })

    -- The outcome of looking the service up.
    unfoldable pub call_service :
        Option Service → RpcMessage → ℕ → Server Service App → Run (Server Service App)
    call_service none message fd s = ok s
    call_service (some service) message fd s = serve service message fd s

    -- From the point where the body has been read.
    unfoldable pub check_message : RpcMessage → ℕ → Server Service App → Run (Server Service App)
    check_message message fd s =
        if not (message.header.magic == rpc_magic_number)
        then ok s
        else if not (message.header.version == rpc_version)
        then ok s
        else do
          servicename ← c_str message.header.servicename
          call_service (lookup servicename s.dictionary) message fd s

    -- The bytes of the body are written over the zeros of a new message.
    unfoldable pub read_body : RpcHeader → Recv → ℕ → Server Service App → Run (Server Service App)
    read_body header outcome fd s = do
      let zeros = (new_message 0).body.parameters
      parameters ← receive_into zeros outcome
      if not (recv_bytes outcome == header.body_length)
          then ok s
          else check_message (record { header = header; body = record { parameters = parameters } })
              fd s

    -- RpcRequestHandler::HandleReadEvent
    unfoldable pub handle_request_event :
        Recv → Recv → ℕ → Server Service App → Run (Server Service App)
    handle_request_event first second fd s = elim first [
      | Recv.failed ↦ aborts
      | Recv.would_block ↦ ok s
      | received bytes ↦
          if not (length bytes == sizeof_header)
          then ok s
          else read_body (header_of bytes) second fd s
    ]
