-- ===== src/Client.antt =====
-- source/transport/ClientTransport.cc, source/client/CallbacksHandler.cc, RpcClient.cc and the client
-- section of include/common/RpcServiceBase.hh, on the state that they share.
-- `S` is the state that the callbacks of the application change; a callback that makes a call of
-- its own is left out. The results of system calls are arguments.
pub mod Interest
pub mod Requests
pub mod Calls
pub mod Start
pub mod Replies
pub mod Loop
pub mod Tests
use dreamboat_rpc.Prelude.{
  ℕ, zero, suc, ◌+◌, ◌≤◌, ◌<◌, List, [], ◌∷◌, ◌++◌, Bool, true, false, ◌==◌, ltb, not,
  if◌then◌else◌, Option, none, some, length, take, set, get_elem?, replicate,
}
use dreamboat_rpc.Run.{Run, ok, aborts, faults, ◌>>=◌, or_fault}
use dreamboat_rpc.Memory.{store, strcpy, minus_one}
use dreamboat_rpc.Packet.{
  RpcMessage, RpcResult, sizeof_result, new_message, max_rpc_name_size, max_rpc_params_size,
  result_of, serialize_message,
}
use dreamboat_rpc.Params.{Codec, pack_proto_struct, parse_proto_struct}
use dreamboat_rpc.Guid.{Guid, get_guid, recycle_guid}
use dreamboat_rpc.Poller.{
  Poller, Call, close_fd, new_poller, add_event, mod_event, flags_in, flags_inout,
}
use dreamboat_rpc.Server.{Recv, received, Send, sent}

abbrev pub max_requests : ℕ
max_requests = 1024

abbrev pub max_buffer : ℕ
max_buffer = 1024

-- A callback on the bytes of a result.
abbrev pub Callback : Type 0 → Type 0
Callback S = List ℕ → S → Run S

-- CallbackFunction<T>::Exec
unfoldable pub callback_function : {T S : Type 0} → Codec T → (T → S → Run S) → Callback S
callback_function codec callback bytes s = do x ← parse_proto_struct codec bytes; callback x s

pub record Client (S : Type 0) : Type 0 where
  pub connfd : ℕ
  pub pending_requests : List RpcMessage
  pub poller : Poller
  pub initialized : Bool
  pub callbacks : List (Option (Callback S))
  pub outbox : List (List ℕ)

-- The client beside the allocator of ids, which all clients of a process share.
pub record World (S : Type 0) : Type 0 where
  pub guid : Guid
  pub client : Client S
  pub app : S

-- What went out of a buffer; a failed send is logged.
abbrev pub went_out : Send → List ℕ → List (List ℕ) → List (List ℕ)
went_out (sent n) bytes out = take n bytes ∷ out
went_out Send.would_block bytes out = out
went_out Send.failed bytes out = out

-- What the calls of ConnectTo give. A socket that a failure closes is not in the log: the process ends.
pub record Connected : Type 0 where
  pub valid_ip : Bool
  pub sockfd : ℕ
  pub receive_buffer_set : Bool
  pub send_buffer_set : Bool
  pub connected : Bool

unfoldable pub connect_to : Connected → ℕ
connect_to r =
    if not r.valid_ip
    then minus_one
    else if not (ltb r.sockfd 0x80000000)
    then minus_one
    else if not r.receive_buffer_set
    then minus_one
    else if not r.send_buffer_set
    then minus_one
    else if not r.connected
    then minus_one
    else r.sockfd

-- The request that CallRPCAsync makes, with the id that it was given.
unfoldable pub make_request : {P : Type 0} → Codec P → ℕ → ℕ → List ℕ → P → Run RpcMessage
make_request codec padding id name param = do
  let m = new_message padding
  servicename ← strcpy m.header.servicename 0 (name ++ 0 ∷ [])
  (size, parameters) ← pack_proto_struct codec m.body.parameters param
  ok (record {
    header = record (m.header) { seqno = id; body_length = size; servicename = servicename };
    body = record { parameters = parameters };
  })

module _ {S : Type 0} where
  -- The members of a new RpcClient.
  abbrev pub new_client : Client S
  new_client = record {
    connfd = minus_one;
    pending_requests = [];
    poller = new_poller false;
    initialized = false;
    callbacks = replicate max_requests none;
    outbox = [];
  }

  -- ClientTransport::Push
  unfoldable pub push : RpcMessage → Client S → Run (Client S)
  unfolding mod_event
  push message c =
      if c.connfd == minus_one
      then aborts
      else ok (record c {
        pending_requests = c.pending_requests ++ message ∷ [];
        poller = mod_event c.poller c.connfd flags_inout;
      })

  -- ClientTransport::Send, from a local buffer that is zero here.
  unfoldable pub send : Send → RpcMessage → Client S → Run (Client S)
  send outcome message c = do
    (size, buf) ← serialize_message message (replicate max_buffer 0)
    ok (record c { outbox = went_out outcome (take size buf) c.outbox })

  unfoldable pub send_front : Send → List RpcMessage → Client S → Run (Client S)
  unfolding send
  send_front outcome [] c = ok c
  send_front outcome (m ∷ rest) c = do
    c' ← send outcome m c
    ok (record c' { pending_requests = rest })

  unfoldable pub stop_watching : List RpcMessage → Client S → Client S
  unfolding mod_event
  stop_watching [] c = record c { poller = mod_event c.poller c.connfd flags_in }
  stop_watching (m ∷ rest) c = c

  -- ClientTransport::HandleWriteEvent
  unfoldable pub handle_write_event : Send → ℕ → Client S → Run (Client S)
  handle_write_event outcome fd c = if not (fd == c.connfd) then aborts else do
    c' ← send_front outcome c.pending_requests c
    ok (stop_watching c'.pending_requests c')

  -- ClientTransport::HandleCloseEvent
  unfoldable pub handle_close_event : ℕ → Client S → Run (Client S)
  handle_close_event fd c = aborts

  -- RpcClient::Initialize, with ClientTransport::Connect.
  unfoldable pub initialize : Connected → Client S → Run (Client S)
  unfolding add_event
  initialize r c =
      let fd = connect_to r in
      if not (ltb fd 0x80000000)
      then aborts
      else ok
          (record c { connfd = fd; poller = add_event c.poller fd flags_in; initialized = true })

  -- RpcClient::SendRequest
  unfoldable pub send_request : RpcMessage → Client S → Run (Client S)
  send_request message c = if not c.initialized then ok c else push message c

  -- CallbacksHandler::Register
  unfoldable pub register : ℕ → Callback S → Client S → Run (Client S)
  register seqno callback c =
      if ltb seqno (length c.callbacks)
      then ok (record c { callbacks = set c.callbacks seqno (some callback) })
      else faults

  -- AsyncInvoke: `attached` tells whether the proxy has a client.
  unfoldable pub async_invoke : Bool → RpcMessage → Callback S → Client S → Run (Client S)
  async_invoke attached message callback c = if not attached then ok c else do
    c' ← register message.header.seqno callback c
    send_request (record message { header = record (message.header) { need_return = true } }) c'

  unfoldable pub invoke_with :
      {P : Type 0}
      → Codec P
      → Bool
      → ℕ
      → List ℕ
      → P
      → Callback S
      → Option ℕ × Guid
      → World S
      → Run (World S)
  invoke_with codec attached padding name param callback (none, g) w = ok (record w { guid = g })
  invoke_with codec attached padding name param callback (some id, g) w = do
    m ← make_request codec padding id name param
    c ← async_invoke attached m callback w.client
    ok (record w { guid = g; client = c })

  -- CallRPCAsync
  unfoldable pub call_rpc_async :
      {P : Type 0} → Codec P → Bool → ℕ → List ℕ → P → Callback S → World S → Run (World S)
  call_rpc_async codec attached padding name param callback w = do
    r ← get_guid w.guid
    invoke_with codec attached padding name param callback r w

  -- From the point where the result has been received: run the callback of its seqno, clear the
  -- entry, recycle the id.
  unfoldable pub finish : RpcResult → World S → Run (World S)
  finish res w = do
    slot ← or_fault (get_elem? w.client.callbacks res.seqno)
    callback ← or_fault slot
    app ← callback res.return_buffer w.app
    g ← recycle_guid w.guid res.seqno
    ok (record w {
      guid = g;
      client = record (w.client) { callbacks = set w.client.callbacks res.seqno none };
      app = app;
    })

  -- CallbacksHandler::HandleReadEvent: what recv brings is written over a zeroed result.
  unfoldable pub handle_read_event : Recv → World S → Run (World S)
  unfolding finish
  handle_read_event (received bytes) w = do
    image ← store (replicate sizeof_result 0) 0 bytes
    finish (result_of image) w
  handle_read_event Recv.would_block w = ok w
  handle_read_event Recv.failed w = ok w
