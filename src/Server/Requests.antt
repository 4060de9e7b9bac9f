-- ===== src/Server/Requests.antt =====
-- What RpcRequestHandler does with the request of a read event.
use dreamboat_rpc.Prelude.{
  ℕ, ◌+◌, ◌≤◌, ◌<◌, ◌≡◌, ◌≢◌, refl, ap, ◌∙◌, List, [], ◌∷◌, ◌++◌, Bool, true, false, arith, ◌==◌,
  if◌then◌else◌, none, some, length, drop, replicate, lt→ltb, ==_refl,
}
use dreamboat_rpc.Run.{Run, ok, faults, ◌>>=◌, Returns, returns, Returns-bind, Returns-map}
use dreamboat_rpc.Memory.{c_str, minus_one}
use dreamboat_rpc.Memory.Laws.{store_front, store-faults}
use dreamboat_rpc.Packet.{
  RpcHeader, RpcMessage, RpcResult, rpc_magic_number, rpc_version, sizeof_header,
  max_rpc_params_size, header_of, header_bytes, IsHeader,
}
use dreamboat_rpc.Packet.RoundTrip.{header_of-header_bytes, length-header_bytes}
use dreamboat_rpc.Events.{max_file_descriptors}
use dreamboat_rpc.Server.{
  Recv, received, Pipe, Server, write, lookup, serve, receive_into, call_service, check_message,
  read_body, handle_request_event,
}
use dreamboat_rpc.Server.Rearm.{Rearmed, done-Rearmed}

-- A request that was served: the state of the service, the queue of results, the new arming.
pub record Served {Service App : Type 0} (fd : ℕ) (needed : Bool) (r : RpcResult) (app : App)
    (s s' : Server Service App) : Type 0 where
  pub app_lem : s'.app ≡ app
  pub queued : s'.pipe fd ≡ (if needed then s.pipe fd ++ r ∷ [] else s.pipe fd)
  pub others : (k : ℕ) → fd ≢ k → s'.pipe k ≡ s.pipe k
  pub rearmed : Rearmed fd s s'
  pub outbox : s'.outbox ≡ s.outbox
  pub table : s'.table ≡ s.table
  pub dictionary : s'.dictionary ≡ s.dictionary

-- The queue of a descriptor grows at its end if a result is wanted; no other changes.
queue-Queued :
    (needed : Bool) (pipe : Pipe) (fd : ℕ) (r : RpcResult)
    → fd < max_file_descriptors
    → Returns
        (λ pipe'.
          (pipe' fd ≡ (if needed then pipe fd ++ r ∷ [] else pipe fd))
          × ((k : ℕ) → fd ≢ k → pipe' k ≡ pipe k))
        (if needed then write pipe fd r else ok pipe)
unfolding write
queue-Queued true pipe fd r h =
    rw (lt→ltb fd max_file_descriptors h) (returns (rw (==_refl fd), λ k ne. ground arith))
queue-Queued false pipe fd r h = returns (refl, λ k ne. refl)

-- The message that the server makes of a header and a body.
abbrev pub message_of : RpcHeader → List ℕ → RpcMessage
message_of h body = record {
  header = h;
  body = record { parameters = body ++ drop (length body) (replicate max_rpc_params_size 0) };
}

module _ {Service App : Type 0} where
  module _ (handle : Service → RpcMessage → App → Run (RpcResult × App)) where
    pub serve-Served :
        (service : Service) (m : RpcMessage) (fd : ℕ) (s : Server Service App)
        → (r : RpcResult) (app : App) → fd < max_file_descriptors
        → handle service m s.app ≡ ok (r, app)
        → Returns
            (Served fd m.header.need_return (record r { seqno = m.header.seqno }) app s)
            (serve handle service m fd s)
    unfolding serve
    serve-Served service m fd s r app h e =
        let result = record r { seqno = m.header.seqno } in
        rw e (
          Returns-bind (queue-Queued m.header.need_return s.pipe fd result h) λ pipe q.
            Returns-map (done-Rearmed fd (record s { pipe = pipe; app = app }) h) λ s' (a, same).
              record {
                app_lem = ap (λ (t : Server Service App). t.app) same;
                queued = ap (λ (t : Server Service App). t.pipe fd) same ∙ q.0;
                others = λ k ne. ap (λ (t : Server Service App). t.pipe k) same ∙ q.1 k ne;
                rearmed = record {
                  flags = a.flags;
                  called = a.called;
                  output = a.output;
                  input = a.input;
                  oneshot = a.oneshot;
                };
                outbox = ap (λ (t : Server Service App). t.outbox) same;
                table = ap (λ (t : Server Service App). t.table) same;
                dictionary = ap (λ (t : Server Service App). t.dictionary) same;
              })

    -- A whole request of this protocol goes to the service of its name.
    pub handle_request_event-packet :
        (h : RpcHeader) (body : List ℕ) (fd : ℕ) (s : Server Service App)
        → IsHeader h
        → h.magic ≡ rpc_magic_number
        → h.version ≡ rpc_version
        → length body ≡ h.body_length
        → h.body_length ≤ max_rpc_params_size
        → handle_request_event handle (received (header_bytes h)) (received body) fd s
          ≡ c_str h.servicename >>= λ name.
              call_service handle (lookup name s.dictionary) (message_of h body) fd s
    unfolding handle_request_event read_body receive_into check_message
    handle_request_event-packet h body fd s v magic version size short =
        let zeros : List ℕ = replicate max_rpc_params_size 0 in
        let room : length body ≤ length zeros = omega arith in
        let whole : (length body == h.body_length) ≡ true = ground arith in
        let ours : (h.magic == rpc_magic_number) ≡ true = ground arith in
        let current : (h.version == rpc_version) ≡ true = ground arith in
        rw (
          length-header_bytes h v,
          header_of-header_bytes h v,
          store_front zeros body room,
          whole,
          ours,
          current,
        )

    -- A request with a header of this protocol, a body as long as the header says that fits the
    -- buffer, and the name of a registered service, on a descriptor below 65536, is served if the
    -- service's Handle returns: its result, under the request's seqno, is queued last for this
    -- descriptor if a result is wanted, the other queues stay, and the descriptor is armed again,
    -- for output exactly if its queue is not empty.
    pub handle_request_event-serves :
        (h : RpcHeader) (body name : List ℕ) (service : Service) (fd : ℕ)
        → (s : Server Service App) (r : RpcResult) (app : App) → IsHeader h
        → h.magic ≡ rpc_magic_number
        → h.version ≡ rpc_version
        → length body ≡ h.body_length
        → h.body_length ≤ max_rpc_params_size
        → c_str h.servicename ≡ ok name
        → lookup name s.dictionary ≡ some service
        → fd < max_file_descriptors
        → handle service (message_of h body) s.app ≡ ok (r, app)
        → Returns
            (Served fd h.need_return (record r { seqno = h.seqno }) app s)
            (handle_request_event handle (received (header_bytes h)) (received body) fd s)
    unfolding call_service
    handle_request_event-serves h body name service fd s r app v magic version size short named
          found small handled =
        rw (handle_request_event-packet h body fd s v magic version size short, named, found)
          (serve-Served service (message_of h body) fd s r app small handled)

    -- With a body that fits the buffer: for a header that is short, or a body that is not as long
    -- as the header says, or a foreign magic number or version, or an unknown service, the request
    -- is dropped, and the state, the arming of the descriptor included, stays as it is.
    pub handle_request_event-drops :
        (first : List ℕ) (second : List ℕ) (name : List ℕ) (fd : ℕ) (s : Server Service App)
        → length second ≤ max_rpc_params_size
        → let h = header_of first in
          let run = handle_request_event handle (received first) (received second) fd s in
          (length first ≢ sizeof_header → run ≡ ok s)
          × (length second ≢ h.body_length → run ≡ ok s)
          × (h.magic ≢ rpc_magic_number → run ≡ ok s)
          × (h.version ≢ rpc_version → run ≡ ok s)
          × (c_str h.servicename ≡ ok name → lookup name s.dictionary ≡ none → run ≡ ok s)
    unfolding handle_request_event read_body receive_into check_message call_service
    handle_request_event-drops first second name fd s room =
        let zeros : List ℕ = replicate max_rpc_params_size 0 in
        let fits : length second ≤ length zeros = omega arith in
        let filled = store_front zeros second fits in
        (
          λ e. ground (arith, filled),
          λ e. ground (arith, filled),
          λ e. ground (arith, filled),
          λ e. ground (arith, filled),
          λ named unknown. ground (arith, filled),
        )

    -- After a complete header, a body longer than the buffer of the message is written past its
    -- end.
    pub handle_request_event-overflows :
        (first second : List ℕ) (fd : ℕ) (s : Server Service App)
        → length first ≡ sizeof_header
        → max_rpc_params_size < length second
        → handle_request_event handle (received first) (received second) fd s ≡ faults
    unfolding handle_request_event read_body receive_into
    handle_request_event-overflows first second fd s size long =
        let zeros : List ℕ = replicate max_rpc_params_size 0 in
        let over : length zeros < 0 + length second = omega arith in
        ground (arith, store-faults zeros 0 second over)

    -- A header with a body length of -1 and no body behind it: the request goes on with a body of
    -- zeros.
    pub handle_request_event-bodiless :
        (h : RpcHeader) (fd : ℕ) (s : Server Service App)
        → IsHeader h
        → h.body_length ≡ minus_one
        → handle_request_event handle (received (header_bytes h)) Recv.would_block fd s
          ≡ check_message handle
              (record {
                header = h;
                body = record { parameters = replicate max_rpc_params_size 0 };
              })
              fd
              s
    unfolding handle_request_event read_body receive_into
    handle_request_event-bodiless h fd s v negative =
        let same : (minus_one == h.body_length) ≡ true = ground arith in
        rw (length-header_bytes h v, header_of-header_bytes h v, same)

    -- A header of this protocol with a body length of -1, the name of a registered service, and no
    -- body behind it, on a descriptor below 65536: the -1 that recv returns passes for that
    -- length, and if the service's Handle returns on a body of zeros, that result is queued under
    -- the request's seqno, and the descriptor is armed again, as for a whole request.
    pub handle_request_event-bodiless_Served :
        (h : RpcHeader) (name : List ℕ) (service : Service) (fd : ℕ)
        → (s : Server Service App) (r : RpcResult) (app : App) → IsHeader h
        → h.body_length ≡ minus_one
        → h.magic ≡ rpc_magic_number
        → h.version ≡ rpc_version
        → c_str h.servicename ≡ ok name
        → lookup name s.dictionary ≡ some service
        → fd < max_file_descriptors
        → handle service
            (record { header = h; body = record { parameters = replicate max_rpc_params_size 0 } })
            s.app
          ≡ ok (r, app)
        → Returns
            (Served fd h.need_return (record r { seqno = h.seqno }) app s)
            (handle_request_event handle (received (header_bytes h)) Recv.would_block fd s)
    unfolding check_message call_service
    handle_request_event-bodiless_Served h name service fd s r app v negative magic version named
          found small handled =
        let ours : (h.magic == rpc_magic_number) ≡ true = ground arith in
        let current : (h.version == rpc_version) ≡ true = ground arith in
        rw (handle_request_event-bodiless h fd s v negative, ours, current, named, found)
          (serve-Served service
            (record { header = h; body = record { parameters = replicate max_rpc_params_size 0 } })
            fd s r app small handled)
