-- ===== src/Connection/Reached.antt =====
-- The states that a connection reaches, and what comes in next in each of them.
use dreamboat_rpc.Prelude.{ℕ, ◌<◌, ◌≡◌, ◌≢◌, List, [], some, length, take}
use dreamboat_rpc.Run.{Run, ok, Returns}
use dreamboat_rpc.Packet.{RpcMessage, RpcResult, sizeof_result, max_rpc_return_value, result_bytes}
use dreamboat_rpc.Events.{max_file_descriptors}
use dreamboat_rpc.Client.{Callback}
use dreamboat_rpc.Client.Calls
use dreamboat_rpc.Client.Calls.{Finished, finish-Finished}
use dreamboat_rpc.Connection.{
  Connection, Step, deliver_next, call, send, lose_request, serve, reply, lose_result, deliver,
}
use dreamboat_rpc.Connection.UnderWay.{Given, Arming, Inv}
use dreamboat_rpc.Connection.Calling.{call-Inv, send-Inv, lose_request-Inv}
use dreamboat_rpc.Connection.Answering.{serve-Inv, reply-Inv, lose_result-Inv}
use dreamboat_rpc.Connection.Delivering.{
  first_result, seqno, registered, low, deliver_next-finish, deliver-Inv,
}

-- The client in order, and nothing under way.
pub record Starts {S Service App : Type 0} (dictionary : List (List ℕ × Service)) (fd : ℕ)
    (c : Connection S Service App) : Type 0 where
  pub world : Calls.Inv c.world
  pub dictionary_lem : c.server.dictionary ≡ dictionary
  pub pending : c.world.client.pending_requests ≡ []
  pub queue : c.server.pipe fd ≡ []
  pub inbound : c.to_server ≡ []
  pub outbound : c.to_client ≡ []
  pub arming : Arming fd c.server

module _ {S Service App : Type 0} (handle : Service → RpcMessage → App → Run (RpcResult × App))
    (dictionary : List (List ℕ × Service)) (fd : ℕ) where
  pub data Reach : Connection S Service App → Type 1 where
    start : {c : Connection S Service App} → Starts dictionary fd c → Reach c
    next : {c c' : Connection S Service App} → Reach c → Step handle fd c c' → Reach c'

  Starts-Inv : (c : Connection S Service App) → Starts dictionary fd c → Inv handle dictionary fd c
  Starts-Inv c v = record {
    world = v.world;
    dictionary_lem = v.dictionary_lem;
    requests = [];
    results = [];
    inbound = v.inbound;
    outbound = v.outbound;
    arming = v.arming;
    sound = rw (v.queue, v.pending) (tt, tt);
  }

  module _
      (sized : (service : Service) (m : RpcMessage) (a : App) (r : RpcResult) (a' : App)
        → handle service m a ≡ ok (r, a')
        → length r.return_buffer ≡ max_rpc_return_value)
      (small : fd < max_file_descriptors) where
    pub Step-Inv :
        {c c' : Connection S Service App}
        → Inv handle dictionary fd c
        → Step handle fd c c'
        → Inv handle dictionary fd c'
    Step-Inv {c} i (call codec padding id g name param callback w v narrow given ran) =
        call-Inv handle dictionary fd c i codec padding id g name param callback w v narrow given
          ran
    Step-Inv {c} i (send client m rest packet watches waiting ran out) =
        send-Inv handle dictionary fd c i client m rest waiting packet ran out
    Step-Inv {c} i (lose_request client m rest watches waiting ran) =
        lose_request-Inv handle dictionary fd c i client m rest waiting ran
    Step-Inv {c} i (serve f s on able some_packet ran) =
        serve-Inv handle dictionary fd c i small sized s ran some_packet
    Step-Inv {c} i (reply f s r rest answer on able waiting ran out) =
        reply-Inv handle dictionary fd c i small s r rest waiting answer ran out
    Step-Inv {c} i (lose_result f s r rest on able waiting ran) =
        lose_result-Inv handle dictionary fd c i small s r rest waiting ran
    Step-Inv {c} i (deliver w hears some_result ran) =
        deliver-Inv handle dictionary fd c i w some_result ran

    -- In every state that a connection below descriptor 65536 reaches by events, losses, and calls
    -- of names and parameters that fit their buffers and have no zero byte, to services whose
    -- results have 480 bytes: the client is in order; the bytes on the way are whole requests and
    -- whole results; each request and result that waits or travels belongs to a call whose
    -- callback is registered, and no id occurs twice among them; the descriptor, if armed, is
    -- armed for one event, of input, or of output exactly while results wait.
    pub Reach-Inv : {c : Connection S Service App} → Reach c → Inv handle dictionary fd c
    Reach-Inv (start {c = c} v) = Starts-Inv c v
    Reach-Inv (next r s) = Step-Inv (Reach-Inv r) s

    -- After any interleaving of events and of calls of names and parameters that fit their buffers
    -- and have no zero byte, on one connection below descriptor 65536, losses of whole packets
    -- included, from a client in order with nothing under way, to services whose results have 480
    -- bytes: when bytes come in for the client, the first 484 are a whole result, it is what the
    -- service that its request names gave for the message of the call under that id, and if that
    -- call's callback returns on it, the client's read event returns: the callback has run once,
    -- its entry is cleared and the others stay, the id is free, and the client is in order.
    pub deliver_next-finds :
        (c : Connection S Service App)
        → Reach c
        → c.to_client ≢ []
        → (r : RpcResult) × (m : RpcMessage) × (callback : Callback S) × (take sizeof_result
              c.to_client
            ≡ result_bytes r)
          × (c.asked r.seqno ≡ some (record { message = m; callback = callback }))
          × Given handle dictionary m r
          × ((app : S)
              → callback r.return_buffer c.world.app ≡ ok app
              → Returns (Finished r app c.world) (deliver_next c))
    deliver_next-finds c reached some_result =
        let i = Reach-Inv reached in
        let n = first_result handle dictionary fd c i some_result in
        let is = seqno handle dictionary fd c i n in
        (
          n.result,
          n.message,
          n.waits.callback,
          n.bytes,
          rw is n.waits.known,
          n.given,
          λ app ran. rw (deliver_next-finish handle dictionary fd c i n) (
              finish-Finished n.result c.world n.waits.callback app i.world
                (low handle dictionary fd c i n) (registered handle dictionary fd c i n) ran),
        )
