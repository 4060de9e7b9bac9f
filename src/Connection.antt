-- ===== src/Connection.antt =====
-- The client and the server on one connection: any number of calls, with the events of both sides
-- in any order. Code of source/client, source/server and source/transport, as Client and Server model it.
-- The two directions of the connection are the bytes that were sent and not yet received. A
-- step is one call, or one event of one side; the server gets an event of the descriptor only while
-- it is armed for it, the client while it watches for it. A call is of a name and a parameter that fit
-- their buffers and have no zero byte. A recv is given all that has come in, as far as it asks for it,
-- and a send takes the packet whole or not at all.
pub mod Lists
pub mod UnderWay
pub mod Moves
pub mod Kept
pub mod Calling
pub mod Answering
pub mod Delivering
pub mod Reached
pub mod Progress
pub mod Nearer
pub mod Drained
pub mod Silent
mod Tests
pub mod Serving
use dreamboat_rpc.Prelude.{
  ℕ, ◌<◌, ◌^◌, ◌≡◌, ◌≢◌, List, [], ◌∷◌, ◌++◌, Bool, true, false, ◌==◌, if◌then◌else◌, Option, none,
  some, take, drop,
}
use dreamboat_rpc.Run.{Run, ok}
use dreamboat_rpc.Packet.{RpcMessage, RpcResult, sizeof_header, sizeof_result, header_of}
use dreamboat_rpc.Params.{Codec}
use dreamboat_rpc.Guid.{Guid, get_guid}
use dreamboat_rpc.Server
use dreamboat_rpc.Server.{Server, Send, received, sent, handle_request_event}
use dreamboat_rpc.Server.Loop.{armed, delivered}
use dreamboat_rpc.Poller.{Flags}
use dreamboat_rpc.Client
use dreamboat_rpc.Client.{Callback, Client, World, max_buffer, call_rpc_async, handle_read_event}
use dreamboat_rpc.Client.Interest.{watched, heard}
use dreamboat_rpc.Client.Requests.{CanSend, request}

-- What a call asks: its request, and the callback for its answer.
pub record Asked (S : Type 0) : Type 0 where
  pub message : RpcMessage
  pub callback : Callback S

-- `asked` is the last call under each id; the program keeps no such record.
pub record Connection (S Service App : Type 0) : Type 0 where
  pub world : World S
  pub server : Server Service App
  pub to_server : List ℕ
  pub to_client : List ℕ
  pub asked : ℕ → Option (Asked S)

abbrev pub with_asked : {S : Type 0} → (ℕ → Option (Asked S)) → ℕ → Asked S → ℕ → Option (Asked S)
with_asked asked id a k = if id == k then some a else asked k

-- The body that the server asks for, once it has read a header from these bytes.
abbrev pub body_size : List ℕ → ℕ
body_size bytes = (header_of (take sizeof_header bytes)).body_length

module _ {S Service App : Type 0} where
  abbrev pub with_client : Connection S Service App → Client S → Connection S Service App
  with_client c client = record c { world = record (c.world) { client = client } }

  -- The client's read event, with a result on its way.
  unfoldable pub deliver_next : Connection S Service App → Run (World S)
  deliver_next c = handle_read_event (received (take sizeof_result c.to_client)) c.world

module _ {S Service App : Type 0} (handle : Service → RpcMessage → App → Run (RpcResult × App))
    (fd : ℕ) where
  -- The server's read event, with a packet on its way.
  unfoldable pub serve_next : Connection S Service App → Run (Server Service App)
  serve_next c =
      let rest = drop sizeof_header c.to_server in
      handle_request_event handle (received (take sizeof_header c.to_server))
        (received (take (body_size c.to_server) rest)) fd (delivered c.server fd)

  pub data Step (c : Connection S Service App) : Connection S Service App → Type 1 where
    call :
        {P : Type 0} (codec : Codec P) (padding id : ℕ) (g : Guid) (name : List ℕ)
        → (param : P) (callback : Callback S) (w : World S) → CanSend codec name param
        → padding < 2 ^ 24
        → get_guid c.world.guid ≡ ok (some id, g)
        → call_rpc_async codec true padding name param callback c.world ≡ ok w
        → Step c (record c {
          world = w;
          asked =
              with_asked c.asked id (record {
                message = request codec true padding id name param;
                callback = callback;
              });
        })
    send :
        (client : Client S) (m : RpcMessage) (rest : List RpcMessage) (packet : List ℕ)
        → watched c.world.client.poller.calls c.world.client.connfd ≡ true
        → c.world.client.pending_requests ≡ m ∷ rest
        → dreamboat_rpc.Client.handle_write_event
            (sent max_buffer)
            c.world.client.connfd
            c.world.client
          ≡ ok client
        → client.outbox ≡ packet ∷ c.world.client.outbox
        → Step c (record (with_client c client) { to_server = c.to_server ++ packet })
    lose_request :
        (client : Client S) (m : RpcMessage) (rest : List RpcMessage)
        → watched c.world.client.poller.calls c.world.client.connfd ≡ true
        → c.world.client.pending_requests ≡ m ∷ rest
        → dreamboat_rpc.Client.handle_write_event Send.would_block c.world.client.connfd
            c.world.client
          ≡ ok client
        → Step c (with_client c client)
    serve :
        (f : Flags) (s : Server Service App)
        → armed c.server.poller.calls fd ≡ some f
        → f.input ≡ true
        → c.to_server ≢ []
        → serve_next c ≡ ok s
        → Step c (record c {
          server = s;
          to_server = drop (body_size c.to_server) (drop sizeof_header c.to_server);
        })
    reply :
        (f : Flags) (s : Server Service App) (r : RpcResult) (rest : List RpcResult)
        → (answer : List ℕ) → armed c.server.poller.calls fd ≡ some f
        → f.output ≡ true
        → c.server.pipe fd ≡ r ∷ rest
        → dreamboat_rpc.Server.handle_write_event (sent sizeof_result) fd (delivered c.server fd)
          ≡ ok s
        → s.outbox ≡ (fd, answer) ∷ c.server.outbox
        → Step c (record c { server = s; to_client = c.to_client ++ answer })
    lose_result :
        (f : Flags) (s : Server Service App) (r : RpcResult) (rest : List RpcResult)
        → armed c.server.poller.calls fd ≡ some f
        → f.output ≡ true
        → c.server.pipe fd ≡ r ∷ rest
        → dreamboat_rpc.Server.handle_write_event Send.would_block fd (delivered c.server fd) ≡ ok s
        → Step c (record c { server = s })
    deliver :
        (w : World S)
        → heard c.world.client.poller.calls c.world.client.connfd ≡ true
        → c.to_client ≢ []
        → deliver_next c ≡ ok w
        → Step c (record c { world = w; to_client = drop sizeof_result c.to_client })

  -- The steps that bring something on: no call, no loss.
  abbrev pub is_event : {c c' : Connection S Service App} → Step c c' → Bool
  is_event (call codec padding id g name param callback w v small given ran) = false
  is_event (lose_request client m rest on waiting ran) = false
  is_event (lose_result f s r rest on able waiting ran) = false
  is_event (send client m rest packet on waiting ran out) = true
  is_event (serve f s on able some_packet ran) = true
  is_event (reply f s r rest answer on able waiting ran out) = true
  is_event (deliver w hears some_result ran) = true
