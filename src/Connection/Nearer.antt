-- ===== src/Connection/Nearer.antt =====
-- Each event of a connection in order is possible when its packet waits, and brings the packet on.
use dreamboat_rpc.Prelude.{
  ℕ, ◌≤◌, ◌<◌, ◌≡◌, ◌≢◌, refl, ap, sym, ◌∙◌, subst, List, [], ◌∷◌, ◌++◌, true, not, arith, some,
  length, take, drop, length-append, length-drop, length-take, take-past,
}
use dreamboat_rpc.Run.{Run, ok, Returns, Returns-inv, Returns-map, Returns-at}
use dreamboat_rpc.Packet.{RpcMessage, RpcResult, sizeof_header, sizeof_result, result_bytes}
use dreamboat_rpc.Packet.RoundTrip.{packet_bytes, length-packet_bytes, length-result_bytes}
use dreamboat_rpc.Events.{max_file_descriptors}
use dreamboat_rpc.Poller.{Flags}
use dreamboat_rpc.Server.Loop.{armed, delivered}
use dreamboat_rpc.Server.{Server, is_nil, sent, lookup, call_service}
use dreamboat_rpc.Server.Results.{handle_write_event-takes}
use dreamboat_rpc.Server
use dreamboat_rpc.Client.{Client, World, max_buffer, handle_write_event}
use dreamboat_rpc.Client.Calls.{finish-Finished}
use dreamboat_rpc.Client.Interest.{nothing_waits, handle_write_event-sends}
use dreamboat_rpc.Connection.{
  Connection, Step, with_client, body_size, is_event, call, send, lose_request, serve, reply,
  lose_result, deliver, serve_next, deliver_next,
}
use dreamboat_rpc.Connection.UnderWay.{IsCall, Inv}
use dreamboat_rpc.Connection.Calling.{is_call}
use dreamboat_rpc.Connection.Answering.{Rearmed-armed, head_of, is_result, first_request}
use dreamboat_rpc.Connection.Serving.{serve_next-packets}
use dreamboat_rpc.Connection.Delivering.{first_result, registered, low, deliver_next-finish}
use dreamboat_rpc.Connection.Progress.{
  distance, nonempty, sizeof_packets, CallbacksReturn, ServicesKnown, IsArmed, Answered,
  call_service-Returns,
}

module _ {S Service App : Type 0} (handle : Service → RpcMessage → App → Run (RpcResult × App))
    (dictionary : List (List ℕ × Service)) (fd : ℕ) (c : Connection S Service App)
    (i : Inv handle dictionary fd c) (flags : Flags)
    (on : armed c.server.poller.calls fd ≡ some flags) where
  -- A state nearer to rest, with the same calls and services.
  pub record Nearer (c' : Connection S Service App) : Type 1 where
    pub nearer : distance fd c' < distance fd c
    pub asked : c'.asked ≡ c.asked
    pub dictionary_lem : c'.server.dictionary ≡ c.server.dictionary
    pub alive : IsArmed fd c'

  -- An event that is possible.
  pub record CanGoOn : Type 1 where
    pub onward : Connection S Service App
    pub step : Step handle fd c onward
    pub event : is_event handle fd step ≡ true

  send-Nearer :
      (client : Client S) (m : RpcMessage) (rest : List RpcMessage) (packet : List ℕ)
      → c.world.client.pending_requests ≡ m ∷ rest
      → handle_write_event (sent max_buffer) c.world.client.connfd c.world.client ≡ ok client
      → client.outbox ≡ packet ∷ c.world.client.outbox
      → Nearer (record (with_client c client) { to_server = c.to_server ++ packet })
  send-Nearer client m rest packet waiting ran out =
      let (transport, queued, went, same) =
        Returns-at
          (handle_write_event-sends (sent max_buffer) c.world.client m rest i.world.transport
            waiting)
          ran in
      let is = is_call handle dictionary fd c i client m rest waiting in
      let bytes = length-packet_bytes m is.message is.short in
      let whole = take-past max_buffer (packet_bytes m) (omega (arith, bytes, is.short)) in
      let sizes = length-append c.to_server packet in
      let long = ap length (head_of (sym out ∙ went) ∙ whole) in
      record {
        nearer = omega (arith, sizes, ap length waiting, ap length queued, long, bytes, is.short);
        asked = refl;
        dictionary_lem = refl;
        alive = (flags, on);
      }

  pub sends :
      (m : RpcMessage) (rest : List RpcMessage)
      → c.world.client.pending_requests ≡ m ∷ rest
      → CanGoOn
  sends m rest waiting =
      let (client, ran, (transport, queued, out, same)) = Returns-inv (
        handle_write_event-sends (sent max_buffer) c.world.client m rest i.world.transport
          waiting) in
      record {
        onward = record (with_client c client) {
          to_server = c.to_server ++ take max_buffer (packet_bytes m);
        };
        step =
            send client m rest (take max_buffer (packet_bytes m))
              (i.world.transport.watching ∙ ap (λ q. not (nothing_waits q)) waiting) waiting ran
              out;
        event = refl;
      }

  module _ (small : fd < max_file_descriptors) where
    reply-Nearer :
        (s : Server Service App) (r : RpcResult) (rest : List RpcResult) (answer : List ℕ)
        → c.server.pipe fd ≡ r ∷ rest
        → dreamboat_rpc.Server.handle_write_event (sent sizeof_result) fd (delivered c.server fd)
          ≡ ok s
        → s.outbox ≡ (fd, answer) ∷ c.server.outbox
        → Nearer (record c { server = s; to_client = c.to_client ++ answer })
    reply-Nearer s r rest answer waiting ran out =
        let (taken, went) =
          Returns-at
            ((handle_write_event-takes fd (delivered c.server fd) r rest small waiting).0
              sizeof_result)
            ran in
        let whole =
          length-result_bytes r (is_result handle dictionary fd c i small s r rest waiting) in
        let long : length (take sizeof_result (result_bytes r)) ≡ 484 =
          length-take sizeof_result (result_bytes r) (omega (arith, whole)) in
        let same : answer ≡ take sizeof_result (result_bytes r) =
          ap (λ p. p.1) (head_of (sym out ∙ went)) in
        let sizes = length-append c.to_client answer in
        record {
          nearer =
              omega
                (arith, sizes, ap length waiting, ap length taken.queued, ap length same ∙ long);
          asked = refl;
          dictionary_lem = taken.dictionary;
          alive = (taken.rearmed.flags, Rearmed-armed fd _ s taken.rearmed);
        }

    pub replies : (r : RpcResult) (rest : List RpcResult) → c.server.pipe fd ≡ r ∷ rest → CanGoOn
    replies r rest waiting =
        let (s, ran, (taken, out)) = Returns-inv (
          (handle_write_event-takes fd (delivered c.server fd) r rest small waiting).0
            sizeof_result) in
        let able = (i.arming flags on).1 ∙ ap (λ q. not (is_nil q)) waiting in
        let answer = take sizeof_result (result_bytes r) in
        record {
          onward = record c { server = s; to_client = c.to_client ++ answer };
          step = reply flags s r rest answer on able waiting ran out;
          event = refl;
        }

    module _ (known : ServicesKnown c)
        (total : (service : Service) (m : RpcMessage) (a : App)
          → IsCall m
          → Returns (λ r. Unit {0}) (handle service m a)) where
      serve_next-Answered :
          c.to_server ≢ []
          → Returns (Answered fd (delivered c.server fd)) (serve_next handle fd c)
            × (sizeof_header ≤ length c.to_server)
      serve_next-Answered some_packet =
          let (m, ms, is, waits, inbound) = first_request handle dictionary fd c i some_packet in
          let (service, found) = known m.header.seqno _ is.name waits.known is.named in
          let run = sym (serve_next-packets m ms is handle fd c inbound) in
          (
            subst (Returns (Answered fd (delivered c.server fd))) run (
                rw is.named (
                  call_service-Returns handle fd m is small (delivered c.server fd) is.name service
                    found total)),
            sizeof_packets m ms is c.to_server inbound,
          )

      serve-Nearer :
          (s : Server Service App)
          → c.to_server ≢ []
          → serve_next handle fd c ≡ ok s
          → Nearer (record c {
            server = s;
            to_server = drop (body_size c.to_server) (drop sizeof_header c.to_server);
          })
      serve-Nearer s some_packet ran =
          let (answered, head) = serve_next-Answered some_packet in
          let (more, again, kept) = Returns-at answered ran in
          let sizes = length-drop (body_size c.to_server) (drop sizeof_header c.to_server) in
          let first = length-drop sizeof_header c.to_server in
          record {
            nearer = omega (arith, sizes, first, head, more);
            asked = refl;
            dictionary_lem = kept;
            alive = (again.flags, Rearmed-armed fd _ s again);
          }

      pub serves : c.to_server ≢ [] → CanGoOn
      serves some_packet =
          let (s, ran, facts) = Returns-inv (serve_next-Answered some_packet).0 in
          record {
            onward = record c {
              server = s;
              to_server = drop (body_size c.to_server) (drop sizeof_header c.to_server);
            };
            step = serve flags s on (i.arming flags on).0 some_packet ran;
            event = refl;
          }

  module _ (back : CallbacksReturn c) where
    deliver_next-Finished :
        c.to_client ≢ []
        → Returns
            (λ w. length w.client.pending_requests ≡ length c.world.client.pending_requests)
            (deliver_next c)
    deliver_next-Finished some_result =
        let n = first_result handle dictionary fd c i some_result in
        let (app, called, t) =
          Returns-inv
            (back n.message.header.seqno _ n.result.return_buffer c.world.app n.waits.known) in
        rw (deliver_next-finish handle dictionary fd c i n) (
          Returns-map
            (finish-Finished n.result c.world n.waits.callback app i.world
              (low handle dictionary fd c i n) (registered handle dictionary fd c i n) called)
            λ w done. ap length done.pending)

    deliver-Nearer :
        (w : World S)
        → c.to_client ≢ []
        → deliver_next c ≡ ok w
        → Nearer (record c { world = w; to_client = drop sizeof_result c.to_client })
    deliver-Nearer w some_result ran =
        let same = Returns-at (deliver_next-Finished some_result) ran in
        let sizes = length-drop sizeof_result c.to_client in
        record {
          nearer = omega (arith, sizes, nonempty c.to_client some_result, same);
          asked = refl;
          dictionary_lem = refl;
          alive = (flags, on);
        }

    pub delivers : c.to_client ≢ [] → CanGoOn
    delivers some_result =
        let (w, ran, same) = Returns-inv (deliver_next-Finished some_result) in
        record {
          onward = record c { world = w; to_client = drop sizeof_result c.to_client };
          step = deliver w i.world.transport.hearing some_result ran;
          event = refl;
        }

  -- Any event leads nearer to rest.
  pub event-Nearer :
      {c' : Connection S Service App}
      → fd < max_file_descriptors
      → CallbacksReturn c
      → ServicesKnown c
      → ((service : Service) (m : RpcMessage) (a : App)
          → IsCall m
          → Returns (λ r. Unit {0}) (handle service m a))
      → (s : Step handle fd c c') → is_event handle fd s ≡ true
      → Nearer c'
  event-Nearer small back known total
        (call codec padding id g name param callback w v narrow given ran) e =
      cc
  event-Nearer small back known total (send client m rest packet watches waiting ran out) e =
      send-Nearer client m rest packet waiting ran out
  event-Nearer small back known total (lose_request client m rest watches waiting ran) e = cc
  event-Nearer small back known total (serve f s armed_for able some_packet ran) e =
      serve-Nearer small known total s some_packet ran
  event-Nearer small back known total (reply f s r rest answer armed_for able waiting ran out) e =
      reply-Nearer small s r rest answer waiting ran out
  event-Nearer small back known total (lose_result f s r rest armed_for able waiting ran) e = cc
  event-Nearer small back known total (deliver w hears some_result ran) e =
      deliver-Nearer back w some_result ran
