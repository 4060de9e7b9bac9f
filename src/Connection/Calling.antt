-- ===== src/Connection/Calling.antt =====
-- The client's events on a connection in order: calls, requests that go out, results that come in.
use dreamboat_rpc.Prelude.{
  ℕ, ◌<◌, ◌^◌, ◌≡◌, ◌≢◌, ap, sym, ◌∙◌, subst, List, [], ◌∷◌, ◌++◌, map, true, arith, some, take,
  ==_refl, take-past,
}
use native.Mathlib.Decide.{ℕ_discrete}
use dreamboat_rpc.Run.{Run, ok, Returns-at, IfOk-at}
use dreamboat_rpc.Packet.{RpcMessage, RpcResult}
use dreamboat_rpc.Packet.RoundTrip.{packet_bytes, length-packet_bytes}
use dreamboat_rpc.Params.{Codec}
use dreamboat_rpc.Guid.{Guid, get_guid}
use dreamboat_rpc.Guid.Live.{IsLive, Allocated, get_guid-gives}
use dreamboat_rpc.Server.{Send, sent}
use dreamboat_rpc.Client.{
  Callback, Client, World, max_requests, max_buffer, call_rpc_async, handle_read_event, finish,
}
use dreamboat_rpc.Client.Calls
use dreamboat_rpc.Client.Calls.{Called, Finished, Inv-transport, finish-Finished, finish-ran}
use dreamboat_rpc.Client.Interest.{handle_write_event-sends}
use dreamboat_rpc.Client.Requests.{CanSend, request}
use dreamboat_rpc.Client.Replies.{call_rpc_async-Outcome}
use dreamboat_rpc.Connection.{Connection, with_asked, with_client}
use dreamboat_rpc.Connection.Lists.{All, All-map, All-split}
use dreamboat_rpc.Connection.UnderWay.{
  asking, seqno_of, packets, under_way, IsCall, request-IsCall, Fine, Sound, Inv,
}
use dreamboat_rpc.Connection.Moves.{
  packets-concat, before_pending, under_way-at_pending, under_way-send, under_way-call,
  Sound-without,
}
use dreamboat_rpc.Connection.Kept.{Agrees, Sound-kept, Sound-concat, Fine-live}

head_of : {A : Type 0} {x y : A} {xs ys : List A} → x ∷ xs ≡ y ∷ ys → x ≡ y
head_of e = cc

module _ {S P : Type 0} (codec : Codec P) (padding id : ℕ) (g : Guid) (name : List ℕ) (param : P)
    (callback : Callback S) (w w' : World S) (v : CanSend codec name param)
    (small : padding < 2 ^ 24) (given : get_guid w.guid ≡ ok (some id, g))
    (ran : call_rpc_async codec true padding name param callback w ≡ ok w') (i : Calls.Inv w) where
  allocated : Allocated w.guid (some id, g)
  allocated = IfOk-at (Allocated w.guid) (get_guid w.guid) (get_guid-gives w.guid i.guid) given

  -- A call that returns has not got the id 1024.
  below : id < max_requests
  below = elim (ℕ_discrete id max_requests) [
    | yes e ↦
        let fault =
          (call_rpc_async-Outcome codec padding name param callback v small w (some id) g i given).1
            e in
        cc
    | no ne ↦ omega (arith, allocated.1)
  ]

  called : Called codec padding name param callback id g w w'
  called =
      Returns-at
        ((call_rpc_async-Outcome codec padding name param callback v small w (some id) g i given).0
          below)
        ran

module _ {S Service App : Type 0} (handle : Service → RpcMessage → App → Run (RpcResult × App))
    (dictionary : List (List ℕ × Service)) (fd : ℕ) (c : Connection S Service App)
    (i : Inv handle dictionary fd c) where
  pub call-Inv :
      {P : Type 0} (codec : Codec P) (padding id : ℕ) (g : Guid) (name : List ℕ) (param : P)
      → (callback : Callback S) (w : World S) → CanSend codec name param
      → padding < 2 ^ 24
      → get_guid c.world.guid ≡ ok (some id, g)
      → call_rpc_async codec true padding name param callback c.world ≡ ok w
      → Inv handle dictionary fd (record c {
        world = w;
        asked =
            with_asked c.asked id
              (record { message = request codec true padding id name param; callback = callback });
      })
  call-Inv codec padding id g name param callback w v small given ran =
      let m = request codec true padding id name param in
      let low = below codec padding id g name param callback c.world w v small given ran i.world in
      let new = called codec padding id g name param callback c.world w v small given ran i.world in
      let dead =
        (allocated codec padding id g name param callback c.world w v small given ran i.world).2 in
      let asked = with_asked c.asked id (record { message = m; callback = callback }) in
      let ts = under_way i.results (c.server.pipe fd) i.requests c.world.client.pending_requests in
      let others : All (λ t. seqno_of t ≢ id) ts =
        All-map (Fine handle dictionary c.asked c.world.client.callbacks) (λ t. seqno_of t ≢ id) ts
          i.sound.0
          λ t f e. dead (
            subst (IsLive c.world.guid) e
              (Fine-live handle dictionary c.asked c.world t i.world f)) in
      let kept =
        Sound-kept handle dictionary c.asked asked c.world.client.callbacks w.client.callbacks ts
          i.sound
          (All-map (λ t. seqno_of t ≢ id)
            (λ t.
              Agrees handle dictionary c.asked asked c.world.client.callbacks w.client.callbacks
                (seqno_of t))
            ts others λ t ne. (ground arith, new.others (seqno_of t) (λ e. ne (sym e)))) in
      let sound =
        Sound-concat handle dictionary asked w.client.callbacks ts (asking m) kept
          (
            request-IsCall codec padding id name param v small (omega arith),
            record {
              callback = callback;
              below = low;
              known = rw (==_refl id);
              waiting = new.registered;
            },
          )
          others in
      record {
        world = new.inv;
        dictionary_lem = i.dictionary_lem;
        requests = i.requests;
        results = i.results;
        inbound = i.inbound;
        outbound = i.outbound;
        arming = i.arming;
        sound =
            subst (Sound handle dictionary asked w.client.callbacks)
              (sym (
                ap (under_way i.results (c.server.pipe fd) i.requests) new.queued
                ∙ under_way-call i.results (c.server.pipe fd) i.requests
                    c.world.client.pending_requests m))
              sound;
      }

  -- The invariant where the client, and what is under way, have changed.
  at_client :
      (client : Client S) (to_server : List ℕ) (requests : List RpcMessage)
      → Calls.Inv (record (c.world) { client = client })
      → to_server ≡ packets requests
      → client.callbacks ≡ c.world.client.callbacks
      → Sound handle dictionary c.asked c.world.client.callbacks
          (under_way i.results (c.server.pipe fd) requests client.pending_requests)
      → Inv handle dictionary fd (record (with_client c client) { to_server = to_server })
  at_client client to_server requests world inbound same sound = record {
    world = world;
    dictionary_lem = i.dictionary_lem;
    requests = requests;
    results = i.results;
    inbound = inbound;
    outbound = i.outbound;
    arming = i.arming;
    sound =
        subst
          (λ slots.
            Sound handle dictionary c.asked slots
              (under_way i.results (c.server.pipe fd) requests client.pending_requests))
          (sym same) sound;
  }

  module _ (client : Client S) (m : RpcMessage) (rest : List RpcMessage)
      (waiting : c.world.client.pending_requests ≡ m ∷ rest) where
    first_waits :
        Sound handle dictionary c.asked c.world.client.callbacks
          (under_way i.results (c.server.pipe fd) i.requests (m ∷ rest))
    first_waits =
        subst
          (λ p.
            Sound handle dictionary c.asked c.world.client.callbacks
              (under_way i.results (c.server.pipe fd) i.requests p))
          waiting i.sound

    pub is_call : IsCall m
    is_call =
        let all =
          subst (All (Fine handle dictionary c.asked c.world.client.callbacks))
            (under_way-at_pending i.results (c.server.pipe fd) i.requests (m ∷ rest))
            first_waits.0 in
        (All-split (Fine handle dictionary c.asked c.world.client.callbacks)
          (before_pending i.results (c.server.pipe fd) i.requests rest) (map asking (m ∷ rest))
          all).1.0.0

    whole : take max_buffer (packet_bytes m) ≡ packet_bytes m
    whole =
        take-past max_buffer (packet_bytes m)
          (omega (arith, length-packet_bytes m is_call.message is_call.short, is_call.short))

    pub send-Inv :
        (packet : List ℕ)
        → dreamboat_rpc.Client.handle_write_event
            (sent max_buffer)
            c.world.client.connfd
            c.world.client
          ≡ ok client
        → client.outbox ≡ packet ∷ c.world.client.outbox
        → Inv handle dictionary fd
            (record (with_client c client) { to_server = c.to_server ++ packet })
    send-Inv packet ran out =
        let (transport, queued, went, same) =
          Returns-at
            (handle_write_event-sends (sent max_buffer) c.world.client m rest i.world.transport
              waiting)
            ran in
        let is : packet ≡ packet_bytes m = head_of (sym out ∙ went) ∙ whole in
        at_client client (c.to_server ++ packet) (i.requests ++ m ∷ [])
          (Inv-transport c.world client i.world transport same)
          (ap (λ b. b ++ packet) i.inbound
            ∙ ap (λ b. packets i.requests ++ b) is
            ∙ sym (packets-concat i.requests m))
          same.0
          (subst (Sound handle dictionary c.asked c.world.client.callbacks)
            (sym (
              ap (under_way i.results (c.server.pipe fd) (i.requests ++ m ∷ [])) queued
              ∙ under_way-send i.results (c.server.pipe fd) i.requests rest m))
            first_waits)

    pub lose_request-Inv :
        dreamboat_rpc.Client.handle_write_event Send.would_block c.world.client.connfd
            c.world.client
          ≡ ok client
        → Inv handle dictionary fd (with_client c client)
    lose_request-Inv ran =
        let (transport, queued, went, same) =
          Returns-at
            (handle_write_event-sends Send.would_block c.world.client m rest i.world.transport
              waiting)
            ran in
        let before = before_pending i.results (c.server.pipe fd) i.requests rest in
        let gone =
          Sound-without handle dictionary c.asked c.world.client.callbacks before (asking m)
            (map asking rest)
            (subst (Sound handle dictionary c.asked c.world.client.callbacks)
              (under_way-at_pending i.results (c.server.pipe fd) i.requests (m ∷ rest))
              first_waits) in
        at_client client c.to_server i.requests
          (Inv-transport c.world client i.world transport same) i.inbound same.0
          (subst (Sound handle dictionary c.asked c.world.client.callbacks)
            (sym (
              ap (under_way i.results (c.server.pipe fd) i.requests) queued
              ∙ under_way-at_pending i.results (c.server.pipe fd) i.requests rest))
            gone)
