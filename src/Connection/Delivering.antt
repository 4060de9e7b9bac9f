-- ===== src/Connection/Delivering.antt =====
-- The result that comes in next on a connection in order.
use dreamboat_rpc.Prelude.{
  ℕ, ◌<◌, ◌≡◌, ◌≢◌, refl, ap, sym, ◌∙◌, subst, List, [], ◌∷◌, some, take, drop, take-append,
  drop-append, get_elem?,
}
use dreamboat_rpc.Run.{Run, ok, IfOk-at, Returns-at}
use dreamboat_rpc.Packet.{RpcMessage, RpcResult, IsResult, sizeof_result, result_bytes}
use dreamboat_rpc.Packet.RoundTrip.{length-result_bytes}
use dreamboat_rpc.Server.{received}
use dreamboat_rpc.Client.{World, max_requests, handle_read_event, finish}
use dreamboat_rpc.Client.Calls.{Finished, finish-Finished, finish-ran}
use dreamboat_rpc.Client.Replies.{handle_read_event-result}
use dreamboat_rpc.Connection.{Connection, deliver_next}
use dreamboat_rpc.Connection.Lists.{All, All-map, All-from}
use dreamboat_rpc.Connection.UnderWay.{
  Token, seqno_of, answers, under_way, Waits, Given, Sound, Inv,
}
use dreamboat_rpc.Connection.Kept.{Agrees, Sound-kept}

module _ {S Service App : Type 0} (handle : Service → RpcMessage → App → Run (RpcResult × App))
    (dictionary : List (List ℕ × Service)) (fd : ℕ) (requests : List RpcMessage) where
  -- The next result, its call, and what is under way behind it.
  pub record Next (c : Connection S Service App) : Type 0 where
    pub result : RpcResult
    pub message : RpcMessage
    pub sized : IsResult result
    pub waits : Waits c.asked c.world.client.callbacks message
    pub given : Given handle dictionary message result
    pub bytes : take sizeof_result c.to_client ≡ result_bytes result
    pub results : List RpcResult
    pub behind : drop sizeof_result c.to_client ≡ answers results
    -- The others are under other ids.
    pub rest :
        Sound handle dictionary c.asked c.world.client.callbacks
          (under_way results (c.server.pipe fd) requests c.world.client.pending_requests)
    pub apart :
        All
          (λ t. result.seqno ≢ seqno_of t)
          (under_way results (c.server.pipe fd) requests c.world.client.pending_requests)

module _ {S Service App : Type 0} (handle : Service → RpcMessage → App → Run (RpcResult × App))
    (dictionary : List (List ℕ × Service)) (fd : ℕ) (c : Connection S Service App)
    (i : Inv handle dictionary fd c) where
  first_of :
      (results : List RpcResult)
      → c.to_client ≡ answers results
      → c.to_client ≢ []
      → Sound handle dictionary c.asked c.world.client.callbacks
          (under_way results (c.server.pipe fd) i.requests c.world.client.pending_requests)
      → Next handle dictionary fd i.requests c
  first_of [] outbound some_result sound = absurd (some_result outbound)
  first_of (r ∷ rs) outbound some_result (((v, m, waits, given), fine), (apart, distinct)) =
      let long = length-result_bytes r v in
      record {
        result = r;
        message = m;
        sized = v;
        waits = waits;
        given = given;
        bytes =
            ap (take sizeof_result) outbound
            ∙ take-append sizeof_result (result_bytes r) (answers rs) long;
        results = rs;
        behind =
            ap (drop sizeof_result) outbound
            ∙ drop-append sizeof_result (result_bytes r) (answers rs) long;
        rest = (fine, distinct);
        apart = All-from seqno_of (λ k. r.seqno ≢ k) _ apart;
      }

  pub first_result : c.to_client ≢ [] → Next handle dictionary fd i.requests c
  first_result some_result = first_of i.results i.outbound some_result i.sound

  module _ (n : Next handle dictionary fd i.requests c) where
    pub seqno : n.result.seqno ≡ n.message.header.seqno
    seqno = ap (λ a. a.seqno) n.given.same

    pub registered :
        get_elem? c.world.client.callbacks n.result.seqno ≡ some (some n.waits.callback)
    registered = ap (get_elem? c.world.client.callbacks) seqno ∙ n.waits.waiting

    pub low : n.result.seqno < max_requests
    low = subst (λ k. k < max_requests) (sym seqno) n.waits.below

    pub deliver_next-finish : deliver_next c ≡ finish n.result c.world
    unfolding deliver_next
    deliver_next-finish =
        ap (λ b. handle_read_event (received b) c.world) n.bytes
        ∙ handle_read_event-result n.result c.world n.sized

    -- A result that has been delivered has run the callback of its call.
    pub delivered-Finished :
        (w : World S)
        → deliver_next c ≡ ok w
        → (app : S) × (n.waits.callback n.result.return_buffer c.world.app ≡ ok app)
          × Finished n.result app c.world w
    delivered-Finished w ran =
        let done = sym deliver_next-finish ∙ ran in
        let (app, called) =
          IfOk-at _ _ (finish-ran n.result c.world n.waits.callback registered) done in
        (
          app,
          called,
          Returns-at
              (finish-Finished n.result c.world n.waits.callback app i.world low registered called)
              done,
        )

  pub deliver-Inv :
      (w : World S)
      → c.to_client ≢ []
      → deliver_next c ≡ ok w
      → Inv handle dictionary fd
          (record c { world = w; to_client = drop sizeof_result c.to_client })
  deliver-Inv w some_result ran =
      let n = first_result some_result in
      let (app, called, done) = delivered-Finished n w ran in
      let ways : List RpcMessage → List Token = under_way n.results (c.server.pipe fd) i.requests in
      let ts = ways c.world.client.pending_requests in
      let slots = c.world.client.callbacks in
      record {
        world = done.inv;
        dictionary_lem = i.dictionary_lem;
        requests = i.requests;
        results = n.results;
        inbound = i.inbound;
        outbound = n.behind;
        arming = i.arming;
        sound =
            subst (λ p. Sound handle dictionary c.asked w.client.callbacks (ways p))
              (sym done.pending)
              (Sound-kept handle dictionary c.asked c.asked slots w.client.callbacks ts n.rest (
                All-map (λ t. n.result.seqno ≢ seqno_of t)
                  (λ t.
                    Agrees handle dictionary c.asked c.asked slots w.client.callbacks (seqno_of t))
                  ts n.apart λ t ne. (refl, done.others (seqno_of t) ne)));
      }
