-- ===== src/Connection/Answering.antt =====
-- The results of a connection in order: a request that is served, a result that goes out or comes in.
use dreamboat_rpc.Prelude.{
  ℕ, ◌<◌, ◌≡◌, ◌≢◌, inl, inr, ap, sym, ◌∙◌, subst, List, [], ◌∷◌, ◌++◌, map, refl, true, not,
  Option, none, some, ==_refl, length, drop,
}
use mathlib.Core.List.{append_assoc}
use dreamboat_rpc.Run.{Run, ok, IfOk-at, Returns-at}
use dreamboat_rpc.Memory.Laws.{take-all}
use dreamboat_rpc.Packet.{
  RpcMessage, RpcResult, IsResult, sizeof_header, sizeof_result, max_rpc_return_value, result_bytes,
}
use dreamboat_rpc.Packet.RoundTrip.{length-result_bytes}
use dreamboat_rpc.Events.{max_file_descriptors}
use dreamboat_rpc.Poller.{Flags}
use dreamboat_rpc.Server.{Server, Send, sent, received, is_nil}
use dreamboat_rpc.Server.Results.{handle_write_event-takes}
use dreamboat_rpc.Server.Loop.{armed, after_event, delivered}
use dreamboat_rpc.Server.Rearm.{Rearmed}
use dreamboat_rpc.Connection.{Connection, body_size, serve_next}
use dreamboat_rpc.Connection.Lists.{All-split}
use dreamboat_rpc.Connection.UnderWay.{
  IsCall, Token, asking, answering, packets, answers, under_way, Waits, Given, Fine, Sound, Arming,
  Inv,
}
use dreamboat_rpc.Connection.Moves.{
  answers-concat, map-move, before_requests, under_way-at_requests, under_way-reply, Sound-without,
  Sound-with,
}
use dreamboat_rpc.Connection.Serving.{Result, rest_of-packets, serve_next-Result}

pub some-injective : {A : Type 0} {x y : A} → some x ≡ some y → x ≡ y
some-injective e = cc

pub head_of : {A : Type 0} {x y : A} {xs ys : List A} → x ∷ xs ≡ y ∷ ys → x ≡ y
head_of e = cc

-- A descriptor that has been armed again, and one whose event has been delivered and that has not.
pub Rearmed-armed :
    {Service App : Type 0} (fd : ℕ) (s s' : Server Service App) (again : Rearmed fd s s')
    → armed s'.poller.calls fd ≡ some again.flags
Rearmed-armed fd s s' again = ap (λ l. armed l fd) again.called ∙ rw (==_refl fd)

Rearmed-Arming :
    {Service App : Type 0} (fd : ℕ) (s s' : Server Service App) → Rearmed fd s s' → Arming fd s'
Rearmed-Arming fd s s' again f on =
    let same : again.flags ≡ f = some-injective (sym (Rearmed-armed fd s s' again) ∙ on) in
    (
      ap (λ g. g.input) (sym same) ∙ again.input,
      ap (λ g. g.output) (sym same) ∙ again.output,
      ap (λ g. g.oneshot) (sym same) ∙ again.oneshot,
    )

pub delivered-none :
    {Service App : Type 0} (fd : ℕ) (s : Server Service App)
    → Arming fd s
    → armed (delivered s fd).poller.calls fd ≡ none
delivered-none fd s v =
    let used : after_event (armed s.poller.calls fd) ≡ none = used_up (armed s.poller.calls fd) v in
    rw (==_refl fd) used
  where
    used_up :
        (f : Option Flags)
        → ((g : Flags)
            → f ≡ some g
            → (g.input ≡ true) × (g.output ≡ not (is_nil (s.pipe fd))) × (g.oneshot ≡ true))
        → after_event f ≡ none
    used_up none v = refl
    used_up (some g) v = rw (v g refl).2 refl

dropped-Arming :
    {Service App : Type 0} (fd : ℕ) (s s' : Server Service App)
    → Arming fd s
    → s' ≡ delivered s fd
    → Arming fd s'
dropped-Arming fd s s' v same f on =
    let off = ap (λ t. armed t.poller.calls fd) same ∙ delivered-none fd s v in cc

module _ {S Service App : Type 0} (handle : Service → RpcMessage → App → Run (RpcResult × App))
    (dictionary : List (List ℕ × Service)) (fd : ℕ) (c : Connection S Service App)
    (i : Inv handle dictionary fd c) where
  -- The invariant where the server, and what is under way, have changed.
  at_server :
      (s : Server Service App) (to_server to_client : List ℕ) (requests : List RpcMessage)
      → (results : List RpcResult) → s.dictionary ≡ c.server.dictionary
      → to_server ≡ packets requests
      → to_client ≡ answers results
      → Arming fd s
      → Sound handle dictionary c.asked c.world.client.callbacks
          (under_way results (s.pipe fd) requests c.world.client.pending_requests)
      → Inv handle dictionary fd
          (record c { server = s; to_server = to_server; to_client = to_client })
  at_server s to_server to_client requests results same inbound outbound arming sound = record {
    world = i.world;
    dictionary_lem = same ∙ i.dictionary_lem;
    requests = requests;
    results = results;
    inbound = inbound;
    outbound = outbound;
    arming = arming;
    sound = sound;
  }

  -- What is under way, with `results` travelling and `queue` and `requests` behind them.
  abbrev ways : List RpcResult → List RpcResult → List RpcMessage → List Token
  ways results queue requests = under_way results queue requests c.world.client.pending_requests

  abbrev IsSound : List Token → Type 0
  IsSound = Sound handle dictionary c.asked c.world.client.callbacks

  module _ (small : fd < max_file_descriptors) (s : Server Service App) (r : RpcResult)
      (rest : List RpcResult) (waiting : c.server.pipe fd ≡ r ∷ rest) where
    first_waits : IsSound (ways i.results (r ∷ rest) i.requests)
    first_waits = subst (λ q. IsSound (ways i.results q i.requests)) waiting i.sound

    -- A result that waits fits the bytes of a result.
    pub is_result : IsResult r
    is_result =
        let fine = Fine handle dictionary c.asked c.world.client.callbacks in
        let all = (All-split fine (map answering i.results) _ first_waits.0).1 in all.0.0

    pub reply-Inv :
        (answer : List ℕ)
        → dreamboat_rpc.Server.handle_write_event (sent sizeof_result) fd (delivered c.server fd)
          ≡ ok s
        → s.outbox ≡ (fd, answer) ∷ c.server.outbox
        → Inv handle dictionary fd (record c { server = s; to_client = c.to_client ++ answer })
    reply-Inv answer ran out =
        let (taken, went) =
          Returns-at
            ((handle_write_event-takes fd (delivered c.server fd) r rest small waiting).0
              sizeof_result)
            ran in
        let is : answer ≡ result_bytes r =
          ap (λ y. y.1) (head_of (sym out ∙ went))
          ∙ take-all sizeof_result (result_bytes r) (length-result_bytes r is_result) in
        at_server s c.to_server (c.to_client ++ answer) i.requests (i.results ++ r ∷ [])
          taken.dictionary i.inbound
          (ap (λ b. b ++ answer) i.outbound
            ∙ ap (λ b. answers i.results ++ b) is
            ∙ sym (answers-concat i.results r))
          (Rearmed-Arming fd _ s taken.rearmed)
          (subst IsSound
            (sym (
              ap (λ q. ways (i.results ++ r ∷ []) q i.requests) taken.queued
              ∙ under_way-reply i.results rest i.requests c.world.client.pending_requests r))
            first_waits)

    pub lose_result-Inv :
        dreamboat_rpc.Server.handle_write_event Send.would_block fd (delivered c.server fd) ≡ ok s
        → Inv handle dictionary fd (record c { server = s })
    lose_result-Inv ran =
        let (taken, went) =
          Returns-at (handle_write_event-takes fd (delivered c.server fd) r rest small waiting).1
            ran in
        at_server s c.to_server c.to_client i.requests i.results taken.dictionary i.inbound
          i.outbound (Rearmed-Arming fd _ s taken.rearmed)
          (subst (λ q. IsSound (ways i.results q i.requests)) (sym taken.queued)
            (Sound-without handle dictionary c.asked c.world.client.callbacks
              (map answering i.results) (answering r) _ first_waits))

  request_of :
      (requests : List RpcMessage)
      → c.to_server ≡ packets requests
      → c.to_server ≢ []
      → IsSound (ways i.results (c.server.pipe fd) requests)
      → (m : RpcMessage) × (ms : List RpcMessage) × IsCall m
        × Waits c.asked c.world.client.callbacks m
        × (c.to_server ≡ packets (m ∷ ms))
  request_of [] inbound some_packet sound = absurd (some_packet inbound)
  request_of (m ∷ ms) inbound some_packet sound =
      let fine = Fine handle dictionary c.asked c.world.client.callbacks in
      let before =
        before_requests i.results (c.server.pipe fd) ms c.world.client.pending_requests in
      let at_front =
        subst IsSound
          (under_way-at_requests i.results (c.server.pipe fd) (m ∷ ms)
            c.world.client.pending_requests)
          sound in
      let head = (All-split fine before _ at_front.0).1.0 in (m, ms, head.0, head.1, inbound)

  -- The request that the server reads next.
  pub first_request :
      c.to_server ≢ []
      → (m : RpcMessage) × (ms : List RpcMessage) × IsCall m
        × Waits c.asked c.world.client.callbacks m
        × (c.to_server ≡ packets (m ∷ ms))
  first_request some_packet = request_of i.requests i.inbound some_packet i.sound

  module _ (small : fd < max_file_descriptors)
      (sized : (service : Service) (m : RpcMessage) (a : App) (r : RpcResult) (a' : App)
        → handle service m a ≡ ok (r, a')
        → length r.return_buffer ≡ max_rpc_return_value)
      (s : Server Service App) (ran : serve_next handle fd c ≡ ok s) where
    -- The first packet that travels has been read.
    served :
        (requests : List RpcMessage)
        → c.to_server ≡ packets requests
        → c.to_server ≢ []
        → IsSound (ways i.results (c.server.pipe fd) requests)
        → Inv handle dictionary fd (record c {
          server = s;
          to_server = drop (body_size c.to_server) (drop sizeof_header c.to_server);
        })
    served [] inbound some_packet sound = absurd (some_packet inbound)
    served (m ∷ ms) inbound some_packet sound =
        let fine = Fine handle dictionary c.asked c.world.client.callbacks in
        let queue = c.server.pipe fd in
        let before = before_requests i.results queue ms c.world.client.pending_requests in
        let after = map asking ms ++ map asking c.world.client.pending_requests in
        let at_front =
          subst IsSound
            (under_way-at_requests i.results queue (m ∷ ms) c.world.client.pending_requests)
            sound in
        let (is, waits) = (All-split fine before (asking m ∷ after) at_front.0).1.0 in
        let left = rest_of-packets m ms is c.to_server inbound in
        elim (IfOk-at (Result handle sized fd small m is (delivered c.server fd)) _
          (serve_next-Result handle sized fd small m is c ms inbound) ran) [
            | inl same ↦
                at_server s _ c.to_client ms i.results (ap (λ t. t.dictionary) same) left i.outbound
                  (dropped-Arming fd c.server s i.arming same)
                  (subst IsSound
                    (sym (
                      ap (λ t. ways i.results (t.pipe fd) ms) same
                      ∙ under_way-at_requests i.results queue ms c.world.client.pending_requests))
                    (Sound-without handle dictionary c.asked c.world.client.callbacks before
                      (asking m) after at_front))
            | inr (r, v, given, queued, kept, again) ↦
                let known = subst (λ d. Given handle d m r) i.dictionary_lem given in
                at_server s _ c.to_client ms i.results kept left i.outbound
                  (Rearmed-Arming fd _ s again)
                  (subst IsSound
                    (sym (
                      ap (λ q. ways i.results q ms) queued
                      ∙ ap (λ l. map answering i.results ++ l) (map-move answering queue r after)
                      ∙ sym (append_assoc (map answering i.results) (map answering queue) _)))
                    (Sound-with handle dictionary c.asked c.world.client.callbacks before (asking m)
                      (answering r) after at_front (sym (ap (λ a. a.seqno) given.same))
                      (v, m, waits, known)))
          ]

    pub serve-Inv :
        c.to_server ≢ []
        → Inv handle dictionary fd (record c {
          server = s;
          to_server = drop (body_size c.to_server) (drop sizeof_header c.to_server);
        })
    serve-Inv some_packet = served i.requests i.inbound some_packet i.sound
