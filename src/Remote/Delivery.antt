-- ===== src/Remote/Delivery.antt =====
-- A remote call from end to end.
use dreamboat_rpc.Prelude.{
  ℕ, ◌≤◌, ◌<◌, ◌^◌, ◌≡◌, refl, sym, ap, ◌∙◌, subst, List, [], ◌∷◌, ◌++◌, true, arith, some,
  get_elem?, take-past, length, take, take-append, drop-append,
}
use dreamboat_rpc.Run.{Run, ok, Returns, returns, Returns-bind, Returns-map}
use dreamboat_rpc.Memory.Laws.{take-all}
use dreamboat_rpc.Packet.{
  RpcMessage, RpcResult, sizeof_header, sizeof_result, header_bytes, max_rpc_params_size,
  max_rpc_return_value, result_bytes,
}
use dreamboat_rpc.Packet.RoundTrip.{
  packet_bytes, length-packet_bytes, length-header_bytes, length-result_bytes,
}
use dreamboat_rpc.Params.{Codec}
use dreamboat_rpc.Kv.{handle_rpc}
use dreamboat_rpc.Events.{max_file_descriptors}
use dreamboat_rpc.Guid.{Guid, get_guid}
use dreamboat_rpc.Guid.Live.{IsLive}
use dreamboat_rpc.Server.{Server, lookup, sent, received}
use dreamboat_rpc.Server.Results.{handle_write_event-takes}
use dreamboat_rpc.Client.{World, max_requests, max_buffer, callback_function, handle_read_event}
use dreamboat_rpc.Client.Calls
use dreamboat_rpc.Client.Calls.{Called, Inv-transport}
use dreamboat_rpc.Client.Requests.{CanSend, request, request-IsMessage}
use dreamboat_rpc.Client.Replies.{call_rpc_async-Outcome, handle_read_event-finishes}
use dreamboat_rpc.Client.Interest.{handle_write_event-sends}
use dreamboat_rpc.Remote.{last_sent, serve_packet, answer_call, remote_call}
use dreamboat_rpc.Remote.Service.{CanReturn, Answers, request-Served}

last_sent-front :
    {A : Type 0} (l rest : List A) (x : A) → l ≡ x ∷ rest → Returns (λ y. y ≡ x) (last_sent l)
last_sent-front {A} l rest x e =
    subst (λ k. Returns (λ y. y ≡ x) (last_sent k)) (sym e) (returns refl)

module _ {P T App Service : Type 0} (codec : Codec P) (rsp_codec : Codec T)
    (f : P → App → Run (T × App)) (res : RpcResult)
    (handle : Service → RpcMessage → App → Run (RpcResult × App)) (name : List ℕ)
    (service : Service)
    (is_rpc : (m : RpcMessage) (a : App)
      → handle service m a ≡ handle_rpc codec rsp_codec f res m a)
    (size : length res.return_buffer ≡ max_rpc_return_value) (padding id fd : ℕ) (param : P)
    (v : CanSend codec name param) (small : padding < 2 ^ 24) (s : Server Service App) (app : App)
    (rsp : T) (found : lookup name s.dictionary ≡ some service) (fits : fd < max_file_descriptors)
    (gives : f param s.app ≡ ok (rsp, app)) (back : CanReturn rsp_codec rsp)
    (idle : s.pipe fd ≡ []) where
  -- The packet of a request in, the bytes of the answer out.
  serve_packet-Answers :
      id < 2 ^ 32
      → Returns
          (λ (answer, s').
            (r : RpcResult) × Answers rsp_codec rsp id r
            × (answer ≡ result_bytes r)
            × (s'.app ≡ app)
            × (s'.pipe fd ≡ []))
          (serve_packet handle (packet_bytes (request codec true padding id name param)) fd s)
  unfolding serve_packet
  serve_packet-Answers low =
      let m = request codec true padding id name param in
      let head = header_bytes m.header in
      let body = take m.header.body_length m.body.parameters in
      let ok_m = request-IsMessage codec padding id name param v true small low in
      let long = length-header_bytes m.header ok_m.header in
      rw (take-append sizeof_header head body long, drop-append sizeof_header head body long)
        (Returns-bind
          (request-Served codec rsp_codec f res handle name service is_rpc padding id fd param s app
            rsp v small low found fits gives back size)
          λ s₁ (r, answer, served).
            let waiting : s₁.pipe fd ≡ r ∷ [] = served.queued ∙ ap (λ q. q ++ r ∷ []) idle in
            Returns-bind ((handle_write_event-takes fd s₁ r [] fits waiting).0 sizeof_result)
              λ s₂ (taken, out). Returns-bind (last_sent-front s₂.outbox s₁.outbox _ out) λ x e.
                returns (
                  r,
                  answer,
                  ap (λ y. y.1) e
                      ∙ take-all sizeof_result (result_bytes r)
                          (length-result_bytes r answer.sized),
                  taken.app_lem ∙ served.app_lem,
                  taken.queued,
                ))

  module _ {S : Type 0} (w : World S) (g : Guid) (k : T → S → Run S) (after : S) (i : Calls.Inv w)
      (given : get_guid w.guid ≡ ok (some id, g)) (below : id < max_requests)
      (quiet : w.client.pending_requests ≡ []) (ran : k rsp w.app ≡ ok after) where
    -- The client when the answer has arrived.
    answered :
        (w₁ : World S) (r : RpcResult)
        → Calls.Inv w₁
        → get_elem? w₁.client.callbacks id ≡ some (some (callback_function rsp_codec k))
        → w₁.app ≡ w.app
        → Answers rsp_codec rsp id r
        → Returns
            (λ w₂. Calls.Inv w₂ × (w₂.app ≡ after) × ¬ IsLive w₂.guid id)
            (handle_read_event (received (result_bytes r)) w₁)
    unfolding callback_function
    answered w₁ r i₁ filled same a =
        Returns-map
          (handle_read_event-finishes r w₁ (callback_function rsp_codec k) after a.sized i₁
            (omega (arith, a.seqno)) (ap (get_elem? w₁.client.callbacks) a.seqno ∙ filled)
            (rw (a.parsed, same) ran))
          λ w₂ done. (done.inv, done.app_lem, subst (λ n. ¬ IsLive w₂.guid n) a.seqno done.freed)

    -- A call under an id below 1024, from a client with no other request waiting, to a service that
    -- is registered under the call's name and whose Handle is HandleRPC of `f`, on a connection with
    -- no result waiting: if the parameter, the name and the answer of `f` fit their buffers and have
    -- no zero byte, the call runs to its end. The callback has run once, on the answer of `f` for
    -- that parameter; the state of the service is the one `f` left; the id is free again; no result
    -- waits; and the client is in order for the next call.
    pub remote_call-Returns :
        Returns
          (λ (w', s').
            Calls.Inv w'
            × (w'.app ≡ after)
            × (¬ IsLive w'.guid id)
            × (s'.app ≡ app)
            × (s'.pipe fd ≡ []))
          (remote_call codec padding name param (callback_function rsp_codec k) handle fd (w, s))
    unfolding remote_call answer_call
    remote_call-Returns =
        let low : id < 2 ^ 32 = omega arith in
        let m = request codec true padding id name param in
        let callback = callback_function rsp_codec k in
        let ok_m = request-IsMessage codec padding id name param v true small low in
        let short : m.header.body_length ≤ max_rpc_params_size = omega (arith, v.fits) in
        let bytes = length-packet_bytes m ok_m short in
        let whole = take-past max_buffer (packet_bytes m) (omega (arith, bytes, v.fits)) in
        Returns-bind
          ((call_rpc_async-Outcome codec padding name param callback v small w (some id) g i
              given).0
            below)
          λ w₁ called.
            let queue = called.queued ∙ ap (λ q. q ++ m ∷ []) quiet in
            Returns-bind
              (handle_write_event-sends (sent max_buffer) w₁.client m [] called.inv.transport queue)
              λ c (transport, queued, out, same).
                Returns-bind (last_sent-front c.outbox w₁.client.outbox _ out) λ packet e.
                  rw (e, whole)
                    (Returns-bind (serve_packet-Answers low)
                      λ (answer, s') (r, a, bytes, app_lem, empty). rw bytes (
                        Returns-bind
                          (answered (record w₁ { client = c }) r
                            (Inv-transport w₁ c called.inv transport same)
                            (ap (λ q. get_elem? q id) same.0 ∙ called.registered) called.app_lem a)
                          λ w₂ (i₂, seen, freed). returns (i₂, seen, freed, app_lem, empty)))
