-- ===== src/Connection/Serving.antt =====
-- The server's events on a connection in order.
use dreamboat_rpc.Prelude.{
  ℕ, ◌<◌, ◌≡◌, ◌⊎◌, inl, inr, refl, ap, sym, ◌∙◌, subst, List, [], ◌∷◌, ◌++◌, arith, Option, none,
  some, length, take, drop, length-take, take-append, drop-append, if◌then◌else◌,
}
use mathlib.Core.List.{append_assoc}
use dreamboat_rpc.Run.{Run, ok, ◌>>=◌, IfOk, IfOk-bind, IfOk-of_returns, Returns-map}
use dreamboat_rpc.Memory.{c_str}
use dreamboat_rpc.Packet.{
  RpcMessage, RpcResult, IsResult, sizeof_header, max_rpc_return_value, header_bytes, header_of,
}
use dreamboat_rpc.Packet.RoundTrip.{header_of-header_bytes, length-header_bytes}
use dreamboat_rpc.Events.{max_file_descriptors}
use dreamboat_rpc.Server.{Server, received, lookup, call_service, serve, handle_request_event}
use dreamboat_rpc.Server.Requests.{serve-Served, handle_request_event-packet}
use dreamboat_rpc.Server.Loop.{delivered}
use dreamboat_rpc.Server.Rearm.{Rearmed}
use dreamboat_rpc.Connection.{Connection, body_size, serve_next}
use dreamboat_rpc.Connection.UnderWay.{IsCall, packets, Given}

module _ (m : RpcMessage) (ms : List RpcMessage) (v : IsCall m) where
  abbrev body : List ℕ
  body = take m.header.body_length m.body.parameters

  length-body : length body ≡ m.header.body_length
  length-body =
      length-take m.header.body_length m.body.parameters
        (omega (arith, v.short, v.message.parameters))

  abbrev long : length (header_bytes m.header) ≡ sizeof_header
  long = length-header_bytes m.header v.message.header

  split : packets (m ∷ ms) ≡ header_bytes m.header ++ (body ++ packets ms)
  split = append_assoc (header_bytes m.header) body (packets ms)

  head : take sizeof_header (packets (m ∷ ms)) ≡ header_bytes m.header
  head = ap (take sizeof_header) split ∙ take-append sizeof_header (header_bytes m.header) _ long

  behind : drop sizeof_header (packets (m ∷ ms)) ≡ body ++ packets ms
  behind = ap (drop sizeof_header) split ∙ drop-append sizeof_header (header_bytes m.header) _ long

  pub first_header :
      (bytes : List ℕ) → bytes ≡ packets (m ∷ ms) → header_of (take sizeof_header bytes) ≡ m.header
  first_header bytes e =
      ap (λ b. header_of (take sizeof_header b)) e
      ∙ ap header_of head
      ∙ header_of-header_bytes m.header v.message.header

  size : body_size (packets (m ∷ ms)) ≡ m.header.body_length
  size = ap (λ h. h.body_length) (first_header _ refl)

  -- The first packet is what the server reads, and no more.
  pub rest_of-packets :
      (bytes : List ℕ)
      → bytes ≡ packets (m ∷ ms)
      → drop (body_size bytes) (drop sizeof_header bytes) ≡ packets ms
  rest_of-packets bytes e =
      ap (λ b. drop (body_size b) (drop sizeof_header b)) e
      ∙ ap (λ n. drop n (drop sizeof_header (packets (m ∷ ms)))) size
      ∙ ap (drop m.header.body_length) behind
      ∙ drop-append m.header.body_length body (packets ms) length-body

  module _ {S Service App : Type 0} (handle : Service → RpcMessage → App → Run (RpcResult × App))
      (fd : ℕ) where
    pub serve_next-packets :
        (c : Connection S Service App)
        → c.to_server ≡ packets (m ∷ ms)
        → serve_next handle fd c
          ≡ c_str m.header.servicename >>= λ name.
              call_service handle (lookup name c.server.dictionary) m fd (delivered c.server fd)
    unfolding serve_next
    serve_next-packets c e =
        let run : List ℕ → List ℕ → Run (Server Service App) = λ first second.
          handle_request_event handle (received first) (received second) fd
            (delivered c.server fd) in
        ap (λ b. run (take sizeof_header b) (take (body_size b) (drop sizeof_header b))) e
        ∙ ap
            (λ b.
              run b (take (body_size (packets (m ∷ ms))) (drop sizeof_header (packets (m ∷ ms)))))
            head
        ∙ ap (λ n. run (header_bytes m.header) (take n (drop sizeof_header (packets (m ∷ ms)))))
            size
        ∙ ap (λ b. run (header_bytes m.header) (take m.header.body_length b)) behind
        ∙ ap (run (header_bytes m.header))
            (take-append m.header.body_length body (packets ms) length-body)
        ∙ handle_request_event-packet handle m.header body fd (delivered c.server fd)
            v.message.header v.magic v.version length-body v.short
        ∙ ap
            (λ n. c_str m.header.servicename >>= λ name.
              call_service handle (lookup name c.server.dictionary) n fd (delivered c.server fd))
            v.whole

module _ {Service App : Type 0} (handle : Service → RpcMessage → App → Run (RpcResult × App))
    (sized : (service : Service) (m : RpcMessage) (a : App) (r : RpcResult) (a' : App)
      → handle service m a ≡ ok (r, a')
      → length r.return_buffer ≡ max_rpc_return_value)
    (fd : ℕ) (small : fd < max_file_descriptors) (m : RpcMessage) (v : IsCall m) where
  -- What a request leaves: nothing, if no such service is registered, or its result, last in the queue.
  abbrev pub Result : Server Service App → Server Service App → Type 0
  Result s s' =
      (s' ≡ s)
      ⊎ ((r : RpcResult) × IsResult r
          × Given handle s.dictionary m r
          × (s'.pipe fd ≡ s.pipe fd ++ r ∷ [])
          × (s'.dictionary ≡ s.dictionary)
          × Rearmed fd s s')

  call_service-Result :
      (s : Server Service App) (name : List ℕ)
      → c_str m.header.servicename ≡ ok name
      → (found : Option Service) → lookup name s.dictionary ≡ found
      → IfOk (Result s) (call_service handle found m fd s)
  unfolding call_service serve
  call_service-Result s name named none e = inl refl
  call_service-Result s name named (some service) e =
      IfOk-bind (Result s) (handle service m s.app) _ λ (r, app) ran. IfOk-of_returns (Result s) (
        Returns-map (serve-Served handle service m fd s r app small ran) λ s' served. inr (
          record r { seqno = m.header.seqno },
          record {
            seqno = v.message.header.seqno;
            return_buffer = sized service m s.app r app ran;
          },
          record {
            name = name;
            service = service;
            before = s.app;
            after = app;
            result = r;
            named = named;
            found = e;
            handled = ran;
            same = refl;
          },
          served.queued
              ∙ ap
                  (λ b.
                    if b then s.pipe fd ++ record r { seqno = m.header.seqno } ∷ [] else s.pipe fd)
                  v.needed,
          served.dictionary,
          served.rearmed,
        ))

  pub serve_next-Result :
      {S : Type 0} (c : Connection S Service App) (ms : List RpcMessage)
      → c.to_server ≡ packets (m ∷ ms)
      → IfOk (Result (delivered c.server fd)) (serve_next handle fd c)
  serve_next-Result c ms e =
      subst (IfOk (Result (delivered c.server fd))) (sym (serve_next-packets m ms v handle fd c e))
        (IfOk-bind (Result (delivered c.server fd)) (c_str m.header.servicename) _ λ name named.
          rw named (
            call_service-Result (delivered c.server fd) name named (lookup name c.server.dictionary)
              refl))
