-- ===== src/Connection/Silent.antt =====
-- A request that the server drops leaves the descriptor unarmed: the connection is dead from there.
use dreamboat_rpc.Prelude.{ℕ, ◌<◌, ◌≡◌, ◌≢◌, refl, ap, sym, ◌∙◌, List, [], ◌∷◌, take, none, length}
use dreamboat_rpc.Run.{Run, ok}
use dreamboat_rpc.Memory.{c_str}
use dreamboat_rpc.Packet.{RpcMessage, RpcResult, sizeof_header, header_of, max_rpc_return_value}
use dreamboat_rpc.Events.{max_file_descriptors}
use dreamboat_rpc.Server.{Server, lookup, call_service}
use dreamboat_rpc.Server.Loop.{armed, delivered}
use dreamboat_rpc.Connection.{
  Connection, Step, serve_next, call, send, lose_request, serve, reply, lose_result, deliver,
}
use dreamboat_rpc.Connection.UnderWay.{IsCall, packets}
use dreamboat_rpc.Connection.Serving.{first_header, serve_next-packets}
use dreamboat_rpc.Connection.Answering.{delivered-none, first_request}
use dreamboat_rpc.Connection.Reached.{Reach, Reach-Inv}

some_armed :
    {Service App : Type 0} (fd : ℕ) {s s' : Server Service App}
    → armed s.poller.calls fd ≡ none
    → s' ≡ s
    → armed s'.poller.calls fd ≡ none
some_armed fd off same = ap (λ t. armed t.poller.calls fd) same ∙ off

module _ {S Service App : Type 0} (handle : Service → RpcMessage → App → Run (RpcResult × App))
    (fd : ℕ) where
  -- Any steps, one after the other.
  pub data Later (c : Connection S Service App) : Connection S Service App → Type 1 where
    here : Later c c
    after : {c' c'' : Connection S Service App} → Later c c' → Step handle fd c' c'' → Later c c''

  unarmed-Silent :
      {c c' : Connection S Service App}
      → armed c.server.poller.calls fd ≡ none
      → Later c c'
      → c'.server ≡ c.server
  unarmed-Silent off here = refl
  unarmed-Silent off (after l (call codec padding id g name param callback w v small given ran)) =
      unarmed-Silent off l
  unarmed-Silent off (after l (send client m rest packet watches waiting ran out)) =
      unarmed-Silent off l
  unarmed-Silent off (after l (lose_request client m rest watches waiting ran)) =
      unarmed-Silent off l
  unarmed-Silent off (after l (deliver w hears some_result ran)) = unarmed-Silent off l
  unarmed-Silent off (after l (serve f s on able some_packet ran)) =
      let still = some_armed fd off (unarmed-Silent off l) in cc
  unarmed-Silent off (after l (reply f s r rest answer on able waiting ran out)) =
      let still = some_armed fd off (unarmed-Silent off l) in cc
  unarmed-Silent off (after l (lose_result f s r rest on able waiting ran)) =
      let still = some_armed fd off (unarmed-Silent off l) in cc

  module _ (dictionary : List (List ℕ × Service))
      (sized : (service : Service) (m : RpcMessage) (a : App) (r : RpcResult) (a' : App)
        → handle service m a ≡ ok (r, a')
        → length r.return_buffer ≡ max_rpc_return_value)
      (small : fd < max_file_descriptors) where
    unknown-Dropped :
        (c : Connection S Service App) (name : List ℕ) (m : RpcMessage) (ms : List RpcMessage)
        → IsCall m
        → c.to_server ≡ packets (m ∷ ms)
        → c_str (header_of (take sizeof_header c.to_server)).servicename ≡ ok name
        → lookup name c.server.dictionary ≡ none
        → serve_next handle fd c ≡ ok (delivered c.server fd)
    unfolding call_service
    unknown-Dropped c name m ms is inbound named unknown =
        let called =
          ap (λ h. c_str h.servicename) (sym (first_header m ms is c.to_server inbound)) ∙ named in
        serve_next-packets m ms is handle fd c inbound ∙ rw (called, unknown)

    -- In every state that a connection below descriptor 65536 reaches by events, losses, and calls
    -- of names and parameters that fit their buffers and have no zero byte, to services whose
    -- results have 480 bytes, where the next request names a service that is not registered: the
    -- server drops the request, and however the connection goes on from there, nothing about the
    -- server changes any more.
    pub unknown-Silent :
        (c : Connection S Service App) (name : List ℕ)
        → Reach handle dictionary fd c
        → c.to_server ≢ []
        → c_str (header_of (take sizeof_header c.to_server)).servicename ≡ ok name
        → lookup name c.server.dictionary ≡ none
        → (serve_next handle fd c ≡ ok (delivered c.server fd))
          × ((c₁ c₂ : Connection S Service App)
              → c₁.server ≡ delivered c.server fd
              → Later c₁ c₂
              → c₂.server ≡ delivered c.server fd)
    unknown-Silent c name reached some_packet named unknown =
        let i = Reach-Inv handle dictionary fd sized small reached in
        let (m, ms, is, waits, inbound) = first_request handle dictionary fd c i some_packet in
        (
          unknown-Dropped c name m ms is inbound named unknown,
          λ c₁ c₂ same later.
              unarmed-Silent
                (ap (λ t. armed t.poller.calls fd) same ∙ delivered-none fd c.server i.arming) later
              ∙ same,
        )
