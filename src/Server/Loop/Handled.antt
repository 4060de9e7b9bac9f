-- ===== src/Server/Loop/Handled.antt =====
-- What the handlers do to the registrations and the queues, if they return.
use dreamboat_rpc.Prelude.{
  ℕ, ◌<◌, ◌≡◌, ◌≢◌, ◌⊎◌, inl, inr, refl, sym, subst, List, [], ◌∷◌, not, ◌==◌, Option, none, some,
  length,
}
use dreamboat_rpc.Run.{Run, Returns-map, IfOk, IfOk-of_returns, IfOk-if, IfOk-bind}
use dreamboat_rpc.Memory.{c_str}
use dreamboat_rpc.Packet.{
  RpcHeader, RpcMessage, RpcResult, rpc_magic_number, rpc_version, sizeof_header, header_of,
  new_message,
}
use dreamboat_rpc.Events.{max_file_descriptors}
use dreamboat_rpc.Server.{
  Recv, Send, received, sent, recv_bytes, receive_into, Server, lookup, serve, call_service,
  check_message, read_body, handle_request_event, handle_write_event,
}
use dreamboat_rpc.Server.Rearm.{Rearmed}
use dreamboat_rpc.Server.Requests.{serve-Served}
use dreamboat_rpc.Server.Results.{handle_write_event-takes, handle_write_event-empty}

module _ {Service App : Type 0} where
  -- The descriptor is armed again, and the queues of the others stay.
  pub record Done (fd : ℕ) (s s' : Server Service App) : Type 0 where
    pub rearmed : Rearmed fd s s'
    pub others : (k : ℕ) → fd ≢ k → s'.pipe k ≡ s.pipe k

  -- A request is dropped, or the descriptor is armed again.
  abbrev pub Handled : ℕ → Server Service App → Server Service App → Type 0
  Handled fd s s' = (s' ≡ s) ⊎ Done fd s s'

  module _ (handle : Service → RpcMessage → App → Run (RpcResult × App)) (fd : ℕ)
      (small : fd < max_file_descriptors) (s : Server Service App) where
    call-Handled :
        (found : Option Service) (m : RpcMessage)
        → IfOk (Handled fd s) (call_service handle found m fd s)
    unfolding call_service serve
    call-Handled none m = inl refl
    call-Handled (some service) m =
        IfOk-bind (Handled fd s) (handle service m s.app) _ λ (r, app) e.
          IfOk-of_returns (Handled fd s) (
            Returns-map (serve-Served handle service m fd s r app small e)
              λ s' v. inr (record { rearmed = v.rearmed; others = v.others }))

    check-Handled : (m : RpcMessage) → IfOk (Handled fd s) (check_message handle m fd s)
    unfolding check_message
    check-Handled m =
        IfOk-if (Handled fd s) _ _ (not (m.header.magic == rpc_magic_number)) (λ e. inl refl)
          λ e.
            IfOk-if (Handled fd s) _ _ (not (m.header.version == rpc_version)) (λ e. inl refl)
              λ e.
                IfOk-bind (Handled fd s) (c_str m.header.servicename) _
                  λ name e. rw e (call-Handled (lookup name s.dictionary) m)

    body-Handled :
        (h : RpcHeader) (second : Recv) → IfOk (Handled fd s) (read_body handle h second fd s)
    unfolding read_body
    body-Handled h second =
        IfOk-bind (Handled fd s) (receive_into (new_message 0).body.parameters second) _ λ body e.
          rw e (
            IfOk-if (Handled fd s) _ _ (not (recv_bytes second == h.body_length)) (λ e. inl refl)
              λ e. check-Handled _)

    pub handle_request_event-Handled :
        (first second : Recv) → IfOk (Handled fd s) (handle_request_event handle first second fd s)
    unfolding handle_request_event
    handle_request_event-Handled Recv.failed second = tt
    handle_request_event-Handled Recv.would_block second = inl refl
    handle_request_event-Handled (received bytes) second =
        IfOk-if (Handled fd s) _ _ (not (length bytes == sizeof_header)) (λ e. inl refl)
          λ e. body-Handled (header_of bytes) second

  pub handle_write_event-Done :
      (outcome : Send) (fd : ℕ) (s : Server Service App)
      → fd < max_file_descriptors
      → IfOk (Done fd s) (handle_write_event outcome fd s)
  handle_write_event-Done outcome fd s small = by_queue (s.pipe fd) refl outcome
    where
      by_queue :
          (q : List RpcResult)
          → s.pipe fd ≡ q
          → (outcome : Send) → IfOk (Done fd s) (handle_write_event outcome fd s)
      by_queue [] e outcome =
          subst (IfOk (Done fd s)) (sym (handle_write_event-empty outcome fd s small e)) tt
      by_queue (r ∷ rest) e (sent n) = IfOk-of_returns (Done fd s) (
          Returns-map ((handle_write_event-takes fd s r rest small e).0 n)
            λ s' (t, out). record { rearmed = t.rearmed; others = t.others })
      by_queue (r ∷ rest) e Send.would_block = IfOk-of_returns (Done fd s) (
          Returns-map (handle_write_event-takes fd s r rest small e).1
            λ s' (t, out). record { rearmed = t.rearmed; others = t.others })
      by_queue (r ∷ rest) e Send.failed =
          subst (IfOk (Done fd s)) (sym (handle_write_event-takes fd s r rest small e).2) tt
