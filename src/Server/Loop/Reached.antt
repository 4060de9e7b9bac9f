-- ===== src/Server/Loop/Reached.antt =====
-- The states that the event loop reaches.
use dreamboat_rpc.Prelude.{
  ℕ, ◌<◌, ◌≡◌, inl, inr, refl, List, [], ◌∷◌, Bool, true, false, arith, Option, none, some, take,
  length, ◌≤◌,
}
use dreamboat_rpc.Run.{Run, Returns, IfOk-at}
use dreamboat_rpc.Packet.{RpcMessage, RpcResult, result_bytes}
use dreamboat_rpc.Events.{read_event, write_event, close_event, max_file_descriptors}
use dreamboat_rpc.Poller.{Flags}
use dreamboat_rpc.Server.{sent, is_nil, handle_write_event}
use dreamboat_rpc.Server.Results.{Taken, handle_write_event-takes}
use dreamboat_rpc.Server.Loop.{
  Loop, armed, is_open, Step, Starts, Reach, arrive, request, connect, result, close, ignore, start,
  next,
}
use dreamboat_rpc.Server.Loop.Handled.{handle_request_event-Handled, handle_write_event-Done}
use dreamboat_rpc.Server.Loop.Connections.{handle_close_event-Closed, handle_connect_event-Opened}
use dreamboat_rpc.Server.Loop.Queues.{
  Fits, Inv, only_task, task-open, clash, Done-Inv, Same-Inv, Closed-Inv, Opened-Inv, Arrive-Inv,
}

at_most_one :
    (f : Option Flags) (ts : List ℕ) (q : List RpcResult)
    → Fits f ts q
    → (length ts ≤ 1) × ((g : Flags) → f ≡ some g → ts ≡ [])
at_most_one (some f) ts q v = (rw v.1 (omega arith), λ g e. v.1)
at_most_one none [] q v = (omega arith, λ g e. refl)
at_most_one none (t ∷ []) q v = (omega arith, λ g e. cc)
at_most_one none (t ∷ u ∷ ts) q v = absurd v

front :
    (q : List RpcResult)
    → is_nil q ≡ false
    → (r : RpcResult) × (rest : List RpcResult) × (q ≡ r ∷ rest)
front [] e = cc
front (r ∷ rest) e = (r, rest, refl)

module _ {Service App : Type 0} (handle : Service → RpcMessage → App → Run (RpcResult × App)) where
  Step-Inv : {l l' : Loop Service App} → Inv l → Step handle l l' → Inv l'
  Step-Inv {l} v (arrive fd f ev type is sub made) =
      Arrive-Inv l.server l.pending fd f ev type v is sub made
  Step-Inv {l} v (request fd ts first second s' small waits ran) =
      let (unarmed, none_left, sends) = only_task _ _ ts read_event _ (v fd small).0 waits in
      let opened = task-open l.server l.pending fd read_event ts (v fd small) waits in
      elim (IfOk-at _ _ (handle_request_event-Handled handle fd small l.server first second) ran) [
        | inl same ↦ rw same (Same-Inv l.server l.pending fd ts v none_left unarmed)
        | inr d ↦ Done-Inv l.server s' l.pending fd ts v none_left opened d
      ]
  Step-Inv {l} v (connect fd ts a s' waits new ran) =
      Opened-Inv l.server s' l.pending fd a.connfd ts v
        (λ small. (
          (only_task _ _ ts read_event _ (v fd small).0 waits).1,
          task-open l.server l.pending fd read_event ts (v fd small) waits,
        ))
        new (IfOk-at _ _ (handle_connect_event-Opened a fd l.server) ran)
  Step-Inv {l} v (result fd ts outcome s' small waits ran) =
      Done-Inv l.server s' l.pending fd ts v (only_task _ _ ts write_event _ (v fd small).0 waits).1
        (task-open l.server l.pending fd write_event ts (v fd small) waits)
        (IfOk-at _ _ (handle_write_event-Done outcome fd l.server small) ran)
  Step-Inv {l} v (close fd ts s' waits ran) =
      Closed-Inv l.server s' l.pending fd ts v
        (λ small. (only_task _ _ ts close_event _ (v fd small).0 waits).1)
        (IfOk-at _ _ (handle_close_event-Closed fd l.server) ran)
  Step-Inv {l} v (ignore fd ts small waits) =
      let (unarmed, none_left, sends) = only_task _ _ ts 0 _ (v fd small).0 waits in
      Same-Inv l.server l.pending fd ts v none_left unarmed

  Starts-Inv : {l : Loop Service App} → Starts handle l → Inv l
  Starts-Inv {l} b fd small = rw (b.idle fd) (
    by_arming (armed l.server.poller.calls fd) (b.quiet fd),
    λ shut. (by_opening _ _ (b.quiet fd) shut, refl),
  )
    where
      by_arming :
          (f : Option Flags)
          → ((g : Flags)
              → f ≡ some g
              → (g.output ≡ false) × (g.oneshot ≡ true) × (is_open l.server.poller.calls fd ≡ true))
          → Fits f [] (l.server.pipe fd)
      by_arming none q = tt
      by_arming (some g) q =
          let (quiet, once, opened) = q g refl in (once, refl, λ out. absurd (clash quiet out))

      by_opening :
          (f : Option Flags) (b : Bool)
          → ((g : Flags) → f ≡ some g → (g.output ≡ false) × (g.oneshot ≡ true) × (b ≡ true))
          → b ≡ false
          → f ≡ none
      by_opening none b q shut = refl
      by_opening (some g) b q shut = absurd (clash shut (q g refl).2)

  Reach-Inv : {l : Loop Service App} → Reach handle l → Inv l
  Reach-Inv (start b) = Starts-Inv b
  Reach-Inv (next r s) = Step-Inv (Reach-Inv r) s

  -- In every state that the event loop reaches, a descriptor below 65536 has at most one task, and
  -- none while it is armed.
  pub one_task :
      {l : Loop Service App} (fd : ℕ)
      → Reach handle l
      → fd < max_file_descriptors
      → (length (l.pending fd) ≤ 1)
        × ((f : Flags) → armed l.server.poller.calls fd ≡ some f → l.pending fd ≡ [])
  one_task {l} fd r small = at_most_one _ _ _ (Reach-Inv r fd small).0

  -- In every state that the event loop reaches, a task of a descriptor below 65536 that is to send
  -- a result finds one: RpcResultSender takes the first result of the descriptor's queue and sends
  -- it, and does not fail the assertion in Read.
  pub write_finds_result :
      {l : Loop Service App} (fd : ℕ) (ts : List ℕ)
      → Reach handle l
      → fd < max_file_descriptors
      → l.pending fd ≡ write_event ∷ ts
      → (r : RpcResult) × (rest : List RpcResult) × (l.server.pipe fd ≡ r ∷ rest)
        × ((n : ℕ)
            → Returns
                (λ s'.
                  Taken fd rest l.server s'
                  × (s'.outbox ≡ (fd, take n (result_bytes r)) ∷ l.server.outbox))
                (handle_write_event (sent n) fd l.server))
  write_finds_result {l} fd ts r small waits =
      let (unarmed, none_left, sends) =
        only_task _ _ ts write_event _ (Reach-Inv r fd small).0 waits in
      let (first, rest, e) = front (l.server.pipe fd) (sends refl) in
      (first, rest, e, (handle_write_event-takes fd l.server first rest small e).0)
