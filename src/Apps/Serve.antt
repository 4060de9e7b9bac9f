-- ===== src/Apps/Serve.antt =====
-- The constructor of source/server/RpcServer.cc and the start of main in source/apps/Server.cc: the server
-- as it is when the reactor begins.
use dreamboat_rpc.Prelude.{
  ℕ, ◌<◌, ◌≡◌, refl, ap, sym, subst, inl, arith, lt→ltb, List, [], ◌∷◌, Bool, true, false, some,
  none,
}
use dreamboat_rpc.Run.{
  Run, ok, aborts, ◌>>=◌, Returns, returns, Returns-bind, Returns-inv, Returns-at,
}
use dreamboat_rpc.Memory.{str_eq}
use dreamboat_rpc.Packet.{RpcMessage, RpcResult}
use dreamboat_rpc.Events.{max_file_descriptors, read_event}
use dreamboat_rpc.Events.Table.{attach_event_handler-find}
use dreamboat_rpc.Poller.{new_poller}
use dreamboat_rpc.Kv.{Service, getter, setter, Dicts, no_names}
use dreamboat_rpc.Kv.Store.{Implements, no_names-Implements}
use dreamboat_rpc.Server.{Server, lookup, add_proxy, transport}
use dreamboat_rpc.Server.Transport.{listen}
use dreamboat_rpc.Server.Loop.{Reach}
use dreamboat_rpc.Server.Loop.Listening.{listen-Reach}
use dreamboat_rpc.Logger.{Logfile, start_log}
use dreamboat_rpc.NameService.{Field, Options, Answer, Curl, register_service, heartbeats}
use dreamboat_rpc.NameService.Reports.{register_myself-Reported, all_accepted, heartbeats-ends}
use dreamboat_rpc.Remote.Proxies.{kv_getter, kv_setter}
use dreamboat_rpc.Apps.{ServerOptions, server_options}

-- A server with nothing registered; `unset` is what `_listenfd` holds before Listen.
abbrev pub new_server : {Service App : Type 0} → App → ℕ → Server Service App
new_server app unset = record {
  dictionary = [];
  pipe = λ fd. [];
  app = app;
  poller = new_poller true;
  table = λ i. none;
  listenfd = unset;
  outbox = [];
}

-- The options of the ServiceReporter.
abbrev pub reporter_options : ServerOptions → Options
reporter_options o = record { callee = []; svr_ip = o.namesvr_ip_addr; svr_port = o.namesvr_port }

module _ (write_json : List (List ℕ × Field) → List ℕ) where
  -- main up to Reactor::Run: whether fopen succeeds, the name service's two answers, the heartbeats
  -- that the thread of Main has sent by then, and the descriptor that create_listenfd gives.
  unfoldable pub serve_main :
      List (List ℕ)
      → Bool
      → Answer
      → Answer
      → List (ℕ × ℕ × Answer)
      → ℕ
      → ℕ
      → Run (Logfile × Server Service Dicts × Curl)
  unfolding server_options start_log register_service heartbeats listen
  serve_main argv log_opens a₁ a₂ rounds unset fd = do
    o ← server_options argv
    let log = start_log log_opens
    let r = reporter_options o
    (s₁, c₁) ←
        register_service write_json r o.ip_addr o.port kv_getter getter a₁
          (new_server no_names unset, record { requests = []; handles = 0 })
    (s₂, c₂) ← register_service write_json r o.ip_addr o.port kv_setter setter a₂ (s₁, c₁)
    c₃ ← heartbeats write_json r o.ip_addr o.port rounds c₂
    s₃ ← listen fd s₂
    ok (log, s₃, c₃)

  -- A registration.
  register_service-adds :
      {A B : Type 0} (o : Options) (ip : List ℕ) (port : ℕ) (name : List ℕ) (service : A)
      (a : Answer)
      → (s : Server A B) (c : Curl)
      → Returns
          (λ (s', c'). s' ≡ add_proxy s name service)
          (register_service write_json o ip port name service a (s, c))
  unfolding register_service
  register_service-adds o ip port name service a s c =
      Returns-bind (register_myself-Reported write_json o ip port name a c)
        λ (success, c') reported. returns refl

listen-keeps :
    {A B : Type 0} (fd : ℕ) (s : Server A B)
    → fd < max_file_descriptors
    → Returns
        (λ s'. (s'.dictionary ≡ s.dictionary) × (s'.app ≡ s.app) × (s'.pipe ≡ s.pipe))
        (listen fd s)
unfolding listen
listen-keeps fd s small = rw (lt→ltb fd 0x80000000 (omega arith)) (
    Returns-bind (attach_event_handler-find s.table fd read_event transport small (inl refl))
      λ table found. returns (refl, refl, refl))

-- What the reactor of the server program starts with.
abbrev pub both_registered : ℕ → Server Service Dicts
both_registered unset = record (new_server no_names unset) {
  dictionary = (kv_setter, setter) ∷ (kv_getter, getter) ∷ [];
}

-- The state of the server program at the start of its reactor.
pub record Serves (handle : Service → RpcMessage → Dicts → Run (RpcResult × Dicts))
    (s : Server Service Dicts) : Type 0 where
  pub reading : lookup kv_getter s.dictionary ≡ some getter
  pub writing : lookup kv_setter s.dictionary ≡ some setter
  pub no_names_lem : Implements s.app (λ id. none)
  pub idle : (fd : ℕ) → s.pipe fd ≡ []
  pub reached : Reach handle (record { server = s; pending = λ k. [] })

listen-Serves :
    (handle : Service → RpcMessage → Dicts → Run (RpcResult × Dicts)) (unset fd : ℕ)
    → fd < max_file_descriptors
    → Returns (Serves handle) (listen fd (both_registered unset))
unfolding lookup str_eq
listen-Serves handle unset fd small =
    let s = both_registered unset in
    let (s', ran, reached) = Returns-inv (listen-Reach handle fd s small refl) in
    let (dictionary, app, pipe) = Returns-at (listen-keeps fd s small) ran in
    rw ran (
      returns (record {
        reading = rw dictionary refl;
        writing = rw dictionary refl;
        no_names_lem = subst (λ d. Implements d (λ id. none)) (sym app) no_names-Implements;
        idle = λ k. ap (λ p. p k) pipe;
        reached = reached;
      }))

module _ (write_json : List (List ℕ × Field) → List ℕ)
    (handle : Service → RpcMessage → Dicts → Run (RpcResult × Dicts)) where
  -- With options that are read, and a descriptor below 65536 to listen at: if the name service
  -- accepts the heartbeats so far, the server program comes to its reactor, whatever it answers to
  -- the registrations and whether or not the log opens: both services are registered under the
  -- names that the client's proxies call, the buckets hold the map without names, no result waits,
  -- and the state is the first one of the event loop. If a heartbeat is not accepted, the process
  -- ends.
  pub serve_main-Serves :
      (argv : List (List ℕ)) (o : ServerOptions) (log_opens : Bool) (a₁ a₂ : Answer)
      → (rounds : List (ℕ × ℕ × Answer)) (unset fd : ℕ) → server_options argv ≡ ok o
      → fd < max_file_descriptors
      → (all_accepted write_json (reporter_options o) o.ip_addr o.port rounds ≡ true
          → Returns
              (λ (log, s, c). (log ≡ start_log log_opens) × Serves handle s)
              (serve_main write_json argv log_opens a₁ a₂ rounds unset fd))
        × (all_accepted write_json (reporter_options o) o.ip_addr o.port rounds ≡ false
            → serve_main write_json argv log_opens a₁ a₂ rounds unset fd ≡ aborts)
  unfolding serve_main add_proxy lookup str_eq
  serve_main-Serves argv o log_opens a₁ a₂ rounds unset fd given small =
      let r = reporter_options o in
      let s = new_server no_names unset in
      let c : Curl = record { requests = []; handles = 0 } in
      let ((s₁, c₁), ran₁, first) =
        Returns-inv (register_service-adds write_json r o.ip_addr o.port kv_getter getter a₁ s c) in
      let ((s₂, c₂), ran₂, second) = Returns-inv (
        register_service-adds write_json r o.ip_addr o.port kv_setter setter a₂
          (add_proxy s kv_getter getter) c₁) in
      let beats_end = heartbeats-ends write_json r o.ip_addr o.port rounds c₂ in
      (
        λ all.
            rw (given, ran₁, first, ran₂, second)
              (Returns-bind (beats_end.0 all) λ c₃ sent.
                Returns-bind (listen-Serves handle unset fd small)
                  λ s₃ serves. returns (refl, serves)),
        λ fails. rw (given, ran₁, first, ran₂, beats_end.1 fails),
      )
