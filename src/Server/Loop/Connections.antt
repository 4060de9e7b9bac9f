-- ===== src/Server/Loop/Connections.antt =====
-- What opening and closing a connection does to the registrations and the queues.
use dreamboat_rpc.Prelude.{
  ℕ, ◌+◌, ◌≡◌, ◌≢◌, refl, ◌∷◌, true, false, not, ◌==◌, ltb, if◌then◌else◌, arith, none, some,
  ==_refl, ◌⊎◌, inl, inr, Bool-cases,
}
use dreamboat_rpc.Run.{faults, IfOk, IfOk-if, IfOk-bind, IfOk-then}
use dreamboat_rpc.Memory.{minus_one}
use dreamboat_rpc.Events.{
  read_event, write_event, close_event, attach_event_handler, detach_event_handler,
  set_event_handler, assign,
}
use dreamboat_rpc.Poller.{Flags, close_fd, with_extra, flags_in_oneshot}
use dreamboat_rpc.Server.Transport.{Accepted, handle_connect_event, handle_close_event, accept}
use dreamboat_rpc.Server.{Server, receiver, sender, transport}
use dreamboat_rpc.Server.Loop.{armed, is_open}

module _ {Service App : Type 0} where
  -- A descriptor that was closed is armed for nothing.
  pub record Closed (fd : ℕ) (s s' : Server Service App) : Type 0 where
    pub pipe : s'.pipe ≡ s.pipe
    pub here : armed s'.poller.calls fd ≡ none
    pub others : (k : ℕ) → fd ≢ k → armed s'.poller.calls k ≡ armed s.poller.calls k
    pub opens : (k : ℕ) → fd ≢ k → is_open s'.poller.calls k ≡ is_open s.poller.calls k

  pub handle_close_event-Closed :
      (fd : ℕ) (s : Server Service App) → IfOk (Closed fd s) (handle_close_event fd s)
  unfolding handle_close_event
  handle_close_event-Closed fd s =
      IfOk-bind (Closed fd s)
        (detach_event_handler s.table fd (read_event + write_event + close_event)) _
        λ table e. rw e (record {
          pipe = refl;
          here = rw (==_refl fd);
          others = λ k ne. ground arith;
          opens = λ k ne. ground arith;
        })

  -- Both descriptors of a new connection are armed once, for input alone.
  pub record Opened (fd connfd : ℕ) (s s' : Server Service App) : Type 0 where
    pub pipe : s'.pipe ≡ s.pipe
    pub listening : Flags
    pub connected : Flags
    pub quiet : (listening.output ≡ false) × (connected.output ≡ false)
    pub oneshot : (listening.oneshot ≡ true) × (connected.oneshot ≡ true)
    pub opens :
        (k : ℕ)
        → is_open s'.poller.calls k ≡ (if connfd == k then true else is_open s.poller.calls k)
    pub here :
        (k : ℕ)
        → armed s'.poller.calls k ≡ (
            if fd == k
            then some listening
            else if connfd == k
            then some connected
            else armed s.poller.calls k)

  abbrev closed : Accepted → Server Service App → Server Service App
  closed a s = record s {
    poller = record (s.poller) { calls = close_fd a.connfd ∷ s.poller.calls };
  }

  accept-cases :
      (a : Accepted) (s : Server Service App)
      → (accept a s ≡ (a.connfd, s)) ⊎ ((s₀ : Server Service App) × (accept a s ≡ (minus_one, s₀)))
  unfolding accept
  accept-cases a s = elim (Bool-cases (ltb a.connfd 0x80000000)) [
    | inr no_fd ↦ inr (s, rw no_fd)
    | inl given ↦ elim (Bool-cases a.receive_buffer_set) [
      | inr unset ↦ inr (closed a s, rw (given, unset))
      | inl receives ↦ elim (Bool-cases a.send_buffer_set) [
        | inr unset ↦ inr (closed a s, rw (given, receives, unset))
        | inl sends ↦ inl (rw (given, receives, sends))
      ]
    ]
  ]

  attach-faults :
      (s : Server Service App)
      → attach_event_handler s.table minus_one read_event (some receiver) ≡ faults
  unfolding attach_event_handler set_event_handler assign
  attach-faults s = refl

  pub handle_connect_event-Opened :
      (a : Accepted) (fd : ℕ) (s : Server Service App)
      → IfOk (Opened fd a.connfd s) (handle_connect_event a fd s)
  unfolding handle_connect_event
  handle_connect_event-Opened a fd s =
      IfOk-if (Opened fd a.connfd s) _ _ (not (fd == s.listenfd)) (λ e. tt)
        λ e.
          let same : fd ≡ s.listenfd = ground arith in
          elim (accept-cases a s) [
            | inr (s₀, failed) ↦ rw (failed, attach-faults s₀) tt
            | inl given ↦ rw given (
                IfOk-then (Opened fd a.connfd s)
                  (attach_event_handler s.table a.connfd read_event (some receiver)) _
                  λ t₁.
                    IfOk-then (Opened fd a.connfd s)
                      (attach_event_handler t₁ a.connfd write_event (some sender)) _
                      λ t₂.
                        IfOk-then (Opened fd a.connfd s)
                          (attach_event_handler t₂ a.connfd close_event (some transport)) _
                          λ t₃. record {
                            pipe = refl;
                            listening = with_extra s.poller flags_in_oneshot;
                            connected = with_extra s.poller flags_in_oneshot;
                            quiet = (refl, refl);
                            oneshot = (refl, refl);
                            opens = λ k. refl;
                            here = λ k. rw same refl;
                          })
          ]
