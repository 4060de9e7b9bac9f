-- ===== src/Client/Interest.antt =====
-- ClientTransport: requests go out in order, and EPOLLOUT is watched exactly while some wait.
use dreamboat_rpc.Prelude.{
  ℕ, ◌+◌, ◌≤◌, ◌<◌, ◌≡◌, ◌≢◌, refl, sym, ap, ◌∙◌, subst, List, [], ◌∷◌, ◌++◌, Bool, true, false,
  arith, inl, inr, Bool-cases, ◌==◌, ◌&&◌, not, if◌then◌else◌, length, replicate, ==_refl, lt→ltb,
  le→ltb,
}
use dreamboat_rpc.Run.{
  ok, aborts, ◌>>=◌, Returns, returns, Returns-inv, Returns-map, IfOk, IfOk-of_returns,
}
use dreamboat_rpc.Memory.{minus_one}
use dreamboat_rpc.Packet.{RpcMessage, IsMessage, sizeof_header, max_rpc_params_size}
use dreamboat_rpc.Packet.RoundTrip.{packet_bytes, serialize_message-packet_bytes}
use dreamboat_rpc.Poller.{Call, epoll_add, epoll_mod}
use dreamboat_rpc.Server.{Send}
use dreamboat_rpc.Client.{
  Client, Connected, max_buffer, went_out, push, send, send_front, stop_watching,
  handle_write_event, connect_to, initialize,
}

abbrev pub nothing_waits : List RpcMessage → Bool
nothing_waits [] = true
nothing_waits (m ∷ rest) = false

-- Whether the last registration of a descriptor is for output, and for input, and stays when an
-- event has come.
abbrev pub watched : List Call → ℕ → Bool
watched [] fd = false
watched (epoll_add f fl ∷ cs) fd = if f == fd then fl.output && not fl.oneshot else watched cs fd
watched (epoll_mod f fl ∷ cs) fd = if f == fd then fl.output && not fl.oneshot else watched cs fd
watched (c ∷ cs) fd = watched cs fd

abbrev pub heard : List Call → ℕ → Bool
heard [] fd = false
heard (epoll_add f fl ∷ cs) fd = if f == fd then fl.input && not fl.oneshot else heard cs fd
heard (epoll_mod f fl ∷ cs) fd = if f == fd then fl.input && not fl.oneshot else heard cs fd
heard (c ∷ cs) fd = heard cs fd

-- A message that fits the packet.
abbrev pub Fits : RpcMessage → Type 0
Fits m = IsMessage m × (m.header.body_length ≤ max_rpc_params_size)

abbrev pub AllFit : List RpcMessage → Type 0
AllFit [] = Unit {0}
AllFit (m ∷ ms) = Fits m × AllFit ms

nothing_waits-concat :
    (ms : List RpcMessage) (m : RpcMessage) → nothing_waits (ms ++ m ∷ []) ≡ false
nothing_waits-concat [] m = refl
nothing_waits-concat (x ∷ ms) m = refl

AllFit-concat : (ms : List RpcMessage) (m : RpcMessage) → AllFit ms → Fits m → AllFit (ms ++ m ∷ [])
AllFit-concat [] m v fits = (fits, tt)
AllFit-concat (x ∷ ms) m v fits = (v.0, AllFit-concat ms m v.1 fits)

module _ {S : Type 0} where
  -- Input is watched, output exactly while requests wait, and every request that waits can be sent.
  pub record Inv (c : Client S) : Type 0 where
    pub connected : c.connfd ≢ minus_one
    pub hearing : heard c.poller.calls c.connfd ≡ true
    pub watching : watched c.poller.calls c.connfd ≡ not (nothing_waits c.pending_requests)
    pub fitting : AllFit c.pending_requests

  pub push-Inv :
      (m : RpcMessage) (c : Client S)
      → Inv c
      → Fits m
      → Returns
          (λ c'.
            Inv c'
            × (c'.pending_requests ≡ c.pending_requests ++ m ∷ [])
            × (c'.outbox ≡ c.outbox)
            × (c'.callbacks ≡ c.callbacks)
            × (c'.initialized ≡ c.initialized))
          (push m c)
  unfolding push
  push-Inv m c v fits =
      let there : (c.connfd == minus_one) ≡ false = ground (arith, v.connected) in
      rw there (
        returns (
          record {
            connected = v.connected;
            hearing = rw (==_refl c.connfd) refl;
            watching = rw (==_refl c.connfd, nothing_waits-concat c.pending_requests m);
            fitting = AllFit-concat c.pending_requests m v.fitting fits;
          },
          refl,
          refl,
          refl,
          refl,
        ))

  send-packet :
      (outcome : Send) (m : RpcMessage) (c : Client S)
      → Fits m
      → send outcome m c ≡ ok (record c { outbox = went_out outcome (packet_bytes m) c.outbox })
  unfolding send
  send-packet outcome m c (v, short) =
      let buf : List ℕ = replicate max_buffer 0 in
      let room : sizeof_header + max_rpc_params_size ≤ length buf = omega arith in
      let ((n, b), written, facts) =
        Returns-inv (serialize_message-packet_bytes m v short buf room) in
      rw (written, facts.1)

  -- What a write event leaves alone.
  abbrev pub Unchanged : Client S → Client S → Type 0
  Unchanged c c' =
      (c'.callbacks ≡ c.callbacks) × (c'.initialized ≡ c.initialized) × (c'.connfd ≡ c.connfd)

  stop_watching-Inv :
      (c : Client S) (rest : List RpcMessage)
      → c.connfd ≢ minus_one
      → AllFit rest
      → heard c.poller.calls c.connfd ≡ true
      → watched c.poller.calls c.connfd ≡ true
      → c.pending_requests ≡ rest
      → Inv (stop_watching rest c)
        × ((stop_watching rest c).pending_requests ≡ rest)
        × ((stop_watching rest c).outbox ≡ c.outbox)
        × Unchanged c (stop_watching rest c)
  unfolding stop_watching
  stop_watching-Inv c [] there fit hears on same = (
    record {
      connected = there;
      hearing = rw (==_refl c.connfd) refl;
      watching = rw (==_refl c.connfd, same);
      fitting = subst AllFit (sym same) fit;
    },
    same,
    refl,
    (refl, refl, refl),
  )
  stop_watching-Inv c (m ∷ rest) there fit hears on same = (
    record {
      connected = there;
      hearing = hears;
      watching = on ∙ sym (ap (λ q. not (nothing_waits q)) same);
      fitting = subst AllFit (sym same) fit;
    },
    same,
    refl,
    (refl, refl, refl),
  )

  -- At a client in order with requests waiting, the first one leaves the queue, and its packet
  -- goes out as far as the send takes it; output stays watched exactly if more wait, and the
  -- callbacks stay.
  pub handle_write_event-sends :
      (outcome : Send) (c : Client S) (m : RpcMessage) (rest : List RpcMessage)
      → Inv c
      → c.pending_requests ≡ m ∷ rest
      → Returns
          (λ c'.
            Inv c'
            × (c'.pending_requests ≡ rest)
            × (c'.outbox ≡ went_out outcome (packet_bytes m) c.outbox)
            × Unchanged c c')
          (handle_write_event outcome c.connfd c)
  unfolding handle_write_event send_front
  handle_write_event-sends outcome c m rest v waiting =
      let fits = subst AllFit waiting v.fitting in
      let on = v.watching ∙ ap (λ q. not (nothing_waits q)) waiting in
      let out = went_out outcome (packet_bytes m) c.outbox in
      let front : Returns
          (λ c'. Inv c' × (c'.pending_requests ≡ rest) × (c'.outbox ≡ out) × Unchanged c c')
          (send_front outcome (m ∷ rest) c >>= λ c'. ok (stop_watching c'.pending_requests c')) =
        rw (send-packet outcome m c fits.0) (
          returns (
            stop_watching-Inv (record c { outbox = out; pending_requests = rest }) rest v.connected
              fits.1 v.hearing on refl)) in
      rw (==_refl c.connfd) (
        subst
          (λ q.
            Returns
              (λ c'. Inv c' × (c'.pending_requests ≡ rest) × (c'.outbox ≡ out) × Unchanged c c')
              (send_front outcome q c >>= λ c'. ok (stop_watching c'.pending_requests c')))
          (sym waiting) front)

  -- A write event with nothing to send.
  handle_write_event-idle :
      (outcome : Send) (c : Client S)
      → Inv c
      → c.pending_requests ≡ []
      → Returns (λ c'. Inv c' × Unchanged c c') (handle_write_event outcome c.connfd c)
  unfolding handle_write_event send_front stop_watching
  handle_write_event-idle outcome c v empty =
      let idle : Returns (λ c'. Inv c' × Unchanged c c')
          (send_front outcome [] c >>= λ c'. ok (stop_watching [] c')) =
        returns (
          record {
            connected = v.connected;
            hearing = rw (==_refl c.connfd) refl;
            watching = rw (==_refl c.connfd, empty);
            fitting = v.fitting;
          },
          (refl, refl, refl),
        ) in
      let front : Returns (λ c'. Inv c' × Unchanged c c')
          (send_front outcome [] c >>= λ c'. ok (stop_watching c'.pending_requests c')) =
        subst
          (λ q.
            Returns (λ c'. Inv c' × Unchanged c c')
              (send_front outcome [] c >>= λ c'. ok (stop_watching q c')))
          (sym empty) idle in
      rw (==_refl c.connfd) (
        subst
          (λ q.
            Returns (λ c'. Inv c' × Unchanged c c')
              (send_front outcome q c >>= λ c'. ok (stop_watching c'.pending_requests c')))
          (sym empty) front)

  write-Inv :
      (outcome : Send) (c : Client S) (q : List RpcMessage)
      → c.pending_requests ≡ q
      → Inv c
      → Returns (λ c'. Inv c' × Unchanged c c') (handle_write_event outcome c.connfd c)
  write-Inv outcome c [] waiting v = handle_write_event-idle outcome c v waiting
  write-Inv outcome c (m ∷ rest) waiting v =
      Returns-map (handle_write_event-sends outcome c m rest v waiting)
        λ c' (w, queued, out, same). (w, same)

  -- Any write event that returns.
  pub handle_write_event-Inv :
      (outcome : Send) (fd : ℕ) (c : Client S)
      → Inv c
      → IfOk (λ c'. Inv c' × Unchanged c c') (handle_write_event outcome fd c)
  unfolding handle_write_event
  handle_write_event-Inv outcome fd c v = elim (Bool-cases (fd == c.connfd)) [
    | inl e ↦
        let same : fd ≡ c.connfd = ground arith in
        subst (λ f. IfOk (λ c'. Inv c' × Unchanged c c') (handle_write_event outcome f c))
          (sym same)
          (IfOk-of_returns (λ c'. Inv c' × Unchanged c c')
            (write-Inv outcome c c.pending_requests refl v))
    | inr e ↦ rw e tt
  ]

  -- A client with nothing to send that connects is in order: it watches its descriptor for input
  -- alone; one that cannot connect ends the process.
  pub initialize-Inv :
      (r : Connected) (c : Client S)
      → c.pending_requests ≡ []
      → (connect_to r < 0x80000000
          → Returns
              (λ c'.
                Inv c'
                × (c'.connfd ≡ connect_to r)
                × (c'.initialized ≡ true)
                × (c'.callbacks ≡ c.callbacks))
              (initialize r c))
        × (0x80000000 ≤ connect_to r → initialize r c ≡ aborts)
  unfolding initialize
  initialize-Inv r c empty = (
    λ small. rw (lt→ltb (connect_to r) 0x80000000 small) (
        returns (
          record {
            connected = λ e. omega arith;
            hearing = rw (==_refl (connect_to r)) refl;
            watching = rw (==_refl (connect_to r), empty);
            fitting = subst AllFit (sym empty) tt;
          },
          refl,
          refl,
          refl,
        )),
    λ big. rw (le→ltb (connect_to r) 0x80000000 big),
  )
