-- ===== src/Server/Transport.antt =====
-- source/transport/ServerTransport.cc: listening, and the opening and closing of connections.
use dreamboat_rpc.Prelude.{ℕ, ◌+◌, ◌∷◌, Bool, false, ◌==◌, ltb, not, if◌then◌else◌, some}
use dreamboat_rpc.Run.{Run, ok, aborts, ◌>>=◌}
use dreamboat_rpc.Memory.{minus_one}
use dreamboat_rpc.Events.{
  read_event, write_event, close_event, attach_event_handler, detach_event_handler,
}
use dreamboat_rpc.Poller.{close_fd, add_event, mod_event, del_event, flags_in_oneshot}
use dreamboat_rpc.Server.{Server, transport, receiver, sender}

-- What accept and the two calls of setsockopt give.
pub record Accepted : Type 0 where
  pub connfd : ℕ
  pub receive_buffer_set : Bool
  pub send_buffer_set : Bool

module _ {Service App : Type 0} where
  -- ServerTransport::HandleCloseEvent
  unfoldable pub handle_close_event : ℕ → Server Service App → Run (Server Service App)
  unfolding del_event
  handle_close_event fd s = do
    table ← detach_event_handler s.table fd (read_event + write_event + close_event)
    let p = del_event s.poller fd (record {
      input = false;
      output = false;
      error = false;
      hangup = false;
      oneshot = false;
      edge = false;
    })
    ok (record s { table = table; poller = record p { calls = close_fd fd ∷ p.calls } })

  -- Accept: the descriptor, or -1 after a failed setsockopt has closed it.
  unfoldable pub accept : Accepted → Server Service App → ℕ × Server Service App
  accept a s =
      let closed = record s {
        poller = record (s.poller) { calls = close_fd a.connfd ∷ s.poller.calls };
      } in
      if not (ltb a.connfd 0x80000000)
      then (minus_one, s)
      else if not a.receive_buffer_set
      then (minus_one, closed)
      else if not a.send_buffer_set
      then (minus_one, closed)
      else (a.connfd, s)

  -- ServerTransport::HandleReadEvent
  unfoldable pub handle_connect_event : Accepted → ℕ → Server Service App → Run (Server Service App)
  unfolding accept add_event mod_event
  handle_connect_event a fd s = if not (fd == s.listenfd) then aborts else do
    let (connfd, s₀) = accept a s
    table₁ ← attach_event_handler s₀.table connfd read_event (some receiver)
    table₂ ← attach_event_handler table₁ connfd write_event (some sender)
    table₃ ← attach_event_handler table₂ connfd close_event (some transport)
    let added = add_event s₀.poller connfd flags_in_oneshot
    ok (record s₀ { table = table₃; poller = mod_event added s.listenfd flags_in_oneshot })

  -- ServerTransport::Listen, with the descriptor that create_listenfd gives.
  unfoldable pub listen : ℕ → Server Service App → Run (Server Service App)
  unfolding add_event
  listen fd s = if not (ltb fd 0x80000000) then aborts else do
    table ← attach_event_handler s.table fd read_event (some transport)
    ok (record s { table = table; listenfd = fd; poller = add_event s.poller fd flags_in_oneshot })
