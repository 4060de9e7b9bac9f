-- ===== src/Server/Loop.antt =====
-- The server's event loop (source/runtime/iomodel/Reactor.cc with the handlers of the server): the
-- kernel delivers events of armed descriptors, which become tasks, and workers run the tasks.
-- Descriptors are below 65536. An event uses up a
-- registration with EPOLLONESHOT; the kernel gives a new connection a descriptor that is not open. A task runs as one step. Its
-- handler is the one that is attached for its descriptor and type.
pub mod Handled
pub mod Connections
pub mod Queues
pub mod Reached
pub mod Listening
mod Tests
use dreamboat_rpc.Prelude.{
  ℕ, zero, suc, ◌<◌, ◌≡◌, ◌≢◌, List, [], ◌∷◌, ◌++◌, Bool, true, false, ◌==◌, if◌then◌else◌, Option,
  none, some,
}
use dreamboat_rpc.Run.{Run, ok}
use dreamboat_rpc.Packet.{RpcMessage, RpcResult}
use dreamboat_rpc.Events.{read_event, write_event, close_event, max_file_descriptors}
use dreamboat_rpc.Poller.{
  Flags, Call, set_nonblocking, epoll_add, epoll_mod, epoll_del, close_fd, deliver, task_type,
}
use dreamboat_rpc.Server.Transport.{Accepted, handle_connect_event, handle_close_event}
use dreamboat_rpc.Server.{Recv, Send, Server, handle_request_event, handle_write_event, is_nil}

-- An event uses up a registration with EPOLLONESHOT, and no other.
abbrev pub after_event : Option Flags → Option Flags
after_event none = none
after_event (some f) = if f.oneshot then none else some f

-- The flags for which a descriptor is armed, after the calls so far.
abbrev pub armed : List Call → ℕ → Option Flags
armed [] fd = none
armed (set_nonblocking g ∷ cs) fd = armed cs fd
armed (epoll_add g f ∷ cs) fd = let rest = armed cs fd in if g == fd then some f else rest
armed (epoll_mod g f ∷ cs) fd = let rest = armed cs fd in if g == fd then some f else rest
armed (epoll_del g f ∷ cs) fd = let rest = armed cs fd in if g == fd then none else rest
armed (close_fd g ∷ cs) fd = let rest = armed cs fd in if g == fd then none else rest
armed (deliver g ∷ cs) fd = let rest = armed cs fd in if g == fd then after_event rest else rest

-- Whether a descriptor is open: it was registered, and not closed since.
abbrev pub is_open : List Call → ℕ → Bool
is_open [] fd = false
is_open (set_nonblocking g ∷ cs) fd = is_open cs fd
is_open (epoll_add g f ∷ cs) fd = let rest = is_open cs fd in if g == fd then true else rest
is_open (epoll_mod g f ∷ cs) fd = is_open cs fd
is_open (epoll_del g f ∷ cs) fd = is_open cs fd
is_open (close_fd g ∷ cs) fd = let rest = is_open cs fd in if g == fd then false else rest
is_open (deliver g ∷ cs) fd = is_open cs fd

-- The server, and the types of the tasks that wait for each descriptor.
pub record Loop (Service App : Type 0) : Type 0 where
  pub server : Server Service App
  pub pending : ℕ → List ℕ

abbrev pub updated : (ℕ → List ℕ) → ℕ → List ℕ → ℕ → List ℕ
updated pending fd ts k = if fd == k then ts else pending k

module _ {Service App : Type 0} where
  -- The server after an event of a descriptor has been delivered.
  abbrev pub delivered : Server Service App → ℕ → Server Service App
  delivered s fd = record s { poller = record (s.poller) { calls = deliver fd ∷ s.poller.calls } }

module _ {Service App : Type 0} (handle : Service → RpcMessage → App → Run (RpcResult × App)) where
  pub data Step (l : Loop Service App) : Loop Service App → Type 0 where
    arrive :
        (fd : ℕ) (f ev : Flags) (type : ℕ)
        → armed l.server.poller.calls fd ≡ some f
        → (ev.output ≡ true → f.output ≡ true)
        → task_type ev ≡ ok type
        → Step l (record {
          server = delivered l.server fd;
          pending = updated l.pending fd (l.pending fd ++ type ∷ []);
        })
    request :
        (fd : ℕ) (ts : List ℕ) (first second : Recv) (s' : Server Service App)
        → fd < max_file_descriptors
        → l.pending fd ≡ read_event ∷ ts
        → handle_request_event handle first second fd l.server ≡ ok s'
        → Step l (record { server = s'; pending = updated l.pending fd ts })
    connect :
        (fd : ℕ) (ts : List ℕ) (a : Accepted) (s' : Server Service App)
        → l.pending fd ≡ read_event ∷ ts
        → is_open l.server.poller.calls a.connfd ≡ false
        → handle_connect_event a fd l.server ≡ ok s'
        → Step l (record { server = s'; pending = updated l.pending fd ts })
    result :
        (fd : ℕ) (ts : List ℕ) (outcome : Send) (s' : Server Service App)
        → fd < max_file_descriptors
        → l.pending fd ≡ write_event ∷ ts
        → handle_write_event outcome fd l.server ≡ ok s'
        → Step l (record { server = s'; pending = updated l.pending fd ts })
    close :
        (fd : ℕ) (ts : List ℕ) (s' : Server Service App)
        → l.pending fd ≡ close_event ∷ ts
        → handle_close_event fd l.server ≡ ok s'
        → Step l (record { server = s'; pending = updated l.pending fd ts })
    ignore :
        (fd : ℕ) (ts : List ℕ)
        → fd < max_file_descriptors
        → l.pending fd ≡ 0 ∷ ts
        → Step l (record l { pending = updated l.pending fd ts })

  -- No task waits, and only what is open is armed, once and not for output, as after Listen.
  pub record Starts (l : Loop Service App) : Type 0 where
    pub idle : (fd : ℕ) → l.pending fd ≡ []
    pub quiet :
        (fd : ℕ) (f : Flags)
        → armed l.server.poller.calls fd ≡ some f
        → (f.output ≡ false) × (f.oneshot ≡ true) × (is_open l.server.poller.calls fd ≡ true)

  pub data Reach : Loop Service App → Type 0 where
    start : {l : Loop Service App} → Starts l → Reach l
    next : {l l' : Loop Service App} → Reach l → Step l l' → Reach l'
