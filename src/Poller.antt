-- ===== src/Poller.antt =====
-- source/runtime/iomodel/Poller.cc: the flags that are registered with epoll, the calls made, and
-- the tasks made of the events that epoll_wait reports. A set of flags is a record of its bits.
pub mod Tasks
mod Tests
use dreamboat_rpc.Prelude.{ℕ, ◌+◌, List, [], ◌∷◌, Bool, true, false, ◌||◌, if◌then◌else◌}
use dreamboat_rpc.Run.{Run, ok, aborts, ◌>>=◌}
use dreamboat_rpc.Events.{read_event, write_event, close_event}

-- EPOLLIN, EPOLLOUT, EPOLLERR, EPOLLRDHUP, EPOLLONESHOT, EPOLLET
pub record Flags : Type 0 where
  pub input : Bool
  pub output : Bool
  pub error : Bool
  pub hangup : Bool
  pub oneshot : Bool
  pub edge : Bool

abbrev flags : Bool → Bool → Flags
flags output oneshot = record {
  input = true;
  output = output;
  error = true;
  hangup = true;
  oneshot = oneshot;
  edge = false;
}

abbrev pub flags_in : Flags
flags_in = flags false false

abbrev pub flags_in_oneshot : Flags
flags_in_oneshot = flags false true

abbrev pub flags_inout : Flags
flags_inout = flags true false

abbrev pub flags_inout_oneshot : Flags
flags_inout_oneshot = flags true true

-- What the program asks of the kernel, and the event that the kernel delivers.
pub data Call : Type 0 where
  set_nonblocking : ℕ → Call
  epoll_add epoll_mod epoll_del : ℕ → Flags → Call
  close_fd : ℕ → Call
  deliver : ℕ → Call

-- A poller: whether it was made edge-triggered, and the calls so far, the latest first.
pub record Poller : Type 0 where
  pub et : Bool
  pub calls : List Call

abbrev pub new_poller : Bool → Poller
new_poller et = record { et = et; calls = [] }

-- CtrlEvent adds the extra flag.
abbrev pub with_extra : Poller → Flags → Flags
with_extra p f = record f { edge = f.edge || p.et }

unfoldable pub add_event : Poller → ℕ → Flags → Poller
add_event p fd f = record p { calls = epoll_add fd (with_extra p f) ∷ set_nonblocking fd ∷ p.calls }

unfoldable pub mod_event : Poller → ℕ → Flags → Poller
mod_event p fd f = record p { calls = epoll_mod fd (with_extra p f) ∷ p.calls }

unfoldable pub del_event : Poller → ℕ → Flags → Poller
del_event p fd f = record p { calls = epoll_del fd (with_extra p f) ∷ p.calls }

-- One event of `Events`: its descriptor and flags.
pub record Event : Type 0 where
  pub fd : ℕ
  pub events : Flags

-- The type that a task is made with; 0 for an error, and `exit` where no known flag is set.
unfoldable pub task_type : Flags → Run ℕ
task_type f =
    if f.error
    then ok 0
    else if f.hangup
    then ok close_event
    else if f.input
    then ok read_event
    else if f.output
    then ok write_event
    else aborts

-- A task calls HandleEvent with the descriptor and the type.
pub record Task : Type 0 where
  pub sockfd : ℕ
  pub type : ℕ

unfoldable pub dispatch : List Event → Run (List Task)
unfolding task_type
dispatch [] = ok []
dispatch (e ∷ es) = do
  type ← task_type e.events
  rest ← dispatch es
  ok (record { sockfd = e.fd; type = type } ∷ rest)
