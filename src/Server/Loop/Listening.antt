-- ===== src/Server/Loop/Listening.antt =====
-- Where the event loop starts.
use dreamboat_rpc.Prelude.{ℕ, ◌<◌, ◌≡◌, refl, inl, List, [], ◌∷◌, true, false, arith, some, lt→ltb}
use dreamboat_rpc.Run.{Run, Returns, returns, Returns-bind}
use dreamboat_rpc.Packet.{RpcMessage, RpcResult}
use dreamboat_rpc.Events.{max_file_descriptors, read_event}
use dreamboat_rpc.Events.Table.{attach_event_handler-find}
use dreamboat_rpc.Poller.{Flags, Call, epoll_add, set_nonblocking, with_extra, flags_in_oneshot}
use dreamboat_rpc.Server.{Server, transport}
use dreamboat_rpc.Server.Transport.{listen}
use dreamboat_rpc.Server.Loop.{armed, is_open, Reach, start}

-- The descriptor that listens is armed once, for input alone.
quiet_at_first :
    (fd k : ℕ) (calls : List Call) (listening f : Flags)
    → calls ≡ []
    → listening.output ≡ false
    → listening.oneshot ≡ true
    → armed (epoll_add fd listening ∷ set_nonblocking fd ∷ calls) k ≡ some f
    → (f.output ≡ false)
      × (f.oneshot ≡ true)
      × (is_open (epoll_add fd listening ∷ set_nonblocking fd ∷ calls) k ≡ true)
quiet_at_first fd k (c ∷ calls) listening f none_yet quiet once e = cc
quiet_at_first fd k [] listening f none_yet quiet once e =
    (ground arith, ground arith, ground arith)

module _ {Service App : Type 0} (handle : Service → RpcMessage → App → Run (RpcResult × App)) where
  -- A server that has registered nothing yet and listens at a descriptor below 65536 is in the
  -- first state of the event loop.
  pub listen-Reach :
      (fd : ℕ) (s : Server Service App)
      → fd < max_file_descriptors
      → s.poller.calls ≡ []
      → Returns (λ s'. Reach handle (record { server = s'; pending = λ k. [] })) (listen fd s)
  unfolding listen
  listen-Reach fd s small fresh = rw (lt→ltb fd 0x80000000 (omega arith)) (
      Returns-bind (attach_event_handler-find s.table fd read_event transport small (inl refl))
        λ table found. returns (
          start (record {
            idle = λ k. refl;
            quiet = λ k f e.
                quiet_at_first fd k s.poller.calls (with_extra s.poller flags_in_oneshot) f fresh
                  refl refl e;
          })))
