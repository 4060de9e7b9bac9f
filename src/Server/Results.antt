-- ===== src/Server/Results.antt =====
-- What RpcResultSender does with the results of a write event.
use dreamboat_rpc.Prelude.{
  ℕ, ◌<◌, ◌≡◌, ◌≢◌, ap, ◌∙◌, List, [], ◌∷◌, arith, ◌==◌, if◌then◌else◌, take, lt→ltb, ==_refl,
}
use dreamboat_rpc.Run.{ok, aborts, Returns, Returns-map}
use dreamboat_rpc.Packet.{RpcResult, result_bytes}
use dreamboat_rpc.Events.{max_file_descriptors}
use dreamboat_rpc.Server.{
  Send, sent, Pipe, Server, read, file_descriptor_event_done, handle_write_event, after_send,
}
use dreamboat_rpc.Server.Rearm.{Rearmed, done-Rearmed}

abbrev popped : Pipe → ℕ → List RpcResult → Pipe
popped pipe fd rest k = if fd == k then rest else pipe k

read-front :
    (pipe : Pipe) (fd : ℕ) (r : RpcResult) (rest : List RpcResult)
    → fd < max_file_descriptors
    → pipe fd ≡ r ∷ rest
    → read pipe fd ≡ ok (r, popped pipe fd rest)
unfolding read
read-front pipe fd r rest small waiting = rw (lt→ltb fd max_file_descriptors small, waiting)

module _ {Service App : Type 0} where
  -- A result taken from the queue of a descriptor.
  pub record Taken (fd : ℕ) (rest : List RpcResult) (s s' : Server Service App) : Type 0 where
    pub queued : s'.pipe fd ≡ rest
    pub others : (k : ℕ) → fd ≢ k → s'.pipe k ≡ s.pipe k
    pub rearmed : Rearmed fd s s'
    pub app_lem : s'.app ≡ s.app
    pub dictionary : s'.dictionary ≡ s.dictionary

  done-Taken :
      (fd : ℕ) (s : Server Service App) (rest : List RpcResult) (out : List (ℕ × List ℕ))
      → fd < max_file_descriptors
      → Returns
          (λ s'. Taken fd rest s s' × (s'.outbox ≡ out))
          (file_descriptor_event_done fd (record s { pipe = popped s.pipe fd rest; outbox = out }))
  done-Taken fd s rest out small =
      Returns-map (done-Rearmed fd (record s { pipe = popped s.pipe fd rest; outbox = out }) small)
        λ s' (a, same). (
          record {
            queued = ap (λ (t : Server Service App). t.pipe fd) same ∙ rw (==_refl fd);
            others = λ k ne. ap (λ (t : Server Service App). t.pipe k) same ∙ ground arith;
            rearmed = record {
              flags = a.flags;
              called = a.called;
              output = a.output;
              input = a.input;
              oneshot = a.oneshot;
            };
            app_lem = ap (λ (t : Server Service App). t.app) same;
            dictionary = ap (λ (t : Server Service App). t.dictionary) same;
          },
          ap (λ (t : Server Service App). t.outbox) same,
        )

  -- With a result waiting for a descriptor below 65536, RpcResultSender takes the first one off
  -- the queue and arms the descriptor again. The send gets the bytes of that result; a send that
  -- would block sends nothing, and the result is gone all the same; a send that fails ends the
  -- process.
  pub handle_write_event-takes :
      (fd : ℕ) (s : Server Service App) (r : RpcResult) (rest : List RpcResult)
      → fd < max_file_descriptors
      → s.pipe fd ≡ r ∷ rest
      → ((n : ℕ)
          → Returns
              (λ s'. Taken fd rest s s' × (s'.outbox ≡ (fd, take n (result_bytes r)) ∷ s.outbox))
              (handle_write_event (sent n) fd s))
        × Returns
            (λ s'. Taken fd rest s s' × (s'.outbox ≡ s.outbox))
            (handle_write_event Send.would_block fd s)
        × (handle_write_event Send.failed fd s ≡ aborts)
  unfolding handle_write_event after_send
  handle_write_event-takes fd s r rest small waiting =
      let front = read-front s.pipe fd r rest small waiting in
      (
        λ n. rw front (done-Taken fd s rest ((fd, take n (result_bytes r)) ∷ s.outbox) small),
        rw front (done-Taken fd s rest s.outbox small),
        rw front,
      )

  pub handle_write_event-empty :
      (outcome : Send) (fd : ℕ) (s : Server Service App)
      → fd < max_file_descriptors
      → s.pipe fd ≡ []
      → handle_write_event outcome fd s ≡ aborts
  unfolding handle_write_event read
  handle_write_event-empty outcome fd s small empty =
      rw (lt→ltb fd max_file_descriptors small, empty)
