-- ===== src/Server/Rearm.antt =====
-- FileDescriptorEventDone: how the descriptor of an event is armed again.
use dreamboat_rpc.Prelude.{ℕ, ◌<◌, ◌≡◌, refl, ◌∷◌, Bool, true, false, not, if◌then◌else◌, lt→ltb}
use dreamboat_rpc.Run.{Returns, returns}
use dreamboat_rpc.Events.{max_file_descriptors}
use dreamboat_rpc.Poller.{
  Flags, Poller, epoll_mod, with_extra, flags_in_oneshot, flags_inout_oneshot,
}
use dreamboat_rpc.Server.{Server, is_nil, file_descriptor_event_done}

-- The descriptor that an event came for is armed again: for output exactly if results wait.
pub record Rearmed {Service App : Type 0} (fd : ℕ) (s s' : Server Service App) : Type 0 where
  pub flags : Flags
  pub called : s'.poller.calls ≡ epoll_mod fd flags ∷ s.poller.calls
  pub output : flags.output ≡ not (is_nil (s'.pipe fd))
  pub input : flags.input ≡ true
  pub oneshot : flags.oneshot ≡ true

-- What FileDescriptorEventDone registers.
abbrev next_flags : Poller → Bool → Flags
next_flags p empty = with_extra p (if empty then flags_in_oneshot else flags_inout_oneshot)

next_flags_lem :
    (p : Poller) (empty : Bool)
    → ((next_flags p empty).output ≡ not empty)
      × ((next_flags p empty).input ≡ true)
      × ((next_flags p empty).oneshot ≡ true)
next_flags_lem p true = (refl, refl, refl)
next_flags_lem p false = (refl, refl, refl)

module _ {Service App : Type 0} where
  -- FileDescriptorEventDone of a descriptor below 65536 arms it again, once, for input, and for
  -- output exactly if results wait; nothing but the registration changes.
  pub done-Rearmed :
      (fd : ℕ) (s : Server Service App)
      → fd < max_file_descriptors
      → Returns
          (λ s'. Rearmed fd s s' × (s' ≡ record s { poller = s'.poller }))
          (file_descriptor_event_done fd s)
  unfolding file_descriptor_event_done
  done-Rearmed fd s h =
      let chosen = next_flags_lem s.poller (is_nil (s.pipe fd)) in
      rw (lt→ltb fd max_file_descriptors h) (
        returns (
          record {
            flags = next_flags s.poller (is_nil (s.pipe fd));
            called = refl;
            output = chosen.0;
            input = chosen.1;
            oneshot = chosen.2;
          },
          refl,
        ))
