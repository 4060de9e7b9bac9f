-- ===== src/Events.antt =====
-- include/runtime/handlemodel and source/runtime/handlemodel: which handler an event goes to.
-- A file descriptor is an `int` by its 32-bit pattern, an event type an `int` of flag bits. `H`
-- stands for the pointers to event handlers.
pub mod Table
mod Tests
use dreamboat_rpc.Prelude.{
  ℕ, ◌+◌, ◌*◌, ◌/◌, ◌%◌, ◌^◌, List, [], ◌∷◌, Bool, true, false, ◌==◌, ltb, if◌then◌else◌, Option,
  none, some, get_or,
}
use dreamboat_rpc.Run.{Run, ok, faults, ◌>>=◌}
use dreamboat_rpc.Memory.{minus_one}

abbrev pub read_event : ℕ
read_event = 1

abbrev pub write_event : ℕ
write_event = 2

abbrev pub close_event : ℕ
close_event = 4

abbrev pub max_file_descriptors : ℕ
max_file_descriptors = 65536

abbrev pub max_event_handlers : ℕ
max_event_handlers = max_file_descriptors * 4

-- EventTypeToEventId: close first, then write, then read.
unfoldable pub event_type_to_event_id : ℕ → ℕ
event_type_to_event_id type = get_or (minus_one ∷ 0 ∷ 1 ∷ 1 ∷ 2 ∷ 2 ∷ 2 ∷ 2 ∷ []) (type % 8) 0

-- `(Fd << 2) | id`; the low bits of the shifted descriptor are 0, and -1 has all bits set.
unfoldable pub get_event_id : ℕ → ℕ → ℕ
unfolding event_type_to_event_id
get_event_id fd type =
    let id = event_type_to_event_id type in
    if id == minus_one then minus_one else (fd * 4) % 2 ^ 32 + id

-- The methods of a handler, and the one that EventHandler::HandleEvent calls.
pub data Method : Type 0 where
  handle_read_event handle_write_event handle_close_event : Method

unfoldable pub method_of : ℕ → Option Method
method_of type =
    if type == close_event
    then some handle_close_event
    else if type == read_event
    then some handle_read_event
    else if type == write_event
    then some handle_write_event
    else none

-- The array of EventHandlerManager; a null pointer is `none`.
abbrev pub Manager : Type 0 → Type 0
Manager H = ℕ → Option H

module _ {H : Type 0} where
  unfoldable pub fetch : Manager H → ℕ → Run (Option H)
  fetch list i = if ltb i max_event_handlers then ok (list i) else faults

  unfoldable pub assign : Manager H → ℕ → Option H → Run (Manager H)
  assign list i h =
      if ltb i max_event_handlers then ok (λ j. if i == j then h else list j) else faults

  unfoldable pub set_event_handler : Manager H → ℕ → ℕ → Option H → Run (Manager H)
  set_event_handler list fd type h = do
    let slot = (fd * 4) % 2 ^ 32
    list₁ ← if type % 2 == 1 then assign list slot h else ok list
    list₂ ← if type / 2 % 2 == 1 then assign list₁ (slot + 1) h else ok list₁
    if type / 4 % 2 == 1 then assign list₂ (slot + 2) h else ok list₂

  unfoldable pub attach_event_handler : Manager H → ℕ → ℕ → Option H → Run (Manager H)
  attach_event_handler list fd type none = ok list
  attach_event_handler list fd type (some h) = set_event_handler list fd type (some h)

  unfoldable pub detach_event_handler : Manager H → ℕ → ℕ → Run (Manager H)
  detach_event_handler list fd type = set_event_handler list fd type none

  -- HandleEvent: the call of the handler found, if any, on the state that it changes.
  unfoldable pub handle_event :
      {S : Type 0} → (H → ℕ → ℕ → S → Run S) → Manager H → ℕ → ℕ → S → Run S
  handle_event call list fd type s =
      if type == 0
      then ok s
      else (fetch list (get_event_id fd type) >>= λ found. elim found [
        | none ↦ ok s
        | some h ↦ call h fd type s
      ])
