-- ===== src/Events/Table.antt =====
-- The handler table: what an event finds after attaching and detaching.
use dreamboat_rpc.Prelude.{
  ℕ, ◌+◌, ◌*◌, ◌/◌, ◌%◌, ◌^◌, ◌<◌, ◌≡◌, ◌⊎◌, inl, inr, lt→ltb, ◌&&◌, ◌==◌, if◌then◌else◌, Option,
  none, some, arith,
}
use native.Mathlib.Nat.{add-zero}
use dreamboat_rpc.Run.{Run, ok, Returns, returns}
use dreamboat_rpc.Events.{
  read_event, write_event, close_event, max_file_descriptors, max_event_handlers, get_event_id,
  Manager, fetch, assign, set_event_handler, attach_event_handler, detach_event_handler,
}

-- A type with one bit of the three.
abbrev pub IsSingle : ℕ → Type 0
IsSingle t = (t ≡ read_event) ⊎ (t ≡ write_event) ⊎ (t ≡ close_event)

slot_small : (fd : ℕ) → fd < max_file_descriptors → (fd * 4) % 2 ^ 32 ≡ fd * 4
slot_small fd h = omega arith

-- The entry of a single event type.
abbrev bit : ℕ → ℕ
bit type = type / 2

pub get_event_id-single :
    (fd type : ℕ)
    → fd < max_file_descriptors
    → IsSingle type
    → get_event_id fd type ≡ fd * 4 + bit type
unfolding get_event_id
get_event_id-single fd type h (inl e) = rw (e, slot_small fd h)
get_event_id-single fd type h (inr (inl e)) = rw (e, slot_small fd h)
get_event_id-single fd type h (inr (inr e)) = rw (e, slot_small fd h)

module _ {H : Type 0} where
  -- The handler that HandleEvent finds.
  abbrev pub find : Manager H → ℕ → ℕ → Run (Option H)
  find list fd type = fetch list (get_event_id fd type)

  abbrev update : Manager H → ℕ → Option H → Manager H
  update list i h j = if i == j then h else list j

  assign-ok :
      (list : Manager H) (i : ℕ) (h : Option H)
      → i < max_event_handlers
      → assign list i h ≡ ok (update list i h)
  unfolding assign
  assign-ok list i h p = rw (lt→ltb i max_event_handlers p)

  set-single :
      (list : Manager H) (fd type : ℕ) (h : Option H)
      → fd < max_file_descriptors
      → IsSingle type
      → set_event_handler list fd type h ≡ ok (update list (fd * 4 + bit type) h)
  unfolding set_event_handler
  set-single list fd type h p (inl e) =
      rw (e, slot_small fd p, add-zero, assign-ok list (fd * 4) h (omega arith))
  set-single list fd type h p (inr (inl e)) =
      rw (e, slot_small fd p, assign-ok list (fd * 4 + 1) h (omega arith))
  set-single list fd type h p (inr (inr e)) =
      rw (e, slot_small fd p, assign-ok list (fd * 4 + 2) h (omega arith))

  find-update :
      (list : Manager H) (fd type fd' type' : ℕ) (h : Option H)
      → IsSingle type
      → fd' < max_file_descriptors
      → IsSingle type'
      → find (update list (fd * 4 + bit type) h) fd' type'
        ≡ (if fd == fd' && type == type' then ok h else find list fd' type')
  unfolding fetch
  find-update list fd type fd' type' h s p s' =
      rw (get_event_id-single fd' type' p s') (ground (arith, s, s'))

  -- A handler that is attached for one type of event of a descriptor below 65536 is found for just
  -- these, and no other entry changes.
  pub attach_event_handler-find :
      (list : Manager H) (fd type : ℕ) (h : H)
      → fd < max_file_descriptors
      → IsSingle type
      → Returns
          (λ list'.
            (fd' type' : ℕ)
            → fd' < max_file_descriptors
            → IsSingle type'
            → find list' fd' type'
              ≡ (if fd == fd' && type == type' then ok (some h) else find list fd' type'))
          (attach_event_handler list fd type (some h))
  unfolding attach_event_handler
  attach_event_handler-find list fd type h small single =
      rw (set-single list fd type (some h) small single)
        (returns λ fd' type' p s. find-update list fd type fd' type' (some h) single p s)

  -- After detaching all three types a descriptor below 65536 finds no handler, and no other entry
  -- changes.
  pub detach_event_handler-find :
      (list : Manager H) (fd : ℕ)
      → fd < max_file_descriptors
      → Returns
          (λ list'.
            (fd' type' : ℕ)
            → fd' < max_file_descriptors
            → IsSingle type'
            → find list' fd' type' ≡ (if fd == fd' then ok none else find list fd' type'))
          (detach_event_handler list fd (read_event + write_event + close_event))
  unfolding detach_event_handler set_event_handler fetch
  detach_event_handler-find list fd small =
      let slot = slot_small fd small in
      let list₁ = update list (fd * 4) none in
      let list₂ = update list₁ (fd * 4 + 1) none in
      rw
        (
          slot,
          assign-ok list (fd * 4) none (omega arith),
          assign-ok list₁ (fd * 4 + 1) none (omega arith),
          assign-ok list₂ (fd * 4 + 2) none (omega arith),
        )
        (returns λ fd' type' p s. rw (get_event_id-single fd' type' p s) (ground (arith, s)))
