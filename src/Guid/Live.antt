-- ===== src/Guid/Live.antt =====
-- The ids in use, and the invariant of the allocator.
use mathlib.Core.Logic.Or
use mathlib.Core.List.{
  Mem-prop, mem-cons, mem-cons_self, mem-cons_of_mem, not-mem-nil, Nodup-cons, Nodup-nil,
}
use mathlib.Core.List.Perm
use native.Mathlib.Decide.{ℕ_discrete}
use dreamboat_rpc.Prelude.{
  ℕ, ◌+◌, ◌-◌, ◌≤◌, ◌<◌, ◌≡◌, ◌≢◌, refl, subst, List, [], ◌∷◌, ◌++◌, Mem, Perm, Nodup, arith, true,
  false, ◌⊎◌, ◌↔◌, inl, inr, leb, ◌==◌, length, Option, none, some, length-append, concat-perm,
}
use dreamboat_rpc.Run.{faults, IfOk, IfOk-of_returns, Returns, returns, Returns-bind, Returns-if}
use dreamboat_rpc.Guid.{Guid, fresh, max_guid, get_guid, recycle_guid}
use dreamboat_rpc.Guid.Entries.{pop_item-perm, pop_item-faults, percolate_up-perm}

-- An id that has been handed out and not recycled since.
abbrev pub IsLive : Guid → ℕ → Type 0
IsLive g id = (1 ≤ id) × (id ≤ g.bound) × ¬ Mem id g.heap

pub record Inv (g : Guid) : Type 0 where
  pub bounded : g.bound ≤ max_guid
  pub inside : (id : ℕ) → Mem id g.heap → (1 ≤ id) × (id ≤ g.bound)
  pub distinct : Nodup g.heap

pub fresh-Inv : Inv fresh
fresh-Inv = record {
  bounded = omega arith;
  inside = λ id m. absurd (not-mem-nil m);
  distinct = Nodup-nil;
}

-- What GetGuid gives: a number from 1 to 1024 that was not live and now is, all else as before; or
-- nothing, with all 1024 numbers live.
abbrev pub Allocated : Guid → Option ℕ × Guid → Type 0
Allocated g (none, g') = (g' ≡ g) × ((j : ℕ) → 1 ≤ j → j ≤ max_guid → IsLive g j)
Allocated g (some id, g') =
    (1 ≤ id)
    × (id ≤ max_guid)
    × (¬ IsLive g id)
    × Inv g'
    × ((j : ℕ) → IsLive g' j ↔ (IsLive g j ⊎ (j ≡ id)))

mem_of_mem-cons : {j id : ℕ} {l : List ℕ} → Mem j (id ∷ l) → j ≢ id → Mem j l
mem_of_mem-cons m ne = Or.elim Mem-prop (mem-cons.0 m) (λ e. absurd (ne e)) (λ rest. rest)

pub not-mem-of_nil : {h : List ℕ} (j : ℕ) → h ≡ [] → ¬ Mem j h
not-mem-of_nil j e m = not-mem-nil (subst (Mem j) e m)

-- An id taken off the heap, whatever the order of the ids that are left.
pop_item-Allocated :
    (g g' : Guid) (id : ℕ)
    → Inv g
    → Perm (id ∷ g'.heap) g.heap
    → g'.bound ≡ g.bound
    → Allocated g (some id, g')
pop_item-Allocated g g' id v same kept = (
  range.0,
  omega (arith, range),
  λ live. live.2 here,
  record {
    bounded = omega arith;
    inside = λ j m. rw kept (v.inside j (old j m));
    distinct = apart.1;
  },
  λ j. (
    λ live. elim (ℕ_discrete j id) [
      | yes e ↦ inr e
      | no ne ↦
          inl (live.0, omega arith, λ m. live.2 (mem_of_mem-cons ((Perm.mem_iff same).1 m) ne))
    ],
    elim [
      | inl live ↦ (live.0, omega arith, λ m. live.2 (old j m))
      | inr e ↦ (
        omega (arith, range),
        omega (arith, range),
        λ m. apart.0 (subst (λ k. Mem k g'.heap) e m),
      )
    ],
  ),
)
  where
    here : Mem id g.heap
    here = (Perm.mem_iff same).0 mem-cons_self

    range : (1 ≤ id) × (id ≤ g.bound)
    range = v.inside id here

    old : (j : ℕ) → Mem j g'.heap → Mem j g.heap
    old j m = (Perm.mem_iff same).0 (mem-cons_of_mem id m)

    apart : (¬ Mem id g'.heap) × Nodup g'.heap
    apart = Nodup-cons.0 (Perm.nodup (Perm.symm same) v.distinct)

grow-Allocated :
    (g : Guid)
    → Inv g
    → g.heap ≡ []
    → g.bound < max_guid
    → Allocated g (some (g.bound + 1), record g { bound = g.bound + 1 })
grow-Allocated g v e room = (
  omega arith,
  omega arith,
  λ live. omega (arith, live.1),
  record {
    bounded = omega arith;
    inside = λ j m. absurd (not-mem-of_nil j e m);
    distinct = v.distinct;
  },
  λ j. (
    λ live. elim (ℕ_discrete j (g.bound + 1)) [
      | yes new ↦ inr new
      | no ne ↦ inl (live.0, omega (arith, live.1), live.2)
    ],
    elim [
      | inl live ↦ (live.0, omega (arith, live.1), live.2)
      | inr new ↦ (omega arith, omega arith, not-mem-of_nil j e)
    ],
  ),
)

pub nil_of_length : (h : List ℕ) → (length h == 0) ≡ true → h ≡ []
nil_of_length [] e = refl
nil_of_length (x ∷ h) e = ground arith

-- With one recycled id, GetGuid reads past the end of the vector.
pub get_guid-faults : (g : Guid) → length g.heap ≡ 1 → get_guid g ≡ faults
unfolding get_guid
get_guid-faults g e =
    let some_left : (length g.heap == 0) ≡ false = ground (arith, e) in
    rw (some_left, pop_item-faults g e) refl

-- Else it returns, and never gives out an id that is in use.
pub get_guid-Allocated : (g : Guid) → Inv g → length g.heap ≢ 1 → Returns (Allocated g) (get_guid g)
unfolding get_guid
get_guid-Allocated g v ne =
    Returns-if (length g.heap == 0)
      (λ empty.
        let e = nil_of_length g.heap empty in
        Returns-if (leb max_guid g.bound)
          (λ full. returns (refl, λ j lo hi. (lo, ground arith, not-mem-of_nil j e)))
          (λ room. returns (grow-Allocated g v e (ground arith))))
      λ some_left.
        Returns-bind (pop_item-perm g (ground (arith, ne)))
          λ r s. returns (pop_item-Allocated g r.1 r.0 v s.1 s.2)

pub get_guid-gives : (g : Guid) → Inv g → IfOk (Allocated g) (get_guid g)
get_guid-gives g v = elim (ℕ_discrete (length g.heap) 1) [
  | yes e ↦ rw (get_guid-faults g e) tt
  | no ne ↦ IfOk-of_returns (Allocated g) (get_guid-Allocated g v ne)
]

-- RecycleGuid of an id in use returns, and frees that id alone.
pub recycle_guid-frees :
    (g : Guid) (id : ℕ)
    → Inv g
    → IsLive g id
    → Returns (λ g'. Inv g' × ((j : ℕ) → IsLive g' j ↔ (IsLive g j × (j ≢ id)))) (recycle_guid g id)
unfolding recycle_guid
recycle_guid-frees g id v live =
    let pushed = g.heap ++ id ∷ [] in
    let size = length-append g.heap (id ∷ []) in
    Returns-bind
      (percolate_up-perm (length pushed) pushed (length pushed - 1) (omega arith) (omega arith))
      λ h same. returns (freed h (Perm.trans same (concat-perm g.heap id)))
  where
    freed :
        (h : List ℕ)
        → Perm h (id ∷ g.heap)
        → Inv (record g { heap = h })
          × ((j : ℕ) → IsLive (record g { heap = h }) j ↔ (IsLive g j × (j ≢ id)))
    freed h same = (
      record {
        bounded = v.bounded;
        inside = λ j m. elim (ℕ_discrete j id) [
          | yes e ↦ rw e (live.0, live.1)
          | no ne ↦ v.inside j (mem_of_mem-cons ((Perm.mem_iff same).0 m) ne)
        ];
        distinct = Perm.nodup (Perm.symm same) (Nodup-cons.1 (live.2, v.distinct));
      },
      λ j. (
        λ l. (
          (l.0, l.1, λ m. l.2 ((Perm.mem_iff same).1 (mem-cons_of_mem id m))),
          λ e. l.2 ((Perm.mem_iff same).1 (rw e mem-cons_self)),
        ),
        λ l. (l.0.0, l.0.1, λ m. l.0.2 (mem_of_mem-cons ((Perm.mem_iff same).0 m) l.1)),
      ),
    )
