-- ===== src/Guid/Tests.antt =====
-- The allocator at work on concrete ids.
use mathlib.Core.HLevel.{⊥_prop}
use mathlib.Core.Logic.Or
use mathlib.Core.List.{not-mem-nil, mem-cons}
use dreamboat_rpc.Prelude.{
  ℕ, zero, suc, ◌≡◌, ◌≢◌, ◌↔◌, refl, List, [], ◌∷◌, swap, arith, length, Mem, Option, some,
}
use dreamboat_rpc.Run.{Run, ok, faults, ◌>>=◌, Returns}
use dreamboat_rpc.Guid.{
  Guid, fresh, percolate_up, percolate_down, sink, pop_item, get_guid, recycle_guid,
}
use dreamboat_rpc.Guid.Live.{IsLive, Allocated}
use dreamboat_rpc.Guid.Order.{IsHeap, recycle_guid-IsHeap}
use dreamboat_rpc.Guid.Disorder.{pop_item-disorders}
use dreamboat_rpc.Guid.Session.{
  Reach, start, next, allocate, recycle, get_guid-unused, recycle_guid-exact,
}

abbrev recycle_all : Guid → List ℕ → Run Guid
recycle_all g [] = ok g
recycle_all g (id ∷ ids) = do g' ← recycle_guid g id; recycle_all g' ids

abbrev take_ids : ℕ → Guid → Run (List (Option ℕ))
take_ids zero g = ok []
take_ids (suc n) g = do (id, g') ← get_guid g; ids ← take_ids n g'; ok (id ∷ ids)

-- Ids come back in this order from calls that end; the third GetGuid gives 4 though 3 is free.
out_of_order :
    (recycle_all (record fresh { bound = 8 }) (5 ∷ 2 ∷ 1 ∷ 8 ∷ 6 ∷ 3 ∷ 7 ∷ 4 ∷ []) >>= take_ids 3)
    ≡ ok (some 1 ∷ some 2 ∷ some 4 ∷ [])
unfolding get_guid recycle_guid percolate_up pop_item percolate_down sink swap
out_of_order = refl

abbrev one : Guid
one = record { heap = []; bound = 1 }

one-Reach : Reach one
unfolding get_guid
one-Reach = next start (allocate (some 1) refl)

-- Three ids handed out, and two of them given back.
abbrev three : Guid
three = record { heap = []; bound = 3 }

abbrev two_back : Guid
two_back = record { heap = 1 ∷ 2 ∷ []; bound = 3 }

three-Reach : Reach three
unfolding get_guid
three-Reach = next (next one-Reach (allocate (some 2) refl)) (allocate (some 3) refl)

two_back-Reach : Reach two_back
unfolding recycle_guid percolate_up swap
two_back-Reach =
    next (next three-Reach (recycle 2 (omega arith, omega arith, λ m. not-mem-nil m) refl))
      (recycle 1 (omega arith, omega arith, not_two) refl)
  where
    not_two : ¬ Mem {A = ℕ} 1 (2 ∷ [])
    not_two m = Or.elim ⊥_prop (mem-cons.0 m) (λ e. omega (arith, e)) (λ n. not-mem-nil n)

get_guid-unused_example :
    (length two_back.heap ≢ 1 → Returns (Allocated two_back) (get_guid two_back))
    × (length two_back.heap ≡ 1 → get_guid two_back ≡ faults)
get_guid-unused_example = get_guid-unused two_back-Reach

one_in_use : IsLive one 1
one_in_use = (omega arith, omega arith, λ m. not-mem-nil m)

recycle_guid-exact_example :
    Returns (λ g'. (j : ℕ) → IsLive g' j ↔ (IsLive one j × (j ≢ 1))) (recycle_guid one 1)
recycle_guid-exact_example = recycle_guid-exact 1 one-Reach one_in_use

abbrev recycled : Guid
recycled = record { heap = 2 ∷ 5 ∷ []; bound = 8 }

recycled-IsHeap : IsHeap recycled.heap
recycled-IsHeap zero p q = absurd (omega arith)
recycled-IsHeap (suc zero) p q = omega arith
recycled-IsHeap (suc (suc c)) p q = absurd (omega arith)

recycle_guid-IsHeap_example : Returns (λ g'. IsHeap g'.heap) (recycle_guid recycled 1)
recycle_guid-IsHeap_example = recycle_guid-IsHeap recycled 1 recycled-IsHeap

-- The heap of `out_of_order` after two GetGuid of the eight.
abbrev tangled : Guid
tangled = record { heap = 1 ∷ 4 ∷ 2 ∷ 8 ∷ 6 ∷ 3 ∷ 7 ∷ 5 ∷ []; bound = 8 }

pop_item-disorders_example : Returns (λ r. ¬ IsHeap r.1.heap) (pop_item tangled)
pop_item-disorders_example =
    pop_item-disorders tangled (omega arith) (omega arith) (omega arith) (omega arith) (omega arith)
