-- ===== src/Gc/Mark/Counted.antt =====
-- The walk of walkSingleRoot (src/runtime/memory/gc.cpp): how often an object is on the stack or in pending_young.
use bsqgc.Gc.Mark.Graph.{some_of_if}
use bsqgc.Prelude.{
  ℕ, zero, suc, ◌+◌, ◌≡◌, refl, subst, ◌&&◌, Option, none, some, List, [], ◌∷◌, ◌++◌, inl, inr,
  arith, ◌==◌, if◌then◌else◌, Bool-cases, some-injective,
}
use bsqgc.Common.{Memory, Metas, gc_type, gc_should_visit}
use bsqgc.Gc.Mark.{
  MarkStackEntry, entry, black, Walk, walk_of, is_black, is_traced, visit_slot, visit_slots,
  visit_object, walk_step, walk_single_root, stack_fits,
}

-- How often an object stands in a list, and on the stack.
abbrev pub times : ℕ → List ℕ → ℕ
times o [] = 0
times o (x ∷ xs) = (if x == o then 1 else 0) + times o xs

abbrev pub on_stack : ℕ → List MarkStackEntry → ℕ
on_stack o [] = 0
on_stack o (e ∷ st) = (if e.obj == o then 1 else 0) + on_stack o st

abbrev pub Counted : List MarkStackEntry → Metas → List ℕ → Type 0
Counted st ms py = (o : ℕ) → on_stack o st + times o py ≡ (if (ms o).ismarked then 1 else 0)

pub times-append : (o x : ℕ) (xs : List ℕ) → times o (xs ++ (x ∷ [])) ≡ times o (x ∷ xs)
times-append o x [] = refl
times-append o x (y ∷ xs) = omega (arith, times-append o x xs)

visit_slot-Counted :
    (mask v : ℕ) (w : Walk)
    → Counted w.visit_stack w.metas w.pending_young
    → Counted
        (visit_slot mask v w).visit_stack
        (visit_slot mask v w).metas
        (visit_slot mask v w).pending_young
unfolding visit_slot
visit_slot-Counted mask v w c =
    elim (Bool-cases (is_traced mask v && gc_should_visit (w.metas v))) [
      | inl e ↦ rw e λ o. ground (arith, c o, c v)
      | inr e ↦ rw e c
    ]

visit_slots-Counted :
    (mem : Memory) (masks : List ℕ) (slot : ℕ) (w : Walk)
    → Counted w.visit_stack w.metas w.pending_young
    → Counted
        (visit_slots mem masks slot w).visit_stack
        (visit_slots mem masks slot w).metas
        (visit_slots mem masks slot w).pending_young
unfolding visit_slots
visit_slots-Counted mem [] slot w c = c
visit_slots-Counted mem (mask ∷ masks) slot w c =
    visit_slots-Counted mem masks (slot + 8) (visit_slot mask (mem.word slot) w)
      (visit_slot-Counted mask (mem.word slot) w c)

-- The entry on top moves to pending_young.
move_down :
    (e : MarkStackEntry) (st : List MarkStackEntry) (ms : Metas) (py : List ℕ)
    → Counted (e ∷ st) ms py
    → Counted st ms (py ++ (e.obj ∷ []))
move_down e st ms py c o = omega (arith, c o, times-append o e.obj py)

visit_object-Counted :
    (mem : Memory) (e : MarkStackEntry) (mask : Option (List ℕ)) (st : List MarkStackEntry)
    (ms : Metas) (py : List ℕ)
    → Counted (e ∷ st) ms py
    → Counted
        (visit_object mem e mask (walk_of st ms py)).visit_stack
        (visit_object mem e mask (walk_of st ms py)).metas
        (visit_object mem e mask (walk_of st ms py)).pending_young
unfolding visit_object
visit_object-Counted mem e none st ms py c = move_down e st ms py c
visit_object-Counted mem e (some masks) st ms py c = elim (Bool-cases (is_black e.color)) [
  | inl b ↦ rw b (move_down e st ms py c)
  | inr b ↦ rw b (visit_slots-Counted mem masks e.obj (walk_of (entry e.obj black ∷ st) ms py) c)
]

pub walk_step-Counted :
    (mem : Memory) (e : MarkStackEntry) (st : List MarkStackEntry) (ms : Metas) (py : List ℕ)
    → Counted (e ∷ st) ms py
    → Counted
        (walk_step mem e (walk_of st ms py)).visit_stack
        (walk_step mem e (walk_of st ms py)).metas
        (walk_step mem e (walk_of st ms py)).pending_young
unfolding walk_step
walk_step-Counted mem e st ms py = visit_object-Counted mem e (gc_type mem e.obj).ptr_mask st ms py

pub walk_single_root-Counted :
    (mem : Memory) (fuel : ℕ) (st : List MarkStackEntry) (ms : Metas) (py : List ℕ) {w : Walk}
    → walk_single_root mem fuel st ms py ≡ some w
    → Counted st ms py
    → Counted [] w.metas w.pending_young
unfolding walk_single_root
walk_single_root-Counted mem fuel [] ms py eq c =
    subst (λ (x : Walk). Counted [] x.metas x.pending_young) (some-injective _ _ eq) c
walk_single_root-Counted mem zero (e ∷ st) ms py eq c = absurd (ground arith)
walk_single_root-Counted mem (suc fuel) (e ∷ st) ms py eq c =
    let w = walk_step mem e (walk_of st ms py) in
    walk_single_root-Counted mem fuel w.visit_stack w.metas w.pending_young
      (some_of_if (stack_fits w.visit_stack) _ eq) (walk_step-Counted mem e st ms py c)
