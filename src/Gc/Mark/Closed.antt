-- ===== src/Gc/Mark/Closed.antt =====
-- The walk of walkSingleRoot (src/runtime/memory/gc.cpp) and the pointers from marked young objects.
use bsqgc.Prelude.{
  ℕ, zero, suc, ◌+◌, ◌≡◌, refl, sym, ap, subst, true, false, ◌&&◌, Option, none, some, List, [],
  ◌∷◌, ◌⊎◌, inl, inr, arith, ◌==◌, Bool-cases, ==_iff, In, here, there, In-inv, some-injective,
}
use bsqgc.Common.{Memory, Metas, gc_type, gc_should_visit}
use bsqgc.Gc.Mark.{
  MarkStackEntry, entry, grey, black, Walk, walk_of, is_black, is_traced, mark, visit_slot,
  visit_slots, visit_object, walk_step, walk_single_root, stack_fits,
}
use bsqgc.Gc.Mark.Graph.{
  mask_list, masks_of, SlotsDone, IsDone, mark-Extends, visit_slots-Extends, slot_done-Extends,
  SlotsDone-Extends, some_of_if,
}

-- Every marked young object waits on the stack, or is done, or is one of those in `now`.
abbrev pub Tracked : (ℕ → Type 0) → Memory → List MarkStackEntry → Metas → Type 0
Tracked now mem st ms =
    (o : ℕ)
    → (ms o).isyoung ≡ true
    → (ms o).ismarked ≡ true
    → In (entry o grey) st ⊎ IsDone mem ms o ⊎ now o

pub mark_new :
    (now : ℕ → Type 0) (mem : Memory) (st : List MarkStackEntry) (ms : Metas) (v : ℕ)
    → Tracked now mem st ms
    → Tracked now mem (entry v grey ∷ st) (mark ms v)
mark_new now mem st ms v t o y m = elim (Bool-cases (v == o)) [
  | inl e ↦ inl (subst (λ u. In (entry u grey) (entry v grey ∷ st)) ((==_iff v o).0 e) here)
  | inr e ↦ elim (t o (ground arith) (ground arith)) [
    | inl i ↦ inl (there i)
    | inr (inl d) ↦
        inr (inl (SlotsDone-Extends mem ms (mark ms v) (masks_of mem o) o (mark-Extends ms v) d))
    | inr (inr n) ↦ inr (inr n)
  ]
]

visit_slot-Tracked :
    (now : ℕ → Type 0) (mem : Memory) (mask v : ℕ) (w : Walk)
    → Tracked now mem w.visit_stack w.metas
    → Tracked now mem (visit_slot mask v w).visit_stack (visit_slot mask v w).metas
unfolding visit_slot
visit_slot-Tracked now mem mask v w t =
    elim (Bool-cases (is_traced mask v && gc_should_visit (w.metas v))) [
      | inl e ↦ rw e (mark_new now mem w.visit_stack w.metas v t)
      | inr e ↦ rw e t
    ]

visit_slots-Tracked :
    (now : ℕ → Type 0) (mem : Memory) (masks : List ℕ) (slot : ℕ) (w : Walk)
    → Tracked now mem w.visit_stack w.metas
    → Tracked now mem
        (visit_slots mem masks slot w).visit_stack
        (visit_slots mem masks slot w).metas
unfolding visit_slots
visit_slots-Tracked now mem [] slot w t = t
visit_slots-Tracked now mem (mask ∷ masks) slot w t =
    visit_slots-Tracked now mem masks (slot + 8) (visit_slot mask (mem.word slot) w)
      (visit_slot-Tracked now mem mask (mem.word slot) w t)

-- A slot that was visited needs no further visit.
visit_slot-done :
    (mask v : ℕ) (w : Walk)
    → (is_traced mask v && gc_should_visit ((visit_slot mask v w).metas v)) ≡ false
unfolding visit_slot
visit_slot-done mask v w = elim (Bool-cases (is_traced mask v && gc_should_visit (w.metas v))) [
  | inl e ↦ rw e (ground arith)
  | inr e ↦ rw e e
]

visit_slots-SlotsDone :
    (mem : Memory) (masks : List ℕ) (slot : ℕ) (w : Walk)
    → SlotsDone mem (visit_slots mem masks slot w).metas masks slot
unfolding visit_slots
visit_slots-SlotsDone mem [] slot w = tt
visit_slots-SlotsDone mem (mask ∷ masks) slot w =
    let v = mem.word slot in
    let w' = visit_slot mask v w in
    (
      slot_done-Extends w'.metas (visit_slots mem masks (slot + 8) w').metas (is_traced mask v) v
          (visit_slots-Extends mem masks (slot + 8) w') (visit_slot-done mask v w),
      visit_slots-SlotsDone mem masks (slot + 8) w',
    )

-- The entry on top is grey or not: what is left when it is popped.
popped :
    (mem : Memory) (e : MarkStackEntry) (st : List MarkStackEntry) (ms : Metas)
    → Tracked (λ _. ⊥) mem (e ∷ st) ms
    → Tracked (λ o. e ≡ entry o grey) mem st ms
popped mem e st ms t o y m = elim (t o y m) [
  | inl i ↦ elim (In-inv i) [ inl p ↦ inr (inr p) | inr j ↦ inl j ]
  | inr (inl d) ↦ inr (inl d)
  | inr (inr n) ↦ absurd n
]

-- The objects in `now` are done after all.
settle :
    (now : ℕ → Type 0) (mem : Memory) (st : List MarkStackEntry) (ms : Metas)
    → Tracked now mem st ms
    → ((o : ℕ) → now o → IsDone mem ms o)
    → Tracked (λ _. ⊥) mem st ms
settle now mem st ms t f o y m = elim (t o y m) [
  | inl i ↦ inl i
  | inr (inl d) ↦ inr (inl d)
  | inr (inr n) ↦ inr (inl (f o n))
]

push_black :
    (now : ℕ → Type 0) (mem : Memory) (o' : ℕ) (st : List MarkStackEntry) (ms : Metas)
    → Tracked now mem st ms
    → Tracked now mem (entry o' black ∷ st) ms
push_black now mem o' st ms t o y m = elim (t o y m) [ inl i ↦ inl (there i) | inr d ↦ inr d ]

grey_not_black : (e : MarkStackEntry) (o : ℕ) → e ≡ entry o grey → is_black e.color ≡ true → ⊥
grey_not_black e o p b =
    let c : is_black grey ≡ true = subst (λ (x : MarkStackEntry). is_black x.color ≡ true) p b in cc

visit_object-Tracked :
    (mem : Memory) (e : MarkStackEntry) (mask : Option (List ℕ)) (st : List MarkStackEntry)
    (ms : Metas) (py : List ℕ)
    → (gc_type mem e.obj).ptr_mask ≡ mask
    → Tracked (λ _. ⊥) mem (e ∷ st) ms
    → Tracked
        (λ _. ⊥)
        mem
        (visit_object mem e mask (walk_of st ms py)).visit_stack
        (visit_object mem e mask (walk_of st ms py)).metas
unfolding visit_object
visit_object-Tracked mem e none st ms py eq t =
    settle _ mem st ms (popped mem e st ms t)
      λ o p. let q : e.obj ≡ o = ap (λ x. x.obj) p in subst (λ u. IsDone mem ms u) q (rw eq tt)
visit_object-Tracked mem e (some masks) st ms py eq t = elim (Bool-cases (is_black e.color)) [
  | inl b ↦ rw b (settle _ mem st ms (popped mem e st ms t) λ o p. absurd (grey_not_black e o p b))
  | inr b ↦
      let w = walk_of (entry e.obj black ∷ st) ms py in
      let w' = visit_slots mem masks e.obj w in
      let done = visit_slots-SlotsDone mem masks e.obj w in
      rw b (
        settle (λ o. e ≡ entry o grey) mem w'.visit_stack w'.metas
          (visit_slots-Tracked (λ o. e ≡ entry o grey) mem masks e.obj w
            (push_black (λ o. e ≡ entry o grey) mem e.obj st ms (popped mem e st ms t)))
          λ o p.
            subst (λ u. IsDone mem w'.metas u) (ap (λ x. x.obj) p)
              (subst (λ m. SlotsDone mem w'.metas (mask_list m) e.obj) (sym eq) done))
]

walk_step-Tracked :
    (mem : Memory) (e : MarkStackEntry) (st : List MarkStackEntry) (ms : Metas) (py : List ℕ)
    → Tracked (λ _. ⊥) mem (e ∷ st) ms
    → Tracked
        (λ _. ⊥)
        mem
        (walk_step mem e (walk_of st ms py)).visit_stack
        (walk_step mem e (walk_of st ms py)).metas
unfolding walk_step
walk_step-Tracked mem e st ms py =
    visit_object-Tracked mem e (gc_type mem e.obj).ptr_mask st ms py refl

pub walk_single_root-Tracked :
    (mem : Memory) (fuel : ℕ) (st : List MarkStackEntry) (ms : Metas) (py : List ℕ) {w : Walk}
    → walk_single_root mem fuel st ms py ≡ some w
    → Tracked (λ _. ⊥) mem st ms
    → Tracked (λ _. ⊥) mem [] w.metas
unfolding walk_single_root
walk_single_root-Tracked mem fuel [] ms py eq t =
    subst (λ (x : Walk). Tracked (λ _. ⊥) mem [] x.metas) (some-injective _ _ eq) t
walk_single_root-Tracked mem zero (e ∷ st) ms py eq t = absurd (ground arith)
walk_single_root-Tracked mem (suc fuel) (e ∷ st) ms py eq t =
    let w = walk_step mem e (walk_of st ms py) in
    walk_single_root-Tracked mem fuel w.visit_stack w.metas w.pending_young
      (some_of_if (stack_fits w.visit_stack) _ eq) (walk_step-Tracked mem e st ms py t)
