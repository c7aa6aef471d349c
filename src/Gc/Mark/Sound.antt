-- ===== src/Gc/Mark/Sound.antt =====
-- The walk of walkSingleRoot (src/runtime/memory/gc.cpp) and what the roots reach.
use bsqgc.Prelude.{
  ℕ, zero, suc, ◌+◌, ◌≡◌, refl, sym, subst, true, ◌&&◌, Option, none, some, List, [], ◌∷◌, inl, inr,
  arith, ◌==◌, Bool-cases, ==_iff, some-injective,
}
use bsqgc.Common.{Memory, Metas, gc_type, gc_should_visit}
use bsqgc.Gc.Mark.{
  MarkStackEntry, entry, black, Walk, walk_of, is_black, is_traced, mark, visit_slot, visit_slots,
  visit_object, walk_step, walk_single_root, stack_fits,
}
use bsqgc.Gc.Mark.Graph.{
  mask_list, SlotIn, here, there, Reach, child, Extends, visit_slot-Extends, Extends-trans,
  some_of_if,
}
use bsqgc.Gc.Mark.Counted.{Counted, walk_step-Counted}

module _ (mem : Memory) (ms₀ : Metas) (roots : ℕ → Type 0) where
  -- Every marked object can be reached, and no object has changed its age.
  pub record MarkedReach (ms : Metas) : Type 0 where
    pub ext : Extends ms₀ ms
    pub reach : (o : ℕ) → (ms o).ismarked ≡ true → Reach mem ms₀ roots o

  pub mark_reached :
      (ms : Metas) (v : ℕ)
      → ((o : ℕ) → (ms o).ismarked ≡ true → Reach mem ms₀ roots o)
      → Reach mem ms₀ roots v
      → (o : ℕ) → (mark ms v o).ismarked ≡ true
      → Reach mem ms₀ roots o
  mark_reached ms v r rv o m = elim (Bool-cases (v == o)) [
    | inl e ↦ subst (Reach mem ms₀ roots) ((==_iff v o).0 e) rv
    | inr e ↦ r o (ground arith)
  ]

  visit_slot-MarkedReach :
      (mask v : ℕ) (w : Walk)
      → MarkedReach w.metas
      → (is_traced mask v ≡ true → (ms₀ v).isyoung ≡ true → Reach mem ms₀ roots v)
      → MarkedReach (visit_slot mask v w).metas
  unfolding visit_slot
  visit_slot-MarkedReach mask v w r step = record {
    ext = Extends-trans r.ext (visit_slot-Extends mask v w);
    reach = elim (Bool-cases (is_traced mask v && gc_should_visit (w.metas v))) [
      | inl e ↦
          rw e
            (mark_reached w.metas v r.reach (step (ground arith) (ground (arith, r.ext.young v))))
      | inr e ↦ rw e r.reach
    ];
  }

  visit_slots-MarkedReach :
      (masks : List ℕ) (slot : ℕ) (w : Walk)
      → MarkedReach w.metas
      → ((v : ℕ) → SlotIn mem v masks slot → (ms₀ v).isyoung ≡ true → Reach mem ms₀ roots v)
      → MarkedReach (visit_slots mem masks slot w).metas
  unfolding visit_slots
  visit_slots-MarkedReach [] slot w r step = r
  visit_slots-MarkedReach (mask ∷ masks) slot w r step =
      let v = mem.word slot in
      visit_slots-MarkedReach masks (slot + 8) (visit_slot mask v w)
        (visit_slot-MarkedReach mask v w r λ t. step v (here refl t)) λ u i. step u (there i)

  visit_object-MarkedReach :
      (e : MarkStackEntry) (mask : Option (List ℕ)) (st : List MarkStackEntry) (ms : Metas)
      (py : List ℕ)
      → (gc_type mem e.obj).ptr_mask ≡ mask
      → MarkedReach ms
      → Reach mem ms₀ roots e.obj
      → MarkedReach (visit_object mem e mask (walk_of st ms py)).metas
  unfolding visit_object
  visit_object-MarkedReach e none st ms py eq r re = r
  visit_object-MarkedReach e (some masks) st ms py eq r re = elim (Bool-cases (is_black e.color)) [
    | inl b ↦ rw b r
    | inr b ↦ rw b (
        visit_slots-MarkedReach masks e.obj (walk_of (entry e.obj black ∷ st) ms py) r
          λ v i. child re (subst (λ m. SlotIn mem v (mask_list m) e.obj) (sym eq) i))
  ]

  -- What is on top of the stack is marked.
  top_marked :
      (e : MarkStackEntry) (st : List MarkStackEntry) (ms : Metas) (py : List ℕ)
      → Counted (e ∷ st) ms py
      → (ms e.obj).ismarked ≡ true
  top_marked e st ms py c = ground (arith, c e.obj)

  pub walk_single_root-MarkedReach :
      (fuel : ℕ) (st : List MarkStackEntry) (ms : Metas) (py : List ℕ) {w : Walk}
      → walk_single_root mem fuel st ms py ≡ some w
      → Counted st ms py
      → MarkedReach ms
      → MarkedReach w.metas
  unfolding walk_single_root
  walk_single_root-MarkedReach fuel [] ms py eq c r =
      subst (λ (x : Walk). MarkedReach x.metas) (some-injective _ _ eq) r
  walk_single_root-MarkedReach zero (e ∷ st) ms py eq c r = absurd (ground arith)
  walk_single_root-MarkedReach (suc fuel) (e ∷ st) ms py eq c r =
      let w = walk_step mem e (walk_of st ms py) in
      walk_single_root-MarkedReach fuel w.visit_stack w.metas w.pending_young
        (some_of_if (stack_fits w.visit_stack) _ eq) (walk_step-Counted mem e st ms py c)
        (step r (r.reach e.obj (top_marked e st ms py c)))
    where
      step :
          MarkedReach ms
          → Reach mem ms₀ roots e.obj
          → MarkedReach (walk_step mem e (walk_of st ms py)).metas
      step =
          unfold walk_step in visit_object-MarkedReach e (gc_type mem e.obj).ptr_mask st ms py refl
