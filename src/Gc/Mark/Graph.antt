-- ===== src/Gc/Mark/Graph.antt =====
-- The graph that walkSingleRoot (src/runtime/memory/gc.cpp) follows, and the order of headers as marks are set.
use bsqgc.Prelude.{
  ℕ, zero, suc, ◌+◌, ◌≡◌, refl, ◌∙◌, subst, Bool, true, false, ◌&&◌, Option, none, some, List, [],
  ◌∷◌, inl, inr, arith, Bool-cases, some-injective, if◌then◌else◌,
}
use bsqgc.Common.{Memory, Metas, gc_type, gc_should_visit}
use bsqgc.Gc.Mark.{
  MarkStackEntry, entry, black, Walk, walk_of, is_black, is_traced, mark, visit_slot, visit_slots,
  visit_object, walk_step, walk_single_root, stack_fits,
}

abbrev pub mask_list : Option (List ℕ) → List ℕ
mask_list none = []
mask_list (some masks) = masks

-- The characters of the mask of an object's type.
abbrev pub masks_of : Memory → ℕ → List ℕ
masks_of mem o = mask_list (gc_type mem o).ptr_mask

-- Some slot from `slot` on, under the mask, holds the pointer `v`.
pub data SlotIn (mem : Memory) (v : ℕ) : List ℕ → ℕ → Type 0 where
  here :
      {mask slot : ℕ} {masks : List ℕ}
      → mem.word slot ≡ v
      → is_traced mask v ≡ true
      → SlotIn mem v (mask ∷ masks) slot
  there :
      {mask slot : ℕ} {masks : List ℕ}
      → SlotIn mem v masks (slot + 8)
      → SlotIn mem v (mask ∷ masks) slot

-- The objects that a walk from the objects in `roots` has to visit: young objects all the way.
pub data Reach (mem : Memory) (ms : Metas) (roots : ℕ → Type 0) : ℕ → Type 0 where
  root : {o : ℕ} → roots o → (ms o).isyoung ≡ true → Reach mem ms roots o
  child :
      {o v : ℕ}
      → Reach mem ms roots o
      → SlotIn mem v (masks_of mem o) o
      → (ms v).isyoung ≡ true
      → Reach mem ms roots v

-- No slot from `slot` on holds a pointer that the walk still has to visit.
abbrev pub SlotsDone : Memory → Metas → List ℕ → ℕ → Type 0
SlotsDone mem ms [] slot = Unit
SlotsDone mem ms (mask ∷ masks) slot =
    ((is_traced mask (mem.word slot) && gc_should_visit (ms (mem.word slot))) ≡ false)
    × SlotsDone mem ms masks (slot + 8)

abbrev pub IsDone : Memory → Metas → ℕ → Type 0
IsDone mem ms o = SlotsDone mem ms (masks_of mem o) o

-- Headers change by being marked only.
pub record Extends (ms ms' : Metas) : Type 0 where
  pub young : (o : ℕ) → (ms' o).isyoung ≡ (ms o).isyoung
  pub marked : (o : ℕ) → (ms o).ismarked ≡ true → (ms' o).ismarked ≡ true
  pub alloc : (o : ℕ) → (ms' o).isalloc ≡ (ms o).isalloc
  pub isroot : (o : ℕ) → (ms' o).isroot ≡ (ms o).isroot
  pub forward : (o : ℕ) → (ms' o).forward_index ≡ (ms o).forward_index
  pub counts : (o : ℕ) → (ms' o).ref_count ≡ (ms o).ref_count

pub Extends-refl : (ms : Metas) → Extends ms ms
Extends-refl ms = record {
  young = λ o. refl;
  marked = λ o m. m;
  alloc = λ o. refl;
  isroot = λ o. refl;
  forward = λ o. refl;
  counts = λ o. refl;
}

pub Extends-trans : {a b c : Metas} → Extends a b → Extends b c → Extends a c
Extends-trans p q = record {
  young = λ o. q.young o ∙ p.young o;
  marked = λ o m. q.marked o (p.marked o m);
  alloc = λ o. q.alloc o ∙ p.alloc o;
  isroot = λ o. q.isroot o ∙ p.isroot o;
  forward = λ o. q.forward o ∙ p.forward o;
  counts = λ o. q.counts o ∙ p.counts o;
}

pub mark-Extends : (ms : Metas) (v : ℕ) → Extends ms (mark ms v)
mark-Extends ms v = record {
  young = λ o. ground arith;
  marked = λ o m. ground arith;
  alloc = λ o. ground arith;
  isroot = λ o. ground arith;
  forward = λ o. ground arith;
  counts = λ o. ground arith;
}

pub visit_slot-Extends : (mask v : ℕ) (w : Walk) → Extends w.metas (visit_slot mask v w).metas
unfolding visit_slot
visit_slot-Extends mask v w = elim (Bool-cases (is_traced mask v && gc_should_visit (w.metas v))) [
  | inl e ↦ rw e (mark-Extends w.metas v)
  | inr e ↦ rw e (Extends-refl w.metas)
]

pub visit_slots-Extends :
    (mem : Memory) (masks : List ℕ) (slot : ℕ) (w : Walk)
    → Extends w.metas (visit_slots mem masks slot w).metas
unfolding visit_slots
visit_slots-Extends mem [] slot w = Extends-refl w.metas
visit_slots-Extends mem (mask ∷ masks) slot w =
    Extends-trans (visit_slot-Extends mask (mem.word slot) w)
      (visit_slots-Extends mem masks (slot + 8) (visit_slot mask (mem.word slot) w))

-- What is done stays done.
pub slot_done-Extends :
    (ms ms' : Metas) (t : Bool) (v : ℕ)
    → Extends ms ms'
    → (t && gc_should_visit (ms v)) ≡ false
    → (t && gc_should_visit (ms' v)) ≡ false
slot_done-Extends ms ms' t v x h = ground (arith, x.young v, x.marked v)

pub SlotsDone-Extends :
    (mem : Memory) (ms ms' : Metas) (masks : List ℕ) (slot : ℕ)
    → Extends ms ms'
    → SlotsDone mem ms masks slot
    → SlotsDone mem ms' masks slot
SlotsDone-Extends mem ms ms' [] slot x d = tt
SlotsDone-Extends mem ms ms' (mask ∷ masks) slot x d = (
  slot_done-Extends ms ms' (is_traced mask (mem.word slot)) (mem.word slot) x d.0,
  SlotsDone-Extends mem ms ms' masks (slot + 8) x d.1,
)

pub visit_object-Extends :
    (mem : Memory) (e : MarkStackEntry) (mask : Option (List ℕ)) (w : Walk)
    → Extends w.metas (visit_object mem e mask w).metas
unfolding visit_object
visit_object-Extends mem e none w = Extends-refl w.metas
visit_object-Extends mem e (some masks) w = elim (Bool-cases (is_black e.color)) [
  | inl b ↦ rw b (Extends-refl w.metas)
  | inr b ↦ rw b (
      visit_slots-Extends mem masks e.obj
        (record w { visit_stack = entry e.obj black ∷ w.visit_stack }))
]

-- A round that goes on.
pub some_of_if :
    (b : Bool) (r : Option Walk) {w : Walk} → (if b then r else none) ≡ some w → r ≡ some w
some_of_if true r eq = eq
some_of_if false r eq = absurd (ground arith)

pub walk_single_root-Extends :
    (mem : Memory) (fuel : ℕ) (st : List MarkStackEntry) (ms : Metas) (py : List ℕ) {w : Walk}
    → walk_single_root mem fuel st ms py ≡ some w
    → Extends ms w.metas
unfolding walk_single_root walk_step
walk_single_root-Extends mem fuel [] ms py eq =
    subst (λ (x : Walk). Extends ms x.metas) (some-injective _ _ eq) (Extends-refl ms)
walk_single_root-Extends mem zero (e ∷ st) ms py eq = absurd (ground arith)
walk_single_root-Extends mem (suc fuel) (e ∷ st) ms py eq =
    let w = walk_step mem e (walk_of st ms py) in
    Extends-trans (visit_object-Extends mem e (gc_type mem e.obj).ptr_mask (walk_of st ms py)) (
      walk_single_root-Extends mem fuel w.visit_stack w.metas w.pending_young
        (some_of_if (stack_fits w.visit_stack) _ eq))
