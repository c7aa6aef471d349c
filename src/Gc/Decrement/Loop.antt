-- ===== src/Gc/Decrement/Loop.antt =====
-- The rounds of the first loop of processDecrements (src/runtime/memory/gc.cpp), one by one.
use bsqgc.Prelude.{ℕ, suc, false, List, [], ◌∷◌, ◌≡◌, refl, subst, All}
use bsqgc.Memory.World.{next_place, pops_last_place, World, ok, ◌>>◌}
use bsqgc.Gc.Decrement.{decrement_object, decrement_loop, take_pending_dec}
use bsqgc.Gc.Decrement.Heap.{IsHeap}

module _ {F : Type 0} where
  -- The state behind a pop_front of pending_decs.
  unfoldable pub popped : World F → List ℕ → World F
  popped w os = record w {
    tinfo = record w.tinfo {
      pending_decs = os;
      pending_decs_place = next_place w.tinfo.pending_decs_place;
    };
  }

  pub popped-IsHeap :
      (Obj : ℕ → Type 0) (w : World F) (o : ℕ) (os : List ℕ)
      → w.tinfo.pending_decs ≡ o ∷ os
      → IsHeap Obj w
      → IsHeap Obj (popped w os) × Obj o
  unfolding popped
  popped-IsHeap Obj w o os e h =
      let pending : All Obj (o ∷ os) = subst (All Obj) e h.pending in
      (
        record {
          paged = h.paged;
          headed = h.headed;
          headers = h.headers;
          slots = h.slots;
          closed = h.closed;
          pending = pending.1;
        },
        pending.0,
      )

  pub loop_end :
      (n : ℕ) (w : World F) → w.tinfo.pending_decs ≡ [] → decrement_loop (suc n) w ≡ ok tt w
  unfolding decrement_loop take_pending_dec
  loop_end n w e = rw e refl

  pub loop_round :
      (n : ℕ) (w : World F) (o : ℕ) (os : List ℕ)
      → w.tinfo.pending_decs ≡ o ∷ os
      → pops_last_place w.tinfo.pending_decs_place os ≡ false
      → decrement_loop (suc n) w ≡ (decrement_object o >> decrement_loop n) (popped w os)
  unfolding decrement_loop take_pending_dec popped
  loop_round n w o os e inside = rw e (rw inside refl)
