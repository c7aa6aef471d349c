-- ===== src/Gc/Decrement/Tests.antt =====
-- Runs of the decrements.
use bsqgc.Prelude.{
  ℕ, ◌<◌, ◌≤◌, ◌^◌, true, Option, some, List, [], ◌∷◌, ◌==◌, if◌then◌else◌, ◌≡◌, refl, arith,
}
use bsqgc.Common.{Metas, MetaData, reset_meta, max_fwd_index}
use bsqgc.Prelude.{All, Bool-cases, subst, occurrences, ◌⊎◌, inl, inr, ◌+◌, ◌*◌, ◌≢◌, length}
use bsqgc.Gc.Decrement.Freed.{entry_of}
use bsqgc.Gc.Decrement.Heap.{IsHeap, children_in, masks_in}
use bsqgc.Gc.Decrement.Exact.{Listed, IsExact, refs, live}
use bsqgc.Gc.Decrement.Settled.{
  HasRoom, IsSettled, decrement_loop-IsExact, decrement_loop-IsSettled, IsCounted,
  decrement_loop-IsCounted,
}
use bsqgc.Memory.Page.{extract_page_from_pointer}
use bsqgc.Memory.World.{World, Returns}
use bsqgc.Memory.Allocator.Sample.{world}
use bsqgc.Gc.Decrement.Freed.{IsFreed, IsPaged, decrement_object-IsFreed}
use bsqgc.Gc.Decrement.{decrement_object, decrement_loop, Decs, dec_children, dec_slots, dec_slot}
use bsqgc.Gc.Decrement.Counts.{IsDecremented, pointers_of, dec_children-IsDecremented}
use bsqgc.Gc.Evacuate.Forward.{masks_of}

-- The object at 800 points twice to 500, which has two references, and once to 700, which has three.
abbrev words : ℕ → ℕ
words a = if a == 800 then 500 else if a == 808 then 700 else if a == 816 then 500 else 0

abbrev mask : Option (List ℕ)
mask = some (b'1' ∷ b'1' ∷ b'1' ∷ [])

abbrev header : ℕ → MetaData
header n = record (reset_meta max_fwd_index) { isalloc = true; ref_count = n }

abbrev headers : Metas
headers o = if o == 500 then header 2 else if o == 700 then header 3 else header 0

abbrev before : Decs
before = record { metas = headers; dead = [] }

pointers : pointers_of words (masks_of mask) 800 ≡ 500 ∷ 700 ∷ 500 ∷ []
unfolding pointers_of
pointers = refl

dead_after : (dec_children mask words 800 before).dead ≡ 500 ∷ []
unfolding dec_children dec_slots dec_slot
dead_after = refl

before_bound :
    (o : ℕ)
    → (occurrences o (500 ∷ 700 ∷ 500 ∷ []) ≤ (headers o).ref_count)
      × ((headers o).ref_count < 2 ^ 32)
unfolding occurrences
before_bound o = ground arith

dec_children-IsDecremented_example :
    IsDecremented
      (pointers_of words (masks_of mask) 800)
      before
      (dec_children mask words 800 before)
unfolding pointers_of
dec_children-IsDecremented_example = dec_children-IsDecremented mask words 800 before before_bound

-- The object at 16480 is allocated and has the only reference to 20000.
abbrev dropped : World ℕ
dropped = record world {
  word = λ a. if a == 16456 then 5000 else if a == 16480 then 20000 else 0;
  metas = λ o.
      if o == 16480 then header 0 else if o == 20000 then header 1 else reset_meta max_fwd_index;
  type_info = λ t. record {
    type_id = t;
    type_size = 16;
    slot_size = 2;
    ptr_mask = some (b'1' ∷ b'0' ∷ []);
    typekey = 0;
  };
}

dropped_bound :
    (o : ℕ)
    → (occurrences o (20000 ∷ []) ≤ (dropped.metas o).ref_count)
      × ((dropped.metas o).ref_count < 2 ^ 32)
unfolding occurrences
dropped_bound o = ground arith

dropped-IsPaged : All IsPaged (20000 ∷ [])
unfolding extract_page_from_pointer
dropped-IsPaged = (omega arith, tt)

object-IsPaged : IsPaged 16480
unfolding extract_page_from_pointer
object-IsPaged = omega arith

decrement_object-IsFreed_example :
    Returns
      (λ (u : Unit {0}) (w' : World ℕ). IsFreed 16480 (20000 ∷ []) dropped w')
      (decrement_object 16480 dropped)
unfolding pointers_of
decrement_object-IsFreed_example =
    decrement_object-IsFreed 16480 dropped refl object-IsPaged (omega arith) dropped-IsPaged
      dropped_bound

-- The two objects, of which the first waits for its decrements.
abbrev Obj : ℕ → Type 0
Obj o = (o ≡ 16480) ⊎ (o ≡ 20000)

abbrev waiting : World ℕ
waiting = record dropped { tinfo = record dropped.tinfo { pending_decs = 16480 ∷ [] } }

Obj-IsPaged : (o : ℕ) → Obj o → IsPaged o
unfolding extract_page_from_pointer
Obj-IsPaged o h = ground arith

Obj-closed : (o : ℕ) → Obj o → All Obj (children_in waiting o)
unfolding pointers_of
Obj-closed o (inl e) = rw e (inr refl, tt)
Obj-closed o (inr e) = rw e tt

Obj-slots :
    (o p : ℕ) → Obj o → Obj p → (k : ℕ) → k < length (masks_in waiting p) → entry_of o ≢ p + 8 * k
Obj-slots o p ho hp k lt = ground arith

waiting-IsHeap : IsHeap Obj waiting
waiting-IsHeap = record {
  paged = Obj-IsPaged;
  headed = λ o h. ground arith;
  headers = λ o p h k ne. ground arith;
  slots = λ o p h k al. Obj-slots o p h k;
  closed = λ o h al. Obj-closed o h;
  pending = (inl refl, tt);
}

-- The same two objects as a list.
abbrev both : List ℕ
both = 16480 ∷ 20000 ∷ []

both-Obj : (o : ℕ) → Listed both o → Obj o
unfolding occurrences
both-Obj o h = elim (Bool-cases (16480 == o)) [
  | inl e ↦ inl (ground arith)
  | inr e ↦ inr (ground arith)
]

both-closed : (o : ℕ) → Obj o → All (Listed both) (children_in waiting o)
unfolding occurrences pointers_of
both-closed o (inl e) = rw e (omega arith, tt)
both-closed o (inr e) = rw e tt

both-IsHeap : IsHeap (Listed both) waiting
unfolding occurrences pointers_of
both-IsHeap = record {
  paged = λ o h. Obj-IsPaged o (both-Obj o h);
  headed = λ o h. waiting-IsHeap.headed o (both-Obj o h);
  headers = λ o p h k. waiting-IsHeap.headers o p (both-Obj o h) (both-Obj p k);
  slots = λ o p h k al. Obj-slots o p (both-Obj o h) (both-Obj p k);
  closed = λ o h al. both-closed o (both-Obj o h);
  pending = (omega arith, tt);
}

waiting_counts : (o : ℕ) → Obj o → (waiting.metas o).ref_count ≡ refs waiting both o
unfolding refs pointers_of occurrences
waiting_counts o (inl e) = rw e refl
waiting_counts o (inr e) = rw e refl

waiting_safe :
    (o p : ℕ) → Obj p → 0 < occurrences o (children_in waiting p) → (waiting.metas o).isalloc ≡ true
unfolding pointers_of occurrences
waiting_safe o p (inl e) h =
    let only : 0 < occurrences o (20000 ∷ []) =
      subst (λ u. 0 < occurrences o (children_in waiting u)) e h in
    ground arith
waiting_safe o p (inr e) h =
    let none : 0 < occurrences o [] = subst (λ u. 0 < occurrences o (children_in waiting u)) e h in
    absurd (omega arith)

waiting_found :
    (o : ℕ) → Obj o → (waiting.metas o).ref_count ≡ 0 → 0 < occurrences o waiting.tinfo.pending_decs
unfolding occurrences
waiting_found o (inl e) z = rw e (omega arith)
waiting_found o (inr e) z = ground arith

waiting-IsExact : IsExact both waiting
unfolding occurrences
waiting-IsExact = record {
  heap = both-IsHeap;
  distinct = λ o. ground arith;
  bounded = λ o. ground arith;
  counts = λ o h. waiting_counts o (both-Obj o h);
  safe = λ o p h al. waiting_safe o p (both-Obj p h);
  once = λ o. ground arith;
  ready = λ o h. ground arith;
  found = λ o h al root. waiting_found o (both-Obj o h);
}

two_live_room : HasRoom both waiting
unfolding live
two_live_room = omega arith

decrement_loop-IsExact_example :
    Returns (λ (u : Unit {0}) (w' : World ℕ). IsExact both w') (decrement_loop 1 waiting)
decrement_loop-IsExact_example = decrement_loop-IsExact both 1 waiting waiting-IsExact two_live_room

two_live : live waiting both ≤ 2
unfolding live
two_live = omega arith

decrement_loop-IsSettled_example :
    Returns (λ (u : Unit {0}) (w' : World ℕ). IsSettled both w') (decrement_loop 2 waiting)
decrement_loop-IsSettled_example =
    decrement_loop-IsSettled both 2 waiting waiting-IsExact two_live_room two_live

decrement_loop-IsCounted_example :
    Returns
      (λ (u : Unit {0}) (w' : World ℕ). IsCounted both 1 waiting w')
      (decrement_loop 1 waiting)
decrement_loop-IsCounted_example =
    decrement_loop-IsCounted both 1 waiting waiting-IsExact two_live_room
