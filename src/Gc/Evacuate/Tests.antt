-- ===== src/Gc/Evacuate/Tests.antt =====
-- Runs of updatePointers.
use bsqgc.Prelude.{ℕ, ◌<◌, ◌^◌, Option, some, List, [], ◌∷◌, ◌==◌, if◌then◌else◌, ◌≡◌, refl, arith}
use bsqgc.Common.{Metas, reset_meta, max_fwd_index}
use bsqgc.Prelude.{inr, true, false}
use bsqgc.Memory.Float.Fixed.{fixed}
use bsqgc.Memory.Page.{extract_page_from_pointer}
use bsqgc.Memory.Page.Chain.{link, done}
use bsqgc.Memory.World.{World, Returns}
use bsqgc.Memory.Allocator.Sample.{world}
use bsqgc.Gc.Evacuate.Copied.{CanMove, IsEvacuated}
use bsqgc.Gc.Evacuate.Moved.{process_young_object-IsEvacuated}
use bsqgc.Gc.Evacuate.{process_young_object, update_pointers, update_slots}
use bsqgc.Gc.Evacuate.Forward.{IsForwarded, masks_of, update_pointers-IsForwarded, slots_of}

-- The object at 800 has three slots: a pointer to 500, which moved to 600, a number, and a pointer to 700.
abbrev words : ℕ → ℕ
words a = if a == 800 then 500 else if a == 808 then 9 else if a == 816 then 700 else 0

abbrev mask : Option (List ℕ)
mask = some (b'1' ∷ b'0' ∷ b'1' ∷ [])

abbrev headers : Metas
headers o = if o == 500 then reset_meta 0 else reset_meta max_fwd_index

abbrev forward : ℕ → ℕ
forward i = if i == 0 then 600 else 0

abbrev after : (ℕ → ℕ) × Metas
after = update_pointers forward mask 800 words headers

headers_bound : (o : ℕ) → (headers o).ref_count < 2 ^ 32
headers_bound o = ground arith

slots_after : slots_of after.0 (masks_of mask) 800 ≡ 600 ∷ 9 ∷ 700 ∷ []
unfolding slots_of update_pointers update_slots
slots_after = refl

count_after : (after.1 600).ref_count ≡ 1
unfolding update_pointers update_slots
count_after = refl

update_pointers-IsForwarded_example :
    IsForwarded forward
      (masks_of mask)
      800
      words
      headers
      (update_pointers forward mask 800 words headers)
update_pointers-IsForwarded_example =
    update_pointers-IsForwarded forward mask 800 words headers headers_bound

-- The object at 16480 is young and marked and no root. Its first slot points to 20000, which was
-- forwarded to 30000. The evacuation page has a free entry at 8248.
abbrev heap : ℕ → ℕ
heap a = if a == 16456 then 5000 else if a == 16480 then 20000 else if a == 16488 then 9 else 0

abbrev heap_headers : Metas
heap_headers o =
    if o == 16480
    then record {
      isalloc = true;
      isyoung = true;
      ismarked = true;
      isroot = false;
      forward_index = max_fwd_index;
      ref_count = 0;
    }
    else if o == 20000
    then reset_meta 0
    else reset_meta max_fwd_index

abbrev heap_world : World ℕ
heap_world = record world {
  word = heap;
  metas = heap_headers;
  type_info = λ t. record {
    type_id = t;
    type_size = 16;
    slot_size = 2;
    ptr_mask = some (b'1' ∷ b'0' ∷ []);
    typekey = 0;
  };
  alloc = λ s. record (world.alloc 2) { evac_page = 8192; evacfreelist = 8248 };
  tinfo = record world.tinfo { forward_table = 30000 ∷ [] };
}

heap_bound : (o : ℕ) → (heap_headers o).ref_count < 2 ^ 32
heap_bound o = ground arith

heap-CanMove : CanMove fixed 16480 2 5000 8248 (b'1' ∷ b'0' ∷ []) [] heap_world
unfolding extract_page_from_pointer
heap-CanMove = record {
  is_young = refl;
  is_marked = refl;
  no_root = refl;
  typed = refl;
  masked = refl;
  slots = refl;
  sized = omega arith;
  paged = omega arith;
  slotted = refl;
  used = refl;
  entry = record {
    size = refl;
    page = omega arith;
    chain = link (omega arith) (done refl);
    sync = refl;
    some_free = omega arith;
    count_bound = omega arith;
    apart = tt;
  };
  separate = inr (omega arith);
  behind_header = omega arith;
  obj_bound = omega arith;
  entry_bound = omega arith;
  unforwarded = refl;
  counts = heap_bound;
}

process_young_object-IsEvacuated_example :
    Returns
      (λ (u : Unit {0}) (w' : World ℕ).
        IsEvacuated fixed 16480 5000 8288 (b'1' ∷ b'0' ∷ []) heap_world w')
      (process_young_object fixed 10 16480 heap_world)
process_young_object-IsEvacuated_example =
    process_young_object-IsEvacuated fixed 10 16480 2 5000 8248 (b'1' ∷ b'0' ∷ []) [] heap_world
      heap-CanMove
