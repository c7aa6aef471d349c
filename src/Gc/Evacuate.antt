-- ===== src/Gc/Evacuate.antt =====
-- updatePointers and processMarkedYoungObjects (src/runtime/memory/gc.cpp): the young objects that are no
-- roots move to evacuation pages, and every slot of a young object gets the new address of what it
-- points to, which it counts.
pub mod Forward
pub mod Copy
pub mod Copied
pub mod Moved
mod Tests
use bsqgc.Prelude.{
  ℕ, zero, suc, ◌+◌, ◌-◌, ◌*◌, ◌/◌, ◌%◌, ◌^◌, Bool, true, false, not, ◌&&◌, ◌||◌, Option, none,
  some, List, [], ◌∷◌, ◌++◌, ◌==◌, if◌then◌else◌,
}
use bsqgc.Common.{
  Memory, Metas, MetaData, TypeInfoBase, store, gc_type, gc_clear_young_mark, max_fwd_index,
  ptr_mask_ptr, reset_meta, string_and_ptr_valued, size_of_meta_data, word_mod, xmem_copy,
}
use bsqgc.Memory.Float.{FloatOps}
use bsqgc.Memory.Page.{extract_page_from_pointer}
use bsqgc.Memory.World.{
  World, ThreadInfo, Run, ok, fault, Cmd, pure, no_fuel, assert, gets, ◌>>=◌, ◌>>◌, load_page,
  load_meta, store_meta, load_tinfo, store_tinfo, memory_of, next_place, pops_last_place, fault,
}
use bsqgc.Memory.Allocator.{allocate_evacuation, load_type}

-- INC_REF_COUNT on the header of an object.
abbrev pub inc_ref_count : Metas → ℕ → Metas
inc_ref_count ms o =
    let m = ms o in store ms o (record m { ref_count = (m.ref_count + 1) % 2 ^ 32 })

abbrev pub is_pointer : ℕ → ℕ → Bool
is_pointer mask v = not (v == 0) && ((mask == ptr_mask_ptr) || string_and_ptr_valued mask v)

-- Where an object is, by the index in its header. The forward table is a function of the index.
abbrev pub forwarded : (ℕ → ℕ) → Metas → ℕ → ℕ
forwarded fwd ms v = let i = (ms v).forward_index in if i == max_fwd_index then v else fwd i

-- `while(*ptr_mask != '\0')`: one character of the mask and one slot a round.
unfoldable pub update_slots :
    (fwd : ℕ → ℕ) → List ℕ → (slot : ℕ) → (ℕ → ℕ) → Metas → (ℕ → ℕ) × Metas
update_slots fwd [] slot word ms = (word, ms)
update_slots fwd (mask ∷ masks) slot word ms =
    let v = word slot in
    let v' = forwarded fwd ms v in
    let skipped = update_slots fwd masks (slot + 8) word ms in
    let moved = update_slots fwd masks (slot + 8) (store word slot v') (inc_ref_count ms v') in
    if is_pointer mask v then moved else skipped

unfoldable pub update_pointers :
    (fwd : ℕ → ℕ) → Option (List ℕ) → (obj : ℕ) → (ℕ → ℕ) → Metas → (ℕ → ℕ) × Metas
update_pointers fwd none obj word ms = (word, ms)
update_pointers fwd (some masks) obj word ms = update_slots fwd masks obj word ms

-- The places of an array whose places behind the list are zero.
unfoldable pub array_at : List ℕ → ℕ → ℕ
array_at [] i = 0
array_at (p ∷ ps) zero = p
array_at (p ∷ ps) (suc i) = array_at ps i

abbrev pub count_of : List ℕ → ℕ
count_of [] = 0
count_of (x ∷ xs) = suc (count_of xs)

module _ {F : Type 0} where
  -- updatePointers on the state.
  unfoldable pub update_pointers_in : ℕ → Cmd F (Unit {0})
  update_pointers_in obj w =
      let mask = (gc_type (memory_of w) obj).ptr_mask in
      let (word, metas) =
        update_pointers (array_at w.tinfo.forward_table) mask obj w.word w.metas in
      ok tt (record w { word = word; metas = metas })

  unfoldable pub copy_object : (obj newobj slots : ℕ) → Cmd F (Unit {0})
  copy_object obj newobj slots w = ok tt (record w { word = xmem_copy w.word obj newobj slots })

  -- RESET_METADATA_FOR_OBJECT, which clears the type pointer too, and the next place of the forward
  -- table.
  unfoldable pub forward_object : (obj newobj : ℕ) → Cmd F (Unit {0})
  forward_object obj newobj w =
      let t = w.tinfo in
      let i = count_of t.forward_table in
      ok tt (record w {
        word = store w.word ((obj + word_mod - size_of_meta_data) % word_mod) 0;
        metas = store w.metas obj (reset_meta (i % 2 ^ 32));
        tinfo = record t { forward_table = t.forward_table ++ (newobj ∷ []) };
      })

  unfoldable pub load_object_type : ℕ → Cmd F ℕ
  load_object_type obj w = ok (w.word ((obj + word_mod - size_of_meta_data) % word_mod)) w

  unfoldable pub take_pending_young : Cmd F (Option ℕ)
  take_pending_young w = elim w.tinfo.pending_young [
    | [] ↦ ok none w
    | o ∷ os ↦
        if pops_last_place w.tinfo.pending_young_place os
        then fault
        else ok (some o) (record w {
          tinfo = record w.tinfo {
            pending_young = os;
            pending_young_place = next_place w.tinfo.pending_young_place;
          };
        })
  ]

-- getAllocatorForPageSize: the slot of g_gcallocs.
abbrev pub slot_of_size : ℕ → ℕ
slot_of_size allocsize = allocsize / 8

module _ (fl : FloatOps) where
  unfoldable pub evacuate_object : (fuel obj : ℕ) → Cmd fl.F (Unit {0})
  evacuate_object fuel obj = do
    type ← load_object_type obj
    info ← load_type type
    page ← load_page (extract_page_from_pointer obj)
    used ← gets (λ w. w.used (slot_of_size page.allocsize))
    assert used
    newobj ← allocate_evacuation fl fuel (slot_of_size page.allocsize) type
    copy_object obj newobj info.slot_size
    update_pointers_in newobj
    forward_object obj newobj

  -- One round of the loop, after pop_front.
  unfoldable pub process_young_object : (fuel obj : ℕ) → Cmd fl.F (Unit {0})
  unfolding evacuate_object
  process_young_object fuel obj = do
    m ← load_meta obj
    assert (m.isyoung && m.ismarked)
    if m.isroot
        then (do
          update_pointers_in obj
          m' ← load_meta obj
          store_meta obj (gc_clear_young_mark m'))
        else evacuate_object fuel obj

  -- `rounds` bounds the loop and `fuel` those of the allocator.
  unfoldable pub process_marked_young_objects : (rounds fuel : ℕ) → Cmd fl.F (Unit {0})
  process_marked_young_objects zero fuel = no_fuel
  process_marked_young_objects (suc n) fuel = do
    next ← take_pending_young
    elim next [
      | none ↦ pure tt
      | some obj ↦ do process_young_object fuel obj; process_marked_young_objects n fuel
    ]
