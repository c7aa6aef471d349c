-- ===== src/Gc/Decrement.antt =====
-- processDecrements and reprocessPageInfo (src/runtime/memory/gc.cpp): the objects of pending_decs are freed,
-- at most max_decrement_count of them, the counts of what they point to go down, and the pages that have
-- no pending decrements left move to the bucket of their new utilization.
pub mod Counts
pub mod Freed
pub mod Heap
pub mod Loop
pub mod Exact
pub mod Step
pub mod Kept
pub mod Settled
mod Tests
use bsqgc.Prelude.{
  ℕ, zero, suc, ◌+◌, ◌-◌, ◌*◌, ◌/◌, ◌%◌, ◌^◌, Bool, true, false, not, ◌&&◌, ◌||◌, Option, none,
  some, List, [], ◌∷◌, ◌++◌, ◌==◌, if◌then◌else◌, ltb,
}
use bsqgc.Common.{
  Memory, Metas, MetaData, TypeInfoBase, store, gc_type, size_of_meta_data, word_mod, ptr_mask_ptr,
  string_and_ptr_valued,
}
use bsqgc.Memory.Float.{FloatOps}
use bsqgc.Memory.Page.{PageInfo, extract_page_from_pointer}
use bsqgc.Memory.World.{
  World, assert, gets, ThreadInfo, Run, ok, fault, Cmd, pure, no_fuel, ◌>>=◌, ◌>>◌, load_page,
  store_page, store_word, load_meta, store_meta, load_tinfo, store_tinfo, memory_of, next_place,
  pops_last_place,
}
use bsqgc.Memory.Utilization.{calc_approx_utilization, page_needs_moved}
use bsqgc.Memory.Allocator.{process_page}
use bsqgc.Memory.OldPages.{check_non_alloc_or_gc_page, delete_old_page}
use bsqgc.Gc.Evacuate.{is_pointer, slot_of_size}

-- DEC_REF_COUNT on the header of an object.
abbrev pub dec_ref_count : Metas → ℕ → Metas
dec_ref_count ms o =
    let m = ms o in store ms o (record m { ref_count = (m.ref_count + (2 ^ 32 - 1)) % 2 ^ 32 })

-- What the loop over the slots of an object changes: the headers, and the objects that it finds dead,
-- which go to the end of pending_decs.
pub record Decs : Type 0 where
  pub metas : Metas
  pub dead : List ℕ

-- A slot that is a pointer: the count goes down, and an object with no references left that is no root
-- is dead.
unfoldable pub dec_slot : ℕ → Decs → Decs
dec_slot v t =
    let ms = dec_ref_count t.metas v in
    record {
      metas = ms;
      dead = if ((ms v).ref_count == 0) && not (ms v).isroot then t.dead ++ (v ∷ []) else t.dead;
    }

-- `while(*ptr_mask != '\0')`. The masks of the two tests differ, so at most one of them decrements.
unfoldable pub dec_slots : List ℕ → (ℕ → ℕ) → (slot : ℕ) → Decs → Decs
dec_slots [] word slot t = t
dec_slots (mask ∷ masks) word slot t =
    dec_slots masks word (slot + 8)
      (if is_pointer mask (word slot) then dec_slot (word slot) t else t)

unfoldable pub dec_children : Option (List ℕ) → (ℕ → ℕ) → (obj : ℕ) → Decs → Decs
dec_children none word obj t = t
dec_children (some masks) word obj t = dec_slots masks word obj t

module _ {F : Type 0} where
  -- pending_decs_count of the pages of the dead objects, one up for each.
  unfoldable pub count_pending : List ℕ → Cmd F (Unit {0})
  count_pending [] = pure tt
  count_pending (o ∷ os) = do
    page ← load_page (extract_page_from_pointer o)
    store_page (extract_page_from_pointer o)
        (record page { pending_decs_count = (page.pending_decs_count + 1) % 2 ^ 16 })
    count_pending os

  unfoldable pub dec_children_in : ℕ → Cmd F (List ℕ)
  dec_children_in obj w =
      let mask = (gc_type (memory_of w) obj).ptr_mask in
      let t = dec_children mask w.word obj (record { metas = w.metas; dead = [] }) in
      ok t.dead (record w {
        metas = t.metas;
        tinfo = record w.tinfo { pending_decs = w.tinfo.pending_decs ++ t.dead };
      })

  -- The object's place goes to the head of its page's free list. The entry that is pushed is the header.
  unfoldable pub free_object : ℕ → Cmd F (Unit {0})
  free_object obj = do
    let p = extract_page_from_pointer obj
    let entry = (obj + word_mod - size_of_meta_data) % word_mod
    page ← load_page p
    store_word entry page.freelist
    store_page p (record page {
      freelist = entry;
      pending_decs_count =
          (if page.pending_decs_count == 0 then 0 else page.pending_decs_count - 1);
      freecount = (page.freecount + 1) % 2 ^ 16;
    })
    m ← load_meta obj
    store_meta obj (record m { isalloc = false })
    t ← load_tinfo
    store_tinfo (record t { decremented_pages = t.decremented_pages ++ (p ∷ []) })

  -- One round of the first loop, after pop_front.
  unfoldable pub decrement_object : ℕ → Cmd F (Unit {0})
  decrement_object obj = do
    m ← load_meta obj
    if not m.isalloc
        then pure tt
        else do dead ← dec_children_in obj; count_pending dead; free_object obj

  unfoldable pub take_pending_dec : Cmd F (Option ℕ)
  take_pending_dec w = elim w.tinfo.pending_decs [
    | [] ↦ ok none w
    | o ∷ os ↦
        if pops_last_place w.tinfo.pending_decs_place os
        then fault
        else ok (some o) (record w {
          tinfo = record w.tinfo {
            pending_decs = os;
            pending_decs_place = next_place w.tinfo.pending_decs_place;
          };
        })
  ]

  -- The first loop, with `n` rounds left to max_decrement_count.
  unfoldable pub decrement_loop : (n : ℕ) → Cmd F (Unit {0})
  decrement_loop zero = pure tt
  decrement_loop (suc n) = do
    next ← take_pending_dec
    elim next [ none ↦ pure tt | some obj ↦ do decrement_object obj; decrement_loop n ]

module _ (fl : FloatOps) where
  unfoldable pub reprocess_page_info : (fuel p : ℕ) → Cmd fl.F (Unit {0})
  reprocess_page_info fuel p = do
    page ← load_page p
    let s = slot_of_size page.allocsize
    used ← gets (λ w. w.used s)
    assert used
    free ← check_non_alloc_or_gc_page fuel s p
    if free then (do delete_old_page fl fuel s p; process_page fl fuel s p) else pure tt

  -- The second loop, over decremented_pages.
  unfoldable pub move_pages : (fuel : ℕ) → List ℕ → Cmd fl.F (Unit {0})
  move_pages fuel [] = pure tt
  move_pages fuel (p ∷ ps) = do
    page ← load_page p
    (if ltb 0 page.pending_decs_count
        then pure tt
        else if page_needs_moved fl page.approx_utilization (calc_approx_utilization fl page)
        then reprocess_page_info fuel p
        else pure tt)
    move_pages fuel ps

  unfoldable pub process_decrements : (fuel : ℕ) → Cmd fl.F (Unit {0})
  process_decrements fuel = do
    t ← load_tinfo
    decrement_loop t.max_decrement_count
    t' ← load_tinfo
    move_pages fuel t'.decremented_pages
    t'' ← load_tinfo
    store_tinfo (record t'' { decremented_pages = [] })
