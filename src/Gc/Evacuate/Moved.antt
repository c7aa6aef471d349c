-- ===== src/Gc/Evacuate/Moved.antt =====
-- processMarkedYoungObjects (src/runtime/memory/gc.cpp): what a round does to an object that is no root.
use bsqgc.Prelude.{
  ℕ, ◌+◌, ◌%◌, ◌^◌, false, some, List, [], ◌∷◌, ◌++◌, ◌==◌, ◌≡◌, ◌≢◌, refl, ap, ◌∙◌, inl, length,
  arith,
}
use bsqgc.Common.{store, store_eq, store_ne, reset_meta, xmem_copy}
use bsqgc.Memory.Float.{FloatOps}
use bsqgc.Memory.Page.{extract_page_from_pointer}
use bsqgc.Memory.World.{World, ok, Returns, load_page, load_meta, ◌>>◌}
use bsqgc.Memory.Allocator.{load_type}
use bsqgc.Memory.Allocator.Returned.{allocate_evacuation_returns}
use bsqgc.Memory.Allocator.Entry.{entry_after}
use bsqgc.Gc.Evacuate.{
  array_at, update_slots, count_of, update_pointers, update_pointers_in, copy_object,
  forward_object, load_object_type, evacuate_object, process_young_object,
}
use bsqgc.Gc.Evacuate.Forward.{
  update_pointers-IsForwarded, slots_of, forwarded_slots, counted, forwarded_slots-ext,
}
use bsqgc.Gc.Evacuate.Copy.{xmem_copy-outside, slots_of-ext}
use bsqgc.Gc.Evacuate.Copied.{
  type_address, CanMove, IsEvacuated, copied, type_address_entry, copied_type, copied_slots,
  copied_forward_index, copied_bound, copied_references,
}

module _ (fl : FloatOps) where
  process_young_object_run :
      (fuel obj s type e : ℕ) (masks rest : List ℕ) (w : World fl.F)
      → CanMove fl obj s type e masks rest w
      → process_young_object fl fuel obj w ≡ (
          (do update_pointers_in (e + 16 + 24); forward_object obj (e + 16 + 24))
            (copied fl w obj s type e (w.type_info type).slot_size))
  unfolding process_young_object evacuate_object load_meta load_object_type load_type load_page
      copied copy_object
  process_young_object_run fuel obj s type e masks rest w h =
      let p : (extract_page_from_pointer obj == 0) ≡ false = let k = h.paged in ground arith in
      let run = (allocate_evacuation_returns fl fuel s type e rest w h.entry).0 in
      rw (h.is_young, h.is_marked)
        (rw h.no_root (rw p (rw h.slotted (rw h.used (rw h.typed (rw run refl))))))

  -- The state behind updatePointers and the forwarding.
  moved : World fl.F → (obj s type e : ℕ) (masks : List ℕ) → World fl.F
  moved w obj s type e masks =
      let c = copied fl w obj s type e (length masks) in
      let u =
        update_pointers (array_at w.tinfo.forward_table) (some masks) (e + 16 + 24) c.word
          c.metas in
      record c {
        word = store u.0 (type_address obj) 0;
        metas = store u.1 obj (reset_meta (count_of w.tinfo.forward_table % 2 ^ 32));
        tinfo = record w.tinfo { forward_table = w.tinfo.forward_table ++ ((e + 16 + 24) ∷ []) };
      }

  moved-IsEvacuated :
      (obj s type e : ℕ) (masks rest : List ℕ) (w : World fl.F)
      → CanMove fl obj s type e masks rest w
      → IsEvacuated fl obj type (e + 16 + 24) masks w (moved w obj s type e masks)
  unfolding moved copied
  moved-IsEvacuated obj s type e masks rest w h =
      let n = e + 16 + 24 in
      let fwd = array_at w.tinfo.forward_table in
      let wa = entry_after fl false w s type e in
      let word = xmem_copy wa.word obj n (length masks) in
      let alloc = (allocate_evacuation_returns fl 0 s type e rest w h.entry).1 in
      let u =
        update_pointers-IsForwarded fwd (some masks) n word wa.metas
          (copied_bound fl obj s type e masks rest w h) in
      let after = update_pointers fwd (some masks) n word wa.metas in
      let fp = reset_meta (count_of w.tinfo.forward_table % 2 ^ 32) in
      let sep = h.separate in
      let size = h.sized in
      let front = h.behind_header in
      let low = h.obj_bound in
      let own : obj ≢ n = ground arith in
      let index = copied_forward_index fl obj s type e masks rest w h in
      let refs = copied_references fl obj s type e masks rest w h in
      record {
        table = refl;
        reset = store_eq after.1 obj fp;
        typed = rw (type_address_entry fl e h.entry_bound) (
            store_ne after.0 (type_address obj) 0 (e + 16) (ground arith)
            ∙ u.outside (e + 16) (inl (omega arith))
            ∙ xmem_copy-outside (length masks) wa.word obj n (e + 16) (inl (omega arith))
            ∙ alloc.typed);
        slots =
            slots_of-ext (store after.0 (type_address obj) 0) after.0 masks n
              (λ a le lt. store_ne after.0 (type_address obj) 0 a (ground arith))
            ∙ u.slots
            ∙ ap (forwarded_slots fwd wa.metas masks) (copied_slots fl obj s type e masks rest w h)
            ∙ forwarded_slots-ext fwd w.metas wa.metas index masks (slots_of w.word masks obj);
        header =
            store_ne after.1 obj fp n own
            ∙ u.counts n
            ∙ ap (counted (wa.metas n)) (refs n)
            ∙ rw alloc.header refl;
        others = λ o no nn.
            store_ne after.1 obj fp o no
            ∙ u.counts o
            ∙ ap (counted (wa.metas o)) (refs o)
            ∙ rw (alloc.others o nn) refl;
      }

  moved_run :
      (obj s type e : ℕ) (masks rest : List ℕ) (w : World fl.F)
      → CanMove fl obj s type e masks rest w
      → (do update_pointers_in (e + 16 + 24); forward_object obj (e + 16 + 24))
          (copied fl w obj s type e (length masks))
        ≡ ok tt (moved w obj s type e masks)
  unfolding update_pointers_in forward_object moved update_pointers copied entry_after update_slots
  moved_run obj s type e masks rest w h =
      rw (copied_type fl obj s type e masks rest w h (length masks)) (rw h.masked refl)

  -- A round of processMarkedYoungObjects on a young and marked object with pointers that is no root,
  -- where the evacuation page of its allocator has a free entry that does not overlap with the object
  -- and whose header has no forward index, and all counts are 32-bit numbers: the round returns; the
  -- entry gets an object of the same type, whose slots are those of the object with every pointer replaced
  -- by where it was forwarded to; its header is that of an allocated old object, with the references to
  -- itself counted. The old header is reset to the next index of the forward table, which now holds
  -- the new object there, and the count of every other object is higher by the references to it from the
  -- new object's slots.
  pub process_young_object-IsEvacuated :
      (fuel obj s type e : ℕ) (masks rest : List ℕ) (w : World fl.F)
      → CanMove fl obj s type e masks rest w
      → Returns
          (λ (u : Unit {0}) (w' : World fl.F). IsEvacuated fl obj type (e + 40) masks w w')
          (process_young_object fl fuel obj w)
  unfolding Returns
  process_young_object-IsEvacuated fuel obj s type e masks rest w h =
      let place : e + 40 ≡ e + 16 + 24 = omega arith in
      rw (process_young_object_run fuel obj s type e masks rest w h) (
        rw h.slots (
          rw (moved_run obj s type e masks rest w h)
            (rw place (moved-IsEvacuated obj s type e masks rest w h))))
