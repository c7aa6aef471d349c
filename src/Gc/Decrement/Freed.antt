-- ===== src/Gc/Decrement/Freed.antt =====
-- One round of processDecrements (src/runtime/memory/gc.cpp): an object is freed.
use bsqgc.Prelude.{
  ℕ, ◌+◌, ◌-◌, ◌%◌, ◌^◌, ◌<◌, ◌≤◌, Bool, true, false, List, [], ◌∷◌, ◌++◌, ◌==◌, ==_refl,
  if◌then◌else◌, ◌≡◌, ◌≢◌, refl, ap, ◌∙◌, arith, Option, none, some, All, occurrences,
  occurrences-append,
}
use bsqgc.Common.{
  Metas, store, store_field, store_eq, store_ne, gc_type, word_mod, size_of_meta_data,
}
use bsqgc.Memory.Page.{PageInfo, extract_page_from_pointer}
use bsqgc.Memory.World.{
  World, ok, Returns, load_page, store_page, store_word, load_meta, store_meta, load_tinfo,
  store_tinfo, memory_of,
}
use bsqgc.Gc.Evacuate.Forward.{masks_of}
use bsqgc.Gc.Decrement.{
  Decs, dec_slot, dec_children, dec_children_in, count_pending, free_object, decrement_object,
}
use bsqgc.Gc.Decrement.Counts.{
  pointers_of, loses_all, discounted, dec_all, dec_slots-dec_all, dec_children-IsDecremented,
}

-- The object has a page.
abbrev pub IsPaged : ℕ → Type 0
IsPaged o = extract_page_from_pointer o ≢ 0

module _ (P : ℕ → Type 0) where
  All-snoc : (xs : List ℕ) (v : ℕ) → All P xs → P v → All P (xs ++ (v ∷ []))
  All-snoc [] v h p = (p, tt)
  All-snoc (x ∷ xs) v h p = (h.0, All-snoc xs v h.1 p)

  if_All : (b : Bool) (xs ys : List ℕ) → All P xs → All P ys → All P (if b then xs else ys)
  if_All true xs ys h k = h
  if_All false xs ys h k = k

  -- The objects that are pushed are among the pointers.
  dec_all-All : (vs : List ℕ) (t : Decs) → All P vs → All P t.dead → All P (dec_all vs t).dead
  unfolding dec_all dec_slot
  dec_all-All [] t h d = d
  dec_all-All (v ∷ vs) t h d =
      dec_all-All vs (dec_slot v t) h.1
        (if_All _ (t.dead ++ (v ∷ [])) t.dead (All-snoc t.dead v d h.0) d)

  pub dec_children-All :
      (mask : Option (List ℕ)) (word : ℕ → ℕ) (obj : ℕ) (ms : Metas)
      → All P (pointers_of word (masks_of mask) obj)
      → All P (dec_children mask word obj (record { metas = ms; dead = [] })).dead
  unfolding dec_children
  dec_children-All none word obj ms h = tt
  dec_children-All (some masks) word obj ms h =
      rw (dec_slots-dec_all masks word obj (record { metas = ms; dead = [] }))
        (dec_all-All (pointers_of word masks obj) (record { metas = ms; dead = [] }) h tt)

-- What the free list gets for an object: its header.
abbrev pub entry_of : ℕ → ℕ
entry_of obj = (obj + word_mod - size_of_meta_data) % word_mod

module _ {F : Type 0} where
  -- The pages after count_pending.
  unfoldable pub counted_pages : List ℕ → (ℕ → PageInfo F) → ℕ → PageInfo F
  counted_pages [] pages = pages
  counted_pages (o ∷ os) pages =
      let p = extract_page_from_pointer o in
      counted_pages os (
        store pages p
          (record (pages p) { pending_decs_count = ((pages p).pending_decs_count + 1) % 2 ^ 16 }))

  count_pending_run :
      (os : List ℕ) (w : World F)
      → All IsPaged os
      → count_pending os w ≡ ok tt (record w { pages = counted_pages os w.pages })
  unfolding count_pending counted_pages load_page store_page
  count_pending_run [] w h = refl
  count_pending_run (o ∷ os) w h =
      let p = extract_page_from_pointer o in
      let there : (p == 0) ≡ false = let k = h.0 in ground arith in
      let page = record (w.pages p) {
        pending_decs_count = ((w.pages p).pending_decs_count + 1) % 2 ^ 16;
      } in
      rw there (rw there (count_pending_run os (record w { pages = store w.pages p page }) h.1))

  counted_pages-freelist :
      (os : List ℕ) (pages : ℕ → PageInfo F) (q : ℕ)
      → (counted_pages os pages q).freelist ≡ (pages q).freelist
  unfolding counted_pages
  counted_pages-freelist [] pages q = refl
  counted_pages-freelist (o ∷ os) pages q =
      let p = extract_page_from_pointer o in
      let page = record (pages p) {
        pending_decs_count = ((pages p).pending_decs_count + 1) % 2 ^ 16;
      } in
      counted_pages-freelist os (store pages p page) q
      ∙ store_field (λ r. r.freelist) pages p page q refl

  counted_pages-freecount :
      (os : List ℕ) (pages : ℕ → PageInfo F) (q : ℕ)
      → (counted_pages os pages q).freecount ≡ (pages q).freecount
  unfolding counted_pages
  counted_pages-freecount [] pages q = refl
  counted_pages-freecount (o ∷ os) pages q =
      let p = extract_page_from_pointer o in
      let page = record (pages p) {
        pending_decs_count = ((pages p).pending_decs_count + 1) % 2 ^ 16;
      } in
      counted_pages-freecount os (store pages p page) q
      ∙ store_field (λ r. r.freecount) pages p page q refl

  -- The state behind free_object.
  unfoldable pub freed : ℕ → World F → World F
  freed obj w =
      let p = extract_page_from_pointer obj in
      let page = w.pages p in
      record w {
        word = store w.word (entry_of obj) page.freelist;
        pages = store w.pages p (record page {
          freelist = entry_of obj;
          pending_decs_count =
              (if page.pending_decs_count == 0 then 0 else page.pending_decs_count - 1);
          freecount = (page.freecount + 1) % 2 ^ 16;
        });
        metas = store w.metas obj (record (w.metas obj) { isalloc = false });
        tinfo = record w.tinfo { decremented_pages = w.tinfo.decremented_pages ++ (p ∷ []) };
      }

  free_object_run :
      (obj : ℕ) (w : World F)
      → IsPaged obj
      → entry_of obj ≢ 0
      → free_object obj w ≡ ok tt (freed obj w)
  unfolding free_object freed load_page store_page store_word load_meta store_meta load_tinfo
      store_tinfo
  free_object_run obj w pne ene =
      let a : (extract_page_from_pointer obj == 0) ≡ false = ground arith in
      let b : ((obj + word_mod - size_of_meta_data) % word_mod == 0) ≡ false = ground arith in
      rw a (rw b (rw a refl))

  pub record IsFreed (obj : ℕ) (pointers : List ℕ) (w w' : World F) : Type 0 where
    pub unallocated : (w'.metas obj).isalloc ≡ false
    pub counts : (o : ℕ) → obj ≢ o → w'.metas o ≡ discounted (w.metas o) (occurrences o pointers)
    pub pending :
        (o : ℕ)
        → occurrences o w'.tinfo.pending_decs
          ≡ occurrences o w.tinfo.pending_decs
            + (if loses_all (w.metas o) (occurrences o pointers) then 1 else 0)
    pub list : (w'.pages (extract_page_from_pointer obj)).freelist ≡ entry_of obj
    pub next : w'.word (entry_of obj) ≡ (w.pages (extract_page_from_pointer obj)).freelist
    pub freecount :
        (w'.pages (extract_page_from_pointer obj)).freecount
        ≡ ((w.pages (extract_page_from_pointer obj)).freecount + 1) % 2 ^ 16
    pub noted :
        w'.tinfo.decremented_pages
        ≡ w.tinfo.decremented_pages ++ (extract_page_from_pointer obj ∷ [])

  -- The state before free_object.
  unfoldable pub discounted_world : ℕ → World F → World F
  discounted_world obj w =
      let t =
        dec_children (gc_type (memory_of w) obj).ptr_mask w.word obj
          (record { metas = w.metas; dead = [] }) in
      record w {
        metas = t.metas;
        pages = counted_pages t.dead w.pages;
        tinfo = record w.tinfo { pending_decs = w.tinfo.pending_decs ++ t.dead };
      }

  pub decrement_object_run :
      (obj : ℕ) (w : World F)
      → (w.metas obj).isalloc ≡ true
      → IsPaged obj
      → entry_of obj ≢ 0
      → All IsPaged (pointers_of w.word (masks_of (gc_type (memory_of w) obj).ptr_mask) obj)
      → decrement_object obj w ≡ ok tt (freed obj (discounted_world obj w))
  unfolding decrement_object load_meta dec_children_in discounted_world
  decrement_object_run obj w allocated pne ene paged =
      let mask = (gc_type (memory_of w) obj).ptr_mask in
      let t = dec_children mask w.word obj (record { metas = w.metas; dead = [] }) in
      let w1 = record w {
        metas = t.metas;
        tinfo = record w.tinfo { pending_decs = w.tinfo.pending_decs ++ t.dead };
      } in
      rw allocated (
        rw (count_pending_run t.dead w1 (dec_children-All IsPaged mask w.word obj w.metas paged))
          (free_object_run obj (discounted_world obj w) pne ene))

  -- A round of the first loop of processDecrements for an allocated object, where the object and all that it
  -- points to lie on pages and no object has more references from it than its reference count says: the object is
  -- unallocated afterwards; the count of every other object is lower by the references to it; added to
  -- pending_decs, once each, are the objects that have none left and are no roots; and the free list of the
  -- object's page starts with the object's header, linked to what was first before, with one more entry counted.
  pub decrement_object-IsFreed :
      (obj : ℕ) (w : World F)
      → (w.metas obj).isalloc ≡ true
      → IsPaged obj
      → entry_of obj ≢ 0
      → All IsPaged (pointers_of w.word (masks_of (gc_type (memory_of w) obj).ptr_mask) obj)
      → ((o : ℕ)
          → (occurrences o (pointers_of w.word (masks_of (gc_type (memory_of w) obj).ptr_mask) obj)
              ≤ (w.metas o).ref_count)
            × ((w.metas o).ref_count < 2 ^ 32))
      → Returns
          (λ (u : Unit {0}) (w' : World F).
            IsFreed obj
              (pointers_of w.word (masks_of (gc_type (memory_of w) obj).ptr_mask) obj)
              w
              w')
          (decrement_object obj w)
  unfolding Returns freed discounted_world occurrences
  decrement_object-IsFreed obj w allocated pne ene paged bound =
      let mask = (gc_type (memory_of w) obj).ptr_mask in
      let p = extract_page_from_pointer obj in
      let before : Decs = record { metas = w.metas; dead = [] } in
      let t = dec_children mask w.word obj before in
      let d = dec_children-IsDecremented mask w.word obj before bound in
      let pages = counted_pages t.dead w.pages in
      let head = counted_pages-freelist t.dead w.pages p in
      let count = counted_pages-freecount t.dead w.pages p in
      rw (decrement_object_run obj w allocated pne ene paged) (record {
        unallocated = rw (==_refl obj) refl;
        counts = λ o ne. store_ne t.metas obj _ o ne ∙ d.counts o;
        pending = λ o.
            occurrences-append o w.tinfo.pending_decs t.dead
            ∙ ap (λ n. occurrences o w.tinfo.pending_decs + n) (d.dead o ∙ omega arith);
        list = rw (==_refl p) refl;
        next = store_eq w.word (entry_of obj) (pages p).freelist ∙ head;
        freecount = rw (==_refl p) (ap (λ n. (n + 1) % 2 ^ 16) count);
        noted = refl;
      })
