-- ===== src/Memory/Allocator/Returned.antt =====
-- GCAllocator::allocate and allocateEvacuation (src/runtime/memory/allocator.h) on a page with a free entry.
use bsqgc.Prelude.{ℕ, ◌+◌, ◌%◌, ◌^◌, Bool, true, false, List, ◌==◌, ◌≡◌, ◌≢◌, refl, arith}
use bsqgc.Common.{TypeInfoBase, store}
use bsqgc.Memory.Float.{FloatOps}
use bsqgc.Memory.Page.{canary_value}
use bsqgc.Memory.Page.Chain.{Chain-head}
use bsqgc.Memory.Allocator.Entry.{IsAllocated, HasEntry, entry_after, entry_after-IsAllocated}
use bsqgc.Memory.World.{
  World, ok, Returns, Cmd, load_page, store_page, load_word, store_word, store_meta, load_alloc,
  store_alloc,
}
use bsqgc.Memory.Allocator.{
  allocate_evacuation, allocate_evacuation_entry, load_type, setup_meta, setup_entry,
  pop_page_entry, allocate_entry, allocate,
}

module _ {F : Type 0} where
  setup_entry_run :
      (young : Bool) (e type : ℕ) (info : TypeInfoBase) (w : World F)
      → e ≢ 0
      → setup_entry young e type info w
        ≡ ok (e + 16 + 24) (record w {
          word =
              store
                (store (store w.word e canary_value) (e + 16 + 24 + info.type_size) canary_value)
                (e + 16)
                type;
          metas = store w.metas (e + 16 + 24) (setup_meta young);
        })
  unfolding setup_entry store_word store_meta
  setup_entry_run young e type info w ne =
      let a : (e == 0) ≡ false = ground arith in
      let b : (e + 16 == 0) ≡ false = ground arith in
      let c : (e + 16 + 24 + info.type_size == 0) ≡ false = ground arith in rw a (rw c (rw b refl))

  pop_page_entry_run :
      (p : ℕ) (w : World F)
      → p ≢ 0
      → (w.pages p).freelist ≢ 0
      → pop_page_entry p w
        ≡ ok tt (record w {
          pages = store w.pages p (record (w.pages p) {
            freelist = w.word (w.pages p).freelist;
            freecount = ((w.pages p).freecount + 65535) % 2 ^ 16;
          });
        })
  unfolding pop_page_entry load_page store_page load_word
  pop_page_entry_run p w pne fne =
      let a : (p == 0) ≡ false = ground arith in
      let b : ((w.pages p).freelist == 0) ≡ false = ground arith in rw (a, b) (rw a refl)

module _ (fl : FloatOps) where
  pub allocate_entry_run :
      (s type : ℕ) (w : World fl.F)
      → (w.alloc s).freelist ≢ 0
      → (w.alloc s).alloc_page ≢ 0
      → (w.pages (w.alloc s).alloc_page).freelist ≡ (w.alloc s).freelist
      → allocate_entry fl s type (w.type_info type) w
        ≡ ok ((w.alloc s).freelist + 16 + 24) (entry_after fl true w s type (w.alloc s).freelist)
  unfolding allocate_entry entry_after load_alloc load_word store_alloc
  allocate_entry_run s type w fne pne sync =
      let a : ((w.alloc s).freelist == 0) ≡ false = ground arith in
      let p = (w.alloc s).alloc_page in
      let w1 = record w {
        alloc = store w.alloc s (record (w.alloc s) { freelist = w.word (w.alloc s).freelist });
      } in
      let pfne : (w.pages p).freelist ≢ 0 = rw sync fne in
      rw a (
        rw (pop_page_entry_run p w1 pne pfne)
          (setup_entry_run true (w.alloc s).freelist type (w.type_info type) _ fne))

  allocate_evacuation_entry_run :
      (s type : ℕ) (w : World fl.F)
      → (w.alloc s).evacfreelist ≢ 0
      → (w.alloc s).evac_page ≢ 0
      → (w.pages (w.alloc s).evac_page).freelist ≡ (w.alloc s).evacfreelist
      → allocate_evacuation_entry fl s type (w.type_info type) w
        ≡ ok
            ((w.alloc s).evacfreelist + 16 + 24)
            (entry_after fl false w s type (w.alloc s).evacfreelist)
  unfolding allocate_evacuation_entry entry_after load_alloc load_word store_alloc
  allocate_evacuation_entry_run s type w fne pne sync =
      let a : ((w.alloc s).evacfreelist == 0) ≡ false = ground arith in
      let p = (w.alloc s).evac_page in
      let w1 = record w {
        alloc =
            store w.alloc s (record (w.alloc s) { evacfreelist = w.word (w.alloc s).evacfreelist });
      } in
      let pfne : (w.pages p).freelist ≢ 0 = rw sync fne in
      rw a (
        rw (pop_page_entry_run p w1 pne pfne)
          (setup_entry_run false (w.alloc s).evacfreelist type (w.type_info type) _ fne))

  allocate_evacuation_run :
      (fuel s type : ℕ) (w : World fl.F)
      → (w.type_info type).type_size ≡ (w.alloc s).allocsize
      → (w.alloc s).evacfreelist ≢ 0
      → allocate_evacuation fl fuel s type w
        ≡ allocate_evacuation_entry fl s type (w.type_info type) w
  unfolding allocate_evacuation load_type load_alloc
  allocate_evacuation_run fuel s type w size fne =
      let a : ((w.alloc s).evacfreelist == 0) ≡ false = ground arith in
      let b : ((w.type_info type).type_size == (w.alloc s).allocsize) ≡ true = ground arith in
      rw b (rw a refl)

  allocate_run :
      (collect : Cmd fl.F (Unit {0})) (fuel s type : ℕ) (w : World fl.F)
      → (w.type_info type).type_size ≡ (w.alloc s).allocsize
      → (w.alloc s).freelist ≢ 0
      → allocate fl collect fuel s type w ≡ allocate_entry fl s type (w.type_info type) w
  unfolding allocate load_type load_alloc
  allocate_run collect fuel s type w size fne =
      let a : ((w.alloc s).freelist == 0) ≡ false = ground arith in
      let b : ((w.type_info type).type_size == (w.alloc s).allocsize) ≡ true = ground arith in
      rw b (rw a refl)

  -- Given a type of the allocator's size, a page to allocate from that counts a free entry, and a free
  -- list of at least one, on which the allocator and the page agree and whose other entries are not where
  -- the allocation writes: allocate returns the object in the first entry. It has a fresh header, young,
  -- unmarked, with no references, and the type that was asked for, between two canaries; the free list of
  -- both is the rest, the page counts one entry less, and nothing else has changed: no other header or word, no other
  -- field of the allocator or the page, no other allocator or page, and no other part of the state.
  pub allocate-IsAllocated :
      (collect : Cmd fl.F (Unit {0})) (fuel s type e : ℕ) (rest : List ℕ) (w : World fl.F)
      → HasEntry fl true s type e rest w
      → Returns (IsAllocated true s type e rest w) (allocate fl collect fuel s type w)
  unfolding Returns
  allocate-IsAllocated collect fuel s type e rest w h =
      let (head, fne, c) = Chain-head h.chain in
      rw
        (
          allocate_run collect fuel s type w h.size fne,
          allocate_entry_run s type w fne h.page h.sync,
        )
        (rw head (entry_after-IsAllocated fl true s type e rest w h))

  -- The result of an evacuation's allocation, in full.
  pub allocate_evacuation_returns :
      (fuel s type e : ℕ) (rest : List ℕ) (w : World fl.F)
      → HasEntry fl false s type e rest w
      → (allocate_evacuation fl fuel s type w ≡ ok (e + 16 + 24) (entry_after fl false w s type e))
        × IsAllocated false s type e rest w (e + 16 + 24) (entry_after fl false w s type e)
  allocate_evacuation_returns fuel s type e rest w h =
      let (head, fne, c) = Chain-head h.chain in
      (
        rw
            (
              allocate_evacuation_run fuel s type w h.size fne,
              allocate_evacuation_entry_run s type w fne h.page h.sync,
            )
            (rw head refl),
        entry_after-IsAllocated fl false s type e rest w h,
      )
