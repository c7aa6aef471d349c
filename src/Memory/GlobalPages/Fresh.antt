-- ===== src/Memory/GlobalPages/Fresh.antt =====
-- GlobalPageGCManager (src/runtime/memory/allocator.h and allocator.cpp): pages that are given back and
-- pages that are new.
use bsqgc.Prelude.{
  ℕ, ◌+◌, ◌<◌, ◌/◌, ◌≤◌, true, false, ◌&&◌, leb, ltb, ◌^◌, ◌==◌, ==_refl, ◌≡◌, ◌≢◌, refl, arith,
}
use bsqgc.Common.{block_allocation_size}
use bsqgc.Support.PageTable.{pagetable_query, missing_tables}
use bsqgc.Support.PageTable.Laws.{pagetable_query-pagetable_insert}
use bsqgc.Memory.Float.{FloatOps}
use bsqgc.Memory.Page.{initialize}
use bsqgc.Memory.Page.Init.{IsFresh, initialize-IsFresh}
use bsqgc.Memory.World.{World, Returns, ◌>>◌, load_tinfo, store_tinfo}
use bsqgc.Memory.GlobalPages.{
  add_new_page, allocate_fresh_page, map_new_page, map_block, insert_page, allocate_tables,
  enter_page, take_empty_page, initialize_page, zero_block,
}

module _ (fl : FloatOps) where
  pub record IsReused (p es rs : ℕ) (w : World fl.F) (q : ℕ) (w' : World fl.F) : Type 0 where
    pub same : q ≡ p
    pub pool : w'.empty_pages ≡ w.empty_pages
    pub fresh : IsFresh p rs w'.word (w'.pages p)
    pub object_size : (w'.pages p).allocsize ≡ es
    pub unprocessed : (w'.pages p).approx_utilization ≡ fl.dec 100 0
    pub others : (r : ℕ) → p ≢ r → w'.pages r ≡ w.pages r
    pub table : w'.pagetable ≡ w.pagetable

  -- A page that is given to the pool is the next one that the pool hands out, with the object size and
  -- the entry size that are asked for then, all its entries free and in order, and the utilization of a page that was
  -- not processed; the rest of the pool, the other pages and the page table are as before.
  pub allocate_fresh_page-add_new_page :
      (p es rs : ℕ) (w : World fl.F)
      → p ≢ 0
      → 0 < rs
      → Returns (IsReused p es rs w) ((add_new_page p >> allocate_fresh_page fl es rs) w)
  unfolding Returns add_new_page allocate_fresh_page take_empty_page initialize_page initialize
      load_tinfo store_tinfo
  allocate_fresh_page-add_new_page p es rs w ne pos =
      let a : (p == 0) ≡ false = ground arith in
      rw a (
        rw a (record {
          same = refl;
          pool = rw (==_refl p) refl;
          fresh = rw (==_refl p) (initialize-IsFresh (fl.dec 100 0) w.word p es rs pos);
          object_size = rw (==_refl p) refl;
          unprocessed = rw (==_refl p) refl;
          others = λ r nr. let e : (p == r) ≡ false = ground arith in rw e refl;
          table = refl;
        }))

  pub record IsMapped (es rs : ℕ) (w : World fl.F) (q : ℕ) (w' : World fl.F) : Type 0 where
    pub address : q ≡ w.current_page_address
    pub next_address : w'.current_page_address ≡ q + block_allocation_size
    pub fresh : IsFresh q rs w'.word (w'.pages q)
    pub object_size : (w'.pages q).allocsize ≡ es
    pub others : (r : ℕ) → q ≢ r → w'.pages r ≡ w.pages r
    pub managed : pagetable_query w'.pagetable q ≡ true
    pub unallocated : (o : ℕ) → q ≤ o → o < q + block_allocation_size → (w'.metas o).isalloc ≡ false
    pub headers : (o : ℕ) → o < q → w'.metas o ≡ w.metas o
    pub allocators : w'.alloc ≡ w.alloc
    pub types : w'.type_info ≡ w.type_info

  -- With an empty pool, where the next page lies below 2^48, mmap gives that address, and the page table has all the
  -- tables for it already: a fresh page comes from the
  -- address that the last one ended at; it is in the page table, no object on it is allocated, and the
  -- next page will come behind it.
  pub allocate_fresh_page-IsMapped :
      (es rs : ℕ) (w : World fl.F)
      → w.current_page_address < 2 ^ 48
      → w.empty_pages ≡ 0
      → w.mmap_fails w.current_page_address ≡ false
      → missing_tables w.pagetable w.current_page_address ≡ 0
      → 0 < rs
      → Returns (IsMapped es rs w) (allocate_fresh_page fl es rs w)
  unfolding Returns allocate_fresh_page map_new_page map_block insert_page enter_page
      allocate_tables initialize_page initialize load_tinfo store_tinfo zero_block
  allocate_fresh_page-IsMapped es rs w low empty maps tables pos =
      let q = w.current_page_address in
      let word = zero_block 0 q w.word in
      rw empty (
        rw maps (
          rw tables (record {
            address = refl;
            next_address = refl;
            fresh = rw (==_refl q) (initialize-IsFresh (fl.dec 100 0) word q es rs pos);
            object_size = rw (==_refl q) refl;
            others = λ r nr. let e : (q == r) ≡ false = ground arith in rw e refl;
            managed =
                rw (pagetable_query-pagetable_insert w.pagetable q q low low, ==_refl (q / 4096))
                  refl;
            unallocated = λ o le lt.
                let e : (leb q o && ltb o (q + block_allocation_size)) ≡ true = ground arith in
                rw e refl;
            headers = λ o lt.
                let e : (leb q o && ltb o (q + block_allocation_size)) ≡ false = ground arith in
                rw e refl;
            allocators = refl;
            types = refl;
          })))
