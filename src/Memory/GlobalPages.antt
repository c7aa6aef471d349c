-- ===== src/Memory/GlobalPages.antt =====
-- GlobalPageGCManager (src/runtime/memory/allocator.h and allocator.cpp): the pool of empty pages. The locks
-- are left out: a command runs alone.
pub mod Fresh
mod Tests
use bsqgc.Prelude.{
  ℕ, zero, suc, ◌+◌, ◌-◌, ◌%◌, Bool, true, false, not, ◌&&◌, none, some, ◌==◌, if◌then◌else◌, leb,
  ltb,
}
use bsqgc.Common.{Metas, block_allocation_size, reset_meta, store, word_mod}
use bsqgc.Support.PageTable.{pagetable_insert, missing_tables}
use bsqgc.Support.Xalloc.{allocate_page, zerofill_page}
use bsqgc.Memory.Float.{FloatOps}
use bsqgc.Memory.Page.{PageInfo, initialize}
use bsqgc.Memory.World.{
  World, ThreadInfo, Run, ok, fault, Cmd, pure, assert, gets, ◌>>=◌, ◌>>◌, load_page, store_page,
  load_tinfo, store_tinfo,
}

-- New anonymous memory is zero: no header on the page is allocated.
pub zero_block : {A : Type 0} → A → ℕ → (ℕ → A) → ℕ → A
zero_block z page f a = if leb page a && ltb a (page + block_allocation_size) then z else f a

module _ {F : Type 0} where
  -- mmap of the block at s_current_page_address, and the assert behind it.
  unfoldable pub map_block : Cmd F ℕ
  unfolding zero_block
  map_block w =
      let page = w.current_page_address in
      if w.mmap_fails page
      then fault
      else ok page (record w {
        word = zero_block 0 page w.word;
        metas = zero_block (reset_meta 0) page w.metas;
        current_page_address = page + block_allocation_size;
      })

  -- The pages for `n` tables, from the pool or from mmap.
  unfoldable pub allocate_tables : (n : ℕ) → Cmd F (Unit {0})
  allocate_tables zero = pure tt
  allocate_tables (suc n) = do page ← allocate_page; zerofill_page page; allocate_tables n

  enter_page : ℕ → Cmd F (Unit {0})
  enter_page page w = ok tt (record w { pagetable = pagetable_insert w.pagetable page })

  -- pagetable_insert on the state.
  unfoldable pub insert_page : ℕ → Cmd F (Unit {0})
  unfolding allocate_tables enter_page
  insert_page page = do
    missing ← gets (λ w. missing_tables w.pagetable page)
    allocate_tables missing
    enter_page page

  unfoldable pub map_new_page : Cmd F ℕ
  unfolding map_block insert_page
  map_new_page = do page ← map_block; insert_page page; pure page

  unfoldable pub take_empty_page : Cmd F ℕ
  take_empty_page w =
      let page = w.empty_pages in ok page (record w { empty_pages = (w.pages page).next })

  unfoldable pub add_new_page : ℕ → Cmd F (Unit {0})
  add_new_page new_page w =
      if new_page == 0
      then fault
      else (let page = record (w.pages new_page) { next = w.empty_pages } in
          ok tt (record w { pages = store w.pages new_page page; empty_pages = new_page }))

module _ (fl : FloatOps) where
  -- PageInfo::initialize on the memory, with 100.0f.
  unfoldable pub initialize_page : (block allocsize realsize : ℕ) → Cmd fl.F (Unit {0})
  initialize_page block allocsize realsize w =
      let (word, page) = initialize (fl.dec 100 0) w.word block allocsize realsize in
      ok tt (record w { word = word; pages = store w.pages block page })

  unfoldable pub allocate_fresh_page : (entrysize realsize : ℕ) → Cmd fl.F ℕ
  unfolding map_new_page take_empty_page initialize_page
  allocate_fresh_page entrysize realsize w =
      if not (w.empty_pages == 0)
      then (do
        page ← take_empty_page
        initialize_page page entrysize realsize
        t ← load_tinfo
        store_tinfo
            (record t { total_empty_gc_pages = (t.total_empty_gc_pages + word_mod - 1) % word_mod })
        pure page)
          w
      else (do
        page ← map_new_page
        initialize_page page entrysize realsize
        t ← load_tinfo
        store_tinfo (record t { total_gc_pages = t.total_gc_pages + 1 })
        pure page)
          w
