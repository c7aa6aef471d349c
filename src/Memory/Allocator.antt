-- ===== src/Memory/Allocator.antt =====
-- GCAllocator (src/runtime/memory/allocator.h and allocator.cpp): the pages of one object size.
--
-- An allocator is the slot of g_gcallocs that it stands in. `fuel` bounds the loops over trees and lists.
pub mod Entry
pub mod Returned
pub mod Ready
pub mod NewPage
pub mod Stays
pub mod Sample
mod Tests
use bsqgc.Prelude.{
  ℕ, zero, suc, ◌+◌, ◌-◌, ◌*◌, ◌%◌, ◌^◌, Bool, true, false, not, ◌&&◌, ◌||◌, Option, none, some,
  ◌==◌, if◌then◌else◌,
}
use bsqgc.Common.{MetaData, TypeInfoBase, max_fwd_index, size_of_meta_data, store}
use bsqgc.Memory.Float.{FloatOps}
use bsqgc.Memory.Page.{PageInfo, canary_size, canary_value, rebuild}
use bsqgc.Memory.Utilization.{
  index_or_zero, calc_approx_utilization, is_low_util, is_high_util, is_full, get_bucket_index,
  num_low_util_buckets, num_high_util_buckets,
}
use bsqgc.Memory.World.{
  World, GcAllocator, ThreadInfo, Run, ok, fault, Cmd, pure, fail, no_fuel, assert, gets, ◌>>=◌,
  ◌>>◌, load_page, store_page, load_word, store_word, store_meta, load_alloc, store_alloc,
  load_tinfo, store_tinfo,
}
use bsqgc.Memory.Buckets.{
  Util, low, high, Place, bucket, insert_page_in_bucket, delete_page_from_bucket,
  find_lowest_util_page,
}
use bsqgc.Memory.GlobalPages.{add_new_page, allocate_fresh_page}

abbrev pub bsq_collection_threshold : ℕ
bsq_collection_threshold = 1024

-- SETUP_ALLOC_INITIALIZE_FRESH_META and SETUP_ALLOC_INITIALIZE_CONVERT_OLD_META, which differ in
-- `isyoung`.
abbrev pub setup_meta : Bool → MetaData
setup_meta young = record {
  isalloc = true;
  isyoung = young;
  ismarked = false;
  isroot = false;
  forward_index = max_fwd_index;
  ref_count = 0;
}

module _ {F : Type 0} where
  -- A type pointer's descriptor.
  unfoldable pub load_type : ℕ → Cmd F TypeInfoBase
  load_type t w = ok (w.type_info t) w

  -- PageInfo::rebuild on the memory.
  unfoldable pub rebuild_page : ℕ → Cmd F (Unit {0})
  rebuild_page p w =
      if p == 0
      then fault
      else (let (word, metas, page) = rebuild w.word w.metas (w.pages p) in
          ok tt (record w { word = word; metas = metas; pages = store w.pages p page }))

  -- The canaries and the header of an entry that is handed out; the object's address.
  unfoldable pub setup_entry : Bool → (entry type : ℕ) → TypeInfoBase → Cmd F ℕ
  setup_entry young entry type info = do
    store_word entry canary_value
    store_word (entry + canary_size + size_of_meta_data + info.type_size) canary_value
    store_word (entry + canary_size) type
    store_meta (entry + canary_size + size_of_meta_data) (setup_meta young)
    pure (entry + canary_size + size_of_meta_data)

  -- `page->freelist = page->freelist->next; page->freecount--`.
  unfoldable pub pop_page_entry : ℕ → Cmd F (Unit {0})
  pop_page_entry p = do
    page ← load_page p
    next ← load_word page.freelist
    store_page p (record page { freelist = next; freecount = (page.freecount + 65535) % 2 ^ 16 })

  unfoldable pub push_filled : (s p : ℕ) → Cmd F (Unit {0})
  push_filled s p = do
    a ← load_alloc s
    page ← load_page p
    store_page p (record page { next = a.filled_pages })
    store_alloc s (record a { filled_pages = p })

  unfoldable pub push_pending : (s p : ℕ) → Cmd F (Unit {0})
  push_pending s p = do
    a ← load_alloc s
    page ← load_page p
    store_page p (record page { next = a.pendinggc_pages })
    store_alloc s (record a { pendinggc_pages = p })

module _ (fl : FloatOps) where
  unfoldable pub get_fresh_page_for_allocator : (fuel s : ℕ) → Cmd fl.F ℕ
  get_fresh_page_for_allocator fuel s = do
    page ← find_lowest_util_page fuel low s num_low_util_buckets 0
    a ← load_alloc s
    if page == 0 then allocate_fresh_page fl a.allocsize a.realsize else pure page

  unfoldable pub get_fresh_page_for_evacuation : (fuel s : ℕ) → Cmd fl.F ℕ
  get_fresh_page_for_evacuation fuel s = do
    page ← find_lowest_util_page fuel high s num_high_util_buckets 0
    page' ←
        (if page == 0 then find_lowest_util_page fuel low s num_low_util_buckets 0 else pure page)
    a ← load_alloc s
    if page' == 0 then allocate_fresh_page fl a.allocsize a.realsize else pure page'

  -- processPage, behind the update of the page's utilization.
  unfoldable pub sort_page :
      (fuel s p : ℕ) → (old_util n_util : fl.F) → PageInfo fl.F → Cmd fl.F (Unit {0})
  sort_page fuel s p old_util n_util page =
      if page.entrycount == page.freecount
      then (do
        add_new_page p
        t ← load_tinfo
        store_tinfo (record t { total_empty_gc_pages = t.total_empty_gc_pages + 1 }))
      else if is_low_util fl n_util
      then (let i =
            index_or_zero (get_bucket_index fl n_util num_low_util_buckets (some 0) false) in
          insert_page_in_bucket fl fuel (bucket low s i) p n_util)
      else if is_high_util fl n_util
      then (let i =
            index_or_zero (get_bucket_index fl n_util num_high_util_buckets (some 0) true) in
          insert_page_in_bucket fl fuel (bucket high s i) p n_util)
      else if is_full fl n_util && not (is_full fl old_util)
      then (do
        a ← load_alloc s
        if not (p == a.evac_page) then push_pending s p else push_filled s p)
      else if is_full fl n_util && is_full fl old_util
      then push_filled s p
      else pure tt

  unfoldable pub process_page : (fuel s p : ℕ) → Cmd fl.F (Unit {0})
  process_page fuel s p = do
    page ← load_page p
    let n_util = calc_approx_utilization fl page
    store_page p (record page { approx_utilization = n_util })
    sort_page fuel s p page.approx_utilization n_util page

  -- The loop over pendinggc_pages.
  unfoldable pub process_pending : (fuel s cur : ℕ) → Cmd fl.F (Unit {0})
  process_pending zero s cur = no_fuel
  process_pending (suc f) s cur = if cur == 0 then pure tt else do
    page ← load_page cur
    rebuild_page cur
    process_page f s cur
    process_pending f s page.next

  unfoldable pub process_collector_pages : (fuel s : ℕ) → Cmd fl.F (Unit {0})
  process_collector_pages fuel s = do
    a ← load_alloc s
    (if a.alloc_page == 0 then pure tt else (do
      rebuild_page a.alloc_page
      process_page fuel s a.alloc_page
      b ← load_alloc s
      store_alloc s (record b { alloc_page = 0; freelist = 0 })))
    c ← load_alloc s
    (if c.evac_page == 0 then pure tt else (do
      process_page fuel s c.evac_page
      d ← load_alloc s
      store_alloc s (record d { evac_page = 0; evacfreelist = 0 })))
    e ← load_alloc s
    process_pending fuel s e.pendinggc_pages
    g ← load_alloc s
    store_alloc s (record g { pendinggc_pages = 0 })

  -- Gives the allocator a page to allocate from.
  set_alloc_page : (fuel s : ℕ) → Cmd fl.F (Unit {0})
  set_alloc_page fuel s = do
    p ← get_fresh_page_for_allocator fuel s
    a ← load_alloc s
    store_alloc s (record a { alloc_page = p })

  -- `collect` is the collection that the refresh may start.
  unfoldable pub allocator_refresh_page : Cmd fl.F (Unit {0}) → (fuel s : ℕ) → Cmd fl.F (Unit {0})
  unfolding set_alloc_page
  allocator_refresh_page collect fuel s = do
    a ← load_alloc s
    (if a.alloc_page == 0 then set_alloc_page fuel s else (do
      process_page fuel s a.alloc_page
      b ← load_alloc s
      store_alloc s (record b { alloc_page = 0 })
      t ← load_tinfo
      let filled = (t.newly_filled_pages_count + 1) % 2 ^ 32
      store_tinfo (record t { newly_filled_pages_count = filled })
      (if (filled == bsq_collection_threshold) && not t.disable_automatic_collections
          then collect
          else pure tt)
      set_alloc_page fuel s))
    c ← load_alloc s
    page ← load_page c.alloc_page
    store_alloc s (record c { freelist = page.freelist })

  -- The part of `allocate` behind the refresh.
  unfoldable pub allocate_entry : (s type : ℕ) → TypeInfoBase → Cmd fl.F ℕ
  allocate_entry s type info = do
    a ← load_alloc s
    let entry = a.freelist
    next ← load_word entry
    store_alloc s (record a { freelist = next })
    pop_page_entry a.alloc_page
    setup_entry true entry type info

  unfoldable pub allocate : Cmd fl.F (Unit {0}) → (fuel s type : ℕ) → Cmd fl.F ℕ
  allocate collect fuel s type = do
    info ← load_type type
    a ← load_alloc s
    assert (info.type_size == a.allocsize)
    (if a.freelist == 0 then allocator_refresh_page collect fuel s else pure tt)
    allocate_entry s type info

  unfoldable pub allocator_refresh_evacuation_page : (fuel s : ℕ) → Cmd fl.F (Unit {0})
  allocator_refresh_evacuation_page fuel s = do
    a ← load_alloc s
    (if a.evac_page == 0 then pure tt else (do
      page ← load_page a.evac_page
      if page.freecount == 0
          then (do
            store_page a.evac_page
                (record page { approx_utilization = fl.dec 1 0; next = a.filled_pages })
            store_alloc s (record a { filled_pages = a.evac_page }))
          else pure tt))
    p ← get_fresh_page_for_evacuation fuel s
    b ← load_alloc s
    page ← load_page p
    store_alloc s (record b { evac_page = p; evacfreelist = page.freelist })

  unfoldable pub allocate_evacuation_entry : (s type : ℕ) → TypeInfoBase → Cmd fl.F ℕ
  allocate_evacuation_entry s type info = do
    a ← load_alloc s
    let entry = a.evacfreelist
    next ← load_word entry
    store_alloc s (record a { evacfreelist = next })
    pop_page_entry a.evac_page
    setup_entry false entry type info

  unfoldable pub allocate_evacuation : (fuel s type : ℕ) → Cmd fl.F ℕ
  allocate_evacuation fuel s type = do
    info ← load_type type
    a ← load_alloc s
    assert (info.type_size == a.allocsize)
    (if a.evacfreelist == 0 then allocator_refresh_evacuation_page fuel s else pure tt)
    allocate_evacuation_entry s type info
