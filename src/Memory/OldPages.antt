-- ===== src/Memory/OldPages.antt =====
-- The parts of GCAllocator for pages that are in no use: checkNonAllocOrGCPage and deleteOldPage
-- (src/runtime/memory/allocator.h) and updateMemStats (allocator.cpp).
pub mod Lists
pub mod Filled
pub mod Stats
pub mod Traverse
mod Tests
use bsqgc.Prelude.{
  ℕ, zero, suc, ◌+◌, ◌-◌, ◌*◌, ◌%◌, Bool, true, false, not, ◌||◌, some, ◌==◌, if◌then◌else◌,
}
use bsqgc.Common.{word_mod}
use bsqgc.Memory.Float.{FloatOps}
use bsqgc.Memory.Utilization.{
  index_or_zero, is_low_util, is_high_util, get_bucket_index, num_low_util_buckets,
  num_high_util_buckets,
}
use bsqgc.Memory.World.{
  Cmd, pure, no_fuel, ◌>>=◌, ◌>>◌, load_page, store_page, load_alloc, store_alloc, load_tinfo,
  store_tinfo,
}
use bsqgc.Memory.Buckets.{Util, low, high, bucket, load_place, delete_page_from_bucket}

module _ {F : Type 0} where
  -- Whether a page stands in a list.
  unfoldable pub in_list : (fuel cur p : ℕ) → Cmd F Bool
  in_list zero cur p = no_fuel
  in_list (suc f) cur p =
      if cur == 0
      then pure false
      else do page ← load_page cur; if cur == p then pure true else in_list f page.next p

  unfoldable pub check_non_alloc_or_gc_page : (fuel s p : ℕ) → Cmd F Bool
  unfolding in_list
  check_non_alloc_or_gc_page fuel s p = do
    a ← load_alloc s
    if (p == a.alloc_page) || (p == a.evac_page)
        then pure false
        else (do pending ← in_list fuel a.pendinggc_pages p; pure (not pending))

  -- The walk through the list to a page or to its end: the page before, 0 at the head, and the place.
  unfoldable pub find_in_list : (fuel prev cur p : ℕ) → Cmd F (ℕ × ℕ)
  find_in_list zero prev cur p = no_fuel
  find_in_list (suc f) prev cur p =
      if (cur == 0) || (cur == p)
      then pure (prev, cur)
      else (do page ← load_page cur; find_in_list f cur page.next p)

  -- deleteOldPage for a page that is in no bucket.
  unfoldable pub delete_filled_page : (fuel s p : ℕ) → Cmd F (Unit {0})
  unfolding find_in_list
  delete_filled_page fuel s p = do
    a ← load_alloc s
    (prev, cur) ← find_in_list fuel 0 a.filled_pages p
    page ← load_page cur
    (if prev == 0
        then store_alloc s (record a { filled_pages = page.next })
        else (do before ← load_page prev; store_page prev (record before { next = page.next })))
    old ← load_page p
    store_page p (record old { next = 0; left = 0; right = 0 })

  -- The statistics of one page: live bytes without headers and canaries.
  unfoldable pub count_page : ℕ → Cmd F (Unit {0})
  count_page p = if p == 0 then pure tt else do
    page ← load_page p
    t ← load_tinfo
    store_tinfo (record t {
      total_live_bytes =
          (t.total_live_bytes
            + page.allocsize * page.entrycount
            + word_mod
            - page.allocsize * page.freecount)
          % word_mod;
    })

  unfoldable pub count_list : (fuel cur : ℕ) → Cmd F (Unit {0})
  count_list zero cur = no_fuel
  count_list (suc f) cur =
      if cur == 0 then pure tt else do count_page cur; page ← load_page cur; count_list f page.next

  unfoldable pub traverse_bst : (fuel node : ℕ) → Cmd F (Unit {0})
  traverse_bst zero node = no_fuel
  traverse_bst (suc f) node = if node == 0 then pure tt else do
    count_list f node
    page ← load_page node
    traverse_bst f page.left
    page' ← load_page node
    traverse_bst f page'.right

  -- The loop over an array of buckets, `n` of them left from the `i`-th on.
  unfoldable pub count_buckets : (fuel : ℕ) → Util → (s n i : ℕ) → Cmd F (Unit {0})
  count_buckets fuel u s zero i = pure tt
  count_buckets fuel u s (suc n) i = do
    node ← load_place (bucket u s i)
    traverse_bst fuel node
    count_buckets fuel u s n (i + 1)

  unfoldable pub update_mem_stats : (fuel s : ℕ) → Cmd F (Unit {0})
  unfolding count_buckets traverse_bst count_list count_page
  update_mem_stats fuel s = do
    a ← load_alloc s
    count_list fuel a.filled_pages
    count_buckets fuel high s num_high_util_buckets 0
    count_buckets fuel low s num_low_util_buckets 0

unfoldable pub delete_old_page : (fl : FloatOps) → (fuel s p : ℕ) → Cmd fl.F (Unit {0})
delete_old_page fl fuel s p = do
  page ← load_page p
  let old_util = page.approx_utilization
  if is_low_util fl old_util
      then (let i =
            index_or_zero (get_bucket_index fl old_util num_low_util_buckets (some 0) false) in
          delete_page_from_bucket fl fuel (bucket low s i) p)
      else if is_high_util fl old_util
      then (let i =
            index_or_zero (get_bucket_index fl old_util num_high_util_buckets (some 0) true) in
          delete_page_from_bucket fl fuel (bucket high s i) p)
      else delete_filled_page fuel s p
