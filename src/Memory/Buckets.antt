-- ===== src/Memory/Buckets.antt =====
-- The bucket trees of GCAllocator (src/runtime/memory/allocator.h): binary search trees of pages by
-- utilization, linked by the pages' own fields, with a list of further pages at a node.
--
-- `bucket` is the `PageInfo**` that the C++ functions take: the place of a pointer to a page. Each loop
-- over a tree or a list runs on fuel.
pub mod Tree
pub mod Insert
pub mod Frame
pub mod Writes
pub mod Inserted
pub mod Ordered
pub mod Insertion
pub mod Lowest
pub mod Dropped
pub mod Least
pub mod Taken
pub mod Found
pub mod Find
mod Tests
use bsqgc.Prelude.{ℕ, zero, suc, ◌+◌, not, ◌==◌, if◌then◌else◌}
use bsqgc.Common.{store}
use bsqgc.Memory.Float.{FloatOps}
use bsqgc.Memory.Utilization.{utilizations_are_equal}
use bsqgc.Memory.World.{
  GcAllocator, Cmd, pure, no_fuel, assert, ◌>>=◌, ◌>>◌, load_page, store_page, load_alloc,
  store_alloc,
}

-- Which of the two arrays of buckets.
pub data Util : Type 0 where
  low high : Util

pub data Place : Type 0 where
  bucket : Util → (slot index : ℕ) → Place
  left_of : ℕ → Place
  right_of : ℕ → Place

abbrev pub buckets_of : Util → GcAllocator → ℕ → ℕ
buckets_of low a = a.low_utilization_buckets
buckets_of high a = a.high_utilization_buckets

abbrev pub set_bucket : Util → GcAllocator → ℕ → ℕ → GcAllocator
set_bucket low a i p = record a { low_utilization_buckets = store a.low_utilization_buckets i p }
set_bucket high a i p = record a { high_utilization_buckets = store a.high_utilization_buckets i p }

module _ {F : Type 0} where
  unfoldable pub load_place : Place → Cmd F ℕ
  load_place (bucket u s i) = do a ← load_alloc s; pure (buckets_of u a i)
  load_place (left_of p) = do page ← load_page p; pure page.left
  load_place (right_of p) = do page ← load_page p; pure page.right

  unfoldable pub store_place : Place → ℕ → Cmd F (Unit {0})
  store_place (bucket u s i) v = do a ← load_alloc s; store_alloc s (set_bucket u a i v)
  store_place (left_of p) v = do page ← load_page p; store_page p (record page { left = v })
  store_place (right_of p) v = do page ← load_page p; store_page p (record page { right = v })

  -- The walk to the end of a list, and the write there.
  unfoldable pub append_to_list : (fuel it new_page : ℕ) → Cmd F (Unit {0})
  append_to_list zero it new_page = no_fuel
  append_to_list (suc f) it new_page = do
    page ← load_page it
    if page.next == 0
        then store_page it (record page { next = new_page })
        else append_to_list f page.next new_page

  -- Unlinks a page behind `prev` in a node's list.
  unfoldable pub unlink_from_list : (fuel prev current old_page : ℕ) → Cmd F (Unit {0})
  unlink_from_list zero prev current old_page = no_fuel
  unlink_from_list (suc f) prev current old_page = if current == 0 then pure tt else do
    page ← load_page current
    if current == old_page
        then (do before ← load_page prev; store_page prev (record before { next = page.next }))
        else unlink_from_list f current page.next old_page

  -- The `while` of getSuccessor.
  unfoldable pub leftmost : (fuel p : ℕ) → Cmd F ℕ
  leftmost zero p = no_fuel
  leftmost (suc f) p =
      if p == 0
      then pure p
      else do page ← load_page p; if page.left == 0 then pure p else leftmost f page.left

  unfoldable pub get_successor : (fuel p : ℕ) → Cmd F ℕ
  unfolding leftmost
  get_successor fuel p = do page ← load_page p; leftmost fuel page.right

module _ (fl : FloatOps) where
  unfoldable pub insert_walk : (fuel root current new_page : ℕ) → fl.F → Cmd fl.F (Unit {0})
  insert_walk zero root current new_page n_util = no_fuel
  insert_walk (suc f) root current new_page n_util = if current == 0 then pure tt else do
    r ← load_page root
    c ← load_page current
    if utilizations_are_equal fl n_util r.approx_utilization
        then (if c.next == 0
            then store_page current (record c { next = new_page })
            else append_to_list f current new_page)
        else if fl.lt n_util c.approx_utilization
        then (if c.left == 0
            then store_page current (record c { left = new_page })
            else insert_walk f root c.left new_page n_util)
        else (if c.right == 0
            then store_page current (record c { right = new_page })
            else insert_walk f root c.right new_page n_util)

  unfoldable pub insert_page_in_bucket : ℕ → Place → (new_page : ℕ) → fl.F → Cmd fl.F (Unit {0})
  unfolding insert_walk append_to_list load_place store_place
  insert_page_in_bucket fuel place new_page n_util = do
    assert (not (new_page == 0))
    root ← load_place place
    page ← load_page new_page
    store_page new_page (record page { left = 0; right = 0; next = 0 })
    if root == 0 then store_place place new_page else insert_walk fuel root root new_page n_util

  unfoldable pub delete_page_from_bucket : ℕ → Place → (old_page : ℕ) → Cmd fl.F (Unit {0})
  unfolding unlink_from_list get_successor load_place store_place
  delete_page_from_bucket zero place old_page = no_fuel
  delete_page_from_bucket (suc f) place old_page = do
    old ← load_page old_page
    root ← load_place place
    if root == 0 then pure tt else do
      r ← load_page root
      if utilizations_are_equal fl old.approx_utilization r.approx_utilization
          then (if root == old_page
              then (if not (r.next == 0)
                  then (do
                    store_place place r.next
                    n ← load_page r.next
                    store_page r.next (record n { left = r.left; right = r.right }))
                  else if r.left == 0
                  then store_place place r.right
                  else if r.right == 0
                  then store_place place r.left
                  else (do
                    successor ← get_successor f root
                    s ← load_page successor
                    store_page successor
                        (record s { left = r.left; right = r.right; next = r.next })
                    r' ← load_page root
                    store_page root (record r' { approx_utilization = s.approx_utilization })
                    delete_page_from_bucket f (right_of root) successor))
              else unlink_from_list f root r.next old_page)
          else if fl.lt old.approx_utilization r.approx_utilization
          then delete_page_from_bucket f (left_of root) old_page
          else delete_page_from_bucket f (right_of root) old_page

module _ {F : Type 0} where
  -- The way down to the left: the parent of the page that is found, 0 at the root, and that page.
  unfoldable pub descend_left : (fuel parent cur : ℕ) → Cmd F (ℕ × ℕ)
  descend_left zero parent cur = no_fuel
  descend_left (suc f) parent cur = do
    page ← load_page cur
    if page.left == 0 then pure (parent, cur) else descend_left f cur page.left

  -- Takes the page with the lowest utilization out of a bucket that is not empty.
  unfoldable pub take_lowest : (fuel : ℕ) → Util → (slot i : ℕ) → Cmd F ℕ
  take_lowest fuel u s i = do
    top ← load_place (bucket u s i)
    (parent, cur) ← descend_left fuel 0 top
    page ← load_page cur
    if cur == top
        then (if not (page.next == 0)
            then (do
              store_place (bucket u s i) page.next
              n ← load_page page.next
              store_page page.next (record n { left = page.left; right = page.right }))
            else store_place (bucket u s i) page.right)
        else store_place (left_of parent) page.right
    pure cur

  -- findLowestUtilPage, with `n` buckets left from the `i`-th on; 0 where there is no page.
  unfoldable pub find_lowest_util_page : (fuel : ℕ) → Util → (slot n i : ℕ) → Cmd F ℕ
  unfolding take_lowest descend_left load_place store_place
  find_lowest_util_page fuel u s zero i = pure 0
  find_lowest_util_page fuel u s (suc n) i = do
    top ← load_place (bucket u s i)
    if top == 0 then find_lowest_util_page fuel u s n (i + 1) else take_lowest fuel u s i
