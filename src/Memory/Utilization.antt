-- ===== src/Memory/Utilization.antt =====
-- The utilization of a page and its classes (the macros of src/runtime/memory/allocator.h), and
-- pageNeedsMoved (src/runtime/memory/gc.cpp).
pub mod Moved
mod Tests
use bsqgc.Prelude.{
  ℕ, zero, suc, ◌+◌, Bool, true, false, not, ◌&&◌, ◌||◌, ◌==◌, if◌then◌else◌, Option, none, some,
}
use bsqgc.Memory.Float.{FloatOps}
use bsqgc.Memory.Page.{PageInfo}

abbrev pub num_low_util_buckets : ℕ
num_low_util_buckets = 12

abbrev pub num_high_util_buckets : ℕ
num_high_util_buckets = 6

module _ (fl : FloatOps) where
  -- CALC_APPROX_UTILIZATION.
  unfoldable pub calc_approx_utilization : PageInfo fl.F → fl.F
  calc_approx_utilization p =
      fl.sub (fl.dec 1 0) (fl.div (fl.of_nat p.freecount) (fl.of_nat p.entrycount))

  unfoldable pub is_low_util : fl.F → Bool
  is_low_util u = fl.le (fl.dec 1 2) u && fl.le u (fl.dec 60 2)

  unfoldable pub is_high_util : fl.F → Bool
  is_high_util u = fl.lt (fl.dec 60 2) u && fl.le u (fl.dec 90 2)

  unfoldable pub is_full : fl.F → Bool
  is_full u = fl.lt (fl.dec 90 2) u && fl.le u (fl.dec 1 0)

  -- UTILIZATIONS_ARE_EQUAL: the bounds are doubles.
  unfoldable pub utilizations_are_equal : fl.F → fl.F → Bool
  utilizations_are_equal f1 f2 =
      fl.double_le (fl.double_neg (fl.double_dec 1 5)) (fl.promote (fl.sub f1 f2))
      && fl.double_le (fl.promote (fl.sub f1 f2)) (fl.double_dec 1 5)

  -- The loop of GET_BUCKET_INDEX, from index `i` and bound `tmp_util` on; `start` is the value that the
  -- caller's variable has before.
  unfoldable pub bucket_loop : (rounds i : ℕ) → (u tmp_util : fl.F) → Option ℕ → Option ℕ
  bucket_loop zero i u tmp_util start = start
  bucket_loop (suc n) i u tmp_util start =
      let new_tmp_util = fl.add tmp_util (fl.dec 5 2) in
      let rest = bucket_loop n (i + 1) u new_tmp_util start in
      if fl.lt tmp_util u && fl.le u new_tmp_util then some i else rest

  -- GET_BUCKET_INDEX(U, N, I, O), for an I that is -1 before (`none`) or a number.
  unfoldable pub get_bucket_index : fl.F → ℕ → Option ℕ → Bool → Option ℕ
  unfolding bucket_loop
  get_bucket_index u n start high =
      bucket_loop n 0 u (if high then fl.dec 60 2 else fl.dec 0 0) start

-- The variable that GET_BUCKET_INDEX sets is 0 before in the callers of the allocator.
abbrev pub index_or_zero : Option ℕ → ℕ
index_or_zero none = 0
index_or_zero (some i) = i

unfoldable pub same_index : Option ℕ → Option ℕ → Bool
same_index none none = true
same_index none (some j) = false
same_index (some i) none = false
same_index (some i) (some j) = i == j

unfoldable pub xor_bool : Bool → Bool → Bool
xor_bool true b = not b
xor_bool false b = b

module _ (fl : FloatOps) where
  unfoldable pub page_needs_moved : (old_util new_util : fl.F) → Bool
  unfolding same_index xor_bool
  page_needs_moved old_util new_util =
      if fl.lt (fl.dec 11 1) old_util
      then false
      else if fl.lt new_util (fl.dec 1 2) && fl.lt (fl.dec 1 2) old_util
      then true
      else if xor_bool (is_low_util fl old_util) (is_low_util fl new_util)
      then true
      else if xor_bool (is_high_util fl old_util) (is_high_util fl new_util)
      then true
      else if xor_bool (is_full fl old_util) (is_full fl new_util)
      then true
      else if is_low_util fl new_util
      then not (
          same_index (get_bucket_index fl old_util num_low_util_buckets none false)
            (get_bucket_index fl new_util num_low_util_buckets none false))
      else if is_high_util fl new_util
      then not (
          same_index (get_bucket_index fl old_util num_high_util_buckets none true)
            (get_bucket_index fl new_util num_high_util_buckets none true))
      else false
