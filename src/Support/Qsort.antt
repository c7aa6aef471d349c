-- ===== src/Support/Qsort.antt =====
-- src/runtime/support/qsort.h: quicksort of an array of addresses, in place.
--
-- An array is a function from its indices. The C++ indices are ints that may be -1 (`low - 1`, and
-- `high` for an empty array), so an index that can be is kept one higher here: `stop` is `high + 1`,
-- and `i'` is `i + 1`.
pub mod Rearranges
pub mod Partition
pub mod Sorted
mod Tests
use bsqgc.Prelude.{ℕ, zero, suc, ◌+◌, ◌-◌, Option, none, some, if◌then◌else◌, ltb}
use bsqgc.Common.{store}

abbrev pub Array : Type 0
Array = ℕ → ℕ

unfoldable pub swap : Array → ℕ → ℕ → Array
swap arr first second = store (store arr first (arr second)) second (arr first)

-- The `for` of partition: `n` rounds from `j` on, with the pivot `pi`. The result is the array and
-- `i'`.
unfoldable pub partition_loop : (pi n j i' : ℕ) → Array → Array × ℕ
partition_loop pi zero j i' arr = (arr, i')
partition_loop pi (suc n) j i' arr =
    let smaller = ltb (arr j) pi in
    partition_loop pi n (j + 1) (if smaller then i' + 1 else i')
      (if smaller then swap arr i' j else arr)

-- partition(arr, low, high): the array and the index of the pivot.
unfoldable pub partition : Array → (low high : ℕ) → Array × ℕ
partition arr low high =
    let (arr', i') = partition_loop (arr high) (high - low) low low arr in (swap arr' i' high, i')

-- qsort(arr, low, stop - 1, size), on fuel for the depth of the calls.
unfoldable pub qsort : ℕ → Array → (low stop : ℕ) → Option Array
qsort zero arr low stop = none
qsort (suc fuel) arr low stop =
    let (arr', pi) = partition arr low (stop - 1) in
    let sorted : Option Array = elim (qsort fuel arr' low pi) [
      | none ↦ none
      | some arr'' ↦ qsort fuel arr'' (pi + 1) stop
    ] in
    if ltb (low + 1) stop then sorted else some arr
