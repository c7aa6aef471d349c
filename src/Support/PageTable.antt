-- ===== src/Support/PageTable.antt =====
-- PageTableInUseInfo (src/runtime/support/pagetable.h): a radix tree over bits 47 to 12 of an address.
--
-- A table of pointers is a function from its 512 indices, and a null pointer is `none`. A table that
-- is allocated is cleared, so all its pointers are null. The last level holds PAGE_PRESENT or null.
pub mod Laws
mod Tests
use bsqgc.Prelude.{ℕ, ◌/◌, ◌%◌, ◌^◌, Bool, true, false, Option, none, some, if◌then◌else◌}
use bsqgc.Common.{store}

abbrev pub level1_shift : ℕ
level1_shift = 39

abbrev pub level2_shift : ℕ
level2_shift = 30

abbrev pub level3_shift : ℕ
level3_shift = 21

abbrev pub level4_shift : ℕ
level4_shift = 12

-- `(address >> shift) & LEVEL_MASK`: nine bits.
abbrev pub index_at : ℕ → ℕ → ℕ
index_at address shift = address / 2 ^ shift % 512

abbrev pub Level4 : Type 0
Level4 = ℕ → Bool

abbrev pub Level3 : Type 0
Level3 = ℕ → Option Level4

abbrev pub Level2 : Type 0
Level2 = ℕ → Option Level3

abbrev pub Level1 : Type 0
Level1 = ℕ → Option Level2

-- pagetable_root.
abbrev pub PageTableInUseInfo : Type 0
PageTableInUseInfo = Option Level1

is_some {ℓ} : {A : Type ℓ} → Option A → Bool
is_some none = false
is_some (some x) = true

-- allocatePage and xmem_zerofillpage, where the pointer is null.
allocated {ℓ} : {A : Type ℓ} → Option (ℕ → Option A) → ℕ → Option A
allocated none i = none
allocated (some table) i = table i

allocated_last : Option Level4 → Level4
allocated_last none i = false
allocated_last (some table) i = table i

-- How many tables an insertion has to allocate: those on the way to the entry whose pointers are null.
missing_level3 : Option Level3 → ℕ → ℕ
missing_level3 none i = 2
missing_level3 (some level3) i = if is_some (level3 i) then 0 else 1

missing_level2 : Option Level2 → ℕ → ℕ → ℕ
missing_level2 none i j = 3
missing_level2 (some level2) i j = missing_level3 (level2 i) j

missing_root : PageTableInUseInfo → ℕ → ℕ → ℕ → ℕ
missing_root none i j k = 4
missing_root (some level1) i j k = missing_level2 (level1 i) j k

unfoldable pub missing_tables : PageTableInUseInfo → ℕ → ℕ
unfolding missing_root missing_level2 missing_level3 is_some
missing_tables root address =
    missing_root root (index_at address level1_shift) (index_at address level2_shift)
      (index_at address level3_shift)

-- The change of the table. The pages for the missing tables are taken by its caller.
unfoldable pub pagetable_insert : PageTableInUseInfo → ℕ → PageTableInUseInfo
unfolding allocated allocated_last
pagetable_insert root address =
    let index1 = index_at address level1_shift in
    let index2 = index_at address level2_shift in
    let index3 = index_at address level3_shift in
    let index4 = index_at address level4_shift in
    let level1 = allocated root in
    let level2 = allocated (level1 index1) in
    let level3 = allocated (level2 index2) in
    let level4 = allocated_last (level3 index3) in
    some (
      store level1 index1
        (some (store level2 index2 (some (store level3 index3 (some (store level4 index4 true)))))))

-- The nested tests of pagetable_query, from the last level up.
query_level4 : Option Level4 → ℕ → Bool
query_level4 none i = false
query_level4 (some level4) i = level4 i

query_level3 : Option Level3 → ℕ → ℕ → Bool
query_level3 none i j = false
query_level3 (some level3) i j = query_level4 (level3 i) j

query_level2 : Option Level2 → ℕ → ℕ → ℕ → Bool
query_level2 none i j k = false
query_level2 (some level2) i j k = query_level3 (level2 i) j k

query_root : PageTableInUseInfo → ℕ → ℕ → ℕ → ℕ → Bool
query_root none i j k l = false
query_root (some level1) i j k l = query_level2 (level1 i) j k l

unfoldable pub pagetable_query : PageTableInUseInfo → ℕ → Bool
unfolding query_root query_level2 query_level3 query_level4
pagetable_query root address =
    query_root root (index_at address level1_shift) (index_at address level2_shift)
      (index_at address level3_shift) (index_at address level4_shift)
