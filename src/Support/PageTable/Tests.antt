-- ===== src/Support/PageTable/Tests.antt =====
-- Runs of the page table on a few addresses.
use bsqgc.Prelude.{◌/◌, ◌==◌, ◌||◌, ◌≡◌, refl, true, false, none, arith}
use bsqgc.Support.PageTable.{PageTableInUseInfo, pagetable_insert, pagetable_query, missing_tables}
use bsqgc.Support.PageTable.Laws.{pagetable_query-pagetable_insert, missing_tables-pagetable_insert}

abbrev empty : PageTableInUseInfo
empty = none

abbrev one_page : PageTableInUseInfo
one_page = pagetable_insert empty 0x40_0000_1000

-- Any address of the page is found, and the next page is not.
query_inside : pagetable_query one_page 0x40_0000_1abc ≡ true
unfolding pagetable_query pagetable_insert
query_inside = refl

query_outside : pagetable_query one_page 0x40_0000_2000 ≡ false
unfolding pagetable_query pagetable_insert
query_outside = refl

pagetable_query-pagetable_insert_example :
    pagetable_query (pagetable_insert one_page 0x40_0020_0000) 0x40_0020_0038
    ≡ ((0x40_0020_0000 / 4096 == 0x40_0020_0038 / 4096) || pagetable_query one_page 0x40_0020_0038)
pagetable_query-pagetable_insert_example =
    pagetable_query-pagetable_insert one_page 0x40_0020_0000 0x40_0020_0038 (omega arith)
      (omega arith)

missing_tables-pagetable_insert_example : missing_tables one_page 0x40_0000_2000 ≡ 0
missing_tables-pagetable_insert_example =
    missing_tables-pagetable_insert empty 0x40_0000_1000 0x40_0000_2000 refl
