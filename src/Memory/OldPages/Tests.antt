-- ===== src/Memory/OldPages/Tests.antt =====
-- Runs on lists of pages and on a tree.
use bsqgc.Prelude.{
  ℕ, false, inl, inr, Bool-cases, [], ◌∷◌, ◌++◌, ◌==◌, if◌then◌else◌, ◌≡◌, refl, arith,
}
use bsqgc.Memory.Page.{PageInfo}
use bsqgc.Memory.Page.Chain.{Chain, done, link}
use bsqgc.Memory.Page.Links.{nexts}
use bsqgc.Memory.World.{World, ok, fault, Returns}
use bsqgc.Memory.Buckets.{low, high}
use bsqgc.Memory.Buckets.Tree.{Tree, leaf, node, IsTree, pages_of_tree, pages_of_buckets, walk_fuel}
use bsqgc.Memory.OldPages.{check_non_alloc_or_gc_page, delete_filled_page, update_mem_stats}
use bsqgc.Memory.OldPages.Lists.{check_non_alloc_or_gc_page-Chain}
use bsqgc.Memory.OldPages.Filled.{
  IsDeleted, delete_filled_page-IsDeleted, delete_filled_page-missing,
}
use bsqgc.Memory.OldPages.Stats.{live_bytes}
use bsqgc.Memory.OldPages.Traverse.{HoldTrees, AreCountable, update_mem_stats-live_bytes}
use bsqgc.Memory.Allocator.Sample.{page, allocator, world}

-- The list 8192, 12288 and, in a bucket, the page 16384.
abbrev pages_in_lists : ℕ → PageInfo ℕ
pages_in_lists p =
    if p == 8192 then record page { next = 12288; freecount = 1 } else record page { freecount = 1 }

abbrev with_lists : World ℕ
with_lists = record world {
  pages = pages_in_lists;
  alloc = λ s. record allocator {
    filled_pages = 8192;
    pendinggc_pages = 8192;
    alloc_page = 0;
    low_utilization_buckets = λ i. if i == 3 then 16384 else 0;
  };
}

list_Chain : Chain (nexts with_lists.pages) 8192 (8192 ∷ 12288 ∷ [])
list_Chain = link (omega arith) (link (omega arith) (done refl))

check_non_alloc_or_gc_page-Chain_example :
    check_non_alloc_or_gc_page 3 2 12288 with_lists ≡ ok false with_lists
check_non_alloc_or_gc_page-Chain_example =
    check_non_alloc_or_gc_page-Chain 3 2 12288 (8192 ∷ 12288 ∷ []) with_lists list_Chain
      (omega arith)

delete_filled_page-IsDeleted_example :
    Returns
      (λ (u : Unit {0}) (w' : World ℕ). IsDeleted 2 12288 (8192 ∷ []) [] with_lists w')
      (delete_filled_page 2 2 12288 with_lists)
delete_filled_page-IsDeleted_example =
    delete_filled_page-IsDeleted 2 2 12288 (8192 ∷ []) [] with_lists list_Chain
      ((omega arith, tt), (tt, tt)) (omega arith) (omega arith)

delete_filled_page-missing_example : delete_filled_page 3 2 20480 with_lists ≡ fault
delete_filled_page-missing_example =
    delete_filled_page-missing 3 2 20480 (8192 ∷ 12288 ∷ []) with_lists list_Chain
      (omega arith, (omega arith, tt)) (omega arith)

abbrev tree : ℕ → Tree
tree i = if i == 3 then node 16384 [] leaf leaf else leaf

abbrev no_tree : ℕ → Tree
no_tree i = leaf

trees_HoldTrees : HoldTrees 5 low 2 tree with_lists
unfolding IsTree walk_fuel
trees_HoldTrees i = elim (Bool-cases (i == 3)) [
  | inl e ↦ rw e ((refl, omega arith, done refl, refl, refl), omega arith)
  | inr e ↦ rw e (refl, omega arith)
]

none_HoldTrees : HoldTrees 5 high 2 no_tree with_lists
unfolding IsTree walk_fuel
none_HoldTrees i = (refl, omega arith)

pages_AreCountable :
    AreCountable with_lists.pages
      ((8192 ∷ 12288 ∷ []) ++ (pages_of_buckets no_tree 6 0 ++ pages_of_buckets tree 12 0))
unfolding pages_of_buckets pages_of_tree
pages_AreCountable =
    ((omega arith, omega arith), ((omega arith, omega arith), ((omega arith, omega arith), tt)))

-- Three pages with two objects of 16 bytes each.
update_mem_stats-live_bytes_example :
    update_mem_stats 5 2 with_lists
    ≡ ok tt (record with_lists { tinfo = record with_lists.tinfo { total_live_bytes = 96 } })
unfolding live_bytes pages_of_buckets pages_of_tree
update_mem_stats-live_bytes_example =
    update_mem_stats-live_bytes 5 2 (8192 ∷ 12288 ∷ []) no_tree tree with_lists list_Chain
      (omega arith) none_HoldTrees trees_HoldTrees pages_AreCountable (omega arith)
