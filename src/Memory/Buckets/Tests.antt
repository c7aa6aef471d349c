-- ===== src/Memory/Buckets/Tests.antt =====
-- Runs on the tree of a bucket.
use bsqgc.Prelude.{ℕ, ◌≤◌, [], ◌≢◌, ◌==◌, if◌then◌else◌, refl, arith, All, Distinct}
use bsqgc.Memory.Float.{IsOrder}
use bsqgc.Memory.Float.Fixed.{fixed}
use bsqgc.Memory.Page.{PageInfo}
use bsqgc.Memory.Page.Chain.{done}
use bsqgc.Memory.World.{World, Returns}
use bsqgc.Memory.Allocator.{get_fresh_page_for_allocator}
use bsqgc.Memory.Allocator.Sample.{page, allocator, world}
use bsqgc.Memory.Buckets.{low, bucket, insert_page_in_bucket}
use bsqgc.Memory.Buckets.Tree.{Tree, leaf, node, IsTree, IsNode, pages_of_tree, walk_fuel}
use bsqgc.Memory.Buckets.Inserted.{util_of}
use bsqgc.Memory.Buckets.Ordered.{IsOrdered, nodes_of}
use bsqgc.Memory.Buckets.Insertion.{IsInserted, insert_page_in_bucket-IsInserted}
use bsqgc.Memory.Buckets.Find.{IsReusedPage, get_fresh_page_for_allocator-IsReusedPage}

-- The root 8192 and its left child 12288; the page 16384 is in no tree.
abbrev tree_pages : ℕ → PageInfo ℕ
tree_pages p =
    if p == 8192
    then record page { left = 12288; approx_utilization = 300_000 }
    else if p == 12288
    then record page { approx_utilization = 100_000 }
    else record page { approx_utilization = 400_000 }

abbrev with_tree : World ℕ
with_tree = record world {
  pages = tree_pages;
  alloc = λ s. record allocator { low_utilization_buckets = λ i. if i == 3 then 8192 else 0 };
}

abbrev tree : Tree
tree = node 8192 [] (node 12288 [] leaf leaf) leaf

tree_IsTree : IsTree with_tree.pages 8192 tree
unfolding IsTree
tree_IsTree = (refl, omega arith, done refl, (refl, omega arith, done refl, refl, refl), refl)

tree_Distinct : Distinct (pages_of_tree tree)
unfolding pages_of_tree
tree_Distinct = ((omega arith, tt), (tt, tt))

tree_IsOrdered : IsOrdered fixed (util_of with_tree.pages) tree
unfolding IsOrdered nodes_of
tree_IsOrdered = ((refl, tt), tt, (tt, tt, tt, tt), tt)

tree_fuel : walk_fuel tree ≤ 12
unfolding walk_fuel
tree_fuel = omega arith

apart_from_tree : All (λ y. 16384 ≢ y) (pages_of_tree tree)
unfolding pages_of_tree
apart_from_tree = (omega arith, (omega arith, tt))

insert_page_in_bucket-IsInserted_example :
    Returns
      (λ (r : Unit {0}) (w' : World ℕ). IsInserted fixed low 2 3 16384 tree with_tree w')
      (insert_page_in_bucket fixed 12 (bucket low 2 3) 16384 400_000 with_tree)
insert_page_in_bucket-IsInserted_example =
    insert_page_in_bucket-IsInserted fixed 12 low 2 3 16384 tree with_tree tree_IsTree tree_Distinct
      apart_from_tree (omega arith) tree_IsOrdered tree_fuel

fixed_IsOrder : IsOrder fixed
fixed_IsOrder = record { irreflexive = λ a. ground arith; transitive = λ a b c h k. ground arith }

tree_IsNode : IsNode tree
unfolding IsNode
tree_IsNode = tt

get_fresh_page_for_allocator-IsReusedPage_example :
    Returns
      (IsReusedPage fixed 2 3 tree with_tree)
      (get_fresh_page_for_allocator fixed 12 2 with_tree)
get_fresh_page_for_allocator-IsReusedPage_example =
    get_fresh_page_for_allocator-IsReusedPage fixed 12 2 3 tree with_tree fixed_IsOrder
      (omega arith) (λ k lt. ground arith) tree_IsNode tree_IsTree tree_Distinct tree_IsOrdered
      tree_fuel
