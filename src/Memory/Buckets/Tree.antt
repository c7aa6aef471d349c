-- ===== src/Memory/Buckets/Tree.antt =====
-- The tree in a bucket of a GCAllocator (src/runtime/memory/allocator.h), as the pages hold it.
use bsqgc.Prelude.{ℕ, zero, suc, ◌+◌, List, [], ◌∷◌, ◌++◌, ◌≡◌, ◌≢◌, length}
use bsqgc.Memory.Page.{PageInfo}
use bsqgc.Memory.Page.Chain.{Chain}
use bsqgc.Memory.Page.Links.{nexts}

-- A node is a page with a list of further pages and two subtrees.
pub data Tree : Type 0 where
  leaf : Tree
  node : (p : ℕ) → (behind : List ℕ) → (left right : Tree) → Tree

unfoldable pub if_leaf {ℓ} : {A : Type ℓ} → Tree → A → A → A
if_leaf leaf x y = x
if_leaf (node p xs l r) x y = y

unfoldable pub IsNode : Tree → Type 0
IsNode leaf = ⊥
IsNode (node p xs l r) = Unit

unfoldable pub pages_of_tree : Tree → List ℕ
pages_of_tree leaf = []
pages_of_tree (node p xs l r) = p ∷ (xs ++ (pages_of_tree l ++ pages_of_tree r))

-- Fuel for a walk through all of a tree.
unfoldable pub walk_fuel : Tree → ℕ
walk_fuel leaf = 1
walk_fuel (node p xs l r) = suc (suc (suc (length xs)) + (walk_fuel l + walk_fuel r))

-- The pages in `n` buckets from the `i`-th on.
unfoldable pub pages_of_buckets : (ℕ → Tree) → (n i : ℕ) → List ℕ
pages_of_buckets trees zero i = []
pages_of_buckets trees (suc n) i = pages_of_tree (trees i) ++ pages_of_buckets trees n (i + 1)

module _ {F : Type 0} where
  -- The pointer leads to the tree.
  unfoldable pub IsTree : (ℕ → PageInfo F) → ℕ → Tree → Type 0
  IsTree pages p leaf = p ≡ 0
  IsTree pages p (node q xs l r) =
      (p ≡ q)
      × (q ≢ 0)
      × Chain (nexts pages) (pages q).next xs
      × IsTree pages (pages q).left l
      × IsTree pages (pages q).right r
