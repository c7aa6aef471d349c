-- ===== src/Memory/Buckets/Taken.antt =====
-- findLowestUtilPage (src/runtime/memory/allocator.h) in a bucket that is not empty: the writes.
use bsqgc.Prelude.{ℕ, ◌≤◌, true, false, List, [], ◌∷◌, ◌==◌, ==_refl, ◌≡◌, ◌≢◌, refl, arith}
use bsqgc.Common.{store}
use bsqgc.Memory.Page.{PageInfo}
use bsqgc.Memory.Page.Chain.{Chain-head}
use bsqgc.Memory.Page.Links.{Chain-end}
use bsqgc.Memory.World.{World, ok, load_page, store_page, load_alloc, store_alloc}
use bsqgc.Memory.Buckets.{Util, buckets_of, set_bucket, load_place, store_place, take_lowest}
use bsqgc.Memory.Buckets.Tree.{Tree, leaf, node, IsTree, IsNode, walk_fuel, if_leaf}
use bsqgc.Memory.Buckets.Insertion.{buckets_of-set_bucket, buckets_of-other}
use bsqgc.Memory.Buckets.Lowest.{lowest, parent_of, descend_left_run}
use bsqgc.Memory.Buckets.Dropped.{unlinked_left}

module _ {F : Type 0} where
  unfoldable pub with_bucket : (u : Util) (s i p : ℕ) → World F → World F
  with_bucket u s i p w = record w { alloc = store w.alloc s (set_bucket u (w.alloc s) i p) }

  pub with_bucket-tree :
      (u : Util) (s i p : ℕ) (w : World F) → buckets_of u ((with_bucket u s i p w).alloc s) i ≡ p
  unfolding with_bucket
  with_bucket-tree u s i p w = rw (==_refl s) (buckets_of-set_bucket u (w.alloc s) i p)

  pub with_bucket-other :
      (u : Util) (s i p : ℕ) (w : World F) (j : ℕ)
      → i ≢ j
      → buckets_of u ((with_bucket u s i p w).alloc s) j ≡ buckets_of u (w.alloc s) j
  unfolding with_bucket
  with_bucket-other u s i p w j ne = rw (==_refl s) (buckets_of-other u (w.alloc s) i p j ne)

  -- The root alone, without a list: its right subtree is left.
  pub take_root :
      (fuel : ℕ) (u : Util) (s i q : ℕ) (r : Tree) (w : World F)
      → IsTree w.pages (buckets_of u (w.alloc s) i) (node q [] leaf r)
      → walk_fuel (node q [] leaf r) ≤ fuel
      → take_lowest fuel u s i w ≡ ok q (with_bucket u s i (w.pages q).right w)
  unfolding take_lowest load_place store_place load_alloc store_alloc load_page with_bucket IsTree
      IsNode lowest parent_of if_leaf
  take_root fuel u s i q r w h le =
      let (e, ne, chain, hl, hr) = h in
      let z : (q == 0) ≡ false = ground arith in
      let y : ((w.pages q).next == 0) ≡ true = let k = Chain-end chain in ground arith in
      rw (descend_left_run fuel 0 (buckets_of u (w.alloc s) i) (node q [] leaf r) w tt h le)
        (rw (e, z) (rw (==_refl q) (rw y refl)))

  -- The first page of the root's list takes its place.
  unfoldable pub promoted : (x q : ℕ) → (ℕ → PageInfo F) → ℕ → PageInfo F
  promoted x q pages =
      store pages x (record (pages x) { left = (pages q).left; right = (pages q).right })

  pub take_root_list :
      (fuel : ℕ) (u : Util) (s i q x : ℕ) (xs : List ℕ) (r : Tree) (w : World F)
      → IsTree w.pages (buckets_of u (w.alloc s) i) (node q (x ∷ xs) leaf r)
      → walk_fuel (node q (x ∷ xs) leaf r) ≤ fuel
      → take_lowest fuel u s i w
        ≡ ok q (record (with_bucket u s i x w) { pages = promoted x q w.pages })
  unfolding take_lowest load_place store_place load_alloc store_alloc load_page store_page
      with_bucket IsTree IsNode lowest parent_of if_leaf promoted
  take_root_list fuel u s i q x xs r w h le =
      let (e, ne, chain, hl, hr) = h in
      let (ex, nx, c) = Chain-head chain in
      let z : (q == 0) ≡ false = ground arith in
      let y : (x == 0) ≡ false = ground arith in
      rw (descend_left_run fuel 0 (buckets_of u (w.alloc s) i) (node q (x ∷ xs) leaf r) w tt h le)
        (rw (e, z) (rw (==_refl q) (rw (ex, y) (rw y (rw y refl)))))

  -- A page below the root.
  pub take_below :
      (fuel : ℕ) (u : Util) (s i q : ℕ) (xs : List ℕ) (l r : Tree) (w : World F)
      → IsTree w.pages (buckets_of u (w.alloc s) i) (node q xs l r)
      → q ≢ lowest (node q xs l r)
      → lowest (node q xs l r) ≢ 0
      → parent_of 0 (node q xs l r) ≢ 0
      → (e : buckets_of u (w.alloc s) i ≡ q) → walk_fuel (node q xs l r) ≤ fuel
      → take_lowest fuel u s i w
        ≡ ok (lowest (node q xs l r)) (record w { pages = unlinked_left w.pages (node q xs l r) })
  unfolding take_lowest load_place store_place load_alloc load_page store_page IsNode
  take_below fuel u s i q xs l r w h other cne pne e le =
      let t = node q xs l r in
      let top = buckets_of u (w.alloc s) i in
      let z : (lowest t == 0) ≡ false = ground arith in
      let y : (parent_of 0 t == 0) ≡ false = ground arith in
      let ne : (lowest t == top) ≡ false = ground arith in
      rw (descend_left_run fuel 0 top t w tt h le) (rw z (rw ne (rw y (rw y refl))))
