-- ===== src/Memory/Buckets/Find.antt =====
-- findLowestUtilPage (src/runtime/memory/allocator.h) over the buckets, and getFreshPageForAllocator.
use bsqgc.Prelude.{
  ℕ, zero, suc, ◌+◌, ◌≤◌, ◌<◌, true, false, List, [], ◌∷◌, ◌==◌, ◌≡◌, ◌≢◌, refl, inl, inr,
  Bool-cases, arith, All, Distinct, if◌then◌else◌,
}
use bsqgc.Memory.Float.{FloatOps, IsOrder}
use bsqgc.Memory.Page.{PageInfo}
use bsqgc.Memory.Buckets.Frame.{Distinct-AreApart}
use bsqgc.Memory.World.{World, ok, pure, ◌>>=◌, Returns, Returns-then, load_alloc}
use bsqgc.Memory.Utilization.{num_low_util_buckets}
use bsqgc.Memory.GlobalPages.{allocate_fresh_page}
use bsqgc.Memory.Allocator.{get_fresh_page_for_allocator}
use bsqgc.Memory.Buckets.{Util, low, buckets_of, load_place, take_lowest, find_lowest_util_page}
use bsqgc.Memory.Buckets.Tree.{Tree, leaf, node, IsTree, IsNode, pages_of_tree, walk_fuel, if_leaf}
use bsqgc.Memory.Buckets.Inserted.{util_of}
use bsqgc.Memory.Buckets.Ordered.{IsOrdered, nodes_of}
use bsqgc.Memory.Buckets.Least.{lowest-IsLeast}
use bsqgc.Memory.Buckets.Lowest.{lowest}
use bsqgc.Memory.Buckets.Taken.{take_root, take_root_list, take_below}
use bsqgc.Memory.Buckets.Found.{
  IsTaken, IsTree-nonzero, lowest-All, parent_in_tree, root-IsTaken, root_list-IsTaken,
  below-IsTaken,
}

is_node : (q : ℕ) (xs : List ℕ) (l r : Tree) → IsNode (node q xs l r)
unfolding IsNode
is_node q xs l r = tt

below_root :
    (q : ℕ) (xs : List ℕ) (l r : Tree)
    → Distinct (pages_of_tree (node q xs l r))
    → All (λ y. q ≢ y) (pages_of_tree l)
unfolding pages_of_tree
below_root q xs l r d = (Distinct-AreApart q xs (pages_of_tree l) (pages_of_tree r) d).q_ls

lowest_below :
    (P : ℕ → Type 0) (q : ℕ) (xs : List ℕ) (l r : Tree)
    → IsNode l
    → All P (pages_of_tree l)
    → P (lowest (node q xs l r))
unfolding lowest IsNode if_leaf
lowest_below P q xs leaf r n h = absurd n
lowest_below P q xs (node b ys l1 l2) r n h = lowest-All P (node b ys l1 l2) (is_node b ys l1 l2) h

module _ {F : Type 0} where
  root_page :
      (q : ℕ) (xs : List ℕ) (l r : Tree) (p : ℕ) (pages : ℕ → PageInfo F)
      → IsTree pages p (node q xs l r)
      → p ≡ q
  unfolding IsTree
  root_page q xs l r p pages h = h.0

  take_below-IsTaken :
      (fuel : ℕ) (u : Util) (s i q : ℕ) (xs : List ℕ) (l r : Tree) (w : World F)
      → IsNode l
      → IsTree w.pages (buckets_of u (w.alloc s) i) (node q xs l r)
      → Distinct (pages_of_tree (node q xs l r))
      → walk_fuel (node q xs l r) ≤ fuel
      → Returns (IsTaken u s i (node q xs l r) w) (take_lowest fuel u s i w)
  unfolding Returns
  take_below-IsTaken fuel u s i q xs l r w n h d le =
      let top = buckets_of u (w.alloc s) i in
      let t = node q xs l r in
      let nonzero = IsTree-nonzero w.pages top t h in
      rw
        (take_below fuel u s i q xs l r w h
          (lowest_below (λ y. q ≢ y) q xs l r n (below_root q xs l r d))
          (lowest-All (λ y. y ≢ 0) t (is_node q xs l r) nonzero)
          (parent_in_tree (λ y. y ≢ 0) q xs l r n nonzero) (root_page q xs l r top w.pages h) le)
        (below-IsTaken u s i q xs l r w n h d)

  take_lowest-IsTaken :
      (fuel : ℕ) (u : Util) (s i : ℕ) (t : Tree) (w : World F)
      → IsNode t
      → IsTree w.pages (buckets_of u (w.alloc s) i) t
      → Distinct (pages_of_tree t)
      → walk_fuel t ≤ fuel
      → Returns (IsTaken u s i t w) (take_lowest fuel u s i w)
  unfolding Returns IsNode
  take_lowest-IsTaken fuel u s i leaf w n h d le = absurd n
  take_lowest-IsTaken fuel u s i (node q [] leaf r) w n h d le =
      rw (take_root fuel u s i q r w h le) (root-IsTaken u s i q r w h)
  take_lowest-IsTaken fuel u s i (node q (x ∷ xs) leaf r) w n h d le =
      rw (take_root_list fuel u s i q x xs r w h le) (root_list-IsTaken u s i q x xs r w h d)
  take_lowest-IsTaken fuel u s i (node q xs (node b ys l1 l2) r) w n h d le =
      take_below-IsTaken fuel u s i q xs (node b ys l1 l2) r w tt h d le

  -- The search goes on to the first bucket that is not empty.
  find_first :
      (fuel : ℕ) (u : Util) (s n i m : ℕ) (w : World F)
      → i ≤ m
      → m < i + n
      → ((k : ℕ) → k < m → buckets_of u (w.alloc s) k ≡ 0)
      → buckets_of u (w.alloc s) m ≢ 0
      → find_lowest_util_page fuel u s n i w ≡ take_lowest fuel u s m w
  unfolding find_lowest_util_page load_place load_alloc
  find_first fuel u s zero i m w le lt empty used = absurd (omega arith)
  find_first fuel u s (suc n) i m w le lt empty used = elim (Bool-cases (i == m)) [
    | inl e ↦
        let eq : i ≡ m = ground arith in
        let z : (buckets_of u (w.alloc s) m == 0) ≡ false = ground arith in rw (eq, z) refl
    | inr e ↦
        let below : i < m = ground arith in
        let none = empty i below in
        let z : (buckets_of u (w.alloc s) i == 0) ≡ true = ground arith in
        rw z (find_first fuel u s n (i + 1) m w (omega arith) (omega arith) empty used)
  ]

  find_none :
      (fuel : ℕ) (u : Util) (s n i : ℕ) (w : World F)
      → ((k : ℕ) → k < i + n → buckets_of u (w.alloc s) k ≡ 0)
      → find_lowest_util_page fuel u s n i w ≡ ok 0 w
  unfolding find_lowest_util_page load_place load_alloc
  find_none fuel u s zero i w empty = refl
  find_none fuel u s (suc n) i w empty =
      let none = empty i (omega arith) in
      let z : (buckets_of u (w.alloc s) i == 0) ≡ true = ground arith in
      rw z (find_none fuel u s n (i + 1) w (λ k lt. empty k (omega arith)))

  IsNode-nonzero : (p : ℕ) (t : Tree) (pages : ℕ → PageInfo F) → IsNode t → IsTree pages p t → p ≢ 0
  unfolding IsNode IsTree
  IsNode-nonzero p leaf pages n h = absurd n
  IsNode-nonzero p (node q xs l r) pages n h = let a = h.0 in let b = h.1 in omega arith

module _ (fl : FloatOps) where
  -- The page of getFreshPageForAllocator, taken from the tree of bucket `m`.
  pub record IsReusedPage (s m : ℕ) (t : Tree) (w : World fl.F) (p : ℕ) (w' : World fl.F)
      : Type 0 where
    pub taken : IsTaken low s m t w p w'
    pub least : All (λ q. fl.lt (util_of w.pages q) (util_of w.pages p) ≡ false) (nodes_of t)

  keep_page :
      (s m : ℕ) (t : Tree) (w : World fl.F) (p : ℕ) (w' : World fl.F)
      → IsNode t
      → IsTree w.pages ((w.alloc s).low_utilization_buckets m) t
      → IsReusedPage s m t w p w'
      → Returns (IsReusedPage s m t w) (
          (do
            a ← load_alloc s
            if p == 0 then allocate_fresh_page fl a.allocsize a.realsize else pure p)
            w')
  unfolding Returns load_alloc
  keep_page s m t w p w' n h k =
      let ne : lowest t ≢ 0 = lowest-All (λ y. y ≢ 0) t n (IsTree-nonzero w.pages _ t h) in
      let e = k.taken.page in let z : (p == 0) ≡ false = ground arith in rw z k

  -- getFreshPageForAllocator, where the buckets below `m` are empty and bucket `m` has a tree with no page
  -- twice, ordered by utilization, for an order of floats, and the fuel is enough for a walk: it returns a page of the
  -- tree that no node has a lower utilization than; the bucket holds a tree of the others, less the pages behind
  -- the one that is taken where it is not the root; pages outside and the other buckets are as before.
  pub get_fresh_page_for_allocator-IsReusedPage :
      (fuel s m : ℕ) (t : Tree) (w : World fl.F)
      → IsOrder fl
      → m < num_low_util_buckets
      → ((k : ℕ) → k < m → (w.alloc s).low_utilization_buckets k ≡ 0)
      → IsNode t
      → IsTree w.pages ((w.alloc s).low_utilization_buckets m) t
      → Distinct (pages_of_tree t)
      → IsOrdered fl (util_of w.pages) t
      → walk_fuel t ≤ fuel
      → Returns (IsReusedPage s m t w) (get_fresh_page_for_allocator fl fuel s w)
  unfolding Returns get_fresh_page_for_allocator load_alloc
  get_fresh_page_for_allocator-IsReusedPage fuel s m t w o lt empty n h d ord le =
      rw
        (find_first fuel low s num_low_util_buckets 0 m w (omega arith) (omega arith) empty
          (IsNode-nonzero _ t w.pages n h))
        (Returns-then (IsTaken low s m t w) (IsReusedPage s m t w) (take_lowest fuel low s m w)
          (λ page. do
            a ← load_alloc s
            if page == 0 then allocate_fresh_page fl a.allocsize a.realsize else pure page)
          (take_lowest-IsTaken fuel low s m t w n h d le)
          (λ p w' k. keep_page s m t w p w' n h (record {
            taken = k;
            least = rw k.page (lowest-IsLeast fl o (util_of w.pages) t n ord);
          })))

  -- getFreshPageForAllocator, where all buckets of low utilization are empty, is allocateFreshPage with the
  -- sizes of the allocator.
  pub get_fresh_page_for_allocator_empty :
      (fuel s : ℕ) (w : World fl.F)
      → ((k : ℕ) → k < num_low_util_buckets → (w.alloc s).low_utilization_buckets k ≡ 0)
      → get_fresh_page_for_allocator fl fuel s w
        ≡ allocate_fresh_page fl (w.alloc s).allocsize (w.alloc s).realsize w
  unfolding get_fresh_page_for_allocator load_alloc
  get_fresh_page_for_allocator_empty fuel s w empty =
      rw (find_none fuel low s num_low_util_buckets 0 w empty) refl
