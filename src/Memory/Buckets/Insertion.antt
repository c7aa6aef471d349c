-- ===== src/Memory/Buckets/Insertion.antt =====
-- insertPageInBucket (src/runtime/memory/allocator.h) from start to end.
use bsqgc.Prelude.{
  ℕ, ◌+◌, ◌≤◌, false, [], ◌==◌, ==_refl, ◌≡◌, ◌≢◌, refl, ◌∙◌, arith, All, Distinct, if◌then◌else◌,
  occurrences,
}
use bsqgc.Common.{store, store_ne, store_field}
use bsqgc.Memory.Float.{FloatOps}
use bsqgc.Memory.Page.{PageInfo}
use bsqgc.Memory.World.{
  World, GcAllocator, ok, Returns, load_page, store_page, load_alloc, store_alloc,
}
use bsqgc.Memory.Buckets.{
  Util, low, high, bucket, buckets_of, set_bucket, load_place, store_place, insert_walk,
  insert_page_in_bucket,
}
use bsqgc.Memory.Buckets.Tree.{Tree, leaf, node, IsTree, pages_of_tree, IsNode, walk_fuel}
use bsqgc.Memory.Buckets.Insert.{insert_below, linked, insert_walk_run}
use bsqgc.Memory.Buckets.Frame.{Agree-store, IsTree-frame}
use bsqgc.Memory.Buckets.Writes.{IsSingle, single-IsTree}
use bsqgc.Memory.Buckets.Inserted.{util_of, linked-outside, linked-field, linked-IsTree}
use bsqgc.Memory.Buckets.Ordered.{
  IsOrdered, nodes_of, insert_below-occurrences, insert_below-IsOrdered,
}

-- A page without its links in trees and lists.
abbrev pub without_links : {F : Type 0} → PageInfo F → PageInfo F
without_links page = record page { next = 0; left = 0; right = 0 }

pub buckets_of-set_bucket :
    (u : Util) (a : GcAllocator) (i p : ℕ) → buckets_of u (set_bucket u a i p) i ≡ p
buckets_of-set_bucket low a i p = rw (==_refl i) refl
buckets_of-set_bucket high a i p = rw (==_refl i) refl

pub buckets_of-other :
    (u : Util) (a : GcAllocator) (i p j : ℕ)
    → i ≢ j
    → buckets_of u (set_bucket u a i p) j ≡ buckets_of u a j
buckets_of-other low a i p j ne = store_ne a.low_utilization_buckets i p j ne
buckets_of-other high a i p j ne = store_ne a.high_utilization_buckets i p j ne

module _ (fl : FloatOps) where
  pub record IsInserted (u : Util) (s i new : ℕ) (t : Tree) (w w' : World fl.F) : Type 0 where
    pub after : Tree
    pub tree : IsTree w'.pages (buckets_of u (w'.alloc s) i) after
    pub contents :
        (o : ℕ)
        → occurrences o (pages_of_tree after)
          ≡ (if new == o then 1 else 0) + occurrences o (pages_of_tree t)
    pub ordered : IsOrdered fl (util_of w'.pages) after
    pub links_only : (q : ℕ) → without_links (w'.pages q) ≡ without_links (w.pages q)
    pub outside : (q : ℕ) → new ≢ q → All (λ y. q ≢ y) (pages_of_tree t) → w'.pages q ≡ w.pages q
    pub other_buckets : (j : ℕ) → i ≢ j → buckets_of u (w'.alloc s) j ≡ buckets_of u (w.alloc s) j

  -- The state with the new page's links reset.
  reset_links : ℕ → World fl.F → World fl.F
  reset_links new w = record w {
    pages = store w.pages new (record (w.pages new) { left = 0; right = 0; next = 0 });
  }

  reset_links-IsSingle :
      (new : ℕ) (w : World fl.F) → new ≢ 0 → IsSingle (reset_links new w).pages new
  unfolding reset_links
  reset_links-IsSingle new w ne = rw (==_refl new) (ne, refl, refl, refl)

  into_empty :
      (fuel : ℕ) (u : Util) (s i new : ℕ) (nu : fl.F) (w : World fl.F)
      → buckets_of u (w.alloc s) i ≡ 0
      → new ≢ 0
      → insert_page_in_bucket fl fuel (bucket u s i) new nu w
        ≡ ok tt (record (reset_links new w) {
          alloc = store w.alloc s (set_bucket u (w.alloc s) i new);
        })
  unfolding insert_page_in_bucket load_place store_place load_alloc store_alloc load_page store_page
      reset_links
  into_empty fuel u s i new nu w e ne =
      let z : (new == 0) ≡ false = ground arith in rw z (rw (z, e) (rw z refl))

  into_tree :
      (fuel : ℕ) (u : Util) (s i new : ℕ) (nu : fl.F) (w : World fl.F)
      → buckets_of u (w.alloc s) i ≢ 0
      → new ≢ 0
      → insert_page_in_bucket fl fuel (bucket u s i) new nu w
        ≡ insert_walk fl fuel
            (buckets_of u (w.alloc s) i)
            (buckets_of u (w.alloc s) i)
            new
            nu
            (reset_links new w)
  unfolding insert_page_in_bucket load_place store_place load_alloc store_alloc load_page store_page
      reset_links
  into_tree fuel u s i new nu w re ne =
      let z : (new == 0) ≡ false = ground arith in
      let y : (buckets_of u (w.alloc s) i == 0) ≡ false = ground arith in
      rw z (rw z (rw z (rw y refl)))

  reset_links-IsTree :
      (new p : ℕ) (t : Tree) (w : World fl.F)
      → All (λ y. new ≢ y) (pages_of_tree t)
      → IsTree w.pages p t
      → IsTree (reset_links new w).pages p t
  unfolding reset_links
  reset_links-IsTree new p t w apart h =
      IsTree-frame w.pages (reset_links new w).pages p t
        (Agree-store w.pages new _ (pages_of_tree t) apart) h

  util_of-reset_links :
      (new : ℕ) (w : World fl.F) → util_of (reset_links new w).pages ≡ util_of w.pages
  unfolding reset_links
  util_of-reset_links new w =
      let page = record (w.pages new) { left = 0; right = 0; next = 0 } in
      λ k q. store_field (λ p. p.approx_utilization) w.pages new page q refl k

  util_of-linked :
      (pages : ℕ → PageInfo fl.F) (ru nu : fl.F) (new : ℕ) (t : Tree)
      → util_of (linked fl pages ru nu new t) ≡ util_of pages
  util_of-linked pages ru nu new t = λ k q.
      linked-field fl pages ru nu new (λ p. p.approx_utilization) (λ page v. (refl, refl, refl)) t q
        k

  empty-IsInserted :
      (u : Util) (s i new : ℕ) (w : World fl.F)
      → new ≢ 0
      → IsInserted u s i new leaf w
          (record (reset_links new w) { alloc = store w.alloc s (set_bucket u (w.alloc s) i new) })
  unfolding reset_links pages_of_tree occurrences IsOrdered nodes_of
  empty-IsInserted u s i new w ne = record {
    after = node new [] leaf leaf;
    tree = rw (==_refl s) (
        rw (buckets_of-set_bucket u (w.alloc s) i new)
          (single-IsTree (reset_links new w).pages new (reset_links-IsSingle new w ne)));
    contents = λ o. refl;
    ordered = (tt, tt, tt, tt);
    links_only = λ q. store_field without_links w.pages new _ q refl;
    outside = λ q nq h. store_ne w.pages new _ q nq;
    other_buckets = λ j nj. rw (==_refl s) (buckets_of-other u (w.alloc s) i new j nj);
  }

  tree-IsInserted :
      (u : Util) (s i new : ℕ) (ru : fl.F) (t : Tree) (w : World fl.F)
      → IsNode t
      → IsTree w.pages (buckets_of u (w.alloc s) i) t
      → Distinct (pages_of_tree t)
      → All (λ y. new ≢ y) (pages_of_tree t)
      → new ≢ 0
      → IsOrdered fl (util_of w.pages) t
      → IsInserted u s i new t w (record (reset_links new w) {
        pages = linked fl (reset_links new w).pages ru (util_of w.pages new) new t;
      })
  unfolding reset_links
  tree-IsInserted u s i new ru t w n h d apart ne o =
      let w1 = reset_links new w in
      let root = buckets_of u (w.alloc s) i in
      let nu = util_of w.pages new in
      let same = util_of-reset_links new w in
      let single = reset_links-IsSingle new w ne in
      let h1 = reset_links-IsTree new root t w apart h in
      record {
        after = insert_below fl (util_of w1.pages) ru nu new t;
        tree = linked-IsTree fl w1.pages ru nu new root t n d apart single h1;
        contents = insert_below-occurrences fl (util_of w1.pages) ru nu new t;
        ordered =
            rw (util_of-linked w1.pages ru nu new t, same)
              (insert_below-IsOrdered fl (util_of w.pages) ru new t o);
        links_only = λ q.
            linked-field fl w1.pages ru nu new without_links (λ page v. (refl, refl, refl)) t q
            ∙ store_field without_links w.pages new _ q refl;
        outside =
            λ q nq hq. linked-outside fl w1.pages ru nu new t q hq ∙ store_ne w.pages new _ q nq;
        other_buckets = λ j nj. refl;
      }

  -- insertPageInBucket for a page that is not in the tree of the bucket, with the utilization that it has, where
  -- the tree has no page twice and is ordered by utilization, and the fuel is enough for a walk: it returns;
  -- the bucket holds an ordered tree of the same pages and the new one, once; no page has changed but in its
  -- links, those outside the tree not even there; and the other buckets are as before.
  pub insert_page_in_bucket-IsInserted :
      (fuel : ℕ) (u : Util) (s i new : ℕ) (t : Tree) (w : World fl.F)
      → IsTree w.pages (buckets_of u (w.alloc s) i) t
      → Distinct (pages_of_tree t)
      → All (λ y. new ≢ y) (pages_of_tree t)
      → new ≢ 0
      → IsOrdered fl (util_of w.pages) t
      → walk_fuel t ≤ fuel
      → Returns
          (λ (r : Unit {0}) (w' : World fl.F). IsInserted u s i new t w w')
          (insert_page_in_bucket fl fuel (bucket u s i) new (util_of w.pages new) w)
  unfolding Returns IsTree IsNode
  insert_page_in_bucket-IsInserted fuel u s i new leaf w h d apart ne o le =
      rw (into_empty fuel u s i new (util_of w.pages new) w h ne) (empty-IsInserted u s i new w ne)
  insert_page_in_bucket-IsInserted fuel u s i new (node q xs l r) w h d apart ne o le =
      let t = node q xs l r in
      let root = buckets_of u (w.alloc s) i in
      let w1 = reset_links new w in
      let rne : root ≢ 0 = let a = h.0 in let b = h.1 in omega arith in
      let h1 = reset_links-IsTree new root t w apart h in
      rw (into_tree fuel u s i new (util_of w.pages new) w rne ne) (
        rw (insert_walk_run fl fuel root root t new (util_of w.pages new) w1 tt rne h1 le)
          (tree-IsInserted u s i new (util_of w1.pages root) t w tt h d apart ne o))
