-- ===== src/Memory/Buckets/Found.antt =====
-- findLowestUtilPage (src/runtime/memory/allocator.h) on the buckets.
use bsqgc.Prelude.{
  ℕ, ◌+◌, List, [], ◌∷◌, ◌++◌, ◌==◌, ◌≡◌, ◌≢◌, refl, ap, sym, ◌∙◌, arith, All, All-append,
  All-append_left, All-append_right, subst, Distinct, if◌then◌else◌, occurrences,
}
use bsqgc.Common.{store_eq, store_ne}
use bsqgc.Memory.Page.{PageInfo}
use bsqgc.Memory.Page.Chain.{Chain, Chain-head}
use bsqgc.Memory.Page.Links.{nexts, Chain-frame}
use bsqgc.Memory.World.{World}
use bsqgc.Memory.Buckets.{Util, buckets_of}
use bsqgc.Memory.Buckets.Tree.{Tree, leaf, node, IsTree, IsNode, pages_of_tree, if_leaf}
use bsqgc.Memory.Buckets.Frame.{Distinct-AreApart, Agree-store, Agree-nexts, IsTree-frame}
use bsqgc.Memory.Buckets.Lowest.{
  lowest, parent_of, behind_lowest, drop_lowest, drop_lowest-occurrences,
}
use bsqgc.Memory.Buckets.Dropped.{parent_of-All, unlinked_left, unlinked_left-IsTree}
use bsqgc.Memory.Buckets.Least.{lowest_step}
use bsqgc.Memory.Buckets.Taken.{with_bucket, with_bucket-tree, with_bucket-other, promoted}

-- The pages behind the one that is found, where that is not the root.
unfoldable pub lost_pages : Tree → List ℕ
lost_pages leaf = []
lost_pages (node q xs l r) = if_leaf l [] (behind_lowest l)

-- All pages of a tree are pages.
Chain-nonzero : (word : ℕ → ℕ) (p : ℕ) (xs : List ℕ) → Chain word p xs → All (λ q. q ≢ 0) xs
Chain-nonzero word p [] c = tt
Chain-nonzero word p (x ∷ xs) c =
    let (e, ne, c1) = Chain-head c in ((λ z. ne (e ∙ z)), Chain-nonzero word (word x) xs c1)

pub IsTree-nonzero :
    {F : Type 0} (pages : ℕ → PageInfo F) (p : ℕ) (t : Tree)
    → IsTree pages p t
    → All (λ q. q ≢ 0) (pages_of_tree t)
unfolding IsTree pages_of_tree
IsTree-nonzero pages p leaf h = tt
IsTree-nonzero pages p (node q xs l r) (e, ne, chain, hl, hr) =
    let ls = pages_of_tree l in
    let rs = pages_of_tree r in
    let P : ℕ → Type 0 = λ u. u ≢ 0 in
    (
      ne,
      All-append P xs (ls ++ rs) (Chain-nonzero (nexts pages) (pages q).next xs chain) (
          All-append P ls rs (IsTree-nonzero pages (pages q).left l hl)
            (IsTree-nonzero pages (pages q).right r hr)),
    )

pub lowest-All : (P : ℕ → Type 0) (t : Tree) → IsNode t → All P (pages_of_tree t) → P (lowest t)
unfolding lowest pages_of_tree IsNode
lowest-All P leaf n h = absurd n
lowest-All P (node q xs l r) n h =
    let ls = pages_of_tree l in
    let rs = pages_of_tree r in
    lowest_step P q l h.0
      (λ k. lowest-All P l k (All-append_left P ls rs (All-append_right P xs (ls ++ rs) h.1)))

-- The parent of a page below the root is in the tree.
pub parent_in_tree :
    (P : ℕ → Type 0) (q : ℕ) (xs : List ℕ) (l r : Tree)
    → IsNode l
    → All P (pages_of_tree (node q xs l r))
    → P (parent_of 0 (node q xs l r))
unfolding parent_of if_leaf IsNode pages_of_tree
parent_in_tree P q xs leaf r n h = absurd n
parent_in_tree P q xs (node b ys l1 l2) r n h =
    let ls = pages_of_tree (node b ys l1 l2) in
    let rs = pages_of_tree r in
    parent_of-All P q (node b ys l1 l2) h.0
      (All-append_left P ls rs (All-append_right P xs (ls ++ rs) h.1))

behind-lost :
    (q : ℕ) (xs : List ℕ) (l r : Tree)
    → IsNode l
    → behind_lowest (node q xs l r) ≡ lost_pages (node q xs l r)
unfolding behind_lowest lost_pages if_leaf IsNode
behind-lost q xs leaf r n = absurd n
behind-lost q xs (node b ys l1 l2) r n = refl

root_list-contents :
    (q x : ℕ) (xs : List ℕ) (r : Tree) (o : ℕ)
    → occurrences o (pages_of_tree (node q (x ∷ xs) leaf r))
      ≡ (if q == o then 1 else 0)
        + occurrences o (lost_pages (node q (x ∷ xs) leaf r))
        + occurrences o (pages_of_tree (node x xs leaf r))
unfolding pages_of_tree lost_pages if_leaf occurrences
root_list-contents q x xs r o = omega arith

module _ {F : Type 0} where
  pub record IsTaken (u : Util) (s i : ℕ) (t : Tree) (w : World F) (p : ℕ) (w' : World F)
      : Type 0 where
    pub page : p ≡ lowest t
    pub after : Tree
    pub tree : IsTree w'.pages (buckets_of u (w'.alloc s) i) after
    pub contents :
        (o : ℕ)
        → occurrences o (pages_of_tree t)
          ≡ (if p == o then 1 else 0)
            + occurrences o (lost_pages t)
            + occurrences o (pages_of_tree after)
    pub outside : (q : ℕ) → All (λ y. q ≢ y) (pages_of_tree t) → w'.pages q ≡ w.pages q
    pub other_buckets : (j : ℕ) → i ≢ j → buckets_of u (w'.alloc s) j ≡ buckets_of u (w.alloc s) j

  pub root-IsTaken :
      (u : Util) (s i q : ℕ) (r : Tree) (w : World F)
      → IsTree w.pages (buckets_of u (w.alloc s) i) (node q [] leaf r)
      → IsTaken u s i (node q [] leaf r) w q (with_bucket u s i (w.pages q).right w)
  unfolding IsTree with_bucket lowest lost_pages if_leaf pages_of_tree occurrences
  root-IsTaken u s i q r w (e, ne, chain, hl, hr) = record {
    page = refl;
    after = r;
    tree = subst (λ p. IsTree w.pages p r) (sym (with_bucket-tree u s i (w.pages q).right w)) hr;
    contents = λ o. omega arith;
    outside = λ p h. refl;
    other_buckets = λ j nj. with_bucket-other u s i (w.pages q).right w j nj;
  }

  promoted-IsTree :
      (p q x : ℕ) (xs : List ℕ) (r : Tree) (pages : ℕ → PageInfo F)
      → IsTree pages p (node q (x ∷ xs) leaf r)
      → Distinct (pages_of_tree (node q (x ∷ xs) leaf r))
      → IsTree (promoted x q pages) x (node x xs leaf r)
  unfolding IsTree promoted pages_of_tree
  promoted-IsTree p q x xs r pages (e, ne, chain, hl, hr) d =
      let (ex, nx, c) = Chain-head chain in
      let page = record (pages x) { left = (pages q).left; right = (pages q).right } in
      let apart = Distinct-AreApart x xs [] (pages_of_tree r) d.1 in
      let xne : x ≢ 0 = omega arith in
      rw (store_eq pages x page) (
        refl,
        xne,
        Chain-frame (nexts pages) (nexts (promoted x q pages)) (pages x).next xs c
            (Agree-nexts pages (promoted x q pages) xs (Agree-store pages x page xs apart.q_xs)),
        hl,
        IsTree-frame pages (promoted x q pages) (pages q).right r
            (Agree-store pages x page (pages_of_tree r) apart.q_rs) hr,
      )

  root_list-outside :
      (q x : ℕ) (xs : List ℕ) (r : Tree) (pages : ℕ → PageInfo F) (p : ℕ)
      → All (λ y. p ≢ y) (pages_of_tree (node q (x ∷ xs) leaf r))
      → promoted x q pages p ≡ pages p
  unfolding promoted pages_of_tree
  root_list-outside q x xs r pages p h = store_ne pages x _ p (λ e. h.1.0 (sym e))

  unlinked-outside :
      (q : ℕ) (xs : List ℕ) (l r : Tree) (pages : ℕ → PageInfo F)
      → IsNode l
      → (p : ℕ) → All (λ y. p ≢ y) (pages_of_tree (node q xs l r))
      → unlinked_left pages (node q xs l r) p ≡ pages p
  unlinked-outside q xs l r pages n p h =
      store_ne pages _ _ p (λ e. parent_in_tree (λ y. p ≢ y) q xs l r n h (sym e))

  pub root_list-IsTaken :
      (u : Util) (s i q x : ℕ) (xs : List ℕ) (r : Tree) (w : World F)
      → IsTree w.pages (buckets_of u (w.alloc s) i) (node q (x ∷ xs) leaf r)
      → Distinct (pages_of_tree (node q (x ∷ xs) leaf r))
      → IsTaken u s i
          (node q (x ∷ xs) leaf r)
          w
          q
          (record (with_bucket u s i x w) { pages = promoted x q w.pages })
  unfolding with_bucket lowest lost_pages if_leaf
  root_list-IsTaken u s i q x xs r w h d = record {
    page = refl;
    after = node x xs leaf r;
    tree =
        subst (λ p. IsTree (promoted x q w.pages) p (node x xs leaf r))
          (sym (with_bucket-tree u s i x w))
          (promoted-IsTree (buckets_of u (w.alloc s) i) q x xs r w.pages h d);
    contents = root_list-contents q x xs r;
    outside = root_list-outside q x xs r w.pages;
    other_buckets = λ j nj. with_bucket-other u s i x w j nj;
  }

  pub below-IsTaken :
      (u : Util) (s i q : ℕ) (xs : List ℕ) (l r : Tree) (w : World F)
      → IsNode l
      → IsTree w.pages (buckets_of u (w.alloc s) i) (node q xs l r)
      → Distinct (pages_of_tree (node q xs l r))
      → IsTaken u s i
          (node q xs l r)
          w
          (lowest (node q xs l r))
          (record w { pages = unlinked_left w.pages (node q xs l r) })
  unfolding IsNode
  below-IsTaken u s i q xs l r w n h d =
      let t = node q xs l r in
      record {
        page = refl;
        after = drop_lowest t;
        tree = unlinked_left-IsTree w.pages (buckets_of u (w.alloc s) i) q xs l r n d h;
        contents = λ o.
            drop_lowest-occurrences t o tt
            ∙ ap
                (λ ys.
                  (if lowest t == o then 1 else 0)
                  + occurrences o ys
                  + occurrences o (pages_of_tree (drop_lowest t)))
                (behind-lost q xs l r n);
        outside = λ p hp. unlinked-outside q xs l r w.pages n p hp;
        other_buckets = λ j nj. refl;
      }
