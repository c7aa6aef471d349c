-- ===== src/Memory/Buckets/Dropped.antt =====
-- findLowestUtilPage (src/runtime/memory/allocator.h): the tree in memory after the page is unlinked.
use bsqgc.Prelude.{
  ℕ, List, ◌++◌, ◌≢◌, sym, All, All-mono, All-append_left, All-append_right, Distinct, Disjoint-sym,
}
use bsqgc.Common.{store_ne}
use bsqgc.Memory.Page.{PageInfo}
use bsqgc.Memory.Buckets.Tree.{Tree, leaf, node, IsTree, IsNode, pages_of_tree, if_leaf}
use bsqgc.Memory.Buckets.Insert.{set_left}
use bsqgc.Memory.Buckets.Frame.{AreApart, Distinct-AreApart, Agree-store, IsTree-frame}
use bsqgc.Memory.Buckets.Writes.{set_left-IsTree, keep_left}
use bsqgc.Memory.Buckets.Lowest.{lowest, parent_of, drop_lowest}

parent_step :
    (P : ℕ → Type 0) (p q : ℕ) (l : Tree)
    → P p
    → (IsNode l → P (parent_of q l))
    → P (if_leaf l p (parent_of q l))
unfolding if_leaf IsNode
parent_step P p q leaf h rec = h
parent_step P p q (node b ys l1 l2) h rec = rec tt

-- The parent is where the way started or one of the pages.
pub parent_of-All :
    (P : ℕ → Type 0) (p : ℕ) (t : Tree) → P p → All P (pages_of_tree t) → P (parent_of p t)
unfolding parent_of pages_of_tree
parent_of-All P p leaf h hs = h
parent_of-All P p (node q xs l r) h hs =
    let ls = pages_of_tree l in
    let rs = pages_of_tree r in
    parent_step P p q l h (λ k.
      parent_of-All P q l hs.0 (All-append_left P ls rs (All-append_right P xs (ls ++ rs) hs.1)))

parent_in :
    (P : ℕ → Type 0) (b : ℕ) (ys : List ℕ) (l1 l2 : Tree)
    → All P (pages_of_tree (node b ys l1 l2))
    → P (parent_of b l1)
unfolding pages_of_tree
parent_in P b ys l1 l2 hs = parent_of-All P b l1 hs.0 (
    All-append_left P (pages_of_tree l1) (pages_of_tree l2)
      (All-append_right P ys (pages_of_tree l1 ++ pages_of_tree l2) hs.1))

flip : (q : ℕ) (xs : List ℕ) → All (λ y. q ≢ y) xs → All (λ u. u ≢ q) xs
flip q xs = All-mono (λ y. q ≢ y) (λ u. u ≢ q) xs (λ u ne e. ne (sym e))

module _ {F : Type 0} (pages : ℕ → PageInfo F) where
  -- The memory after `parent->left = cur->right`.
  abbrev pub unlinked_left : Tree → ℕ → PageInfo F
  unlinked_left t = set_left pages (parent_of 0 t) (pages (lowest t)).right

  -- Where the left child is the lowest page.
  unlink_child :
      (p q b : ℕ) (xs ys : List ℕ) (l2 r : Tree)
      → AreApart q xs (pages_of_tree (node b ys leaf l2)) (pages_of_tree r)
      → IsTree pages p (node q xs (node b ys leaf l2) r)
      → IsTree (set_left pages q (pages b).right) p (node q xs l2 r)
  unfolding IsTree pages_of_tree
  unlink_child p q b xs ys l2 r a (e, ne, chain, (el, nb, below, h1, h2), hr) =
      let v = (pages b).right in
      let page = record (pages q) { left = v } in
      let ql = All-append_right (λ y. q ≢ y) ys (pages_of_tree l2) a.q_ls.1 in
      set_left-IsTree pages p q xs (node b ys leaf l2) l2 r v a.q_xs a.q_rs
        (IsTree-frame pages (set_left pages q v) v l2
          (Agree-store pages q page (pages_of_tree l2) ql) h2)
        (e, ne, chain, (el, nb, below, h1, h2), hr)

  unlink_step :
      (p q : ℕ) (xs : List ℕ) (l r : Tree)
      → IsNode l
      → AreApart q xs (pages_of_tree l) (pages_of_tree r)
      → IsTree pages p (node q xs l r)
      → (Distinct (pages_of_tree l) → IsTree (unlinked_left l) (pages q).left (drop_lowest l))
      → IsTree (unlinked_left (node q xs l r)) p (drop_lowest (node q xs l r))
  unfolding parent_of lowest drop_lowest if_leaf IsNode
  unlink_step p q xs leaf r n a h rec = absurd n
  unlink_step p q xs (node b ys leaf l2) r n a h rec = unlink_child p q b xs ys l2 r a h
  unlink_step p q xs (node b ys (node c zs k1 k2) l2) r n a h rec =
      let l = node b ys (node c zs k1 k2) l2 in
      let x = parent_of b (node c zs k1 k2) in
      let in_l : (P : ℕ → Type 0) → All P (pages_of_tree l) → P x =
        λ P hs. parent_in P b ys (node c zs k1 k2) l2 hs in
      let v = (pages (lowest (node c zs k1 k2))).right in
      let page = record (pages x) { left = v } in
      let ne : x ≢ q = in_l (λ u. u ≢ q) (flip q (pages_of_tree l) a.q_ls) in
      keep_left pages (set_left pages x v) p q xs l (drop_lowest l) r (store_ne pages x page q ne)
        (Agree-store pages x page xs
          (in_l (λ u. All (λ y. u ≢ y) xs) (Disjoint-sym xs (pages_of_tree l) a.xs_ls)))
        (Agree-store pages x page (pages_of_tree r)
          (in_l (λ u. All (λ y. u ≢ y) (pages_of_tree r)) a.ls_rs))
        (rec a.in_ls) h

  -- The tree below the root without its lowest page.
  pub unlinked_left-IsTree :
      (p q : ℕ) (xs : List ℕ) (l r : Tree)
      → IsNode l
      → Distinct (pages_of_tree (node q xs l r))
      → IsTree pages p (node q xs l r)
      → IsTree (unlinked_left (node q xs l r)) p (drop_lowest (node q xs l r))
  unfolding IsTree IsNode pages_of_tree drop_lowest if_leaf parent_of lowest
  unlinked_left-IsTree p q xs leaf r n d h = absurd n
  unlinked_left-IsTree p q xs (node b ys leaf l2) r n d h =
      unlink_child p q b xs ys l2 r
        (Distinct-AreApart q xs (pages_of_tree (node b ys leaf l2)) (pages_of_tree r) d) h
  unlinked_left-IsTree p q xs (node b ys (node c zs k1 k2) l2) r n d h =
      let l = node b ys (node c zs k1 k2) l2 in
      unlink_step p q xs l r tt (Distinct-AreApart q xs (pages_of_tree l) (pages_of_tree r) d) h
        (λ k. unlinked_left-IsTree (pages q).left b ys (node c zs k1 k2) l2 tt k h.3)
