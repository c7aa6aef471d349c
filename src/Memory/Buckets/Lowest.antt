-- ===== src/Memory/Buckets/Lowest.antt =====
-- findLowestUtilPage (src/runtime/memory/allocator.h) on a tree: the page that it finds, and the tree without it.
use bsqgc.Prelude.{
  ℕ, zero, suc, ◌+◌, ◌≤◌, true, false, List, [], ◌==◌, ◌≡◌, refl, ap, ◌∙◌, arith, if◌then◌else◌,
  occurrences,
}
use bsqgc.Memory.World.{World, ok, pure, load_page}
use bsqgc.Memory.Buckets.{descend_left}
use bsqgc.Memory.Buckets.Tree.{Tree, leaf, node, IsTree, IsNode, pages_of_tree, walk_fuel, if_leaf}
use bsqgc.Memory.Buckets.Ordered.{three_parts}

-- The page at the end of the way to the left, and the one before it, `p` at the root.
unfoldable pub lowest : Tree → ℕ
lowest leaf = 0
lowest (node q xs l r) = if_leaf l q (lowest l)

unfoldable pub parent_of : ℕ → Tree → ℕ
parent_of p leaf = p
parent_of p (node q xs l r) = if_leaf l p (parent_of q l)

unfoldable pub behind_lowest : Tree → List ℕ
behind_lowest leaf = []
behind_lowest (node q xs l r) = if_leaf l xs (behind_lowest l)

-- The tree without that page and the list behind it.
unfoldable pub drop_lowest : Tree → Tree
drop_lowest leaf = leaf
drop_lowest (node q xs l r) = let rest = drop_lowest l in if_leaf l r (node q xs rest r)

module _ {F : Type 0} where
  descend_step :
      (f parent p q : ℕ) (xs : List ℕ) (l r : Tree) (w : World F)
      → p ≡ q
      → IsTree w.pages (w.pages q).left l
      → (IsNode l → descend_left f p (w.pages q).left w ≡ ok (parent_of p l, lowest l) w)
      → (if (w.pages q).left == 0 then pure (parent, p) else descend_left f p (w.pages q).left) w
        ≡ ok (parent_of parent (node q xs l r), lowest (node q xs l r)) w
  unfolding IsTree IsNode parent_of lowest if_leaf
  descend_step f parent p q xs leaf r w e h rec =
      let y : ((w.pages q).left == 0) ≡ true = ground arith in rw y (ap (λ u. ok (parent, u) w) e)
  descend_step f parent p q xs (node b ys l1 l2) r w e (el, ne, chain, h1, h2) rec =
      let y : ((w.pages q).left == 0) ≡ false = ground arith in
      rw y (rec tt ∙ ap (λ u. ok (parent_of u (node b ys l1 l2), lowest (node b ys l1 l2)) w) e)

  pub descend_left_run :
      (fuel parent p : ℕ) (t : Tree) (w : World F)
      → IsNode t
      → IsTree w.pages p t
      → walk_fuel t ≤ fuel
      → descend_left fuel parent p w ≡ ok (parent_of parent t, lowest t) w
  unfolding descend_left IsNode IsTree walk_fuel load_page
  descend_left_run fuel parent p leaf w n h le = absurd n
  descend_left_run zero parent p (node q xs l r) w n h le = absurd (omega arith)
  descend_left_run (suc f) parent p (node q xs l r) w n (e, ne, chain, hl, hr) le =
      let z : (p == 0) ≡ false = ground arith in
      rw z (
        rw e (
          descend_step f parent q q xs l r w refl hl
            (λ k. descend_left_run f q (w.pages q).left l w k hl (omega arith))))

drop_step :
    (q : ℕ) (xs : List ℕ) (l r : Tree) (o : ℕ)
    → (IsNode l
        → occurrences o (pages_of_tree l)
          ≡ (if lowest l == o then 1 else 0)
            + occurrences o (behind_lowest l)
            + occurrences o (pages_of_tree (drop_lowest l)))
    → occurrences o (pages_of_tree (node q xs l r))
      ≡ (if lowest (node q xs l r) == o then 1 else 0)
        + occurrences o (behind_lowest (node q xs l r))
        + occurrences o (pages_of_tree (drop_lowest (node q xs l r)))
unfolding lowest behind_lowest drop_lowest pages_of_tree if_leaf IsNode occurrences
drop_step q xs leaf r o rec = let a = three_parts o q xs [] (pages_of_tree r) in omega arith
drop_step q xs (node b ys l1 l2) r o rec =
    let l = node b ys l1 l2 in
    let a = three_parts o q xs (pages_of_tree l) (pages_of_tree r) in
    let c = three_parts o q xs (pages_of_tree (drop_lowest l)) (pages_of_tree r) in
    let h = rec tt in omega arith

-- The tree's pages are the page that is found, those in the list behind it, and the others.
pub drop_lowest-occurrences :
    (t : Tree) (o : ℕ)
    → IsNode t
    → occurrences o (pages_of_tree t)
      ≡ (if lowest t == o then 1 else 0)
        + occurrences o (behind_lowest t)
        + occurrences o (pages_of_tree (drop_lowest t))
unfolding IsNode
drop_lowest-occurrences leaf o n = absurd n
drop_lowest-occurrences (node q xs l r) o n = drop_step q xs l r o (drop_lowest-occurrences l o)
