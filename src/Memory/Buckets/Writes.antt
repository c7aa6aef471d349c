-- ===== src/Memory/Buckets/Writes.antt =====
-- The writes of insertPageInBucket (src/runtime/memory/allocator.h) to the links of a tree's pages.
use bsqgc.Prelude.{ℕ, List, [], ◌∷◌, ◌++◌, ◌≡◌, ◌≢◌, refl, sym, All, subst}
use bsqgc.Common.{store_eq, store_field}
use bsqgc.Memory.Page.{PageInfo}
use bsqgc.Memory.Page.Chain.{Chain, done, link, Chain-head}
use bsqgc.Memory.Page.Links.{nexts, nexts-store, last_from, last_from-All, Chain-frame, Chain-snoc}
use bsqgc.Memory.Buckets.Tree.{Tree, leaf, node, IsTree, pages_of_tree}
use bsqgc.Memory.Buckets.Insert.{set_next, set_left, set_right}
use bsqgc.Memory.Buckets.Frame.{AreApart, Agree, Agree-nexts, Agree-store, IsTree-frame}

-- A page that is not linked to any other.
abbrev pub IsSingle : {F : Type 0} → (ℕ → PageInfo F) → ℕ → Type 0
IsSingle pages new =
    (new ≢ 0) × ((pages new).next ≡ 0) × ((pages new).left ≡ 0) × ((pages new).right ≡ 0)

module _ {F : Type 0} where
  pub single-IsTree :
      (pages : ℕ → PageInfo F) (new : ℕ)
      → IsSingle pages new
      → IsTree pages new (node new [] leaf leaf)
  unfolding IsTree
  single-IsTree pages new (ne, n, l, r) = (refl, ne, done n, l, r)

  -- A write to the left pointer of a node.
  pub set_left-IsTree :
      (pages : ℕ → PageInfo F) (p q : ℕ) (xs : List ℕ) (l l' r : Tree) (new : ℕ)
      → All (λ y. q ≢ y) xs
      → All (λ y. q ≢ y) (pages_of_tree r)
      → IsTree (set_left pages q new) new l'
      → IsTree pages p (node q xs l r)
      → IsTree (set_left pages q new) p (node q xs l' r)
  unfolding IsTree
  set_left-IsTree pages p q xs l l' r new qx qr h (e, ne, chain, hl, hr) =
      let page = record (pages q) { left = new } in
      let pages' = set_left pages q new in
      rw (store_eq pages q page) (
        e,
        ne,
        Chain-frame (nexts pages) (nexts pages') (pages q).next xs chain
            (Agree-nexts pages pages' xs (Agree-store pages q page xs qx)),
        h,
        IsTree-frame pages pages' (pages q).right r (Agree-store pages q page (pages_of_tree r) qr)
            hr,
      )

  pub set_right-IsTree :
      (pages : ℕ → PageInfo F) (p q : ℕ) (xs : List ℕ) (l r r' : Tree) (new : ℕ)
      → All (λ y. q ≢ y) xs
      → All (λ y. q ≢ y) (pages_of_tree l)
      → IsTree (set_right pages q new) new r'
      → IsTree pages p (node q xs l r)
      → IsTree (set_right pages q new) p (node q xs l r')
  unfolding IsTree
  set_right-IsTree pages p q xs l r r' new qx ql h (e, ne, chain, hl, hr) =
      let page = record (pages q) { right = new } in
      let pages' = set_right pages q new in
      rw (store_eq pages q page) (
        e,
        ne,
        Chain-frame (nexts pages) (nexts pages') (pages q).next xs chain
            (Agree-nexts pages pages' xs (Agree-store pages q page xs qx)),
        IsTree-frame pages pages' (pages q).left l (Agree-store pages q page (pages_of_tree l) ql)
            hl,
        h,
      )

  -- A write at the end of a node's list.
  pub set_next-IsTree :
      (pages : ℕ → PageInfo F) (p q : ℕ) (xs : List ℕ) (l r : Tree) (new : ℕ)
      → AreApart q xs (pages_of_tree l) (pages_of_tree r)
      → All (λ y. new ≢ y) (q ∷ xs)
      → IsSingle pages new
      → IsTree pages p (node q xs l r)
      → IsTree (set_next pages (last_from q xs) new) p (node q (xs ++ (new ∷ [])) l r)
  unfolding IsTree
  set_next-IsTree pages p q xs l r new a apart (nz, end, _, _) (e, ne, chain, hl, hr) =
      let z = last_from q xs in
      let page = record (pages z) { next = new } in
      let pages' = set_next pages z new in
      let zl = last_from-All (λ u. All (λ y. u ≢ y) (pages_of_tree l)) q xs a.q_ls a.xs_ls in
      let zr = last_from-All (λ u. All (λ y. u ≢ y) (pages_of_tree r)) q xs a.q_rs a.xs_rs in
      let list =
        Chain-head (Chain-snoc (nexts pages) q new xs (link ne chain) a.own apart nz end) in
      let le : (pages' q).left ≡ (pages q).left = store_field (λ g. g.left) pages z page q refl in
      let re : (pages' q).right ≡ (pages q).right =
        store_field (λ g. g.right) pages z page q refl in
      (
        e,
        ne,
        subst (λ f. Chain f (f q) (xs ++ (new ∷ []))) (sym (nexts-store pages z page)) list.2,
        rw le (IsTree-frame pages pages' (pages q).left l (Agree-store pages z page _ zl) hl),
        rw re (IsTree-frame pages pages' (pages q).right r (Agree-store pages z page _ zr) hr),
      )

  -- A node whose left subtree alone has changed.
  pub keep_left :
      (pages pages' : ℕ → PageInfo F) (p q : ℕ) (xs : List ℕ) (l l' r : Tree)
      → pages' q ≡ pages q
      → Agree pages pages' xs
      → Agree pages pages' (pages_of_tree r)
      → IsTree pages' (pages q).left l'
      → IsTree pages p (node q xs l r)
      → IsTree pages' p (node q xs l' r)
  unfolding IsTree
  keep_left pages pages' p q xs l l' r same hx hot h (e, ne, chain, hl, hr) = rw same (
    e,
    ne,
    Chain-frame (nexts pages) (nexts pages') (pages q).next xs chain
        (Agree-nexts pages pages' xs hx),
    h,
    IsTree-frame pages pages' (pages q).right r hot hr,
  )

  -- A node whose right subtree alone has changed.
  pub keep_right :
      (pages pages' : ℕ → PageInfo F) (p q : ℕ) (xs : List ℕ) (l r r' : Tree)
      → pages' q ≡ pages q
      → Agree pages pages' xs
      → Agree pages pages' (pages_of_tree l)
      → IsTree pages' (pages q).right r'
      → IsTree pages p (node q xs l r)
      → IsTree pages' p (node q xs l r')
  unfolding IsTree
  keep_right pages pages' p q xs l r r' same hx hot h (e, ne, chain, hl, hr) = rw same (
    e,
    ne,
    Chain-frame (nexts pages) (nexts pages') (pages q).next xs chain
        (Agree-nexts pages pages' xs hx),
    IsTree-frame pages pages' (pages q).left l hot hl,
    h,
  )
