-- ===== src/Memory/Buckets/Inserted.antt =====
-- insertPageInBucket (src/runtime/memory/allocator.h): the tree behind an insertion.
use bsqgc.Prelude.{
  ℕ, List, [], ◌∷◌, ◌++◌, ◌≡◌, ◌≢◌, refl, inl, inr, Bool-cases, arith, All, All-mono,
  All-append_left, All-append_right, Distinct, Disjoint, Disjoint-sym,
}
use bsqgc.Common.{store_ne, store_field}
use bsqgc.Memory.Float.{FloatOps}
use bsqgc.Memory.Page.{PageInfo}
use bsqgc.Memory.Page.Links.{last_from, last_apart}
use bsqgc.Memory.Utilization.{utilizations_are_equal}
use bsqgc.Memory.Buckets.Tree.{Tree, leaf, node, IsTree, pages_of_tree, if_leaf, IsNode}
use bsqgc.Memory.Buckets.Insert.{set_left, set_right, insert_below, linked}
use bsqgc.Memory.Buckets.Frame.{AreApart, Distinct-AreApart, Agree, IsTree-frame}
use bsqgc.Memory.Buckets.Writes.{
  IsSingle, single-IsTree, set_left-IsTree, set_right-IsTree, set_next-IsTree, keep_left,
  keep_right,
}

abbrev pub util_of : {F : Type 0} → (ℕ → PageInfo F) → ℕ → F
util_of pages q = (pages q).approx_utilization

if_leaf-cases : {A : Type 0} (P : A → Type 0) (t : Tree) (x y : A) → P x → P y → P (if_leaf t x y)
unfolding if_leaf
if_leaf-cases P leaf x y hx hy = hx
if_leaf-cases P (node p xs l r) x y hx hy = hy

module _ (fl : FloatOps) (pages : ℕ → PageInfo fl.F) (ru nu : fl.F) (new : ℕ) where
  -- The pages outside the tree are as before.
  pub linked-outside :
      (t : Tree) (q : ℕ)
      → All (λ y. q ≢ y) (pages_of_tree t)
      → linked fl pages ru nu new t q ≡ pages q
  unfolding linked pages_of_tree
  linked-outside leaf q h = refl
  linked-outside (node p xs l r) q h =
      let ls = pages_of_tree l in
      let rs = pages_of_tree r in
      let P : ℕ → Type 0 = λ y. q ≢ y in
      let hr = All-append_right P xs (ls ++ rs) h.1 in
      let ne : p ≢ q = let k = h.0 in omega arith in
      let Same : (ℕ → PageInfo fl.F) → Type 0 = λ f. f q ≡ pages q in
      elim (Bool-cases (utilizations_are_equal fl nu ru)) [
        | inl same ↦ rw same (store_ne pages (last_from p xs) _ q (last_apart q p xs (ls ++ rs) h))
        | inr other ↦ rw other (elim (Bool-cases (fl.lt nu (pages p).approx_utilization)) [
          | inl less ↦ rw less (
              if_leaf-cases Same l (set_left pages p new) (linked fl pages ru nu new l)
                (store_ne pages p _ q ne) (linked-outside l q (All-append_left P ls rs hr)))
          | inr more ↦ rw more (
              if_leaf-cases Same r (set_right pages p new) (linked fl pages ru nu new r)
                (store_ne pages p _ q ne) (linked-outside r q (All-append_right P ls rs hr)))
        ])
      ]

  -- All pages are as before but for their links.
  pub linked-field :
      {A : Type 0} (field : PageInfo fl.F → A)
      → ((page : PageInfo fl.F) (v : ℕ)
          → (field (record page { next = v }) ≡ field page)
            × (field (record page { left = v }) ≡ field page)
            × (field (record page { right = v }) ≡ field page))
      → (t : Tree) (q : ℕ) → field (linked fl pages ru nu new t q) ≡ field (pages q)
  unfolding linked
  linked-field field k leaf q = refl
  linked-field field k (node p xs l r) q =
      let Same : (ℕ → PageInfo fl.F) → Type 0 = λ f. field (f q) ≡ field (pages q) in
      let z = last_from p xs in
      elim (Bool-cases (utilizations_are_equal fl nu ru)) [
        | inl same ↦ rw same (store_field field pages z _ q (k (pages z) new).0)
        | inr other ↦ rw other (elim (Bool-cases (fl.lt nu (pages p).approx_utilization)) [
          | inl less ↦ rw less (
              if_leaf-cases Same l (set_left pages p new) (linked fl pages ru nu new l)
                (store_field field pages p _ q (k (pages p) new).1) (linked-field field k l q))
          | inr more ↦ rw more (
              if_leaf-cases Same r (set_right pages p new) (linked fl pages ru nu new r)
                (store_field field pages p _ q (k (pages p) new).2) (linked-field field k r q))
        ])
      ]

  linked-Agree :
      (t : Tree) (ps : List ℕ)
      → Disjoint ps (pages_of_tree t)
      → Agree pages (linked fl pages ru nu new t) ps
  linked-Agree t ps d =
      All-mono (λ x. All (λ y. x ≢ y) (pages_of_tree t))
        (λ x. linked fl pages ru nu new t x ≡ pages x) ps (linked-outside t) d

  left_step :
      (p q : ℕ) (xs : List ℕ) (l r : Tree)
      → AreApart q xs (pages_of_tree l) (pages_of_tree r)
      → All (λ y. new ≢ y) (q ∷ xs)
      → IsSingle pages new
      → IsTree pages p (node q xs l r)
      → (IsNode l
          → IsTree
              (linked fl pages ru nu new l)
              (pages q).left
              (insert_below fl (util_of pages) ru nu new l))
      → IsTree
          (if_leaf l (set_left pages q new) (linked fl pages ru nu new l))
          p
          (node q xs (insert_below fl (util_of pages) ru nu new l) r)
  unfolding if_leaf IsNode insert_below pages_of_tree
  left_step p q xs leaf r a apart single h rec =
      let page = record (pages q) { left = new } in
      let ne : q ≢ new = let k = apart.0 in omega arith in
      set_left-IsTree pages p q xs leaf (node new [] leaf leaf) r new a.q_xs a.q_rs
        (IsTree-frame pages (set_left pages q new) new (node new [] leaf leaf)
          (store_ne pages q page new ne, tt) (single-IsTree pages new single))
        h
  left_step p q xs (node b ys l1 l2) r a apart single h rec =
      let t = node b ys l1 l2 in
      keep_left pages (linked fl pages ru nu new t) p q xs t _ r (linked-outside t q a.q_ls)
        (linked-Agree t xs a.xs_ls)
        (linked-Agree t (pages_of_tree r)
          (Disjoint-sym (pages_of_tree t) (pages_of_tree r) a.ls_rs))
        (rec tt) h

  right_step :
      (p q : ℕ) (xs : List ℕ) (l r : Tree)
      → AreApart q xs (pages_of_tree l) (pages_of_tree r)
      → All (λ y. new ≢ y) (q ∷ xs)
      → IsSingle pages new
      → IsTree pages p (node q xs l r)
      → (IsNode r
          → IsTree
              (linked fl pages ru nu new r)
              (pages q).right
              (insert_below fl (util_of pages) ru nu new r))
      → IsTree
          (if_leaf r (set_right pages q new) (linked fl pages ru nu new r))
          p
          (node q xs l (insert_below fl (util_of pages) ru nu new r))
  unfolding if_leaf IsNode insert_below pages_of_tree
  right_step p q xs l leaf a apart single h rec =
      let page = record (pages q) { right = new } in
      let ne : q ≢ new = let k = apart.0 in omega arith in
      set_right-IsTree pages p q xs l leaf (node new [] leaf leaf) new a.q_xs a.q_ls
        (IsTree-frame pages (set_right pages q new) new (node new [] leaf leaf)
          (store_ne pages q page new ne, tt) (single-IsTree pages new single))
        h
  right_step p q xs l (node b ys r1 r2) a apart single h rec =
      let t = node b ys r1 r2 in
      keep_right pages (linked fl pages ru nu new t) p q xs l t _ (linked-outside t q a.q_rs)
        (linked-Agree t xs a.xs_rs) (linked-Agree t (pages_of_tree l) a.ls_rs) (rec tt) h

  -- The tree after the insertion.
  pub linked-IsTree :
      (p : ℕ) (t : Tree)
      → IsNode t
      → Distinct (pages_of_tree t)
      → All (λ y. new ≢ y) (pages_of_tree t)
      → IsSingle pages new
      → IsTree pages p t
      → IsTree (linked fl pages ru nu new t) p (insert_below fl (util_of pages) ru nu new t)
  unfolding linked insert_below IsNode pages_of_tree IsTree
  linked-IsTree p leaf n d apart single h = absurd n
  linked-IsTree p (node q xs l r) n d apart single h =
      let ls = pages_of_tree l in
      let rs = pages_of_tree r in
      let P : ℕ → Type 0 = λ y. new ≢ y in
      let a = Distinct-AreApart q xs ls rs d in
      let own : All P (q ∷ xs) = (apart.0, All-append_left P xs (ls ++ rs) apart.1) in
      let below = All-append_right P xs (ls ++ rs) apart.1 in
      elim (Bool-cases (utilizations_are_equal fl nu ru)) [
        | inl same ↦ rw same (set_next-IsTree pages p q xs l r new a own single h)
        | inr other ↦ rw other (elim (Bool-cases (fl.lt nu (pages q).approx_utilization)) [
          | inl less ↦ rw less (
              left_step p q xs l r a own single h (λ k.
                linked-IsTree (pages q).left l k a.in_ls (All-append_left P ls rs below) single
                  h.3))
          | inr more ↦ rw more (
              right_step p q xs l r a own single h (λ k.
                linked-IsTree (pages q).right r k a.in_rs (All-append_right P ls rs below) single
                  h.4))
        ])
      ]
