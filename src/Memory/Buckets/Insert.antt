-- ===== src/Memory/Buckets/Insert.antt =====
-- insertPageInBucket (src/runtime/memory/allocator.h) as an insertion into a tree: the writes to the pages.
use bsqgc.Prelude.{
  ℕ, zero, suc, ◌<◌, ◌≤◌, true, false, List, [], ◌∷◌, ◌++◌, ◌==◌, if◌then◌else◌, ◌≡◌, ◌≢◌, refl,
  inl, inr, Bool-cases, arith, length, subst,
}
use bsqgc.Common.{store}
use bsqgc.Memory.Float.{FloatOps}
use bsqgc.Memory.Page.{PageInfo}
use bsqgc.Memory.Page.Chain.{Chain, link, Chain-head}
use bsqgc.Memory.Utilization.{utilizations_are_equal}
use bsqgc.Memory.World.{World, ok, load_page, store_page}
use bsqgc.Memory.Buckets.{append_to_list, insert_walk}
use bsqgc.Memory.Buckets.Tree.{Tree, leaf, node, IsTree, walk_fuel, if_leaf, IsNode}
use bsqgc.Memory.Page.Links.{nexts, last_from, Chain-end}

module _ {F : Type 0} where
  abbrev pub set_next : (ℕ → PageInfo F) → ℕ → ℕ → ℕ → PageInfo F
  set_next pages q v = store pages q (record (pages q) { next = v })

  abbrev pub set_left : (ℕ → PageInfo F) → ℕ → ℕ → ℕ → PageInfo F
  set_left pages q v = store pages q (record (pages q) { left = v })

  abbrev pub set_right : (ℕ → PageInfo F) → ℕ → ℕ → ℕ → PageInfo F
  set_right pages q v = store pages q (record (pages q) { right = v })

  -- The write at the end of a list.
  append_to_list_run :
      (fuel it new : ℕ) (xs : List ℕ) (w : World F)
      → Chain (nexts w.pages) it (it ∷ xs)
      → length xs < fuel
      → append_to_list fuel it new w
        ≡ ok tt (record w { pages = set_next w.pages (last_from it xs) new })
  unfolding append_to_list last_from load_page store_page
  append_to_list_run zero it new xs w c lt = elim lt [ ]
  append_to_list_run (suc f) it new [] w ch lt =
      let (e0, ne, c) = Chain-head ch in
      let z : (it == 0) ≡ false = ground arith in
      let e : (w.pages it).next ≡ 0 = Chain-end c in
      let y : ((w.pages it).next == 0) ≡ true = ground arith in rw z (rw y (rw z refl))
  append_to_list_run (suc f) it new (x ∷ xs) w ch lt =
      let (e0, ne, c) = Chain-head ch in
      let (e, nz, c1) = Chain-head c in
      let z : (it == 0) ≡ false = ground arith in
      let y : ((w.pages it).next == 0) ≡ false = ground arith in
      rw z (
        rw y (
          rw e (
            append_to_list_run f x new xs w (subst (λ u. Chain (nexts w.pages) u (x ∷ xs)) e c)
              (omega arith))))

  append_case :
      (f q new : ℕ) (xs : List ℕ) (w : World F)
      → q ≢ 0
      → Chain (nexts w.pages) (w.pages q).next xs
      → length xs < f
      → (if (w.pages q).next == 0
            then store_page q (record (w.pages q) { next = new })
            else append_to_list f q new)
          w
        ≡ ok tt (record w { pages = set_next w.pages (last_from q xs) new })
  unfolding last_from store_page
  append_case f q new [] w ne c lt =
      let e = Chain-end c in
      let y : ((w.pages q).next == 0) ≡ true = ground arith in
      let z : (q == 0) ≡ false = ground arith in rw y (rw z refl)
  append_case f q new (x ∷ xs) w ne c lt =
      let (e, nz, c1) = Chain-head c in
      let y : ((w.pages q).next == 0) ≡ false = ground arith in
      rw y (append_to_list_run f q new (x ∷ xs) w (link ne c) (omega arith))

module _ (fl : FloatOps) where
  -- The insertion below a node, for a page of utilization `n_util` in a tree whose root has `root_util`.
  unfoldable pub insert_below :
      (util : ℕ → fl.F) → (root_util n_util : fl.F) → (new : ℕ) → Tree → Tree
  insert_below util ru nu new leaf = node new [] leaf leaf
  insert_below util ru nu new (node q xs l r) =
      let left = insert_below util ru nu new l in
      let right = insert_below util ru nu new r in
      if utilizations_are_equal fl nu ru
      then node q (xs ++ (new ∷ [])) l r
      else if fl.lt nu (util q)
      then node q xs left r
      else node q xs l right

  -- The pages after it.
  unfoldable pub linked :
      (ℕ → PageInfo fl.F) → (root_util n_util : fl.F) → (new : ℕ) → Tree → ℕ → PageInfo fl.F
  linked pages ru nu new leaf = pages
  linked pages ru nu new (node q xs l r) =
      let left = linked pages ru nu new l in
      let right = linked pages ru nu new r in
      if utilizations_are_equal fl nu ru
      then set_next pages (last_from q xs) new
      else if fl.lt nu (pages q).approx_utilization
      then if_leaf l (set_left pages q new) left
      else if_leaf r (set_right pages q new) right

  left_case :
      (f root q : ℕ) (t : Tree) (new : ℕ) (nu : fl.F) (w : World fl.F)
      → q ≢ 0
      → IsTree w.pages (w.pages q).left t
      → (IsNode t
          → insert_walk fl f root (w.pages q).left new nu w
            ≡ ok tt
                (record w { pages = linked w.pages (w.pages root).approx_utilization nu new t }))
      → (if (w.pages q).left == 0
            then store_page q (record (w.pages q) { left = new })
            else insert_walk fl f root (w.pages q).left new nu)
          w
        ≡ ok tt (record w {
          pages =
              if_leaf t
                (set_left w.pages q new)
                (linked w.pages (w.pages root).approx_utilization nu new t);
        })
  unfolding IsTree IsNode if_leaf store_page
  left_case f root q leaf new nu w ne h rec =
      let y : ((w.pages q).left == 0) ≡ true = ground arith in
      let z : (q == 0) ≡ false = ground arith in rw y (rw z refl)
  left_case f root q (node p xs l r) new nu w ne (e, pne, chain, hl, hr) rec =
      let y : ((w.pages q).left == 0) ≡ false = ground arith in rw y (rec tt)

  right_case :
      (f root q : ℕ) (t : Tree) (new : ℕ) (nu : fl.F) (w : World fl.F)
      → q ≢ 0
      → IsTree w.pages (w.pages q).right t
      → (IsNode t
          → insert_walk fl f root (w.pages q).right new nu w
            ≡ ok tt
                (record w { pages = linked w.pages (w.pages root).approx_utilization nu new t }))
      → (if (w.pages q).right == 0
            then store_page q (record (w.pages q) { right = new })
            else insert_walk fl f root (w.pages q).right new nu)
          w
        ≡ ok tt (record w {
          pages =
              if_leaf t
                (set_right w.pages q new)
                (linked w.pages (w.pages root).approx_utilization nu new t);
        })
  unfolding IsTree IsNode if_leaf store_page
  right_case f root q leaf new nu w ne h rec =
      let y : ((w.pages q).right == 0) ≡ true = ground arith in
      let z : (q == 0) ≡ false = ground arith in rw y (rw z refl)
  right_case f root q (node p xs l r) new nu w ne (e, pne, chain, hl, hr) rec =
      let y : ((w.pages q).right == 0) ≡ false = ground arith in rw y (rec tt)

  pub insert_walk_run :
      (fuel root p : ℕ) (t : Tree) (new : ℕ) (nu : fl.F) (w : World fl.F)
      → IsNode t
      → root ≢ 0
      → IsTree w.pages p t
      → walk_fuel t ≤ fuel
      → insert_walk fl fuel root p new nu w
        ≡ ok tt (record w { pages = linked w.pages (w.pages root).approx_utilization nu new t })
  unfolding insert_walk linked IsNode IsTree walk_fuel load_page
  insert_walk_run fuel root p leaf new nu w n rne t le = absurd n
  insert_walk_run zero root p (node q xs l r) new nu w n rne t le = absurd (omega arith)
  insert_walk_run (suc f) root p (node q xs l r) new nu w n rne (e, ne, chain, hl, hr) le =
      let ru = (w.pages root).approx_utilization in
      let z : (q == 0) ≡ false = ground arith in
      let zr : (root == 0) ≡ false = ground arith in
      rw (e, z)
        (rw zr (
          rw z (elim (Bool-cases (utilizations_are_equal fl nu ru)) [
            | inl same ↦ rw same (append_case f q new xs w ne chain (omega arith))
            | inr other ↦ rw other (elim (Bool-cases (fl.lt nu (w.pages q).approx_utilization)) [
              | inl less ↦ rw less (
                  left_case f root q l new nu w ne hl (λ k.
                    insert_walk_run f root (w.pages q).left l new nu w k rne hl (omega arith)))
              | inr more ↦ rw more (
                  right_case f root q r new nu w ne hr (λ k.
                    insert_walk_run f root (w.pages q).right r new nu w k rne hr (omega arith)))
            ])
          ])))
