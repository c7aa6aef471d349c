-- ===== src/Memory/Buckets/Ordered.antt =====
-- The tree of insertPageInBucket (src/runtime/memory/allocator.h): its pages and its order.
use bsqgc.Prelude.{
  ℕ, ◌+◌, true, false, List, [], ◌∷◌, ◌++◌, ◌==◌, ◌≡◌, refl, inl, inr, Bool-cases, arith, All,
  All-append, All-append_left, All-append_right, if◌then◌else◌, occurrences, occurrences-append,
}
use bsqgc.Memory.Float.{FloatOps}
use bsqgc.Memory.Utilization.{utilizations_are_equal}
use bsqgc.Memory.Buckets.Tree.{Tree, leaf, node, pages_of_tree}
use bsqgc.Memory.Buckets.Insert.{insert_below}

-- The pages that are nodes.
unfoldable pub nodes_of : Tree → List ℕ
nodes_of leaf = []
nodes_of (node q xs l r) = q ∷ (nodes_of l ++ nodes_of r)

pub three_parts :
    (o q : ℕ) (xs ls rs : List ℕ)
    → occurrences o (q ∷ (xs ++ (ls ++ rs)))
      ≡ (if q == o then 1 else 0) + occurrences o xs + occurrences o ls + occurrences o rs
unfolding occurrences
three_parts o q xs ls rs =
    let a = occurrences-append o xs (ls ++ rs) in let b = occurrences-append o ls rs in omega arith

module _ (fl : FloatOps) (util : ℕ → fl.F) where
  -- A search tree by utilization: less to the left, the others to the right.
  unfoldable pub IsOrdered : Tree → Type 0
  IsOrdered leaf = Unit
  IsOrdered (node q xs l r) =
      All (λ p. fl.lt (util p) (util q) ≡ true) (nodes_of l)
      × All (λ p. fl.lt (util p) (util q) ≡ false) (nodes_of r)
      × IsOrdered l
      × IsOrdered r

  -- An insertion adds its page, once, and loses none.
  pub insert_below-occurrences :
      (ru nu : fl.F) (new : ℕ) (t : Tree) (o : ℕ)
      → occurrences o (pages_of_tree (insert_below fl util ru nu new t))
        ≡ (if new == o then 1 else 0) + occurrences o (pages_of_tree t)
  unfolding insert_below pages_of_tree occurrences
  insert_below-occurrences ru nu new leaf o = refl
  insert_below-occurrences ru nu new (node q xs l r) o =
      let ls = pages_of_tree l in
      let rs = pages_of_tree r in
      let l' = insert_below fl util ru nu new l in
      let r' = insert_below fl util ru nu new r in
      let count = three_parts o q in
      elim (Bool-cases (utilizations_are_equal fl nu ru)) [
        | inl same ↦
            let a = count (xs ++ (new ∷ [])) ls rs in
            let b = count xs ls rs in
            let c : occurrences o (xs ++ (new ∷ []))
                ≡ occurrences o xs + ((if new == o then 1 else 0) + 0) =
              occurrences-append o xs (new ∷ []) in
            rw same (omega arith)
        | inr other ↦ rw other (elim (Bool-cases (fl.lt nu (util q))) [
          | inl less ↦
              let a = count xs (pages_of_tree l') rs in
              let b = count xs ls rs in
              let c = insert_below-occurrences ru nu new l o in rw less (omega arith)
          | inr more ↦
              let a = count xs ls (pages_of_tree r') in
              let b = count xs ls rs in
              let c = insert_below-occurrences ru nu new r o in rw more (omega arith)
        ])
      ]

  insert_below-nodes :
      (P : ℕ → Type 0) (ru nu : fl.F) (new : ℕ) (t : Tree)
      → P new
      → All P (nodes_of t)
      → All P (nodes_of (insert_below fl util ru nu new t))
  unfolding insert_below nodes_of
  insert_below-nodes P ru nu new leaf h hs = (h, tt)
  insert_below-nodes P ru nu new (node q xs l r) h hs =
      let ls = nodes_of l in
      let rs = nodes_of r in
      let hl = All-append_left P ls rs hs.1 in
      let hr = All-append_right P ls rs hs.1 in
      elim (Bool-cases (utilizations_are_equal fl nu ru)) [
        | inl same ↦ rw same hs
        | inr other ↦ rw other (elim (Bool-cases (fl.lt nu (util q))) [
          | inl less ↦ rw less (
            hs.0,
            All-append P (nodes_of (insert_below fl util ru nu new l)) rs
                (insert_below-nodes P ru nu new l h hl) hr,
          )
          | inr more ↦ rw more (
            hs.0,
            All-append P ls (nodes_of (insert_below fl util ru nu new r)) hl
                (insert_below-nodes P ru nu new r h hr),
          )
        ])
      ]

  -- The order stays, whatever the laws of the comparison are.
  pub insert_below-IsOrdered :
      (ru : fl.F) (new : ℕ) (t : Tree)
      → IsOrdered t
      → IsOrdered (insert_below fl util ru (util new) new t)
  unfolding insert_below IsOrdered nodes_of
  insert_below-IsOrdered ru new leaf h = (tt, tt, tt, tt)
  insert_below-IsOrdered ru new (node q xs l r) (lower, higher, hl, hr) =
      elim (Bool-cases (utilizations_are_equal fl (util new) ru)) [
        | inl same ↦ rw same (lower, higher, hl, hr)
        | inr other ↦ rw other (elim (Bool-cases (fl.lt (util new) (util q))) [
          | inl less ↦ rw less (
            insert_below-nodes (λ p. fl.lt (util p) (util q) ≡ true) ru (util new) new l less lower,
            higher,
            insert_below-IsOrdered ru new l hl,
            hr,
          )
          | inr more ↦ rw more (
            lower,
            insert_below-nodes (λ p. fl.lt (util p) (util q) ≡ false) ru (util new) new r more
                higher,
            hl,
            insert_below-IsOrdered ru new r hr,
          )
        ])
      ]
