-- ===== src/Memory/Buckets/Least.antt =====
-- findLowestUtilPage (src/runtime/memory/allocator.h): why the utilization of the page that it finds is the lowest.
use bsqgc.Prelude.{
  ℕ, Bool, true, false, List, ◌≡◌, refl, arith, All, All-mono, All-append, All-append_left,
}
use bsqgc.Memory.Float.{FloatOps, IsOrder}
use bsqgc.Memory.Buckets.Tree.{Tree, leaf, node, IsNode, if_leaf}
use bsqgc.Memory.Buckets.Ordered.{nodes_of, IsOrdered}
use bsqgc.Memory.Buckets.Lowest.{lowest}

not_true : (b : Bool) → (b ≡ true → ⊥) → b ≡ false
not_true true h = absurd (h refl)
not_true false h = refl

differ : (b : Bool) → b ≡ false → b ≡ true → ⊥
differ b f t = ground arith

pub lowest_step :
    (P : ℕ → Type 0) (q : ℕ) (l : Tree)
    → P q
    → (IsNode l → P (lowest l))
    → P (if_leaf l q (lowest l))
unfolding if_leaf IsNode
lowest_step P q leaf h rec = h
lowest_step P q (node b ys l1 l2) h rec = rec tt

lowest-All : (P : ℕ → Type 0) (t : Tree) → IsNode t → All P (nodes_of t) → P (lowest t)
unfolding lowest nodes_of IsNode
lowest-All P leaf n h = absurd n
lowest-All P (node q xs l r) n h =
    lowest_step P q l h.0 (λ k. lowest-All P l k (All-append_left P (nodes_of l) (nodes_of r) h.1))

module _ (fl : FloatOps) (o : IsOrder fl) (util : ℕ → fl.F) where
  -- No page of the list has a lower utilization.
  abbrev pub IsLeast : ℕ → List ℕ → Type 0
  IsLeast m = All (λ p. fl.lt (util p) (util m) ≡ false)

  IsLeast-step :
      (q : ℕ) (xs : List ℕ) (l r : Tree)
      → IsOrdered fl util (node q xs l r)
      → (IsNode l → IsLeast (lowest l) (nodes_of l))
      → IsLeast (lowest (node q xs l r)) (nodes_of (node q xs l r))
  unfolding lowest nodes_of IsOrdered if_leaf IsNode
  IsLeast-step q xs leaf r (lower, higher, hl, hr) rec = (o.irreflexive (util q), higher)
  IsLeast-step q xs (node b ys l1 l2) r (lower, higher, hl, hr) rec =
      let l = node b ys l1 l2 in
      let m = lowest l in
      let below : fl.lt (util m) (util q) ≡ true =
        lowest-All (λ p. fl.lt (util p) (util q) ≡ true) l tt lower in
      let P : ℕ → Type 0 = λ p. fl.lt (util p) (util m) ≡ false in
      (
        not_true _ (λ e.
            differ _ (o.irreflexive (util m)) (o.transitive (util m) (util q) (util m) below e)),
        All-append P (nodes_of l) (nodes_of r) (rec tt) (
            All-mono (λ p. fl.lt (util p) (util q) ≡ false) P (nodes_of r)
              (λ p h.
                not_true _ (λ e. differ _ h (o.transitive (util p) (util m) (util q) e below)))
              higher),
      )

  pub lowest-IsLeast : (t : Tree) → IsNode t → IsOrdered fl util t → IsLeast (lowest t) (nodes_of t)
  unfolding IsNode IsOrdered
  lowest-IsLeast leaf n h = absurd n
  lowest-IsLeast (node q xs l r) n h = IsLeast-step q xs l r h (λ k. lowest-IsLeast l k h.2)
