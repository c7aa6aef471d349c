-- ===== src/Gc/DeadRoots/Correct.antt =====
-- computeDeadRootsForDecrement (src/runtime/memory/gc.cpp) on the arrays: the sort, then the merge.
use bsqgc.Prelude.{
  ℕ, zero, suc, ◌+◌, ◌≤◌, ◌<◌, ◌≡◌, refl, sym, ap, ◌∙◌, true, some, inl, inr, List, [], ◌∷◌, ◌++◌,
  arith, ltb, ◌==◌, elem, Bool-cases, ==_iff,
}
use bsqgc.Support.Qsort.{Array}
use bsqgc.Support.Qsort.Rearranges.{Rearranges, occurrences}
use bsqgc.Support.Qsort.Sorted.{IsSorted, qsort-IsSorted}
use bsqgc.Gc.DeadRoots.{read, RootSets, compute_dead_roots}
use bsqgc.Gc.DeadRoots.Merge.{AscendsFrom, Ascends, StrictlyAscends, absent, dead_roots_loop-absent}

-- A value stands in the places that are read, or it does not.
module _ (v : ℕ) (arr : Array) where
  elem→place :
      (i n : ℕ) → elem v (read arr i n) ≡ true → (j : ℕ) × (i ≤ j) × (j < i + n) × (arr j ≡ v)
  elem→place i zero h = absurd (ground arith)
  elem→place i (suc n) h = elim (Bool-cases (arr i == v)) [
    | inl e ↦ (i, omega arith, omega arith, (==_iff (arr i) v).0 e)
    | inr e ↦
        let (j, l, s, q) = elem→place (i + 1) n (ground arith) in (j, omega arith, omega arith, q)
  ]

  place→elem : (i n j : ℕ) → i ≤ j → j < i + n → arr j ≡ v → elem v (read arr i n) ≡ true
  place→elem i zero j l s e = absurd (omega arith)
  place→elem i (suc n) j l s e = elim (Bool-cases (i == j)) [
    | inl q ↦ let q' = (==_iff i j).0 q in ground arith
    | inr q ↦ let q' = place→elem (i + 1) n j (ground arith) (omega arith) e in ground arith
  ]

  pub place→occurs : (n j : ℕ) → j < n → arr j ≡ v → 0 < occurrences v n arr
  place→occurs zero j s e = absurd (omega arith)
  place→occurs (suc n) j s e = elim (Bool-cases (n == j)) [
    | inl q ↦ let q' = (==_iff n j).0 q in ground arith
    | inr q ↦ omega (arith, place→occurs n j (ground arith) e)
  ]

  occurs→place : (n : ℕ) → 0 < occurrences v n arr → (j : ℕ) × (j < n) × (arr j ≡ v)
  occurs→place zero h = absurd (omega arith)
  occurs→place (suc n) h = elim (Bool-cases (arr n == v)) [
    | inl e ↦ (n, omega arith, (==_iff (arr n) v).0 e)
    | inr e ↦ let (j, s, q) = occurs→place n (ground arith) in (j, omega arith, q)
  ]

  pub elem-read : (n : ℕ) → elem v (read arr 0 n) ≡ ltb 0 (occurrences v n arr)
  elem-read n = elim (Bool-cases (elem v (read arr 0 n))) [
    | inl h ↦
        let (j, l, s, q) = elem→place 0 n h in
        let o = place→occurs n j (omega arith) q in ground arith
    | inr h ↦ elim (Bool-cases (ltb 0 (occurrences v n arr))) [
      | inl o ↦
          let (j, s, q) = occurs→place n (ground arith) in
          let h' = place→elem 0 n j (omega arith) (omega arith) q in ground arith
      | inr o ↦ h ∙ sym o
    ]
  ]

-- Sorting changes nothing about which old roots are missing.
absent-Rearranges :
    (n : ℕ) (a b : Array) (os : List ℕ)
    → Rearranges 0 n a b
    → absent (read b 0 n) os ≡ absent (read a 0 n) os
unfolding absent
absent-Rearranges n a b [] r = refl
absent-Rearranges n a b (o ∷ os) r =
    let e : elem o (read b 0 n) ≡ elem o (read a 0 n) =
      elem-read o b n ∙ ap (ltb 0) (r.counts o n (omega arith)) ∙ sym (elem-read o a n) in
    rw (e, absent-Rearranges n a b os r) refl

IsSorted-AscendsFrom :
    (lo i n stop : ℕ) (arr : Array)
    → i + n ≡ stop
    → IsSorted 0 stop arr
    → ((j : ℕ) → i ≤ j → j < stop → lo ≤ arr j)
    → AscendsFrom lo (read arr i n)
IsSorted-AscendsFrom lo i zero stop arr e s h = tt
IsSorted-AscendsFrom lo i (suc n) stop arr e s h = (
  h i (omega arith) (omega arith),
  IsSorted-AscendsFrom (arr i) (i + 1) n stop arr (omega arith) s
      λ j l u. s i j (omega arith) (omega arith) u,
)

IsSorted-Ascends : (n : ℕ) (arr : Array) → IsSorted 0 n arr → Ascends (read arr 0 n)
IsSorted-Ascends zero arr s = tt
IsSorted-Ascends (suc n) arr s =
    IsSorted-AscendsFrom (arr 0) 1 n (suc n) arr (omega arith) s
      λ j l u. s 0 j (omega arith) (omega arith) u

-- What `compute_dead_roots` owes for root sets `t` with `count` roots: the roots are sorted, the same
-- values in the same places of the array, the old roots are dropped, and behind what was pending stand
-- exactly the old roots that are not among the roots, in order.
pub record FindsDead (count : ℕ) (t t' : RootSets) : Type 0 where
  pub sorted : IsSorted 0 count t'.roots
  pub moved : Rearranges 0 count t.roots t'.roots
  pub emptied : t'.old_roots ≡ []
  pub pending : t'.pending_decs ≡ t.pending_decs ++ absent (read t.roots 0 count) t.old_roots

-- With old roots that ascend strictly and fuel above the number of roots, for roots in any order,
-- `compute_dead_roots` ends: the roots are sorted and are the same values, each as often; the old roots are
-- empty; and added to pending_decs are exactly the old roots that are not among the roots, in order.
pub compute_dead_roots-FindsDead :
    (fuel count : ℕ) (t : RootSets)
    → StrictlyAscends t.old_roots
    → count < fuel
    → (t' : RootSets) × (compute_dead_roots fuel count t ≡ some t') × FindsDead count t t'
unfolding compute_dead_roots
compute_dead_roots-FindsDead fuel count t s h =
    let (roots, eq, moved, sorted) = qsort-IsSorted fuel 0 count t.roots (omega arith) in
    let asc = IsSorted-Ascends count roots sorted in
    (
      _,
      rw eq refl,
      record {
        sorted = sorted;
        moved = moved;
        emptied = refl;
        pending =
            dead_roots_loop-absent (read roots 0 count) t.old_roots t.pending_decs asc s
            ∙ ap (λ l. t.pending_decs ++ l)
                (absent-Rearranges count t.roots roots t.old_roots moved);
      },
    )
