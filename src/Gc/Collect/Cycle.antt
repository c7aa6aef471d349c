-- ===== src/Gc/Collect/Cycle.antt =====
-- The roots from one collection to the next (src/runtime/memory/gc.cpp): computeDeadRootsForDecrement sorts
-- them, and the end of collect makes them the old roots that the next one looks up in order.
use bsqgc.Prelude.{
  ℕ, zero, suc, ◌+◌, ◌≤◌, ◌<◌, ◌≡◌, refl, ap, sym, ◌∙◌, Bool, true, false, inl, inr, List, [], ◌∷◌,
  ◌++◌, arith, ◌==◌, ◌||◌, Bool-cases, elem, if◌then◌else◌, ltb,
}
use bsqgc.Common.{Metas, store, gc_clear_root_mark}
use bsqgc.Support.Qsort.{Array}
use bsqgc.Support.Qsort.Rearranges.{occurrences}
use bsqgc.Support.Qsort.Sorted.{IsSorted}
use bsqgc.Memory.World.{World, Returns, ◌>>◌}
use bsqgc.Gc.DeadRoots.{RootSets, read}
use bsqgc.Gc.DeadRoots.Merge.{StrictFrom, StrictlyAscends, absent}
use bsqgc.Gc.DeadRoots.Correct.{compute_dead_roots-FindsDead, place→occurs, elem-read}
use bsqgc.Gc.Evacuate.{array_at, count_of}
use bsqgc.Gc.Collect.{find_dead_roots, finish_roots, clear_root_marks, after_dead_roots}

-- A value in two places occurs twice.
two_places :
    (v : ℕ) (arr : Array) (n j k : ℕ)
    → j < k
    → k < n
    → arr j ≡ v
    → arr k ≡ v
    → 2 ≤ occurrences v n arr
two_places v arr zero j k lt s p q = absurd (omega arith)
two_places v arr (suc n) j k lt s p q = elim (Bool-cases (n == k)) [
  | inl e ↦
      let e' : n ≡ k = ground arith in
      let once = place→occurs v arr n j (omega arith) p in
      let here : (arr n == v) ≡ true = rw e' (ground arith) in rw here (omega arith)
  | inr e ↦ let ih = two_places v arr n j k lt (ground arith) p q in omega arith
]

IsSorted-strict :
    (n : ℕ) (arr : Array)
    → IsSorted 0 n arr
    → ((v : ℕ) → occurrences v n arr ≤ 1)
    → (j k : ℕ) → j < k
    → k < n
    → arr j < arr k
IsSorted-strict n arr s once j k lt kn = elim (Bool-cases (arr j == arr k)) [
  | inl e ↦
      let two = two_places (arr k) arr n j k lt kn (ground arith) refl in
      let one = once (arr k) in absurd (omega arith)
  | inr e ↦ let le = s j k (omega arith) (omega arith) kn in ground arith
]

strict-StrictFrom :
    (lo i n stop : ℕ) (arr : Array)
    → i + n ≡ stop
    → ((j k : ℕ) → j < k → k < stop → arr j < arr k)
    → ((j : ℕ) → i ≤ j → j < stop → lo < arr j)
    → StrictFrom lo (read arr i n)
strict-StrictFrom lo i zero stop arr e s h = tt
strict-StrictFrom lo i (suc n) stop arr e s h = (
  h i (omega arith) (omega arith),
  strict-StrictFrom (arr i) (i + 1) n stop arr (omega arith) s (λ j l u. s i j (omega arith) u),
)

strict-StrictlyAscends :
    (n : ℕ) (arr : Array)
    → ((j k : ℕ) → j < k → k < n → arr j < arr k)
    → StrictlyAscends (read arr 0 n)
strict-StrictlyAscends zero arr s = tt
strict-StrictlyAscends (suc n) arr s =
    strict-StrictFrom (arr 0) 1 n (suc n) arr (omega arith) s (λ j l u. s 0 j (omega arith) u)

read_shift :
    (x : ℕ) (xs : List ℕ) (i n : ℕ) → read (array_at (x ∷ xs)) (i + 1) n ≡ read (array_at xs) i n
unfolding array_at
read_shift x xs i zero = refl
read_shift x xs i (suc n) =
    let e : i + 1 ≡ suc i = omega arith in
    let here : array_at (x ∷ xs) (i + 1) ≡ array_at xs i = rw e refl in
    λ k. here k ∷ read_shift x xs (i + 1) n k

-- The list is what its array holds.
read-array_at : (xs : List ℕ) → read (array_at xs) 0 (count_of xs) ≡ xs
unfolding array_at
read-array_at [] = refl
read-array_at (x ∷ xs) =
    let rest = read_shift x xs 0 (count_of xs) ∙ read-array_at xs in λ k. x ∷ rest k

same_either : {A : Type 0} {a : A} (b : Bool) → (if b then a else a) ≡ a
same_either true = refl
same_either false = refl

cleared_again :
    (ms : Metas) (r o : ℕ) (b : Bool)
    → (if b
        then gc_clear_root_mark (store ms r (gc_clear_root_mark (ms r)) o)
        else store ms r (gc_clear_root_mark (ms r)) o)
      ≡ (if (r == o) || b then gc_clear_root_mark (ms o) else ms o)
cleared_again ms r o b = elim (Bool-cases (r == o)) [
  | inl e ↦ let eq : r ≡ o = ground arith in rw e (rw eq (same_either b))
  | inr e ↦ rw e refl
]

-- The headers at the end: those of the roots lose their marks.
clear_root_marks-elem :
    (os : List ℕ) (ms : Metas) (o : ℕ)
    → clear_root_marks os ms o ≡ (if elem o os then gc_clear_root_mark (ms o) else ms o)
unfolding clear_root_marks
clear_root_marks-elem [] ms o = refl
clear_root_marks-elem (r ∷ os) ms o =
    clear_root_marks-elem os (store ms r (gc_clear_root_mark (ms r))) o
    ∙ cleared_again ms r o (elem o os)

module _ {F : Type 0} where
  pub record IsCycle (w w' : World F) : Type 0 where
    pub no_roots : w'.tinfo.roots ≡ []
    pub ascends : StrictlyAscends w'.tinfo.old_roots
    pub same : (v : ℕ) → elem v w'.tinfo.old_roots ≡ elem v w.tinfo.roots
    pub pending :
        w'.tinfo.pending_decs ≡ w.tinfo.pending_decs ++ absent w.tinfo.roots w.tinfo.old_roots
    pub unmarked :
        (o : ℕ)
        → w'.metas o
          ≡ (if elem o w'.tinfo.old_roots then gc_clear_root_mark (w.metas o) else w.metas o)

  -- Where the old roots ascend strictly and no root is there twice: after the search for dead roots, with fuel
  -- above the number of the roots, and the end of a collection, the old roots are the same values as the roots and
  -- ascend strictly again; added to pending_decs are the old roots that are no roots any more; the headers of the roots
  -- have lost their root mark and their mark, and no other header has changed.
  pub finish_roots-find_dead_roots :
      (fuel : ℕ) (w : World F)
      → StrictlyAscends w.tinfo.old_roots
      → ((v : ℕ) → occurrences v (count_of w.tinfo.roots) (array_at w.tinfo.roots) ≤ 1)
      → count_of w.tinfo.roots < fuel
      → Returns
          (λ (u : Unit {0}) (w' : World F). IsCycle w w')
          ((find_dead_roots fuel >> finish_roots) w)
  unfolding Returns find_dead_roots finish_roots after_dead_roots
  finish_roots-find_dead_roots fuel w old once enough =
      let t = w.tinfo in
      let n = count_of t.roots in
      let sets : RootSets = record {
        roots = array_at t.roots;
        old_roots = t.old_roots;
        pending_decs = t.pending_decs;
      } in
      let (t', eq, d) = compute_dead_roots-FindsDead fuel n sets old enough in
      let once' : (v : ℕ) → occurrences v n t'.roots ≤ 1 =
        λ v. let c = d.moved.counts v n (omega arith) in let o = once v in rw c o in
      rw eq (record {
        no_roots = refl;
        ascends = strict-StrictlyAscends n t'.roots (IsSorted-strict n t'.roots d.sorted once');
        same = λ v.
            elem-read v t'.roots n
            ∙ ap (ltb 0) (d.moved.counts v n (omega arith))
            ∙ sym (elem-read v (array_at t.roots) n)
            ∙ ap (elem v) (read-array_at t.roots);
        pending =
            d.pending ∙ ap (λ l. t.pending_decs ++ absent l t.old_roots) (read-array_at t.roots);
        unmarked = λ o. clear_root_marks-elem (read t'.roots 0 n) w.metas o;
      })
