-- ===== src/Support/Qsort/Partition.antt =====
-- partition (src/runtime/support/qsort.h): the values on the two sides of the pivot.
use bsqgc.Prelude.{ℕ, zero, suc, ◌+◌, ◌-◌, ◌≤◌, ◌<◌, ◌≡◌, inl, inr, subst, arith, Bool-cases, ltb}
use bsqgc.Support.Qsort.{Array, swap, partition_loop, partition}
use bsqgc.Support.Qsort.Rearranges.{
  Rearranges, Rearranges-refl, Rearranges-trans, Rearranges-widen, swap-Rearranges,
}

-- From `low` to `i'` there are values below the pivot, from there to `j` there are none.
pub record Split (pi low i' j : ℕ) (arr : Array) : Type 0 where
  pub small : (k : ℕ) → low ≤ k → k < i' → arr k < pi
  pub big : (k : ℕ) → i' ≤ k → k < j → pi ≤ arr k

module _ (pi low : ℕ) where
  swap-Split :
      (i' j : ℕ) (arr : Array)
      → low ≤ i'
      → i' ≤ j
      → Split pi low i' j arr
      → arr j < pi
      → Split pi low (i' + 1) (j + 1) (swap arr i' j)
  unfolding swap
  swap-Split i' j arr l le s lt = record {
    small = λ k lk hk. ground (arith, s.small k);
    big = λ k lk hk. ground (arith, s.big k, s.big i');
  }

  Split-next :
      (i' j : ℕ) (arr : Array) → Split pi low i' j arr → pi ≤ arr j → Split pi low i' (j + 1) arr
  Split-next i' j arr s le = record { small = s.small; big = λ k lk hk. ground (arith, s.big k) }

  -- What the loop has done when it ends.
  abbrev Looped : ℕ → Array → Array × ℕ → Type 0
  Looped high arr (arr', i') =
      Split pi low i' high arr' × (low ≤ i') × (i' ≤ high) × Rearranges low high arr arr'

  partition_loop-Looped :
      (high n j i' : ℕ) (arr : Array)
      → j + n ≡ high
      → low ≤ i'
      → i' ≤ j
      → Split pi low i' j arr
      → Looped high arr (partition_loop pi n j i' arr)
  unfolding partition_loop
  partition_loop-Looped high zero j i' arr e l le s =
      let e' : j ≡ high = omega arith in
      (subst (λ h. Split pi low i' h arr) e' s, l, omega arith, Rearranges-refl low high arr)
  partition_loop-Looped high (suc n) j i' arr e l le s = elim (Bool-cases (ltb (arr j) pi)) [
    | inl t ↦
        let (s', l', le', r) =
          partition_loop-Looped high n (j + 1) (i' + 1) (swap arr i' j) (omega arith) (omega arith)
            (omega arith) (swap-Split i' j arr l le s (ground arith)) in
        rw (t, partition_loop)
          (
            s',
            l',
            le',
            Rearranges-trans
                (swap-Rearranges low high i' j arr l (omega arith) (omega arith) (omega arith)) r,
          )
    | inr t ↦
        rw (t, partition_loop)
          (partition_loop-Looped high n (j + 1) i' arr (omega arith) l (omega arith)
            (Split-next i' j arr s (ground arith)))
  ]

swap_last_pivot : (pi i' high : ℕ) (arr : Array) → arr high ≡ pi → swap arr i' high i' ≡ pi
unfolding swap
swap_last_pivot pi i' high arr e = ground arith

swap_last_small :
    (pi low i' high : ℕ) (arr : Array)
    → Split pi low i' high arr
    → i' ≤ high
    → (k : ℕ) → low ≤ k
    → k < i'
    → swap arr i' high k < pi
unfolding swap
swap_last_small pi low i' high arr s le k lk hk = ground (arith, s.small k)

swap_last_big :
    (pi low i' high : ℕ) (arr : Array)
    → Split pi low i' high arr
    → i' ≤ high
    → arr high ≡ pi
    → (k : ℕ) → i' ≤ k
    → k < high + 1
    → pi ≤ swap arr i' high k
unfolding swap
swap_last_big pi low i' high arr s le e k lk hk = ground (arith, s.big k, s.big i')

-- What `partition` owes for the range from `low` up to `high`: the pivot, which stood at `high`, is
-- at the index that is returned, with smaller values before it and no smaller one behind.
pub record IsPartition (low high : ℕ) (arr arr' : Array) (p : ℕ) : Type 0 where
  pub lower : low ≤ p
  pub upper : p ≤ high
  pub pivot : arr' p ≡ arr high
  pub small : (k : ℕ) → low ≤ k → k < p → arr' k < arr high
  pub big : (k : ℕ) → p ≤ k → k < high + 1 → arr high ≤ arr' k
  pub moved : Rearranges low (high + 1) arr arr'

-- For every array and a range that is not empty: `partition` returns an index in the range at which the
-- value that stood last is now, with smaller values before it and no smaller ones behind; the values of
-- the range are those from before, each as often, and the rest of the array is untouched.
pub partition-IsPartition :
    (low high : ℕ) (arr : Array)
    → low ≤ high
    → let r = partition arr low high in IsPartition low high arr r.0 r.1
unfolding partition
partition-IsPartition low high arr le =
    let r = partition_loop (arr high) (high - low) low low arr in
    let arr' = r.0 in
    let i' = r.1 in
    let (s, l, le', re) =
      partition_loop-Looped (arr high) low high (high - low) low low arr (omega arith) (omega arith)
        (omega arith)
        (record {
          small = λ k lk hk. absurd (omega arith);
          big = λ k lk hk. absurd (omega arith);
        }) in
    let top : arr' high ≡ arr high = re.behind high (omega arith) in
    record {
      lower = l;
      upper = le';
      pivot = swap_last_pivot (arr high) i' high arr' top;
      small = swap_last_small (arr high) low i' high arr' s le';
      big = swap_last_big (arr high) low i' high arr' s le' top;
      moved =
          Rearranges-trans (Rearranges-widen low high low (high + 1) re (omega arith) (omega arith))
            (swap-Rearranges low (high + 1) i' high arr' l (omega arith) le (omega arith));
    }
