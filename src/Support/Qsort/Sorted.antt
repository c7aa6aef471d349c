-- ===== src/Support/Qsort/Sorted.antt =====
-- qsort (src/runtime/support/qsort.h): its end and its result.
use bsqgc.Prelude.{
  ℕ, zero, suc, ◌+◌, ◌-◌, ◌≤◌, ◌<◌, ◌≡◌, inl, inr, refl, ◌∙◌, arith, ◌==◌, Bool-cases, ltb, some,
}
use bsqgc.Support.Qsort.{Array, partition, qsort}
use bsqgc.Support.Qsort.Rearranges.{Rearranges, Rearranges-refl, Rearranges-trans, Rearranges-widen}
use bsqgc.Support.Qsort.Partition.{IsPartition, partition-IsPartition}

-- The places from `low` to below `stop` ascend.
abbrev pub IsSorted : (low stop : ℕ) → Array → Type 0
IsSorted low stop arr = (j k : ℕ) → low ≤ j → j ≤ k → k < stop → arr j ≤ arr k

-- A bound on the values of a range outlives a rearrangement of it.
Rearranges-lt :
    (low stop x : ℕ) {a b : Array}
    → Rearranges low stop a b
    → ((k : ℕ) → low ≤ k → k < stop → a k < x)
    → (k : ℕ) → low ≤ k
    → k < stop
    → b k < x
Rearranges-lt low stop x r h k l s =
    let (m, lm, sm, e) = r.from k l s in let lt = h m lm sm in omega arith

Rearranges-ge :
    (low stop x : ℕ) {a b : Array}
    → Rearranges low stop a b
    → ((k : ℕ) → low ≤ k → k < stop → x ≤ a k)
    → (k : ℕ) → low ≤ k
    → k < stop
    → x ≤ b k
Rearranges-ge low stop x r h k l s =
    let (m, lm, sm, e) = r.from k l s in let le = h m lm sm in omega arith

-- Two sorted ranges with a value between them that separates them.
module _ (low p stop x : ℕ) (arr : Array) (left : IsSorted low p arr)
    (right : IsSorted (p + 1) stop arr) (mid : arr p ≡ x)
    (small : (k : ℕ) → low ≤ k → k < p → arr k < x)
    (big : (k : ℕ) → p + 1 ≤ k → k < stop → x ≤ arr k) where
  joined-IsSorted : IsSorted low stop arr
  joined-IsSorted j k lj le sk = elim (Bool-cases (ltb k p)) [
    | inl e ↦ left j k lj le (ground arith)
    | inr e ↦ elim (Bool-cases (ltb p j)) [
      | inl e' ↦ right j k (ground arith) le sk
      | inr e' ↦ across (ground arith) (ground arith)
    ]
  ]
    where
      upper : p ≤ k → x ≤ arr k
      upper h = elim (Bool-cases (p == k)) [
        | inl e ↦ ground arith
        | inr e ↦ big k (ground arith) sk
      ]

      across : p ≤ k → j ≤ p → arr j ≤ arr k
      across h h' = elim (Bool-cases (ltb j p)) [
        | inl e ↦ ground (arith, small j, upper)
        | inr e ↦ ground (arith, upper)
      ]

-- With the array split at `p` and the two parts sorted one after the other.
combine :
    (low stop p : ℕ) (arr a b c : Array)
    → low + 1 < stop
    → IsPartition low (stop - 1) arr a p
    → Rearranges low p a b
    → IsSorted low p b
    → Rearranges (p + 1) stop b c
    → IsSorted (p + 1) stop c
    → Rearranges low stop arr c × IsSorted low stop c
combine low stop p arr a b c h part rb sb rc sc =
    let x = arr (stop - 1) in
    let lt = Rearranges-lt low p x rb part.small in
    let ge = Rearranges-ge (p + 1) stop x rc λ k l s.
      let le = part.big k (omega arith) (omega arith) in
      let e = rb.behind k (omega arith) in omega arith in
    let first =
      Rearranges-widen low (stop - 1 + 1) low stop part.moved (omega arith) (omega arith) in
    let second = Rearranges-widen low p low stop rb (omega arith) (omega (arith, part.upper)) in
    let third =
      Rearranges-widen (p + 1) stop low stop rc (omega (arith, part.lower)) (omega arith) in
    (
      Rearranges-trans first (Rearranges-trans second third),
      joined-IsSorted low p stop x c
          (λ j k l le s.
            omega (arith, rc.before j (omega arith), rc.before k (omega arith), sb j k l le s))
          sc (rc.before p (omega arith) ∙ rb.behind p (omega arith) ∙ part.pivot)
          (λ k l s. omega (arith, rc.before k (omega arith), lt k l s)) ge,
    )

-- For every array and range, and fuel above the length of the range, `qsort` gives an array; in it the
-- range is sorted, its values are those that were in the range, each as often as before, and the rest
-- of the array is untouched.
pub qsort-IsSorted :
    (fuel low stop : ℕ) (arr : Array)
    → stop - low < fuel
    → (b : Array) × (qsort fuel arr low stop ≡ some b)
      × Rearranges low stop arr b
      × IsSorted low stop b
unfolding qsort
qsort-IsSorted zero low stop arr h = absurd (omega arith)
qsort-IsSorted (suc fuel) low stop arr h = elim (Bool-cases (ltb (low + 1) stop)) [
  | inl t ↦
      let r = partition arr low (stop - 1) in
      let part = partition-IsPartition low (stop - 1) arr (ground arith) in
      let (b, eb, rb, sb) = qsort-IsSorted fuel low r.1 r.0 (ground (arith, part.upper)) in
      let (c, ec, rc, sc) = qsort-IsSorted fuel (r.1 + 1) stop b (ground (arith, part.lower)) in
      let (m, s) = combine low stop r.1 arr r.0 b c (ground arith) part rb sb rc sc in
      (c, rw t (rw eb ec), m, s)
  | inr t ↦ (
    arr,
    rw t refl,
    Rearranges-refl low stop arr,
    λ j k l le s. let e : j ≡ k = ground arith in rw e (omega arith),
  )
]
