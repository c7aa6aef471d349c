-- ===== src/Support/Qsort/Rearranges.antt =====
-- What a sort may do to an array: move values about within a range.
use bsqgc.Prelude.{
  ℕ, zero, suc, ◌+◌, ◌≤◌, ◌<◌, ◌≡◌, inl, inr, refl, ◌∙◌, arith, ◌==◌, if◌then◌else◌, Bool-cases,
  ltb,
}
use bsqgc.Common.{store}
use bsqgc.Support.Qsort.{Array, swap}

-- How often a value stands among the first `n` places.
abbrev pub occurrences : (v n : ℕ) → Array → ℕ
occurrences v zero arr = 0
occurrences v (suc n) arr = (if arr n == v then 1 else 0) + occurrences v n arr

-- From `a` to `b` only the places from `low` to below `stop` change, each of them holds a value that
-- stood in one of them before, and no value has become more or less frequent.
pub record Rearranges (low stop : ℕ) (a b : Array) : Type 0 where
  pub before : (j : ℕ) → j < low → b j ≡ a j
  pub behind : (j : ℕ) → stop ≤ j → b j ≡ a j
  pub from : (j : ℕ) → low ≤ j → j < stop → (k : ℕ) × (low ≤ k) × (k < stop) × (b j ≡ a k)
  pub counts : (v n : ℕ) → stop ≤ n → occurrences v n b ≡ occurrences v n a

pub Rearranges-refl : (low stop : ℕ) (a : Array) → Rearranges low stop a a
Rearranges-refl low stop a = record {
  before = λ j h. refl;
  behind = λ j h. refl;
  from = λ j l s. (j, l, s, refl);
  counts = λ v n h. refl;
}

pub Rearranges-trans :
    {low stop : ℕ} {a b c : Array}
    → Rearranges low stop a b
    → Rearranges low stop b c
    → Rearranges low stop a c
Rearranges-trans p q = record {
  before = λ j h. q.before j h ∙ p.before j h;
  behind = λ j h. q.behind j h ∙ p.behind j h;
  from = λ j l s.
      let (k, lk, sk, e) = q.from j l s in
      let (k', lk', sk', e') = p.from k lk sk in (k', lk', sk', e ∙ e');
  counts = λ v n h. q.counts v n h ∙ p.counts v n h;
}

-- A wider range allows more.
pub Rearranges-widen :
    {a b : Array} (low stop low' stop' : ℕ)
    → Rearranges low stop a b
    → low' ≤ low
    → stop ≤ stop'
    → Rearranges low' stop' a b
Rearranges-widen {a} {b} low stop low' stop' p l s = record {
  before = λ j h. p.before j (omega arith);
  behind = λ j h. p.behind j (omega arith);
  from = from;
  counts = λ v n h. p.counts v n (omega arith);
}
  where
    from : (j : ℕ) → low' ≤ j → j < stop' → (k : ℕ) × (low' ≤ k) × (k < stop') × (b j ≡ a k)
    from j lj sj = elim (Bool-cases (ltb j low)) [
      | inl e ↦ (j, lj, sj, p.before j (ground arith))
      | inr e ↦ elim (Bool-cases (ltb j stop)) [
        | inl e' ↦
            let (k, lk, sk, q) = p.from j (ground arith) (ground arith) in
            (k, omega arith, omega arith, q)
        | inr e' ↦ (j, lj, sj, p.behind j (ground arith))
      ]
    ]

occurrences-store_behind :
    (v n i x : ℕ) (a : Array) → n ≤ i → occurrences v n (store a i x) ≡ occurrences v n a
occurrences-store_behind v zero i x a h = refl
occurrences-store_behind v (suc n) i x a h =
    ground (arith, occurrences-store_behind v n i x a (omega arith))

-- A write replaces one occurrence by another.
occurrences-store :
    (v n i x : ℕ) (a : Array)
    → i < n
    → occurrences v n (store a i x) + (if a i == v then 1 else 0)
      ≡ occurrences v n a + (if x == v then 1 else 0)
occurrences-store v zero i x a h = elim h [ ]
occurrences-store v (suc n) i x a h = elim (Bool-cases (i == n)) [
  | inl e ↦ ground (arith, occurrences-store_behind v n i x a (ground arith))
  | inr e ↦ ground (arith, occurrences-store v n i x a (ground arith))
]

swap-counts :
    (v n i j : ℕ) (a : Array) → i < n → j < n → occurrences v n (swap a i j) ≡ occurrences v n a
unfolding swap
swap-counts v n i j a hi hj =
    ground (
      arith,
      occurrences-store v n i (a j) a hi,
      occurrences-store v n j (a i) (store a i (a j)) hj,
    )

pub swap-Rearranges :
    (low stop i j : ℕ) (a : Array)
    → low ≤ i
    → i < stop
    → low ≤ j
    → j < stop
    → Rearranges low stop a (swap a i j)
unfolding swap
swap-Rearranges low stop i j a li si lj sj = record {
  before = λ k h. ground arith;
  behind = λ k h. ground arith;
  from = from;
  counts = λ v n h. swap-counts v n i j a (omega arith) (omega arith);
}
  where
    from : (k : ℕ) → low ≤ k → k < stop → (m : ℕ) × (low ≤ m) × (m < stop) × (swap a i j k ≡ a m)
    from k lk sk = elim (Bool-cases (j == k)) [
      | inl e ↦ (i, li, si, rw e refl)
      | inr e ↦ elim (Bool-cases (i == k)) [
        | inl e' ↦ (j, lj, sj, rw (e, e') refl)
        | inr e' ↦ (k, lk, sk, rw (e, e') refl)
      ]
    ]
