-- ===== src/Gc/Decrement/Exact.antt =====
-- The heap that processDecrements (src/runtime/memory/gc.cpp) works on, where reference counts are exact.
use bsqgc.Prelude.{
  ℕ, ◌+◌, ◌*◌, ◌<◌, ◌≤◌, ◌^◌, true, false, List, [], ◌∷◌, ◌==◌, ==_refl, if◌then◌else◌, ◌≡◌, ◌≢◌,
  refl, subst, inl, inr, Bool-cases, arith, All, occurrences,
}
use bsqgc.Memory.World.{World}
use bsqgc.Gc.Decrement.Heap.{IsHeap, children_in}

abbrev pub Listed : List ℕ → ℕ → Type 0
Listed os o = 0 < occurrences o os

pub All-occurrence :
    (P : ℕ → Type 0) (xs : List ℕ) → All P xs → (o : ℕ) → 0 < occurrences o xs → P o
unfolding occurrences
All-occurrence P [] h o lt = absurd (omega arith)
All-occurrence P (x ∷ xs) h o lt = elim (Bool-cases (x == o)) [
  | inl e ↦ let eq : x ≡ o = ground arith in subst P eq h.0
  | inr e ↦ All-occurrence P xs h.1 o (ground arith)
]

module _ {F : Type 0} where
  abbrev pub refs_from : World F → (p o : ℕ) → ℕ
  refs_from w p o = if (w.metas p).isalloc then occurrences o (children_in w p) else 0

  -- The references to an object from the allocated ones of a list.
  unfoldable pub refs : World F → List ℕ → ℕ → ℕ
  refs w [] o = 0
  refs w (p ∷ ps) o = refs_from w p o + refs w ps o

  -- The number of allocated objects of a list.
  unfoldable pub live : World F → List ℕ → ℕ
  live w [] = 0
  live w (p ∷ ps) = (if (w.metas p).isalloc then 1 else 0) + live w ps

  -- The objects `os`, none of them twice, are a heap; the count of each is the number of references to it from allocated objects,
  -- which point to allocated objects only; and pending are, once each, allocated objects without
  -- references, with all of these that are no roots.
  pub record IsExact (os : List ℕ) (w : World F) : Type 0 where
    pub heap : IsHeap (Listed os) w
    pub distinct : (o : ℕ) → occurrences o os ≤ 1
    pub bounded : (o : ℕ) → (w.metas o).ref_count < 2 ^ 32
    pub counts : (o : ℕ) → Listed os o → (w.metas o).ref_count ≡ refs w os o
    pub safe :
        (o p : ℕ)
        → Listed os p
        → (w.metas p).isalloc ≡ true
        → 0 < occurrences o (children_in w p)
        → (w.metas o).isalloc ≡ true
    pub once : (o : ℕ) → occurrences o w.tinfo.pending_decs ≤ 1
    pub ready :
        (o : ℕ)
        → 0 < occurrences o w.tinfo.pending_decs
        → ((w.metas o).isalloc ≡ true) × ((w.metas o).ref_count ≡ 0)
    pub found :
        (o : ℕ)
        → Listed os o
        → (w.metas o).isalloc ≡ true
        → (w.metas o).isroot ≡ false
        → (w.metas o).ref_count ≡ 0
        → 0 < occurrences o w.tinfo.pending_decs

  refs_le :
      (w : World F) (xs : List ℕ) (o p : ℕ)
      → 0 < occurrences p xs
      → (w.metas p).isalloc ≡ true
      → occurrences o (children_in w p) ≤ refs w xs o
  unfolding refs occurrences
  refs_le w [] o p lt al = absurd (omega arith)
  refs_le w (x ∷ xs) o p lt al = elim (Bool-cases (x == p)) [
    | inl e ↦
        let eq : x ≡ p = ground arith in
        let first : refs_from w x o ≡ occurrences o (children_in w p) = rw eq (rw al refl) in
        omega arith
    | inr e ↦ let ih = refs_le w xs o p (ground arith) al in omega arith
  ]

  pub live_pos :
      (w : World F) (xs : List ℕ) (p : ℕ)
      → 0 < occurrences p xs
      → (w.metas p).isalloc ≡ true
      → 0 < live w xs
  unfolding live occurrences
  live_pos w [] p lt al = absurd (omega arith)
  live_pos w (x ∷ xs) p lt al = elim (Bool-cases (x == p)) [
    | inl e ↦ let eq : x ≡ p = ground arith in rw eq (rw al (omega arith))
    | inr e ↦ let ih = live_pos w xs p (ground arith) al in omega arith
  ]

  -- An object has no more references from an allocated one than its count says.
  pub refs-ref_count :
      (os : List ℕ) (w : World F)
      → IsExact os w
      → (p : ℕ) → Listed os p
      → (w.metas p).isalloc ≡ true
      → (o : ℕ) → occurrences o (children_in w p) ≤ (w.metas o).ref_count
  refs-ref_count os w h p lp al o = elim (Bool-cases (occurrences o (children_in w p) == 0)) [
    | inl e ↦ ground arith
    | inr e ↦
        let lo : Listed os o =
          All-occurrence (Listed os) (children_in w p) (h.heap.closed p lp al) o (ground arith) in
        let c = h.counts o lo in let r = refs_le w os o p (omega arith) al in omega arith
  ]

  -- The references that are left where one object is unallocated and all else is as before.
  pub refs_without :
      (w w' : World F) (obj : ℕ) (xs : List ℕ) (o : ℕ)
      → (w.metas obj).isalloc ≡ true
      → (w'.metas obj).isalloc ≡ false
      → ((p : ℕ) → 0 < occurrences p xs → obj ≢ p → refs_from w' p o ≡ refs_from w p o)
      → refs w' xs o + occurrences obj xs * occurrences o (children_in w obj) ≡ refs w xs o
  unfolding refs occurrences
  refs_without w w' obj [] o al gone same = grind arith
  refs_without w w' obj (x ∷ xs) o al gone same =
      let ih = refs_without w w' obj xs o al gone (λ p lt ne. same p (ground arith) ne) in
      elim (Bool-cases (x == obj)) [
        | inl e ↦
            let eq : x ≡ obj = ground arith in
            let now : refs_from w' x o ≡ 0 = rw eq (rw gone refl) in
            let was : refs_from w x o ≡ occurrences o (children_in w obj) = rw eq (rw al refl) in
            rw e (grind arith)
        | inr e ↦
            let ne : obj ≢ x = ground arith in
            let s = same x (rw (==_refl x) (omega arith)) ne in rw e (omega arith)
      ]

  pub live_without :
      (w w' : World F) (obj : ℕ) (xs : List ℕ)
      → (w.metas obj).isalloc ≡ true
      → (w'.metas obj).isalloc ≡ false
      → ((p : ℕ) → obj ≢ p → (w'.metas p).isalloc ≡ (w.metas p).isalloc)
      → live w' xs + occurrences obj xs ≡ live w xs
  unfolding live occurrences
  live_without w w' obj [] al gone same = omega arith
  live_without w w' obj (x ∷ xs) al gone same =
      let ih = live_without w w' obj xs al gone same in
      elim (Bool-cases (x == obj)) [
        | inl e ↦ let eq : x ≡ obj = ground arith in rw e (rw eq (rw al (rw gone (omega arith))))
        | inr e ↦ let ne : obj ≢ x = ground arith in rw e (rw (same x ne) (omega arith))
      ]
