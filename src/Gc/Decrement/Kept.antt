-- ===== src/Gc/Decrement/Kept.antt =====
-- A round of the first loop of processDecrements (src/runtime/memory/gc.cpp), and the exact counts behind it.
use bsqgc.Prelude.{
  ℕ, ◌+◌, ◌*◌, ◌<◌, ◌≤◌, Bool, true, false, List, ◌==◌, ==_refl, if◌then◌else◌, ◌≡◌, ◌≢◌, sym,
  subst, ◌∙◌, inl, inr, Bool-cases, arith, occurrences,
}
use bsqgc.Common.{MetaData}
use bsqgc.Memory.World.{World}
use bsqgc.Gc.Decrement.Counts.{loses_all}
use bsqgc.Gc.Decrement.Heap.{children_in}
use bsqgc.Gc.Decrement.Exact.{
  Listed, refs, live, IsExact, refs-ref_count, refs_without, live_without,
}
use bsqgc.Gc.Decrement.Step.{IsStep}

abbrev as_count : Bool → ℕ
as_count b = if b then 1 else 0

-- An object without references loses none, and one that loses all had some.
not_lost : (m : MetaData) (n : ℕ) → m.ref_count ≡ 0 → as_count (loses_all m n) ≡ 0
not_lost m n e = ground arith

lost_some : (m : MetaData) (n : ℕ) → 0 < as_count (loses_all m n) → (0 < n) × (m.ref_count ≡ n)
lost_some m n h = ground arith

lost :
    (m : MetaData) (n : ℕ)
    → m.isroot ≡ false
    → m.ref_count ≡ n
    → 0 < n
    → as_count (loses_all m n) ≡ 1
lost m n f e pos = ground arith

at_most_one : (b : Bool) → as_count b ≤ 1
at_most_one b = ground arith

module _ {F : Type 0} (os : List ℕ) (obj : ℕ) (w w' : World F) (h : IsExact os w)
    (s : IsStep os obj w w') where
  -- Whether a round adds an object to pending_decs.
  abbrev added : ℕ → ℕ
  added o = as_count (loses_all (w.metas o) (occurrences o (children_in w obj)))

  added_le : (o : ℕ) → added o ≤ 1
  added_le o = at_most_one (loses_all (w.metas o) (occurrences o (children_in w obj)))

  -- An object that is pending already is not added.
  not_added : (o : ℕ) → (w.metas o).ref_count ≡ 0 → added o ≡ 0
  not_added o z = not_lost (w.metas o) (occurrences o (children_in w obj)) z

  exact_counts : (o : ℕ) → Listed os o → (w'.metas o).ref_count ≡ refs w' os o
  exact_counts o lo =
      let one : occurrences obj os ≡ 1 =
        let d = h.distinct obj in let l = s.listed in omega arith in
      let r = refs_without w w' obj os o s.allocated s.gone (λ p lp ne. s.same_refs o p lp ne) in
      let r' : refs w' os o + 1 * occurrences o (children_in w obj) ≡ refs w os o =
        subst (λ k. refs w' os o + k * occurrences o (children_in w obj) ≡ refs w os o) one r in
      let c = (s.count o).0 in let was = h.counts o lo in omega arith

  -- The object that is freed has no references.
  no_refs :
      (p : ℕ) → Listed os p → (w.metas p).isalloc ≡ true → occurrences obj (children_in w p) ≡ 0
  no_refs p lp al =
      let le = refs-ref_count os w h p lp al obj in let z = s.unreferenced in omega arith

  exact_safe :
      (o p : ℕ)
      → Listed os p
      → (w'.metas p).isalloc ≡ true
      → 0 < occurrences o (children_in w' p)
      → (w'.metas o).isalloc ≡ true
  exact_safe o p lp al pos =
      let (ne, was) = s.was_allocated p al in
      let pos' = subst (λ xs. 0 < occurrences o xs) (s.same_children p lp ne was) pos in
      elim (Bool-cases (obj == o)) [
        | inl e ↦
            let eq : obj ≡ o = ground arith in
            let z : occurrences o (children_in w p) ≡ 0 =
              subst (λ u. occurrences u (children_in w p) ≡ 0) eq (no_refs p lp was) in
            absurd (omega arith)
        | inr e ↦
            let other : obj ≢ o = ground arith in s.same_alloc o other ∙ h.safe o p lp was pos'
      ]

  exact_once : (o : ℕ) → occurrences o w'.tinfo.pending_decs ≤ 1
  exact_once o =
      let step = s.pending o in
      elim (Bool-cases (occurrences o w.tinfo.pending_decs == 0)) [
        | inl e ↦ let le = added_le o in ground arith
        | inr e ↦
            let z = not_added o (h.ready o (ground arith)).1 in let le = h.once o in omega arith
      ]

  -- The object that is freed is not pending afterwards.
  not_pending : occurrences obj w'.tinfo.pending_decs ≡ 0
  not_pending =
      let step : occurrences obj w'.tinfo.pending_decs + 1
          ≡ occurrences obj w.tinfo.pending_decs + added obj =
        subst
          (λ b.
            occurrences obj w'.tinfo.pending_decs + (if b then 1 else 0)
            ≡ occurrences obj w.tinfo.pending_decs + added obj)
          (==_refl obj) (s.pending obj) in
      let z = not_added obj s.unreferenced in let le = h.once obj in omega arith

  other_pending :
      (o : ℕ)
      → obj ≢ o
      → occurrences o w'.tinfo.pending_decs ≡ occurrences o w.tinfo.pending_decs + added o
  other_pending o ne =
      let f : (obj == o) ≡ false = ground arith in
      let step =
        subst
          (λ b.
            occurrences o w'.tinfo.pending_decs + (if b then 1 else 0)
            ≡ occurrences o w.tinfo.pending_decs + added o)
          f (s.pending o) in
      omega arith

  exact_ready :
      (o : ℕ)
      → 0 < occurrences o w'.tinfo.pending_decs
      → ((w'.metas o).isalloc ≡ true) × ((w'.metas o).ref_count ≡ 0)
  exact_ready o pos =
      let c = (s.count o).0 in
      let ne : obj ≢ o = λ eq.
        let z = subst (λ u. occurrences u w'.tinfo.pending_decs ≡ 0) eq not_pending in
        absurd (omega arith) in
      let p = other_pending o ne in
      elim (Bool-cases (occurrences o w.tinfo.pending_decs == 0)) [
        | inl e ↦
            let z : occurrences o w.tinfo.pending_decs ≡ 0 = ground arith in
            let (some_ref, all) =
              lost_some (w.metas o) (occurrences o (children_in w obj)) (omega arith) in
            (s.same_alloc o ne ∙ h.safe o obj s.listed s.allocated some_ref, omega arith)
        | inr e ↦ let (al, z) = h.ready o (ground arith) in (s.same_alloc o ne ∙ al, omega arith)
      ]

  exact_found :
      (o : ℕ)
      → Listed os o
      → (w'.metas o).isalloc ≡ true
      → (w'.metas o).isroot ≡ false
      → (w'.metas o).ref_count ≡ 0
      → 0 < occurrences o w'.tinfo.pending_decs
  exact_found o lo al root none =
      let (ne, was) = s.was_allocated o al in
      let c = (s.count o).0 in
      let root' = sym (s.count o).1 ∙ root in
      let p = other_pending o ne in
      elim (Bool-cases (occurrences o (children_in w obj) == 0)) [
        | inl e ↦
            let z : (w.metas o).ref_count ≡ 0 = ground arith in
            let f = h.found o lo was root' z in omega arith
        | inr e ↦
            let all : (w.metas o).ref_count ≡ occurrences o (children_in w obj) = omega arith in
            let one =
              lost (w.metas o) (occurrences o (children_in w obj)) root' all (ground arith) in
            omega arith
      ]

  -- A round keeps the counts exact.
  pub step-IsExact : IsExact os w'
  step-IsExact = record {
    heap = s.heap;
    distinct = h.distinct;
    bounded = λ o. let b = h.bounded o in let c = (s.count o).0 in omega arith;
    counts = exact_counts;
    safe = exact_safe;
    once = exact_once;
    ready = exact_ready;
    found = exact_found;
  }

  -- A round leaves one allocated object less.
  pub step-live : live w' os + 1 ≡ live w os
  step-live =
      let l = live_without w w' obj os s.allocated s.gone s.same_alloc in
      let d = h.distinct obj in let k = s.listed in omega arith
