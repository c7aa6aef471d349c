-- ===== src/Gc/Decrement/Settled.antt =====
-- The first loop of processDecrements (src/runtime/memory/gc.cpp) over all of its rounds, with exact counts.
use bsqgc.Prelude.{
  ◌+◌, false, ◌<◌, ℕ, zero, suc, ◌≤◌, true, List, [], ◌∷◌, ◌==◌, ◌≡◌, refl, ◌∙◌, inl, inr,
  Bool-cases, arith, occurrences, List-cases, length, ◌⊎◌,
}
use bsqgc.Memory.World.{pops_last_place, World, Returns, Returns-mono}
use bsqgc.Gc.Decrement.{decrement_loop}
use bsqgc.Gc.Decrement.Loop.{popped, loop_end, loop_round}
use bsqgc.Gc.Decrement.Exact.{Listed, live, IsExact, live_pos}
use bsqgc.Gc.Decrement.Kept.{step-IsExact, step-live}
use bsqgc.Gc.Decrement.Step.{
  after, first_round, first_round_run, first_round_place, first_round_noted,
}

inside_place : (place : ℕ) (rest : List ℕ) → place < 508 → pops_last_place place rest ≡ false
unfolding pops_last_place
inside_place place [] lt = ground arith
inside_place place (o ∷ os) lt = refl

module _ {F : Type 0} where
  -- pending_decs can take every allocated object before its first element comes to the last place of a segment.
  abbrev pub HasRoom : List ℕ → World F → Type 0
  HasRoom os w = w.tinfo.pending_decs_place + live w os ≤ 508

  -- What `n` rounds come to.
  pub record IsSettled (os : List ℕ) (w' : World F) : Type 0 where
    pub exact : IsExact os w'
    pub empty : w'.tinfo.pending_decs ≡ []
    pub referenced :
        (o : ℕ)
        → Listed os o
        → (w'.metas o).isalloc ≡ true
        → (w'.metas o).isroot ≡ false
        → 0 < (w'.metas o).ref_count

  -- As many pages are noted as objects are freed, and at most one in a round; fewer only where none is pending.
  pub record IsCounted (os : List ℕ) (n : ℕ) (w w' : World F) : Type 0 where
    pub noted :
        length w'.tinfo.decremented_pages + live w' os
        ≡ length w.tinfo.decremented_pages + live w os
    pub at_most : live w os ≤ live w' os + n
    pub all_rounds : (live w os ≡ live w' os + n) ⊎ (w'.tinfo.pending_decs ≡ [])

  record IsRun (os : List ℕ) (n : ℕ) (w w' : World F) : Type 0 where
    exact : IsExact os w'
    empty : live w os ≤ n → w'.tinfo.pending_decs ≡ []
    counted : IsCounted os n w w'

  round_run :
      (os : List ℕ) (n : ℕ) (w : World F) (o : ℕ) (rest : List ℕ)
      → w.tinfo.pending_decs ≡ o ∷ rest
      → pops_last_place w.tinfo.pending_decs_place rest ≡ false
      → IsExact os w
      → decrement_loop (suc n) w ≡ decrement_loop n (after (popped w rest) o)
  round_run os n w o rest e inside h =
      loop_round n w o rest e inside ∙ rw (first_round_run os o rest w e h) refl

  pending_live :
      (os : List ℕ) (w : World F) (o : ℕ) (rest : List ℕ)
      → w.tinfo.pending_decs ≡ o ∷ rest
      → IsExact os w
      → 0 < live w os
  pending_live os w o rest e h =
      let s = first_round os o rest w e h in live_pos w os o s.listed s.allocated

  next_counted :
      (os : List ℕ) (n : ℕ) (w w1 w' : World F)
      → live w1 os + 1 ≡ live w os
      → length w1.tinfo.decremented_pages ≡ suc (length w.tinfo.decremented_pages)
      → IsCounted os n w1 w'
      → IsCounted os (suc n) w w'
  next_counted os n w w1 w' less noted c =
      let a = c.noted in
      let b = c.at_most in
      record {
        noted = omega arith;
        at_most = omega arith;
        all_rounds = elim c.all_rounds [ inl e ↦ inl (omega arith) | inr e ↦ inr e ];
      }

  decrement_loop-IsRun :
      (os : List ℕ) (n : ℕ) (w : World F)
      → IsExact os w
      → HasRoom os w
      → Returns (λ (u : Unit {0}) (w' : World F). IsRun os n w w') (decrement_loop n w)
  unfolding Returns decrement_loop
  decrement_loop-IsRun os zero w h room = record {
    exact = h;
    empty = λ le. elim (List-cases w.tinfo.pending_decs) [
      | inl e ↦ e
      | inr (o, rest, e) ↦ let pos = pending_live os w o rest e h in absurd (omega arith)
    ];
    counted = record { noted = refl; at_most = omega arith; all_rounds = inl (omega arith) };
  }
  decrement_loop-IsRun os (suc n) w h room = elim (List-cases w.tinfo.pending_decs) [
    | inl e ↦ rw (loop_end n w e) (record {
      exact = h;
      empty = λ le. e;
      counted = record { noted = refl; at_most = omega arith; all_rounds = inr e };
    })
    | inr (o, rest, e) ↦
        let w1 = after (popped w rest) o in
        let s = first_round os o rest w e h in
        let less = step-live os o w w1 h s in
        let pos = pending_live os w o rest e h in
        let inside = inside_place w.tinfo.pending_decs_place rest (omega arith) in
        let moved = first_round_place os o rest w e h in
        let noted = first_round_noted os o rest w e h in
        rw (round_run os n w o rest e inside h) (
          Returns-mono (λ u w'. IsRun os n w1 w') (λ u w'. IsRun os (suc n) w w')
            (decrement_loop n w1)
            (λ u w' r. record {
              exact = r.exact;
              empty = λ le. r.empty (omega arith);
              counted = next_counted os n w w1 w' less noted r.counted;
            })
            (decrement_loop-IsRun os n w1 (step-IsExact os o w w1 h s) (omega arith)))
  ]

  -- The first loop of processDecrements on a heap of objects that lie apart from one another on pages, in which the
  -- count of every object is the number of references to it from allocated objects, these point to
  -- allocated objects of the heap only, and pending are, once each, allocated objects without references,
  -- with all of these that are no roots; and in which pending_decs can take every allocated object before its
  -- first element comes to the last place of a segment: with any number of rounds it returns, and all this holds again; so
  -- no allocated object points to one that was freed.
  pub decrement_loop-IsExact :
      (os : List ℕ) (n : ℕ) (w : World F)
      → IsExact os w
      → HasRoom os w
      → Returns (λ (u : Unit {0}) (w' : World F). IsExact os w') (decrement_loop n w)
  decrement_loop-IsExact os n w h room =
      Returns-mono (λ u w'. IsRun os n w w') (λ u w'. IsExact os w') (decrement_loop n w)
        (λ u w' r. r.exact) (decrement_loop-IsRun os n w h room)

  unreferenced_pending :
      (os : List ℕ) (w : World F)
      → IsExact os w
      → w.tinfo.pending_decs ≡ []
      → (o : ℕ) → Listed os o
      → (w.metas o).isalloc ≡ true
      → (w.metas o).isroot ≡ false
      → 0 < (w.metas o).ref_count
  unfolding occurrences
  unreferenced_pending os w h e o lo al root = elim (Bool-cases ((w.metas o).ref_count == 0)) [
    | inl z ↦
        let p = h.found o lo al root (ground arith) in
        let none : occurrences o w.tinfo.pending_decs ≡ 0 = rw e refl in absurd (omega arith)
    | inr z ↦ ground arith
  ]

  -- The same loop on such a heap, with as many rounds as there are allocated objects: it returns with the counts
  -- exact, nothing is pending any more, and every allocated object that is no root has a reference.
  pub decrement_loop-IsSettled :
      (os : List ℕ) (n : ℕ) (w : World F)
      → IsExact os w
      → HasRoom os w
      → live w os ≤ n
      → Returns (λ (u : Unit {0}) (w' : World F). IsSettled os w') (decrement_loop n w)
  decrement_loop-IsSettled os n w h room le =
      Returns-mono (λ u w'. IsRun os n w w') (λ u w'. IsSettled os w') (decrement_loop n w)
        (λ u w' r. record {
          exact = r.exact;
          empty = r.empty le;
          referenced = unreferenced_pending os w' r.exact (r.empty le);
        })
        (decrement_loop-IsRun os n w h room)

  -- The same loop on such a heap: it notes as many pages as it frees objects; these are at most one for each round,
  -- and exactly one for each unless nothing is pending in the end.
  pub decrement_loop-IsCounted :
      (os : List ℕ) (n : ℕ) (w : World F)
      → IsExact os w
      → HasRoom os w
      → Returns (λ (u : Unit {0}) (w' : World F). IsCounted os n w w') (decrement_loop n w)
  decrement_loop-IsCounted os n w h room =
      Returns-mono (λ u w'. IsRun os n w w') (λ u w'. IsCounted os n w w') (decrement_loop n w)
        (λ u w' r. r.counted) (decrement_loop-IsRun os n w h room)
