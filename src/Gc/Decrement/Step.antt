-- ===== src/Gc/Decrement/Step.antt =====
-- A round of the first loop of processDecrements (src/runtime/memory/gc.cpp) on a heap with exact counts.
use bsqgc.Prelude.{
  ℕ, ◌+◌, ◌-◌, ◌<◌, ◌≤◌, ◌^◌, Bool, true, false, List, [], ◌∷◌, ◌==◌, ==_refl, if◌then◌else◌, ◌≡◌,
  ◌≢◌, refl, ap, sym, subst, ◌∙◌, inl, inr, Bool-cases, arith, All-mono, occurrences,
  occurrences-append, length, length-append, suc,
}
use bsqgc.Common.{store_field, gc_type}
use bsqgc.Memory.Page.{extract_page_from_pointer}
use bsqgc.Memory.World.{next_place, World, ok, memory_of}
use bsqgc.Gc.Decrement.{Decs, decrement_object, dec_children}
use bsqgc.Gc.Decrement.Counts.{loses_all, dec_children-IsDecremented}
use bsqgc.Gc.Decrement.Freed.{freed, discounted_world, decrement_object_run, IsPaged}
use bsqgc.Gc.Decrement.Heap.{
  IsHeap, children_in, freed-isalloc, freed-gone, freed-children_in, freed-IsHeap,
}
use bsqgc.Gc.Decrement.Loop.{popped, popped-IsHeap}
use bsqgc.Gc.Decrement.Exact.{Listed, refs_from, IsExact, refs-ref_count}

true_or_false : (b : Bool) → b ≡ true → b ≡ false → ⊥
true_or_false b t f = ground arith

module _ {F : Type 0} where
  abbrev pub after : World F → ℕ → World F
  after w obj = freed obj (discounted_world obj w)

  -- What a round does to the counts: less by the references from the object that is freed.
  record IsLess (obj : ℕ) (w w' : World F) : Type 0 where
    count :
        (o : ℕ)
        → ((w'.metas o).ref_count + occurrences o (children_in w obj) ≡ (w.metas o).ref_count)
          × ((w'.metas o).isroot ≡ (w.metas o).isroot)
    pending :
        (o : ℕ)
        → occurrences o w'.tinfo.pending_decs
          ≡ occurrences o w.tinfo.pending_decs
            + (if loses_all (w.metas o) (occurrences o (children_in w obj)) then 1 else 0)

  after-IsLess :
      (obj : ℕ) (w : World F)
      → ((o : ℕ)
          → (occurrences o (children_in w obj) ≤ (w.metas o).ref_count)
            × ((w.metas o).ref_count < 2 ^ 32))
      → IsLess obj w (after w obj)
  unfolding freed discounted_world occurrences
  after-IsLess obj w bound =
      let mask = (gc_type (memory_of w) obj).ptr_mask in
      let before : Decs = record { metas = w.metas; dead = [] } in
      let t = dec_children mask w.word obj before in
      let d = dec_children-IsDecremented mask w.word obj before bound in
      record {
        count = λ o.
            let b = (bound o).0 in
            let c : ((after w obj).metas o).ref_count
                ≡ (w.metas o).ref_count - occurrences o (children_in w obj) =
              store_field (λ h. h.ref_count) t.metas obj _ o refl
              ∙ ap (λ h. h.ref_count) (d.counts o) in
            (
              omega arith,
              store_field (λ h. h.isroot) t.metas obj _ o refl ∙ ap (λ h. h.isroot) (d.counts o),
            );
        pending = λ o.
            occurrences-append o w.tinfo.pending_decs t.dead
            ∙ ap (λ n. occurrences o w.tinfo.pending_decs + n) (d.dead o ∙ omega arith);
      }

  -- A round on the first pending object of an exact heap: what it takes, and what it changes.
  pub record IsStep (os : List ℕ) (obj : ℕ) (w w' : World F) : Type 0 where
    pub heap : IsHeap (Listed os) w'
    pub listed : Listed os obj
    pub allocated : (w.metas obj).isalloc ≡ true
    pub unreferenced : (w.metas obj).ref_count ≡ 0
    pub gone : (w'.metas obj).isalloc ≡ false
    pub same_alloc : (p : ℕ) → obj ≢ p → (w'.metas p).isalloc ≡ (w.metas p).isalloc
    pub was_allocated :
        (p : ℕ) → (w'.metas p).isalloc ≡ true → (obj ≢ p) × ((w.metas p).isalloc ≡ true)
    pub same_children :
        (p : ℕ)
        → Listed os p
        → obj ≢ p
        → (w.metas p).isalloc ≡ true
        → children_in w' p ≡ children_in w p
    pub same_refs : (o p : ℕ) → Listed os p → obj ≢ p → refs_from w' p o ≡ refs_from w p o
    pub count :
        (o : ℕ)
        → ((w'.metas o).ref_count + occurrences o (children_in w obj) ≡ (w.metas o).ref_count)
          × ((w'.metas o).isroot ≡ (w.metas o).isroot)
    pub pending :
        (o : ℕ)
        → occurrences o w'.tinfo.pending_decs + (if obj == o then 1 else 0)
          ≡ occurrences o w.tinfo.pending_decs
            + (if loses_all (w.metas o) (occurrences o (children_in w obj)) then 1 else 0)

  module _ (os : List ℕ) (obj : ℕ) (rest : List ℕ) (w₀ : World F)
      (e : w₀.tinfo.pending_decs ≡ obj ∷ rest) (h : IsExact os w₀) where
    abbrev pub start : World F
    start = popped w₀ rest

    waiting :
        (o : ℕ)
        → occurrences o w₀.tinfo.pending_decs ≡ (if obj == o then 1 else 0) + occurrences o rest
    unfolding occurrences
    waiting o = rw e refl

    in_heap : IsHeap (Listed os) start × Listed os obj
    in_heap = popped-IsHeap (Listed os) w₀ obj rest e h.heap

    at_once : ((w₀.metas obj).isalloc ≡ true) × ((w₀.metas obj).ref_count ≡ 0)
    at_once = h.ready obj (rw (waiting obj) (rw (==_refl obj) (omega arith)))

    fits : (o : ℕ) → occurrences o (children_in start obj) ≤ (w₀.metas o).ref_count
    unfolding popped
    fits o = refs-ref_count os w₀ h obj in_heap.1 at_once.0 o

    round-IsLess : IsLess obj start (after start obj)
    unfolding popped
    round-IsLess = after-IsLess obj start (λ o. (fits o, h.bounded o))

    gone_after : ((after start obj).metas obj).isalloc ≡ false
    gone_after = freed-gone obj (discounted_world obj start)

    same_alloc : (p : ℕ) → obj ≢ p → ((after start obj).metas p).isalloc ≡ (w₀.metas p).isalloc
    unfolding popped
    same_alloc p ne = freed-isalloc obj start p ne

    same_children :
        (p : ℕ)
        → Listed os p
        → obj ≢ p
        → (w₀.metas p).isalloc ≡ true
        → children_in (after start obj) p ≡ children_in w₀ p
    unfolding popped
    same_children p lp ne al =
        freed-children_in obj start p (in_heap.0.headers obj p in_heap.1 lp ne)
          (in_heap.0.slots obj p in_heap.1 lp al)

    same_refs :
        (o p : ℕ) → Listed os p → obj ≢ p → refs_from (after start obj) p o ≡ refs_from w₀ p o
    same_refs o p lp ne = elim (Bool-cases (w₀.metas p).isalloc) [
      | inl al ↦
          rw (same_alloc p ne) (rw al (ap (λ xs. occurrences o xs) (same_children p lp ne al)))
      | inr free ↦ rw (same_alloc p ne) (rw free refl)
    ]

    -- An allocated object behind the round was so before, and is another one.
    was_allocated :
        (p : ℕ)
        → ((after start obj).metas p).isalloc ≡ true
        → (obj ≢ p) × ((w₀.metas p).isalloc ≡ true)
    was_allocated p al = elim (Bool-cases (obj == p)) [
      | inl eq ↦
          let same : obj ≡ p = ground arith in
          let g = subst (λ u. ((after start obj).metas u).isalloc ≡ false) same gone_after in
          absurd (true_or_false _ al g)
      | inr ne ↦ let other : obj ≢ p = ground arith in (other, sym (same_alloc p other) ∙ al)
    ]

    pub first_round : IsStep os obj w₀ (after start obj)
    unfolding popped
    first_round = record {
      heap = freed-IsHeap (Listed os) obj start in_heap.0 in_heap.1 at_once.0;
      listed = in_heap.1;
      allocated = at_once.0;
      unreferenced = at_once.1;
      gone = gone_after;
      same_alloc = same_alloc;
      was_allocated = was_allocated;
      same_children = same_children;
      same_refs = same_refs;
      count = round-IsLess.count;
      pending = λ o. let l = round-IsLess.pending o in let w = waiting o in omega arith;
    }

    pub first_round_run : decrement_object obj start ≡ ok tt (after start obj)
    unfolding popped
    first_round_run =
        decrement_object_run obj start at_once.0 (h.heap.paged obj in_heap.1)
          (h.heap.headed obj in_heap.1)
          (All-mono (Listed os) IsPaged _ h.heap.paged (in_heap.0.closed obj in_heap.1 at_once.0))

    pub first_round_place :
        (after start obj).tinfo.pending_decs_place ≡ next_place w₀.tinfo.pending_decs_place
    unfolding popped freed discounted_world
    first_round_place = refl

    -- A round notes one page.
    pub first_round_noted :
        length (after start obj).tinfo.decremented_pages ≡ suc (length w₀.tinfo.decremented_pages)
    unfolding popped freed discounted_world
    first_round_noted =
        let e = length-append w₀.tinfo.decremented_pages (extract_page_from_pointer obj ∷ []) in
        omega arith
