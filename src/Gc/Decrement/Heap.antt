-- ===== src/Gc/Decrement/Heap.antt =====
-- The heap that a round of the first loop of processDecrements (src/runtime/memory/gc.cpp) works on.
use bsqgc.Prelude.{
  ℕ, suc, ◌+◌, ◌*◌, ◌<◌, Bool, true, false, List, [], ◌∷◌, ◌==◌, ==_refl, ◌≡◌, ◌≢◌, refl, sym, ap,
  subst, ◌∙◌, inl, inr, Bool-cases, arith, Option, none, some, All, All-append, length,
}
use bsqgc.Common.{store, store_field, store_ne, gc_type}
use bsqgc.Memory.World.{World, memory_of}
use bsqgc.Gc.Evacuate.Forward.{masks_of}
use bsqgc.Gc.Decrement.{Decs, dec_slot, dec_children}
use bsqgc.Gc.Decrement.Counts.{pointers_of, dec_all, dec_slots-dec_all}
use bsqgc.Gc.Decrement.Freed.{IsPaged, entry_of, dec_children-All, freed, discounted_world}

-- A decrement changes no isalloc.
dec_all-isalloc :
    (vs : List ℕ) (t : Decs) (o : ℕ) → ((dec_all vs t).metas o).isalloc ≡ (t.metas o).isalloc
unfolding dec_all dec_slot
dec_all-isalloc [] t o = refl
dec_all-isalloc (v ∷ vs) t o =
    dec_all-isalloc vs (dec_slot v t) o ∙ store_field (λ h. h.isalloc) t.metas v _ o refl

dec_children-isalloc :
    (mask : Option (List ℕ)) (word : ℕ → ℕ) (obj : ℕ) (t : Decs) (o : ℕ)
    → ((dec_children mask word obj t).metas o).isalloc ≡ (t.metas o).isalloc
unfolding dec_children
dec_children-isalloc none word obj t o = refl
dec_children-isalloc (some masks) word obj t o =
    rw (dec_slots-dec_all masks word obj t) (dec_all-isalloc (pointers_of word masks obj) t o)

-- A write that is in none of the slots.
pointers_of-store :
    (word : ℕ → ℕ) (masks : List ℕ) (slot a v : ℕ)
    → ((k : ℕ) → k < length masks → a ≢ slot + 8 * k)
    → pointers_of (store word a v) masks slot ≡ pointers_of word masks slot
unfolding pointers_of
pointers_of-store word [] slot a v apart = refl
pointers_of-store word (m ∷ masks) slot a v apart =
    let ne : a ≢ slot = let h = apart 0 (omega arith) in omega arith in
    let rest =
      pointers_of-store word masks (slot + 8) a v
        (λ k lt. let h = apart (suc k) (omega arith) in omega arith) in
    rw (store_ne word a v slot ne) (rw rest refl)

not_both : (b : Bool) → b ≡ false → b ≡ true → ⊥
not_both b f t = ground arith

module _ {F : Type 0} where
  abbrev pub masks_in : World F → ℕ → List ℕ
  masks_in w o = masks_of (gc_type (memory_of w) o).ptr_mask

  abbrev pub children_in : World F → ℕ → List ℕ
  children_in w o = pointers_of w.word (masks_in w o) o

  -- The objects lie on pages, apart from one another; the allocated ones point to objects only, and the
  -- objects that wait for their decrements are such objects.
  pub record IsHeap (Obj : ℕ → Type 0) (w : World F) : Type 0 where
    pub paged : (o : ℕ) → Obj o → IsPaged o
    pub headed : (o : ℕ) → Obj o → entry_of o ≢ 0
    pub headers : (o p : ℕ) → Obj o → Obj p → o ≢ p → entry_of o ≢ entry_of p
    pub slots :
        (o p : ℕ)
        → Obj o
        → Obj p
        → (w.metas p).isalloc ≡ true
        → (k : ℕ) → k < length (masks_in w p)
        → entry_of o ≢ p + 8 * k
    pub closed : (o : ℕ) → Obj o → (w.metas o).isalloc ≡ true → All Obj (children_in w o)
    pub pending : All Obj w.tinfo.pending_decs

  pub freed-isalloc :
      (obj : ℕ) (w : World F) (o : ℕ)
      → obj ≢ o
      → ((freed obj (discounted_world obj w)).metas o).isalloc ≡ (w.metas o).isalloc
  unfolding freed discounted_world
  freed-isalloc obj w o ne =
      let mask = (gc_type (memory_of w) obj).ptr_mask in
      let before : Decs = record { metas = w.metas; dead = [] } in
      ap (λ m. m.isalloc) (store_ne (dec_children mask w.word obj before).metas obj _ o ne)
      ∙ dec_children-isalloc mask w.word obj before o

  pub freed-gone : (obj : ℕ) (w : World F) → ((freed obj w).metas obj).isalloc ≡ false
  unfolding freed
  freed-gone obj w = rw (==_refl obj) refl

  -- The words of a state behind a round: one is written.
  freed-word :
      (obj : ℕ) (w : World F) (a : ℕ)
      → entry_of obj ≢ a
      → (freed obj (discounted_world obj w)).word a ≡ w.word a
  unfolding freed discounted_world
  freed-word obj w a ne = store_ne w.word (entry_of obj) _ a ne

  freed-masks_in :
      (obj : ℕ) (w : World F) (o : ℕ)
      → entry_of obj ≢ entry_of o
      → masks_in (freed obj (discounted_world obj w)) o ≡ masks_in w o
  unfolding freed discounted_world
  freed-masks_in obj w o ne =
      ap (λ t. masks_of (w.type_info t).ptr_mask) (store_ne w.word (entry_of obj) _ (entry_of o) ne)

  pub freed-children_in :
      (obj : ℕ) (w : World F) (o : ℕ)
      → entry_of obj ≢ entry_of o
      → ((k : ℕ) → k < length (masks_in w o) → entry_of obj ≢ o + 8 * k)
      → children_in (freed obj (discounted_world obj w)) o ≡ children_in w o
  unfolding freed discounted_world
  freed-children_in obj w o ne apart =
      ap (λ ms. pointers_of (freed obj (discounted_world obj w)).word ms o)
        (freed-masks_in obj w o ne)
      ∙ pointers_of-store w.word (masks_in w o) o (entry_of obj) _ apart

  -- An object that is allocated afterwards was so before, and is not the one that was freed.
  live_before :
      (Obj : ℕ → Type 0) (obj : ℕ) (w : World F)
      → IsHeap Obj w
      → Obj obj
      → (o : ℕ) → Obj o
      → ((freed obj (discounted_world obj w)).metas o).isalloc ≡ true
      → (entry_of obj ≢ entry_of o) × ((w.metas o).isalloc ≡ true)
  live_before Obj obj w h ob o oo al = elim (Bool-cases (obj == o)) [
    | inl e ↦
        let eq : obj ≡ o = ground arith in
        absurd (
          not_both _
            (subst (λ u. ((freed obj (discounted_world obj w)).metas u).isalloc ≡ false) eq
              (freed-gone obj (discounted_world obj w)))
            al)
    | inr e ↦
        let ne : obj ≢ o = ground arith in
        (h.headers obj o ob oo ne, sym (freed-isalloc obj w o ne) ∙ al)
  ]

  pub freed-IsHeap :
      (Obj : ℕ → Type 0) (obj : ℕ) (w : World F)
      → IsHeap Obj w
      → Obj obj
      → (w.metas obj).isalloc ≡ true
      → IsHeap Obj (freed obj (discounted_world obj w))
  unfolding freed discounted_world
  freed-IsHeap Obj obj w h ob allocated =
      let w' = freed obj (discounted_world obj w) in
      let old : (o : ℕ)
          → Obj o
          → (w'.metas o).isalloc ≡ true
          → (entry_of obj ≢ entry_of o) × ((w.metas o).isalloc ≡ true) =
        λ o oo al. live_before Obj obj w h ob o oo al in
      record {
        paged = h.paged;
        headed = h.headed;
        headers = h.headers;
        slots = λ o p oo op al k lt.
            let (ne, was) = old p op al in
            h.slots o p oo op was k (subst (λ ms. k < length ms) (freed-masks_in obj w p ne) lt);
        closed = λ o oo al.
            let (ne, was) = old o oo al in
            subst (All Obj) (sym (freed-children_in obj w o ne (h.slots obj o ob oo was)))
              (h.closed o oo was);
        pending =
            All-append Obj w.tinfo.pending_decs _ h.pending
              (dec_children-All Obj _ w.word obj w.metas (h.closed obj ob allocated));
      }
