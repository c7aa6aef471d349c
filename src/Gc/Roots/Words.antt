-- ===== src/Gc/Roots/Words.antt =====
-- The check of a list of words in walkStack (src/runtime/memory/gc.cpp): the roots and what is listed.
use mathlib.Core.List.{append-nil}
use bsqgc.Prelude.{
  ℕ, ◌≡◌, ◌↔◌, ◌∙◌, refl, sym, subst, true, false, ◌&&◌, inl, inr, List, [], ◌∷◌, ◌++◌, arith,
  if◌then◌else◌, Bool-cases, ◌⊎◌, In, here, In-inv, In-append_left, In-append_right, In-append_inv,
}
use bsqgc.Common.{Metas, MetaData, gc_should_process_as_root}
use bsqgc.Support.PageTable.{PageTableInUseInfo}
use bsqgc.Memory.Page.{PageInfo}
use bsqgc.Gc.Mark.Counted.{times, times-append}
use bsqgc.Gc.Roots.{
  RootWalk, mark_root, is_candidate, candidate, check_potential_ptr, check_words, RootSource,
  global_words, load_native_root_set, walk_stack,
}

-- Each root stands once in `roots`, each young one once in `pending_roots`, and nothing else does.
pub record IsListed (t : RootWalk) : Type 0 where
  pub roots_once : (o : ℕ) → times o t.roots ≡ (if (t.metas o).isroot then 1 else 0)
  pub pending_once :
      (o : ℕ)
      → times o t.pending_roots ≡ (if (t.metas o).isroot && (t.metas o).isyoung then 1 else 0)

-- No field of a header but `isroot` differs.
abbrev pub SameButRoot : MetaData → MetaData → Type 0
SameButRoot m m' =
    (m'.isalloc ≡ m.isalloc)
    × (m'.isyoung ≡ m.isyoung)
    × (m'.ismarked ≡ m.ismarked)
    × (m'.forward_index ≡ m.forward_index)
    × (m'.ref_count ≡ m.ref_count)

mark_root-IsListed :
    (obj : ℕ) (t : RootWalk)
    → IsListed t
    → gc_should_process_as_root (t.metas obj) ≡ true
    → IsListed (mark_root (t.metas obj).isyoung obj t)
unfolding mark_root
mark_root-IsListed obj t l h = record {
  roots_once = λ o. ground (arith, l.roots_once o, l.roots_once obj, times-append o obj t.roots);
  pending_once =
      λ o. ground (arith, l.pending_once o, l.pending_once obj, times-append o obj t.pending_roots);
}

module _ {F : Type 0} (table : PageTableInUseInfo) (pages : ℕ → PageInfo F) where
  check_potential_ptr-IsListed :
      (w : ℕ) (t : RootWalk) → IsListed t → IsListed (check_potential_ptr table pages w t)
  unfolding check_potential_ptr
  check_potential_ptr-IsListed w t l = elim (Bool-cases (is_candidate table pages w)) [
    | inl c ↦
        rw c (elim (Bool-cases (gc_should_process_as_root (t.metas (candidate table pages w)))) [
          | inl h ↦ rw h (mark_root-IsListed (candidate table pages w) t l h)
          | inr h ↦ rw h l
        ])
    | inr c ↦ rw c l
  ]

  -- The word is a pointer to the object, which is allocated.
  pub record Refers (ms : Metas) (w o : ℕ) : Type 0 where
    pub managed : is_candidate table pages w ≡ true
    pub target : candidate table pages w ≡ o
    pub alloc : (ms o).isalloc ≡ true

  -- One word: the headers keep all but `isroot`, which is set where it was or where the word refers.
  check_same :
      (w o : ℕ) (t : RootWalk)
      → SameButRoot (t.metas o) ((check_potential_ptr table pages w t).metas o)
  unfolding check_potential_ptr mark_root
  check_same w o t = ground arith

  check_keeps :
      (w o : ℕ) (t : RootWalk)
      → (t.metas o).isroot ≡ true
      → ((check_potential_ptr table pages w t).metas o).isroot ≡ true
  unfolding check_potential_ptr mark_root
  check_keeps w o t h = ground arith

  check_sets :
      (w o : ℕ) (t : RootWalk)
      → Refers t.metas w o
      → ((check_potential_ptr table pages w t).metas o).isroot ≡ true
  unfolding check_potential_ptr mark_root
  check_sets w o t r = ground arith

  check_only :
      (w o : ℕ) (t : RootWalk)
      → ((check_potential_ptr table pages w t).metas o).isroot ≡ true
      → (t.metas o).isroot ≡ false
      → Refers t.metas w o
  unfolding check_potential_ptr mark_root
  check_only w o t h n = ground arith

  -- What the check of the words `ws` owes: an object is a root afterwards exactly if it was one or one
  -- of the words refers to it; `roots` has each root once and `pending_roots` each young root once; and
  -- no header differs but in `isroot`.
  pub record FindsRoots (ws : List ℕ) (t t' : RootWalk) : Type 0 where
    pub listed : IsListed t'
    pub same : (o : ℕ) → SameButRoot (t.metas o) (t'.metas o)
    pub root_iff :
        (o : ℕ)
        → ((t'.metas o).isroot ≡ true)
          ↔ (((t.metas o).isroot ≡ true) ⊎ ((w : ℕ) × In w ws × Refers t.metas w o))

  FindsRoots-trans :
      (xs ys : List ℕ) (t t' t'' : RootWalk)
      → FindsRoots xs t t'
      → FindsRoots ys t' t''
      → FindsRoots (xs ++ ys) t t''
  FindsRoots-trans xs ys t t' t'' p q = record {
    listed = q.listed;
    same = λ o. ground (arith, p.same o, q.same o);
    root_iff = λ o. (forth o, back o);
  }
    where
      earlier : (w o : ℕ) → Refers t'.metas w o → Refers t.metas w o
      earlier w o r = record {
        managed = r.managed;
        target = r.target;
        alloc = sym (p.same o).0 ∙ r.alloc;
      }

      later : (w o : ℕ) → Refers t.metas w o → Refers t'.metas w o
      later w o r = record {
        managed = r.managed;
        target = r.target;
        alloc = (p.same o).0 ∙ r.alloc;
      }

      forth :
          (o : ℕ)
          → (t''.metas o).isroot ≡ true
          → ((t.metas o).isroot ≡ true) ⊎ ((w : ℕ) × In w (xs ++ ys) × Refers t.metas w o)
      forth o h = elim ((q.root_iff o).0 h) [
        | inl r ↦ elim ((p.root_iff o).0 r) [
          | inl r' ↦ inl r'
          | inr (w, i, ref) ↦ inr (w, In-append_left ys i, ref)
        ]
        | inr (w, i, ref) ↦ inr (w, In-append_right xs i, earlier w o ref)
      ]

      back :
          (o : ℕ)
          → ((t.metas o).isroot ≡ true) ⊎ ((w : ℕ) × In w (xs ++ ys) × Refers t.metas w o)
          → (t''.metas o).isroot ≡ true
      back o (inl r) = (q.root_iff o).1 (inl ((p.root_iff o).1 (inl r)))
      back o (inr (w, i, ref)) = elim (In-append_inv xs i) [
        | inl j ↦ (q.root_iff o).1 (inl ((p.root_iff o).1 (inr (w, j, ref))))
        | inr j ↦ (q.root_iff o).1 (inr (w, j, later w o ref))
      ]

  check_potential_ptr-FindsRoots :
      (w : ℕ) (t : RootWalk)
      → IsListed t
      → FindsRoots (w ∷ []) t (check_potential_ptr table pages w t)
  check_potential_ptr-FindsRoots w t l = record {
    listed = check_potential_ptr-IsListed w t l;
    same = λ o. check_same w o t;
    root_iff = λ o. (forth o, back o);
  }
    where
      forth :
          (o : ℕ)
          → ((check_potential_ptr table pages w t).metas o).isroot ≡ true
          → ((t.metas o).isroot ≡ true) ⊎ ((v : ℕ) × In v (w ∷ []) × Refers t.metas v o)
      forth o h = elim (Bool-cases (t.metas o).isroot) [
        | inl r ↦ inl r
        | inr r ↦ inr (w, here, check_only w o t h r)
      ]

      back :
          (o : ℕ)
          → ((t.metas o).isroot ≡ true) ⊎ ((v : ℕ) × In v (w ∷ []) × Refers t.metas v o)
          → ((check_potential_ptr table pages w t).metas o).isroot ≡ true
      back o (inl r) = check_keeps w o t r
      back o (inr (v, i, ref)) = elim (In-inv i) [
        | inl e ↦ check_sets w o t (subst (λ u. Refers t.metas u o) (sym e) ref)
        | inr j ↦ elim j [ ]
      ]

  pub check_words-FindsRoots :
      (ws : List ℕ) (t : RootWalk) → IsListed t → FindsRoots ws t (check_words table pages ws t)
  unfolding check_words
  check_words-FindsRoots [] t l = record {
    listed = l;
    same = λ o. (refl, refl, refl, refl, refl);
    root_iff = λ o. (inl, none_refers o);
  }
    where
      none_refers :
          (o : ℕ)
          → ((t.metas o).isroot ≡ true) ⊎ ((w : ℕ) × In w [] × Refers t.metas w o)
          → (t.metas o).isroot ≡ true
      none_refers o (inl r) = r
      none_refers o (inr (w, i, ref)) = elim i [ ]
  check_words-FindsRoots (w ∷ ws) t l =
      let one = check_potential_ptr-FindsRoots w t l in
      let t' = check_potential_ptr table pages w t in
      FindsRoots-trans (w ∷ []) ws t t' (check_words table pages ws t') one
        (check_words-FindsRoots ws t' one.listed)

  -- The words that a walk looks at.
  abbrev pub scanned_words : RootSource → List ℕ
  scanned_words src =
      let loaded =
        load_native_root_set src.stack_word src.native_stack_base src.rbp src.registers in
      global_words src.global_data src.global_word
      ++ (if src.disable_stack_refs_for_tests then [] else (loaded.0 ++ loaded.1))

  -- From root sets that list the roots so far, walkStack makes roots of exactly the allocated objects
  -- that a word of the global storage, or (unless the tests disable it) of the native stack or of a
  -- register, refers to, and lists each root once, and each young one once as pending.
  pub walk_stack-FindsRoots :
      (src : RootSource) (t : RootWalk)
      → IsListed t
      → FindsRoots (scanned_words src) t (walk_stack table pages src t)
  unfolding walk_stack
  walk_stack-FindsRoots src t l =
      let gs = global_words src.global_data src.global_word in
      let loaded =
        load_native_root_set src.stack_word src.native_stack_base src.rbp src.registers in
      let t₁ = check_words table pages gs t in
      let t₂ = check_words table pages loaded.0 t₁ in
      let first = check_words-FindsRoots gs t l in
      elim (Bool-cases src.disable_stack_refs_for_tests) [
        | inl d ↦ rw d (rw (append-nil gs) first)
        | inr d ↦
            let second = check_words-FindsRoots loaded.0 t₁ first.listed in
            let third = check_words-FindsRoots loaded.1 t₂ second.listed in
            rw d (
              FindsRoots-trans gs (loaded.0 ++ loaded.1) t t₁ (check_words table pages loaded.1 t₂)
                first
                (FindsRoots-trans loaded.0 loaded.1 t₁ t₂ (check_words table pages loaded.1 t₂)
                  second third))
      ]
