-- ===== src/Gc/Evacuate/Copied.antt =====
-- processMarkedYoungObjects (src/runtime/memory/gc.cpp): the state behind the copy of an object that is no root.
use bsqgc.Prelude.{
  ℕ, ◌+◌, ◌-◌, ◌*◌, ◌%◌, ◌^◌, ◌<◌, ◌≤◌, true, false, some, List, [], ◌∷◌, ◌++◌, ◌==◌, ◌≡◌, ◌≢◌,
  refl, ap, sym, ◌∙◌, ◌⊎◌, inl, inr, length, arith, Bool-cases,
}
use bsqgc.Common.{word_mod, reset_meta, max_fwd_index, xmem_copy, size_of_meta_data}
use bsqgc.Memory.Float.{FloatOps}
use bsqgc.Memory.Page.{extract_page_from_pointer}
use bsqgc.Memory.World.{World}
use bsqgc.Memory.Allocator.{setup_meta}
use bsqgc.Memory.Allocator.Returned.{allocate_evacuation_returns}
use bsqgc.Memory.Allocator.Entry.{HasEntry, entry_after}
use bsqgc.Gc.Evacuate.{array_at, count_of, slot_of_size}
use bsqgc.Gc.Evacuate.Forward.{slots_of, forwarded_slots, references_to, counted, references_to-ext}
use bsqgc.Gc.Evacuate.Copy.{xmem_copy-outside, xmem_copy-slots, slots_of-ext}

-- The type pointer of an object.
abbrev pub type_address : ℕ → ℕ
type_address o = (o + word_mod - size_of_meta_data) % word_mod

module _ (fl : FloatOps) where
  -- What a round asks for: a young and marked object with pointers, of `type`, on a page of the
  -- allocator `s`, whose type says how many slots it has, and a free entry `e` of the allocator's evacuation
  -- page that does not overlap with the object and whose header has no forward index.
  pub record CanMove (obj s type e : ℕ) (masks rest : List ℕ) (w : World fl.F) : Type 0 where
    pub is_young : (w.metas obj).isyoung ≡ true
    pub is_marked : (w.metas obj).ismarked ≡ true
    pub no_root : (w.metas obj).isroot ≡ false
    pub typed : w.word (type_address obj) ≡ type
    pub masked : (w.type_info type).ptr_mask ≡ some masks
    pub slots : (w.type_info type).slot_size ≡ length masks
    pub sized : 8 * length masks ≤ (w.type_info type).type_size
    pub paged : extract_page_from_pointer obj ≢ 0
    pub slotted : slot_of_size (w.pages (extract_page_from_pointer obj)).allocsize ≡ s
    pub used : w.used s ≡ true
    pub entry : HasEntry fl false s type e rest w
    pub separate : (obj + 8 * length masks ≤ e) ⊎ (e + 48 + (w.type_info type).type_size + 24 ≤ obj)
    pub behind_header : 24 ≤ obj
    pub obj_bound : obj < 2 ^ 64
    pub entry_bound : e + 40 < 2 ^ 64
    pub unforwarded : (w.metas (e + 40)).forward_index ≡ max_fwd_index
    pub counts : (o : ℕ) → (w.metas o).ref_count < 2 ^ 32

  -- What a round does: `n` is the new object.
  pub record IsEvacuated (obj type n : ℕ) (masks : List ℕ) (w w' : World fl.F) : Type 0 where
    pub table : w'.tinfo.forward_table ≡ w.tinfo.forward_table ++ (n ∷ [])
    pub reset : w'.metas obj ≡ reset_meta (count_of w.tinfo.forward_table % 2 ^ 32)
    pub typed : w'.word (type_address n) ≡ type
    pub slots :
        slots_of w'.word masks n
        ≡ forwarded_slots (array_at w.tinfo.forward_table) w.metas masks (slots_of w.word masks obj)
    pub header :
        w'.metas n
        ≡ counted (setup_meta false) (
            references_to
              (array_at w.tinfo.forward_table)
              w.metas
              n
              masks
              (slots_of w.word masks obj))
    pub others :
        (o : ℕ)
        → obj ≢ o
        → n ≢ o
        → w'.metas o
          ≡ counted (w.metas o) (
              references_to
                (array_at w.tinfo.forward_table)
                w.metas
                o
                masks
                (slots_of w.word masks obj))

  -- The state behind the copy.
  unfoldable pub copied : World fl.F → (obj s type e slots : ℕ) → World fl.F
  copied w obj s type e slots =
      let wa = entry_after fl false w s type e in
      record wa { word = xmem_copy wa.word obj (e + 16 + 24) slots }

  pub type_address_entry : (e : ℕ) → e + 40 < 2 ^ 64 → type_address (e + 16 + 24) ≡ e + 16
  type_address_entry e lt = omega arith

  pub copied_type :
      (obj s type e : ℕ) (masks rest : List ℕ) (w : World fl.F)
      → CanMove obj s type e masks rest w
      → (n : ℕ) → (copied w obj s type e n).word (type_address (e + 16 + 24)) ≡ type
  unfolding copied
  copied_type obj s type e masks rest w h n = rw (type_address_entry e h.entry_bound) (
      xmem_copy-outside n (entry_after fl false w s type e).word obj (e + 16 + 24) (e + 16)
        (inl (omega arith))
      ∙ (allocate_evacuation_returns fl 0 s type e rest w h.entry).1.typed)

  pub copied_slots :
      (obj s type e : ℕ) (masks rest : List ℕ) (w : World fl.F)
      → CanMove obj s type e masks rest w
      → slots_of (copied w obj s type e (length masks)).word masks (e + 16 + 24)
        ≡ slots_of w.word masks obj
  unfolding copied
  copied_slots obj s type e masks rest w h =
      let wa = entry_after fl false w s type e in
      let out = (allocate_evacuation_returns fl 0 s type e rest w h.entry).1.outside in
      let sep = h.separate in
      let size = h.sized in
      xmem_copy-slots masks wa.word obj (e + 16 + 24) (ground arith)
      ∙ slots_of-ext wa.word w.word masks obj
          (λ a le lt. out a (ground arith, ground arith, ground arith))

  pub copied_forward_index :
      (obj s type e : ℕ) (masks rest : List ℕ) (w : World fl.F)
      → CanMove obj s type e masks rest w
      → (v : ℕ)
      → ((entry_after fl false w s type e).metas v).forward_index ≡ (w.metas v).forward_index
  copied_forward_index obj s type e masks rest w h v =
      let alloc = (allocate_evacuation_returns fl 0 s type e rest w h.entry).1 in
      elim (Bool-cases (e + 16 + 24 == v)) [
        | inl q ↦
            let eq : e + 40 ≡ v = ground arith in
            let eq' : e + 16 + 24 ≡ v = ground arith in
            rw (← eq') (
              rw alloc.header
                (sym h.unforwarded ∙ ap (λ a. (w.metas a).forward_index) (omega arith)))
        | inr q ↦ let ne : e + 16 + 24 ≢ v = ground arith in rw (alloc.others v ne) refl
      ]

  pub copied_bound :
      (obj s type e : ℕ) (masks rest : List ℕ) (w : World fl.F)
      → CanMove obj s type e masks rest w
      → (v : ℕ) → ((entry_after fl false w s type e).metas v).ref_count < 2 ^ 32
  copied_bound obj s type e masks rest w h v =
      let alloc = (allocate_evacuation_returns fl 0 s type e rest w h.entry).1 in
      elim (Bool-cases (e + 16 + 24 == v)) [
        | inl q ↦
            let eq' : e + 16 + 24 ≡ v = ground arith in rw (← eq') (rw alloc.header (omega arith))
        | inr q ↦ let ne : e + 16 + 24 ≢ v = ground arith in rw (alloc.others v ne) (h.counts v)
      ]

  -- The references that the slots of the object make, counted in the state after the copy.
  pub copied_references :
      (obj s type e : ℕ) (masks rest : List ℕ) (w : World fl.F)
      → CanMove obj s type e masks rest w
      → (o : ℕ)
      → references_to
          (array_at w.tinfo.forward_table)
          (entry_after fl false w s type e).metas
          o
          masks
          (slots_of (copied w obj s type e (length masks)).word masks (e + 16 + 24))
        ≡ references_to (array_at w.tinfo.forward_table) w.metas o masks (slots_of w.word masks obj)
  copied_references obj s type e masks rest w h o =
      let fwd = array_at w.tinfo.forward_table in
      let ms = (entry_after fl false w s type e).metas in
      ap (references_to fwd ms o masks) (copied_slots obj s type e masks rest w h)
      ∙ references_to-ext fwd w.metas ms (copied_forward_index obj s type e masks rest w h) o masks
          (slots_of w.word masks obj)
