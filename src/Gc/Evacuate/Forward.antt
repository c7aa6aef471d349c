-- ===== src/Gc/Evacuate/Forward.antt =====
-- updatePointers (src/runtime/memory/gc.cpp): the slots and the counts after it.
use bsqgc.Prelude.{
  ℕ, ◌+◌, ◌*◌, ◌%◌, ◌^◌, ◌<◌, ◌≤◌, true, false, List, [], ◌∷◌, ◌==◌, ==_refl, if◌then◌else◌, ◌≡◌,
  refl, ap, ◌∙◌, ◌⊎◌, inl, inr, Bool-cases, length, arith,
}
use bsqgc.Common.{Metas, MetaData, store, store_eq, store_ne}
use bsqgc.Gc.Evacuate.{inc_ref_count, is_pointer, forwarded, update_slots, update_pointers}
use bsqgc.Prelude.{Option, none, some}

-- The words of the slots that the mask names.
unfoldable pub slots_of : (ℕ → ℕ) → List ℕ → ℕ → List ℕ
slots_of word [] slot = []
slots_of word (m ∷ masks) slot = word slot ∷ slots_of word masks (slot + 8)

-- What the slots hold afterwards: pointers are replaced by where their objects are.
unfoldable pub forwarded_slots : (ℕ → ℕ) → Metas → (masks values : List ℕ) → List ℕ
forwarded_slots fwd ms [] vs = []
forwarded_slots fwd ms (m ∷ masks) [] = []
forwarded_slots fwd ms (m ∷ masks) (v ∷ vs) =
    (if is_pointer m v then forwarded fwd ms v else v) ∷ forwarded_slots fwd ms masks vs

-- How many of the slots point to an object, once they are forwarded.
unfoldable pub references_to : (ℕ → ℕ) → Metas → ℕ → (masks values : List ℕ) → ℕ
references_to fwd ms o [] vs = 0
references_to fwd ms o (m ∷ masks) [] = 0
references_to fwd ms o (m ∷ masks) (v ∷ vs) =
    (if is_pointer m v then (if forwarded fwd ms v == o then 1 else 0) else 0)
    + references_to fwd ms o masks vs

inc_ref_count-forward_index :
    (ms : Metas) (o v : ℕ) → (inc_ref_count ms o v).forward_index ≡ (ms v).forward_index
inc_ref_count-forward_index ms o v = elim (Bool-cases (o == v)) [
  | inl e ↦ let eq : o ≡ v = ground arith in rw (eq, ==_refl v) refl
  | inr e ↦ rw e refl
]

slots_of-store :
    (word : ℕ → ℕ) (a v : ℕ) (masks : List ℕ) (slot : ℕ)
    → a < slot
    → slots_of (store word a v) masks slot ≡ slots_of word masks slot
unfolding slots_of
slots_of-store word a v [] slot lt = refl
slots_of-store word a v (m ∷ masks) slot lt =
    rw
      (
        store_ne word a v slot (ground arith),
        slots_of-store word a v masks (slot + 8) (ground arith),
      )
      refl

update_slots_pointer :
    (fwd : ℕ → ℕ) (m : ℕ) (masks : List ℕ) (slot : ℕ) (word : ℕ → ℕ) (ms : Metas)
    → is_pointer m (word slot) ≡ true
    → update_slots fwd (m ∷ masks) slot word ms
      ≡ update_slots fwd masks
          (slot + 8)
          (store word slot (forwarded fwd ms (word slot)))
          (inc_ref_count ms (forwarded fwd ms (word slot)))
unfolding update_slots
update_slots_pointer fwd m masks slot word ms e = rw e refl

update_slots_other :
    (fwd : ℕ → ℕ) (m : ℕ) (masks : List ℕ) (slot : ℕ) (word : ℕ → ℕ) (ms : Metas)
    → is_pointer m (word slot) ≡ false
    → update_slots fwd (m ∷ masks) slot word ms ≡ update_slots fwd masks (slot + 8) word ms
unfolding update_slots
update_slots_other fwd m masks slot word ms e = rw e refl

update_slots-outside :
    (fwd : ℕ → ℕ) (masks : List ℕ) (slot : ℕ) (word : ℕ → ℕ) (ms : Metas) (a : ℕ)
    → (a < slot) ⊎ (slot + 8 * length masks ≤ a)
    → (update_slots fwd masks slot word ms).0 a ≡ word a
unfolding update_slots
update_slots-outside fwd [] slot word ms a out = refl
update_slots-outside fwd (m ∷ masks) slot word ms a out =
    elim (Bool-cases (is_pointer m (word slot))) [
      | inl e ↦
          let v' = forwarded fwd ms (word slot) in
          rw e (
            update_slots-outside fwd masks (slot + 8) (store word slot v') (inc_ref_count ms v') a
              (ground arith)
            ∙ store_ne word slot v' a (ground arith))
      | inr e ↦ rw e (update_slots-outside fwd masks (slot + 8) word ms a (ground arith))
    ]

-- Only the forward indices of the headers decide where objects are.
pub forwarded_slots-ext :
    (fwd : ℕ → ℕ) (ms ms' : Metas)
    → ((v : ℕ) → (ms' v).forward_index ≡ (ms v).forward_index)
    → (masks vs : List ℕ) → forwarded_slots fwd ms' masks vs ≡ forwarded_slots fwd ms masks vs
unfolding forwarded_slots
forwarded_slots-ext fwd ms ms' h [] vs = refl
forwarded_slots-ext fwd ms ms' h (m ∷ masks) [] = refl
forwarded_slots-ext fwd ms ms' h (m ∷ masks) (v ∷ vs) =
    rw (h v, forwarded_slots-ext fwd ms ms' h masks vs) refl

pub references_to-ext :
    (fwd : ℕ → ℕ) (ms ms' : Metas)
    → ((v : ℕ) → (ms' v).forward_index ≡ (ms v).forward_index)
    → (o : ℕ) (masks vs : List ℕ)
    → references_to fwd ms' o masks vs ≡ references_to fwd ms o masks vs
unfolding references_to
references_to-ext fwd ms ms' h o [] vs = refl
references_to-ext fwd ms ms' h o (m ∷ masks) [] = refl
references_to-ext fwd ms ms' h o (m ∷ masks) (v ∷ vs) =
    rw (h v, references_to-ext fwd ms ms' h o masks vs) refl

pub cons_path : {x y : ℕ} {xs ys : List ℕ} → x ≡ y → xs ≡ ys → x ∷ xs ≡ y ∷ ys
cons_path p q i = p i ∷ q i

update_slots-slots :
    (fwd : ℕ → ℕ) (masks : List ℕ) (slot : ℕ) (word : ℕ → ℕ) (ms : Metas)
    → slots_of (update_slots fwd masks slot word ms).0 masks slot
      ≡ forwarded_slots fwd ms masks (slots_of word masks slot)
unfolding slots_of forwarded_slots
update_slots-slots fwd [] slot word ms = refl
update_slots-slots fwd (m ∷ masks) slot word ms = elim (Bool-cases (is_pointer m (word slot))) [
  | inl e ↦
      let v' = forwarded fwd ms (word slot) in
      let first =
        update_slots-outside fwd masks (slot + 8) (store word slot v') (inc_ref_count ms v') slot
          (inl (ground arith))
        ∙ store_eq word slot v' in
      let rest =
        update_slots-slots fwd masks (slot + 8) (store word slot v') (inc_ref_count ms v') in
      let shift = slots_of-store word slot v' masks (slot + 8) (ground arith) in
      let same =
        forwarded_slots-ext fwd ms (inc_ref_count ms v') (inc_ref_count-forward_index ms v') masks
          (slots_of word masks (slot + 8)) in
      ap (λ r. slots_of r.0 (m ∷ masks) slot) (update_slots_pointer fwd m masks slot word ms e)
      ∙ rw e (
          cons_path first
            (rest ∙ ap (forwarded_slots fwd (inc_ref_count ms v') masks) shift ∙ same))
  | inr e ↦
      let first = update_slots-outside fwd masks (slot + 8) word ms slot (inl (ground arith)) in
      ap (λ r. slots_of r.0 (m ∷ masks) slot) (update_slots_other fwd m masks slot word ms e)
      ∙ rw e (cons_path first (update_slots-slots fwd masks (slot + 8) word ms))
]

-- The header, with a count that is `n` higher.
abbrev pub counted : MetaData → ℕ → MetaData
counted m n = record m { ref_count = (m.ref_count + n) % 2 ^ 32 }

with_ref_count : MetaData → ℕ → MetaData
with_ref_count m k = record m { ref_count = k }

counted-counted : (m : MetaData) (a b : ℕ) → counted (counted m a) b ≡ counted m (a + b)
unfolding with_ref_count
counted-counted m a b = ap (with_ref_count m) (omega arith)

counted-inc_ref_count :
    (ms : Metas) (v o n : ℕ)
    → counted (inc_ref_count ms v o) n ≡ counted (ms o) ((if v == o then 1 else 0) + n)
counted-inc_ref_count ms v o n = elim (Bool-cases (v == o)) [
  | inl e ↦ let eq : v ≡ o = ground arith in rw e (rw eq (counted-counted (ms o) 1 n))
  | inr e ↦ rw e (ap (counted (ms o)) (omega arith))
]

counted_zero : (m : MetaData) → m.ref_count < 2 ^ 32 → m ≡ counted m 0
unfolding with_ref_count
counted_zero m lt = ap (with_ref_count m) (omega arith)

update_slots_end :
    (fwd : ℕ → ℕ) (slot : ℕ) (word : ℕ → ℕ) (ms : Metas) (o : ℕ)
    → (ms o).ref_count < 2 ^ 32
    → (update_slots fwd [] slot word ms).1 o ≡ counted (ms o) 0
unfolding update_slots
update_slots_end fwd slot word ms o lt = counted_zero (ms o) lt

inc_ref_count_bound :
    (ms : Metas) (v o : ℕ) → (ms o).ref_count < 2 ^ 32 → (inc_ref_count ms v o).ref_count < 2 ^ 32
inc_ref_count_bound ms v o lt = elim (Bool-cases (v == o)) [
  | inl e ↦ rw e (omega arith)
  | inr e ↦ rw e lt
]

update_slots-counts :
    (fwd : ℕ → ℕ) (masks : List ℕ) (slot : ℕ) (word : ℕ → ℕ) (ms : Metas) (o : ℕ)
    → (ms o).ref_count < 2 ^ 32
    → (update_slots fwd masks slot word ms).1 o
      ≡ counted (ms o) (references_to fwd ms o masks (slots_of word masks slot))
unfolding slots_of references_to
update_slots-counts fwd [] slot word ms o lt = update_slots_end fwd slot word ms o lt
update_slots-counts fwd (m ∷ masks) slot word ms o lt =
    elim (Bool-cases (is_pointer m (word slot))) [
      | inl e ↦
          let v' = forwarded fwd ms (word slot) in
          let ms' = inc_ref_count ms v' in
          let vs = slots_of word masks (slot + 8) in
          let n = references_to fwd ms o masks vs in
          let rest =
            update_slots-counts fwd masks (slot + 8) (store word slot v') ms' o
              (inc_ref_count_bound ms v' o lt) in
          let shift = slots_of-store word slot v' masks (slot + 8) (ground arith) in
          let same = references_to-ext fwd ms ms' (inc_ref_count-forward_index ms v') o masks vs in
          ap (λ r. r.1 o) (update_slots_pointer fwd m masks slot word ms e)
          ∙ rest
          ∙ ap (λ l. counted (ms' o) (references_to fwd ms' o masks l)) shift
          ∙ ap (counted (ms' o)) same
          ∙ counted-inc_ref_count ms v' o n
          ∙ rw e refl
      | inr e ↦
          ap (λ r. r.1 o) (update_slots_other fwd m masks slot word ms e)
          ∙ update_slots-counts fwd masks (slot + 8) word ms o lt
          ∙ rw e (ap (counted (ms o)) (omega arith))
    ]

abbrev pub masks_of : Option (List ℕ) → List ℕ
masks_of none = []
masks_of (some masks) = masks

pub record IsForwarded (fwd : ℕ → ℕ) (masks : List ℕ) (obj : ℕ) (word : ℕ → ℕ) (ms : Metas)
    (after : (ℕ → ℕ) × Metas) : Type 0 where
  pub slots : slots_of after.0 masks obj ≡ forwarded_slots fwd ms masks (slots_of word masks obj)
  pub outside : (a : ℕ) → (a < obj) ⊎ (obj + 8 * length masks ≤ a) → after.0 a ≡ word a
  pub counts :
      (o : ℕ) → after.1 o ≡ counted (ms o) (references_to fwd ms o masks (slots_of word masks obj))

-- After updatePointers on an object, where every count is a 32-bit number: each slot that held a pointer
-- holds the address its object was forwarded to, if it was, and the other slots are as before; so is
-- the memory outside the object; and the only change of the headers is that the reference count of every
-- object is higher, modulo 2^32, by the number of these slots that point to it afterwards.
pub update_pointers-IsForwarded :
    (fwd : ℕ → ℕ) (mask : Option (List ℕ)) (obj : ℕ) (word : ℕ → ℕ) (ms : Metas)
    → ((o : ℕ) → (ms o).ref_count < 2 ^ 32)
    → IsForwarded fwd (masks_of mask) obj word ms (update_pointers fwd mask obj word ms)
unfolding update_pointers slots_of forwarded_slots references_to
update_pointers-IsForwarded fwd none obj word ms bound = record {
  slots = refl;
  outside = λ a out. refl;
  counts = λ o. counted_zero (ms o) (bound o);
}
update_pointers-IsForwarded fwd (some masks) obj word ms bound = record {
  slots = update_slots-slots fwd masks obj word ms;
  outside = λ a out. update_slots-outside fwd masks obj word ms a out;
  counts = λ o. update_slots-counts fwd masks obj word ms o (bound o);
}
