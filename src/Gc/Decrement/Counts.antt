-- ===== src/Gc/Decrement/Counts.antt =====
-- The loop of processDecrements over the slots of an object (src/runtime/memory/gc.cpp): the counts that go
-- down and the objects that are pushed.
use bsqgc.Prelude.{
  ℕ, ◌+◌, ◌-◌, ◌^◌, ◌<◌, ◌≤◌, Bool, true, false, not, ◌&&◌, List, [], ◌∷◌, ◌++◌, ◌==◌, ==_refl,
  if◌then◌else◌, ltb, ◌≡◌, refl, ap, subst, ◌∙◌, sym, inl, inr, Bool-cases, arith, Option, none,
  some, occurrences,
}
use bsqgc.Common.{Metas, MetaData}
use bsqgc.Gc.Evacuate.{is_pointer}
use bsqgc.Gc.Evacuate.Forward.{masks_of}
use bsqgc.Gc.Decrement.{Decs, dec_ref_count, dec_slot, dec_slots, dec_children}

-- The pointers in the slots of an object.
unfoldable pub pointers_of : (ℕ → ℕ) → List ℕ → ℕ → List ℕ
pointers_of word [] slot = []
pointers_of word (m ∷ masks) slot =
    let rest = pointers_of word masks (slot + 8) in
    if is_pointer m (word slot) then word slot ∷ rest else rest

-- An object with these references going away has no others, and is no root.
abbrev pub loses_all : MetaData → ℕ → Bool
loses_all m n = (ltb 0 n && (m.ref_count == n)) && not m.isroot

abbrev pub discounted : MetaData → ℕ → MetaData
discounted m n = record m { ref_count = m.ref_count - n }

pub record IsDecremented (vs : List ℕ) (t t' : Decs) : Type 0 where
  pub counts : (o : ℕ) → t'.metas o ≡ discounted (t.metas o) (occurrences o vs)
  pub dead :
      (o : ℕ)
      → occurrences o t'.dead
        ≡ occurrences o t.dead + (if loses_all (t.metas o) (occurrences o vs) then 1 else 0)

unfoldable pub dec_all : List ℕ → Decs → Decs
dec_all [] t = t
dec_all (v ∷ vs) t = dec_all vs (dec_slot v t)

pub dec_slots-dec_all :
    (masks : List ℕ) (word : ℕ → ℕ) (slot : ℕ) (t : Decs)
    → dec_slots masks word slot t ≡ dec_all (pointers_of word masks slot) t
unfolding dec_slots dec_all pointers_of
dec_slots-dec_all [] word slot t = refl
dec_slots-dec_all (m ∷ masks) word slot t = elim (Bool-cases (is_pointer m (word slot))) [
  | inl e ↦ rw e (dec_slots-dec_all masks word (slot + 8) (dec_slot (word slot) t))
  | inr e ↦ rw e (dec_slots-dec_all masks word (slot + 8) t)
]

occurrences-snoc :
    (o : ℕ) (xs : List ℕ) (v : ℕ)
    → occurrences o (xs ++ (v ∷ [])) ≡ occurrences o xs + (if v == o then 1 else 0)
unfolding occurrences
occurrences-snoc o [] v = omega arith
occurrences-snoc o (x ∷ xs) v = rw (occurrences-snoc o xs v) (omega arith)

with_ref_count : MetaData → ℕ → MetaData
with_ref_count m k = record m { ref_count = k }

-- One decrement of a counted reference.
dec_slot-metas :
    (v : ℕ) (t : Decs) (o : ℕ)
    → (if v == o then 1 else 0) ≤ (t.metas o).ref_count
    → (t.metas o).ref_count < 2 ^ 32
    → (dec_slot v t).metas o ≡ discounted (t.metas o) (if v == o then 1 else 0)
unfolding dec_slot with_ref_count
dec_slot-metas v t o le lt = elim (Bool-cases (v == o)) [
  | inl e ↦
      let eq : v ≡ o = ground arith in
      let pos : 1 ≤ (t.metas o).ref_count = ground arith in
      rw e (rw eq (ap (with_ref_count (t.metas o)) (omega arith)))
  | inr e ↦ rw e (ap (with_ref_count (t.metas o)) (omega arith))
]

dec_ref_count_same :
    (ms : Metas) (v : ℕ)
    → 1 ≤ (ms v).ref_count
    → (ms v).ref_count < 2 ^ 32
    → dec_ref_count ms v v ≡ discounted (ms v) 1
unfolding with_ref_count
dec_ref_count_same ms v le lt = rw (==_refl v) (ap (with_ref_count (ms v)) (omega arith))

dec_slot-dead :
    (v : ℕ) (t : Decs) (o : ℕ)
    → 1 ≤ (t.metas v).ref_count
    → (t.metas v).ref_count < 2 ^ 32
    → occurrences o (dec_slot v t).dead
      ≡ occurrences o t.dead
        + (if (v == o) && (((t.metas v).ref_count == 1) && not (t.metas v).isroot) then 1 else 0)
unfolding dec_slot
dec_slot-dead v t o le lt =
    let last : ((t.metas v).ref_count - 1 == 0) ≡ ((t.metas v).ref_count == 1) = ground arith in
    rw (dec_ref_count_same t.metas v le lt) (
      rw last (elim (Bool-cases (((t.metas v).ref_count == 1) && not (t.metas v).isroot)) [
        | inl e ↦ rw e (occurrences-snoc o t.dead v ∙ ground arith)
        | inr e ↦ rw e (ground arith)
      ]))

-- An object dies at the last of its references.
last_reference :
    (r n : ℕ) (root : Bool)
    → 1 + n ≤ r
    → (if (r == 1) && not root then 1 else 0)
        + (if (ltb 0 n && (r - 1 == n)) && not root then 1 else 0)
      ≡ (if (ltb 0 (1 + n) && (r == 1 + n)) && not root then 1 else 0)
last_reference r n true le = ground arith
last_reference r n false le = ground arith

other_reference :
    (d r n : ℕ) (root : Bool)
    → d + 0 + (if (ltb 0 n && (r - 0 == n)) && not root then 1 else 0)
      ≡ d + (if (ltb 0 (0 + n) && (r == 0 + n)) && not root then 1 else 0)
other_reference d r n true = ground arith
other_reference d r n false = ground arith

dec_slot-loses_all :
    (v : ℕ) (t : Decs) (n o : ℕ)
    → 1 ≤ (t.metas v).ref_count
    → (t.metas v).ref_count < 2 ^ 32
    → (if v == o then 1 else 0) + n ≤ (t.metas o).ref_count
    → occurrences o (dec_slot v t).dead
        + (if loses_all (discounted (t.metas o) (if v == o then 1 else 0)) n then 1 else 0)
      ≡ occurrences o t.dead
        + (if loses_all (t.metas o) ((if v == o then 1 else 0) + n) then 1 else 0)
dec_slot-loses_all v t n o le lt all = elim (Bool-cases (v == o)) [
  | inl e ↦
      let eq : v ≡ o = ground arith in
      let more : 1 + n ≤ (t.metas o).ref_count = ground arith in
      let k = last_reference (t.metas o).ref_count n (t.metas o).isroot more in
      rw (dec_slot-dead v t o le lt) (rw e (rw eq (omega arith)))
  | inr e ↦
      rw (dec_slot-dead v t o le lt)
        (rw e (other_reference _ (t.metas o).ref_count n (t.metas o).isroot))
]

dec_all-IsDecremented :
    (vs : List ℕ) (t : Decs)
    → ((o : ℕ) → (occurrences o vs ≤ (t.metas o).ref_count) × ((t.metas o).ref_count < 2 ^ 32))
    → IsDecremented vs t (dec_all vs t)
unfolding dec_all occurrences with_ref_count
dec_all-IsDecremented [] t bound = record {
  counts = λ o. ap (with_ref_count (t.metas o)) (omega arith);
  dead = λ o. omega arith;
}
dec_all-IsDecremented (v ∷ vs) t bound =
    let first : (o : ℕ)
        → (dec_slot v t).metas o ≡ discounted (t.metas o) (if v == o then 1 else 0) =
      λ o. dec_slot-metas v t o (let b = (bound o).0 in omega arith) (bound o).1 in
    let ih =
      dec_all-IsDecremented vs (dec_slot v t)
        (λ o. let b = bound o in rw (first o) (omega arith, omega arith)) in
    let own : 1 ≤ (t.metas v).ref_count =
      let b = (bound v).0 in let r = ==_refl v in ground arith in
    record {
      counts = λ o. ih.counts o ∙ rw (first o) (ap (with_ref_count (t.metas o)) (omega arith));
      dead = λ o.
          ih.dead o
          ∙ rw (first o) (dec_slot-loses_all v t (occurrences o vs) o own (bound v).1 (bound o).0);
    }

-- When the references of an object are taken away, and no object has more of them than its reference count
-- says: the only change of the headers is that the count of every object is lower by the number of
-- these references, and pushed are, once each, the objects with such a reference that have a count of 0
-- afterwards and are no roots.
pub dec_children-IsDecremented :
    (mask : Option (List ℕ)) (word : ℕ → ℕ) (obj : ℕ) (t : Decs)
    → ((o : ℕ)
        → (occurrences o (pointers_of word (masks_of mask) obj) ≤ (t.metas o).ref_count)
          × ((t.metas o).ref_count < 2 ^ 32))
    → IsDecremented (pointers_of word (masks_of mask) obj) t (dec_children mask word obj t)
unfolding dec_children dec_all pointers_of
dec_children-IsDecremented none word obj t bound = dec_all-IsDecremented [] t bound
dec_children-IsDecremented (some masks) word obj t bound =
    subst (IsDecremented (pointers_of word masks obj) t) (sym (dec_slots-dec_all masks word obj t))
      (dec_all-IsDecremented (pointers_of word masks obj) t bound)
