-- ===== src/Memory/Utilization/Moved.antt =====
-- pageNeedsMoved (src/runtime/memory/gc.cpp) and the place of a page: the array of buckets and the index
-- in it that processPage and deleteOldPage compute from a utilization.
use bsqgc.Prelude.{
  ℕ, zero, suc, ◌+◌, Bool, true, false, not, ◌&&◌, if◌then◌else◌, Option, none, some, ◌≡◌, refl, ap,
  ◌∙◌, sym, arith, inl, inr, Bool-cases,
}
use bsqgc.Memory.Float.{FloatOps}
use bsqgc.Memory.Utilization.{
  index_or_zero, is_low_util, is_high_util, is_full, get_bucket_index, bucket_loop, same_index,
  xor_bool, page_needs_moved, num_low_util_buckets, num_high_util_buckets,
}

pub data PlaceOf : Type 0 where
  in_low in_high : ℕ → PlaceOf
  in_full in_none : PlaceOf

module _ (fl : FloatOps) where
  unfoldable pub place_of : fl.F → PlaceOf
  place_of u =
      if is_low_util fl u
      then in_low (index_or_zero (get_bucket_index fl u num_low_util_buckets (some 0) false))
      else if is_high_util fl u
      then in_high (index_or_zero (get_bucket_index fl u num_high_util_buckets (some 0) true))
      else if is_full fl u
      then in_full
      else in_none

  bucket_loop-start :
      (n i : ℕ) (u t : fl.F)
      → index_or_zero (bucket_loop fl n i u t (some 0))
        ≡ index_or_zero (bucket_loop fl n i u t none)
  unfolding bucket_loop
  bucket_loop-start zero i u t = refl
  bucket_loop-start (suc n) i u t =
      elim (Bool-cases (fl.lt t u && fl.le u (fl.add t (fl.dec 5 2)))) [
        | inl e ↦ rw e refl
        | inr e ↦ rw e (bucket_loop-start n (i + 1) u (fl.add t (fl.dec 5 2)))
      ]

  same_index-index : (a b : Option ℕ) → same_index a b ≡ true → index_or_zero a ≡ index_or_zero b
  unfolding same_index
  same_index-index none none h = refl
  same_index-index none (some j) h = ground arith
  same_index-index (some i) none h = ground arith
  same_index-index (some i) (some j) h = ground arith

  get_bucket_index-same :
      (u v : fl.F) (n : ℕ) (high : Bool)
      → same_index (get_bucket_index fl u n none high) (get_bucket_index fl v n none high) ≡ true
      → index_or_zero (get_bucket_index fl u n (some 0) high)
        ≡ index_or_zero (get_bucket_index fl v n (some 0) high)
  unfolding get_bucket_index
  get_bucket_index-same u v n high h =
      bucket_loop-start n 0 u (if high then fl.dec 60 2 else fl.dec 0 0)
      ∙ same_index-index _ _ h
      ∙ sym (bucket_loop-start n 0 v (if high then fl.dec 60 2 else fl.dec 0 0))

  xor_bool-false : (a b : Bool) → xor_bool a b ≡ false → a ≡ b
  unfolding xor_bool
  xor_bool-false true true h = refl
  xor_bool-false true false h = ground arith
  xor_bool-false false b h = sym h

  -- A chain of tests that answers false has them all false.
  all_false :
      (p a b c d m : Bool)
      → p ≡ false
      → (if p
          then false
          else if a
          then true
          else if b
          then true
          else if c
          then true
          else if d
          then true
          else m)
        ≡ false
      → (b ≡ false) × (c ≡ false) × (d ≡ false) × (m ≡ false)
  all_false false false false false false m e h = (refl, refl, refl, h)
  all_false true a b c d m e h = ground arith
  all_false false true b c d m e h = ground arith
  all_false false false true c d m e h = ground arith
  all_false false false false true d m e h = ground arith
  all_false false false false false true m e h = ground arith

  from_not : (a : Bool) → not a ≡ false → a ≡ true
  from_not true h = refl
  from_not false h = ground arith

  -- What is left of pageNeedsMoved behind the tests of the classes.
  moves_in_class : (low high same_low same_high : Bool) → Bool
  moves_in_class low high same_low same_high =
      if low then not same_low else if high then not same_high else false

  -- The places of two utilizations of the same classes.
  same_place :
      (low high full same_low same_high : Bool) (i j i' j' : ℕ)
      → (same_low ≡ true → i ≡ i')
      → (same_high ≡ true → j ≡ j')
      → moves_in_class low high same_low same_high ≡ false
      → (if low then in_low i else if high then in_high j else if full then in_full else in_none)
        ≡ (if low
            then in_low i'
            else if high
            then in_high j'
            else if full
            then in_full
            else in_none)
  unfolding moves_in_class
  same_place true high full sl sh i j i' j' l r h = ap in_low (l (from_not sl h))
  same_place false true full sl sh i j i' j' l r h = ap in_high (r (from_not sh h))
  same_place false false full sl sh i j i' j' l r h = refl

  -- The classes of the two utilizations of a page that pageNeedsMoved leaves alone.
  pub page_needs_moved-classes :
      (old new : fl.F)
      → fl.lt (fl.dec 11 1) old ≡ false
      → page_needs_moved fl old new ≡ false
      → (is_low_util fl old ≡ is_low_util fl new)
        × (is_high_util fl old ≡ is_high_util fl new)
        × (is_full fl old ≡ is_full fl new)
  unfolding page_needs_moved
  page_needs_moved-classes old new processed h =
      let (l, g, f, m) =
        all_false (fl.lt (fl.dec 11 1) old) (fl.lt new (fl.dec 1 2) && fl.lt (fl.dec 1 2) old)
          (xor_bool (is_low_util fl old) (is_low_util fl new))
          (xor_bool (is_high_util fl old) (is_high_util fl new))
          (xor_bool (is_full fl old) (is_full fl new)) _ processed h in
      (xor_bool-false _ _ l, xor_bool-false _ _ g, xor_bool-false _ _ f)

  -- The places of the two utilizations.
  pub page_needs_moved-place_of :
      (old new : fl.F)
      → fl.lt (fl.dec 11 1) old ≡ false
      → page_needs_moved fl old new ≡ false
      → place_of old ≡ place_of new
  unfolding page_needs_moved place_of moves_in_class
  page_needs_moved-place_of old new processed h =
      let low = get_bucket_index-same old new num_low_util_buckets false in
      let high = get_bucket_index-same old new num_high_util_buckets true in
      let (l, g, f, m) =
        all_false (fl.lt (fl.dec 11 1) old) (fl.lt new (fl.dec 1 2) && fl.lt (fl.dec 1 2) old)
          (xor_bool (is_low_util fl old) (is_low_util fl new))
          (xor_bool (is_high_util fl old) (is_high_util fl new))
          (xor_bool (is_full fl old) (is_full fl new)) _ processed h in
      let l' : is_low_util fl old ≡ is_low_util fl new = xor_bool-false _ _ l in
      let g' : is_high_util fl old ≡ is_high_util fl new = xor_bool-false _ _ g in
      let f' : is_full fl old ≡ is_full fl new = xor_bool-false _ _ f in
      rw (l', g', f')
        (same_place (is_low_util fl new) (is_high_util fl new) (is_full fl new) _ _ _ _ _ _ low high
          m)
