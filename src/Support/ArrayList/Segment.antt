-- ===== src/Support/ArrayList/Segment.antt =====
-- An ArrayList in a single segment (src/runtime/support/arraylist.h) as a list of its elements.
use bsqgc.Prelude.{
  ℕ, zero, suc, ◌+◌, ◌*◌, ◌<◌, ◌≤◌, true, false, List, [], ◌∷◌, ◌++◌, ◌==◌, ==_refl, ◌≡◌, refl, ap,
  ◌∙◌, inl, inr, length, arith, Bool-cases,
}
use bsqgc.Common.{store, store_ne}
use bsqgc.Memory.World.{World, ok, fault, Returns, load_word, store_word}
use bsqgc.Support.ArrayList.{
  ArrayList, is_empty, in_bounds, invariant, push_back, pop_front, shift_front_slow, next_of,
  prev_of,
}

-- The list in segment `seg` whose elements are the `n` from the `i`-th place on.
abbrev pub segment_list : (seg i n : ℕ) → ArrayList
segment_list seg i n = record {
  head = seg + 24 + 8 * i;
  tail = seg + 24 + 8 * (i + n);
  head_min = seg + 24;
  head_max = seg + 4096;
  tail_min = seg + 24;
  tail_max = seg + 4096;
  head_segment = seg;
  tail_segment = seg;
}

-- The words from an address on.
unfoldable pub words_at : (ℕ → ℕ) → ℕ → ℕ → List ℕ
words_at word a zero = []
words_at word a (suc n) = word a ∷ words_at word (a + 8) n

module _ {F : Type 0} where
  pub record InSegment (seg i : ℕ) (xs : List ℕ) (l : ArrayList) (w : World F) : Type 0 where
    pub shape : l ≡ segment_list seg i (length xs)
    pub holds : words_at w.word (seg + 24 + 8 * i) (length xs) ≡ xs
    pub fits : i + length xs ≤ 509
    pub first : w.word (prev_of seg) ≡ 0
    pub last : w.word (next_of seg) ≡ 0

in_bounds-segment_list :
    (seg i n : ℕ) → 0 < seg → i < 509 → i + n ≤ 509 → in_bounds (segment_list seg i n) ≡ true
unfolding in_bounds
in_bounds-segment_list seg i n pos lt le = ground arith

module _ {F : Type 0} where
  pub invariant-segment_list :
      (seg i n : ℕ) (w : World F)
      → 0 < seg
      → i < 509
      → i + n ≤ 509
      → w.word (prev_of seg) ≡ 0
      → w.word (next_of seg) ≡ 0
      → invariant (segment_list seg i n) w ≡ ok true w
  unfolding invariant load_word
  invariant-segment_list seg i n w pos lt le first last =
      let a : (seg + 16 == 0) ≡ false = ground arith in
      let b : (seg + 8 == 0) ≡ false = ground arith in
      rw (in_bounds-segment_list seg i n pos lt le) (
        rw a (
          rw b (
            rw (first, last)
              (rw (==_refl seg) (elim (Bool-cases (seg + 24 + 8 * i == seg + 24 + 8 * (i + n))) [
                | inl e ↦ rw e refl
                | inr e ↦ rw e refl
              ])))))

pub length-snoc : (xs : List ℕ) (v : ℕ) → length (xs ++ (v ∷ [])) ≡ suc (length xs)
length-snoc [] v = refl
length-snoc (x ∷ xs) v = ap suc (length-snoc xs v)

words_at-below :
    (word : ℕ → ℕ) (a b v n : ℕ) → a + 8 * n ≤ b → words_at (store word b v) a n ≡ words_at word a n
unfolding words_at
words_at-below word a b v zero le = refl
words_at-below word a b v (suc n) le =
    let here : store word b v a ≡ word a = store_ne word b v a (omega arith) in
    λ k. here k ∷ words_at-below word (a + 8) b v n (omega arith) k

-- A write behind the last word.
pub words_at-snoc :
    (word : ℕ → ℕ) (a v n : ℕ)
    → words_at (store word (a + 8 * n) v) a (suc n) ≡ words_at word a n ++ (v ∷ [])
unfolding words_at
words_at-snoc word a v zero = let e : (a + 8 * 0 == a) ≡ true = ground arith in rw e refl
words_at-snoc word a v (suc n) =
    let here : store word (a + 8 * suc n) v a ≡ word a =
      store_ne word (a + 8 * suc n) v a (omega arith) in
    let place : a + 8 * suc n ≡ a + 8 + 8 * n = omega arith in
    let rest : words_at (store word (a + 8 * suc n) v) (a + 8) (suc n)
        ≡ words_at word (a + 8) n ++ (v ∷ []) =
      ap (λ b. words_at (store word b v) (a + 8) (suc n)) place ∙ words_at-snoc word (a + 8) v n in
    λ k. here k ∷ rest k

first_or_zero : List ℕ → ℕ
first_or_zero [] = 0
first_or_zero (x ∷ xs) = x

without_first : List ℕ → List ℕ
without_first [] = []
without_first (x ∷ xs) = xs

segment_list-push :
    (seg i n : ℕ)
    → record (segment_list seg i n) { tail = seg + 24 + 8 * (i + n) + 8 }
      ≡ segment_list seg i (suc n)
segment_list-push seg i n = ap (λ t. record (segment_list seg i n) { tail = t }) (omega arith)

segment_list-pop :
    (seg i n : ℕ)
    → record (segment_list seg i (suc n)) { head = seg + 24 + 8 * i + 8 }
      ≡ segment_list seg (suc i) n
segment_list-pop seg i n =
    let a : seg + 24 + 8 * i + 8 ≡ seg + 24 + 8 * suc i = omega arith in
    let b : seg + 24 + 8 * (i + suc n) ≡ seg + 24 + 8 * (suc i + n) = omega arith in
    λ k. record (segment_list seg i n) { head = a k; tail = b k }

module _ {F : Type 0} where
  -- For a list in one segment with room behind its last element, push_back puts the new element at the
  -- end; the list stays in the segment.
  pub push_back-InSegment :
      (seg i : ℕ) (xs : List ℕ) (l : ArrayList) (v : ℕ) (w : World F)
      → 0 < seg
      → i + length xs < 509
      → InSegment seg i xs l w
      → Returns (InSegment seg i (xs ++ (v ∷ []))) (push_back l v w)
  unfolding Returns push_back store_word
  push_back-InSegment seg i xs l v w pos room h =
      let n = length xs in
      let room' : (seg + 24 + 8 * (i + n) == seg + 4096) ≡ false = ground arith in
      let there : (seg + 24 + 8 * (i + n) == 0) ≡ false = ground arith in
      let place : seg + 24 + 8 * (i + n) ≡ seg + 24 + 8 * i + 8 * n = omega arith in
      let grown = length-snoc xs v in
      rw h.shape (
        rw (invariant-segment_list seg i n w pos (omega arith) (omega arith) h.first h.last) (
          rw room' (
            rw there (record {
              shape = segment_list-push seg i n ∙ rw grown refl;
              holds =
                  rw (grown, place) (words_at-snoc w.word (seg + 24 + 8 * i) v n ∙ rw h.holds refl);
              fits = rw grown (omega arith);
              first = store_ne w.word (seg + 24 + 8 * (i + n)) v (seg + 16) (omega arith) ∙ h.first;
              last = store_ne w.word (seg + 24 + 8 * (i + n)) v (seg + 8) (omega arith) ∙ h.last;
            }))))

  -- For a list in one segment whose first element does not stand in the last place of it, pop_front gives
  -- the first element and leaves the others, in the segment.
  pub pop_front-InSegment :
      (seg i x : ℕ) (xs : List ℕ) (l : ArrayList) (w : World F)
      → 0 < seg
      → i < 508
      → InSegment seg i (x ∷ xs) l w
      → Returns
          (λ (r : ℕ × ArrayList) (w' : World F). (r.0 ≡ x) × InSegment seg (suc i) xs r.1 w')
          (pop_front l w)
  unfolding Returns pop_front is_empty load_word words_at first_or_zero without_first
  pop_front-InSegment seg i x xs l w pos room h =
      let n = length xs in
      let some_left : (seg + 24 + 8 * i == seg + 24 + 8 * (i + suc n)) ≡ false = ground arith in
      let there : (seg + 24 + 8 * i == 0) ≡ false = ground arith in
      let inside : (seg + 24 + 8 * i + 8 == seg + 4096) ≡ false = ground arith in
      let next_place : seg + 24 + 8 * suc i ≡ seg + 24 + 8 * i + 8 = omega arith in
      rw h.shape (
        rw some_left (
          rw (invariant-segment_list seg i (suc n) w pos (omega arith) h.fits h.first h.last) (
            rw there (
              rw inside (
                ap first_or_zero h.holds,
                record {
                  shape = segment_list-pop seg i n;
                  holds = ap (λ a. words_at w.word a n) next_place ∙ ap without_first h.holds;
                  fits = let f = h.fits in omega arith;
                  first = h.first;
                  last = h.last;
                },
              )))))

  -- pop_front of the last element of the list faults where that stands in the last place of the only segment:
  -- there is no next segment to go on with.
  pub pop_front-full :
      (seg x : ℕ) (l : ArrayList) (w : World F)
      → 0 < seg
      → InSegment seg 508 (x ∷ []) l w
      → pop_front l w ≡ fault
  unfolding pop_front is_empty load_word shift_front_slow
  pop_front-full seg x l w pos h =
      let some_left : (seg + 24 + 8 * 508 == seg + 24 + 8 * (508 + 1)) ≡ false = ground arith in
      let there : (seg + 24 + 8 * 508 == 0) ≡ false = ground arith in
      let inside : (seg + 24 + 8 * 508 + 8 == seg + 4096) ≡ true = ground arith in
      let link : (seg + 8 == 0) ≡ false = ground arith in
      rw h.shape (
        rw some_left (
          rw (invariant-segment_list seg 508 1 w pos (omega arith) (omega arith) h.first h.last)
            (rw there (rw inside (rw link (rw h.last refl))))))
