-- ===== src/Support/ArrayList/Back.antt =====
-- ArrayList::pop_back (src/runtime/support/arraylist.h) in a single segment.
use bsqgc.Prelude.{
  ℕ, zero, suc, ◌+◌, ◌-◌, ◌*◌, ◌<◌, ◌≤◌, false, List, [], ◌∷◌, ◌++◌, ◌==◌, ◌≡◌, refl, ap, sym, ◌∙◌,
  length, arith,
}
use bsqgc.Memory.World.{World, Returns, load_word}
use bsqgc.Support.ArrayList.{ArrayList, is_empty, pop_back}
use bsqgc.Support.ArrayList.Segment.{
  InSegment, segment_list, words_at, invariant-segment_list, length-snoc,
}

-- A list without its last element, and that element.
init_of : List ℕ → List ℕ
init_of [] = []
init_of (x ∷ []) = []
init_of (x ∷ y ∷ ys) = x ∷ init_of (y ∷ ys)

last_of : List ℕ → ℕ
last_of [] = 0
last_of (x ∷ []) = x
last_of (x ∷ y ∷ ys) = last_of (y ∷ ys)

init_of-snoc : (xs : List ℕ) (x : ℕ) → init_of (xs ++ (x ∷ [])) ≡ xs
unfolding init_of
init_of-snoc [] x = refl
init_of-snoc (y ∷ []) x = refl
init_of-snoc (y ∷ z ∷ zs) x = ap (λ l. y ∷ l) (init_of-snoc (z ∷ zs) x)

last_of-snoc : (xs : List ℕ) (x : ℕ) → last_of (xs ++ (x ∷ [])) ≡ x
unfolding last_of
last_of-snoc [] x = refl
last_of-snoc (y ∷ []) x = refl
last_of-snoc (y ∷ z ∷ zs) x = last_of-snoc (z ∷ zs) x

words_at-last :
    (word : ℕ → ℕ) (a n : ℕ)
    → words_at word a (suc n) ≡ words_at word a n ++ (word (a + 8 * n) ∷ [])
unfolding words_at
words_at-last word a zero = let e : a ≡ a + 8 * 0 = omega arith in ap (λ b. word b ∷ []) e
words_at-last word a (suc n) =
    let e : a + 8 + 8 * n ≡ a + 8 * suc n = omega arith in
    ap (λ l. word a ∷ l)
      (words_at-last word (a + 8) n ∙ ap (λ b. words_at word (a + 8) n ++ (word b ∷ [])) e)

segment_list-pop_back :
    (seg i n : ℕ)
    → record (segment_list seg i (suc n)) { tail = seg + 24 + 8 * (i + suc n) - 8 }
      ≡ segment_list seg i n
segment_list-pop_back seg i n = ap (λ t. record (segment_list seg i n) { tail = t }) (omega arith)

module _ {F : Type 0} where
  -- For a list in one segment, pop_back gives the last element and leaves the others, in the segment.
  pub pop_back-InSegment :
      (seg i x : ℕ) (xs : List ℕ) (l : ArrayList) (w : World F)
      → 0 < seg
      → InSegment seg i (xs ++ (x ∷ [])) l w
      → Returns
          (λ (r : ℕ × ArrayList) (w' : World F). (r.0 ≡ x) × InSegment seg i xs r.1 w')
          (pop_back l w)
  unfolding Returns pop_back is_empty load_word
  pop_back-InSegment seg i x xs l w pos h =
      let n = length xs in
      let grown = length-snoc xs x in
      let shape : l ≡ segment_list seg i (suc n) = h.shape ∙ ap (segment_list seg i) grown in
      let fits : i + suc n ≤ 509 = let f = h.fits in rw (sym grown) f in
      let some_left : (seg + 24 + 8 * i == seg + 24 + 8 * (i + suc n)) ≡ false = ground arith in
      let inside : (seg + 24 + 8 * (i + suc n) == seg + 24) ≡ false = ground arith in
      let there : (seg + 24 + 8 * (i + suc n) - 8 == 0) ≡ false = ground arith in
      let place : seg + 24 + 8 * (i + suc n) - 8 ≡ seg + 24 + 8 * i + 8 * n = omega arith in
      let holds : words_at w.word (seg + 24 + 8 * i) n ++ (w.word (seg + 24 + 8 * i + 8 * n) ∷ [])
          ≡ xs ++ (x ∷ []) =
        sym (words_at-last w.word (seg + 24 + 8 * i) n)
        ∙ ap (words_at w.word (seg + 24 + 8 * i)) (sym grown)
        ∙ h.holds in
      rw shape (
        rw some_left (
          rw (invariant-segment_list seg i (suc n) w pos (omega arith) fits h.first h.last) (
            rw inside (
              rw there (
                ap (λ b. w.word b) place
                    ∙ sym (last_of-snoc (words_at w.word (seg + 24 + 8 * i) n) _)
                    ∙ ap last_of holds
                    ∙ last_of-snoc xs x,
                record {
                  shape = segment_list-pop_back seg i n;
                  holds =
                      sym (init_of-snoc (words_at w.word (seg + 24 + 8 * i) n) _)
                      ∙ ap init_of holds
                      ∙ init_of-snoc xs x;
                  fits = omega arith;
                  first = h.first;
                  last = h.last;
                },
              )))))
