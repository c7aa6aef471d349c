-- ===== src/Support/ArrayList/Frame.antt =====
-- ArrayList (src/runtime/support/arraylist.h): the invariant over several segments, and writes that leave the
-- segments as they are.
use bsqgc.Prelude.{
  ℕ, zero, suc, ◌+◌, ◌-◌, ◌*◌, ◌<◌, ◌≤◌, true, false, List, [], ◌∷◌, ◌++◌, ◌==◌, ==_refl, ◌≡◌, refl,
  ◌∙◌, ◌⊎◌, inl, inr, arith, Bool-cases, All, if◌then◌else◌,
}
use bsqgc.Memory.Page.Links.{last_from, last_from-All}
use bsqgc.Memory.World.{World, ok, pure, load_word}
use bsqgc.Support.ArrayList.{ArrayList, invariant}
use bsqgc.Support.ArrayList.Segment.{words_at}
use bsqgc.Support.ArrayList.Spans.{
  span_list, Linked, Linked-first, Linked-last, contents, InSpans, same_or_IsSpaced,
  in_bounds-span_list, IsSpaced,
}

module _ {F : Type 0} where
  -- Start and end are one place only where they are in one segment.
  empty_in_one :
      (seg i last n : ℕ) (w : World F)
      → i < 509
      → n ≤ 509
      → ((last ≡ seg) × (i ≤ n)) ⊎ IsSpaced seg last
      → (if seg + 24 + 8 * i == last + 24 + 8 * n then pure (seg == last) else pure true) w
        ≡ ok true w
  empty_in_one seg i last n w lt le (inl (e, o)) = rw e (
      rw (==_refl seg) (elim (Bool-cases (seg + 24 + 8 * i == seg + 24 + 8 * n)) [
        | inl g ↦ rw g refl
        | inr g ↦ rw g refl
      ]))
  empty_in_one seg i last n w lt le (inr a) =
      let ne : (seg + 24 + 8 * i == last + 24 + 8 * n) ≡ false = ground arith in rw ne refl

  -- The code's own invariant holds.
  pub invariant-InSpans :
      (seg i : ℕ) (rest : List ℕ) (n : ℕ) (xs : List ℕ) (l : ArrayList) (w : World F)
      → InSpans seg i rest n xs l w
      → invariant (span_list seg i (last_from seg rest) n) w ≡ ok true w
  unfolding invariant load_word
  invariant-InSpans seg i rest n xs l w h =
      let last = last_from seg rest in
      let pos = h.positive.0 in
      let posl = last_from-All (λ s. 0 < s) seg rest h.positive.0 h.positive.1 in
      let where_last = same_or_IsSpaced seg rest i n h.order h.spaced in
      let a : (seg + 16 == 0) ≡ false = ground arith in
      let b : (last + 8 == 0) ≡ false = ground arith in
      let first = Linked-first w.word 0 seg rest h.links in
      let end = Linked-last w.word 0 seg rest h.links in
      let bounds = in_bounds-span_list seg i last n pos posl h.start h.finish where_last in
      rw bounds
        (rw a (rw b (rw (first, end) (empty_in_one seg i last n w h.start h.finish where_last))))

-- Words that agree in an interval.
abbrev pub AgreeIn : (word word' : ℕ → ℕ) → (lo hi : ℕ) → Type 0
AgreeIn word word' lo hi = (a : ℕ) → lo ≤ a → a < hi → word' a ≡ word a

pub words_at-frame :
    (word word' : ℕ → ℕ) (a n : ℕ)
    → AgreeIn word word' a (a + 8 * n)
    → words_at word' a n ≡ words_at word a n
unfolding words_at
words_at-frame word word' a zero h = refl
words_at-frame word word' a (suc n) h =
    let here : word' a ≡ word a = h a (omega arith) (omega arith) in
    λ k. here k ∷ words_at-frame word word' (a + 8) n (λ b lo hi. h b (omega arith) (omega arith)) k

-- The elements depend on the data of the segments only.
pub contents-frame :
    (word word' : ℕ → ℕ) (seg i : ℕ) (rest : List ℕ) (n : ℕ)
    → i ≤ 509
    → n ≤ 509
    → All (λ s. AgreeIn word word' (s + 24) (s + 4096)) (seg ∷ rest)
    → contents word' seg i rest n ≡ contents word seg i rest n
unfolding contents
contents-frame word word' seg i [] n li ln h =
    words_at-frame word word' (seg + 24 + 8 * i) (n - i)
      (λ a lo hi. h.0 a (omega arith) (omega arith))
contents-frame word word' seg i (s ∷ rest) n li ln h =
    let own =
      words_at-frame word word' (seg + 24 + 8 * i) (509 - i)
        (λ a lo hi. h.0 a (omega arith) (omega arith)) in
    λ k. own k ++ contents-frame word word' s 0 rest n (omega arith) ln h.1 k

-- The links depend on the heads of the segments only.
pub Linked-frame :
    (word word' : ℕ → ℕ) (prev seg : ℕ) (rest : List ℕ)
    → All (λ s. AgreeIn word word' s (s + 24)) (seg ∷ rest)
    → Linked word prev seg rest
    → Linked word' prev seg rest
unfolding Linked
Linked-frame word word' prev seg [] h (p, n) =
    (h.0 (seg + 16) (omega arith) (omega arith) ∙ p, h.0 (seg + 8) (omega arith) (omega arith) ∙ n)
Linked-frame word word' prev seg (s ∷ rest) h (p, n, d, l) = (
  h.0 (seg + 16) (omega arith) (omega arith) ∙ p,
  h.0 (seg + 8) (omega arith) (omega arith) ∙ n,
  h.1.0 s (omega arith) (omega arith) ∙ d,
  Linked-frame word word' seg s rest h.1 l,
)
