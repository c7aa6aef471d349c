-- ===== src/Support/ArrayList/Grow.antt =====
-- push_back of an ArrayList whose last segment is full (src/runtime/support/arraylist.h).
use bsqgc.Prelude.{
  ℕ, ◌+◌, ◌*◌, ◌<◌, ◌≤◌, true, false, List, [], ◌∷◌, ◌++◌, ◌==◌, ◌≡◌, ◌≢◌, refl, ap, sym, ◌∙◌, ◌⊎◌,
  inl, inr, arith, All, All-and, All-mono, All-append,
}
use bsqgc.Common.{store, store_eq, store_ne}
use bsqgc.Memory.Page.Links.{last_from, last_from-All}
use bsqgc.Memory.World.{World, ok, Returns, store_word}
use bsqgc.Support.Xalloc.{allocate_page}
use bsqgc.Support.Xalloc.Given.{next_support_page, CanGive, allocate_page-Gives}
use bsqgc.Support.ArrayList.{ArrayList, push_back, push_back_slow, new_segment}
use bsqgc.Support.ArrayList.Spans.{span_list, Linked, InSpans, AreSpaced, InOrder, IsSpaced}
use bsqgc.Support.ArrayList.Frame.{AgreeIn, Linked-frame, invariant-InSpans}
use bsqgc.Support.ArrayList.Push.{heads_kept, last_from-IsSpaced}
use bsqgc.Support.ArrayList.Extend.{last_from-snoc, Linked-snoc, contents-extend, AreSpaced-snoc}

-- The words after a new segment at `q` is set up behind `last`.
set_up : (word : ℕ → ℕ) (q last : ℕ) → ℕ → ℕ
set_up word q last = store (store (store word q (q + 24)) (q + 8) 0) (q + 16) last

grown_words : (word : ℕ → ℕ) (q last v : ℕ) → ℕ → ℕ
grown_words word q last v = store (store (set_up word q last) (last + 8) q) (q + 24) v

set_up-outside :
    (word : ℕ → ℕ) (q last a : ℕ) → (a < q) ⊎ (q + 24 ≤ a) → set_up word q last a ≡ word a
unfolding set_up
set_up-outside word q last a out =
    store_ne (store (store word q (q + 24)) (q + 8) 0) (q + 16) last a (ground arith)
    ∙ store_ne (store word q (q + 24)) (q + 8) 0 a (ground arith)
    ∙ store_ne word q (q + 24) a (ground arith)

grown_words-new : (word : ℕ → ℕ) (q last v : ℕ) → grown_words word q last v (q + 24) ≡ v
unfolding grown_words
grown_words-new word q last v = store_eq (store (set_up word q last) (last + 8) q) (q + 24) v

grown-data :
    (word word1 : ℕ → ℕ) (q last v : ℕ) (ss : List ℕ)
    → ((a : ℕ) → (a < q) ⊎ (q + 4096 ≤ a) → word1 a ≡ word a)
    → All (λ s. IsSpaced s q) ss
    → All (λ s. (last ≡ s) ⊎ IsSpaced s last) ss
    → All (λ s. AgreeIn word (grown_words word1 q last v) (s + 24) (s + 4096)) ss
unfolding grown_words
grown-data word word1 q last v ss out far near =
    All-mono (λ s. IsSpaced s q × ((last ≡ s) ⊎ IsSpaced s last))
      (λ s. AgreeIn word (grown_words word1 q last v) (s + 24) (s + 4096)) ss
      (λ s h a lo hi.
        store_ne (store (set_up word1 q last) (last + 8) q) (q + 24) v a
          (let k = h.0 in ground arith)
        ∙ store_ne (set_up word1 q last) (last + 8) q a (let k = h.1 in ground arith)
        ∙ set_up-outside word1 q last a (let k = h.0 in ground arith)
        ∙ out a (let k = h.0 in ground arith))
      (All-and (λ s. IsSpaced s q) (λ s. (last ≡ s) ⊎ IsSpaced s last) ss far near)

grown-Linked :
    (word word1 : ℕ → ℕ) (q v seg : ℕ) (rest : List ℕ)
    → ((a : ℕ) → (a < q) ⊎ (q + 4096 ≤ a) → word1 a ≡ word a)
    → AreSpaced (seg ∷ rest)
    → All (λ s. IsSpaced s q) (seg ∷ rest)
    → Linked word 0 seg rest
    → Linked (grown_words word1 q (last_from seg rest) v) 0 seg (rest ++ (q ∷ []))
unfolding grown_words set_up
grown-Linked word word1 q v seg rest out d far l =
    let last = last_from seg rest in
    let word4 = set_up word1 q last in
    let heads =
      All-mono (λ s. IsSpaced s q) (λ s. AgreeIn word word4 s (s + 24)) (seg ∷ rest)
        (λ s h a lo hi. set_up-outside word1 q last a (ground arith) ∙ out a (ground arith)) far in
    let own : word4 q ≡ q + 24 =
      store_ne (store (store word1 q (q + 24)) (q + 8) 0) (q + 16) last q (omega arith)
      ∙ store_ne (store word1 q (q + 24)) (q + 8) 0 q (omega arith)
      ∙ store_eq word1 q (q + 24) in
    let back : word4 (q + 16) ≡ last =
      store_eq (store (store word1 q (q + 24)) (q + 8) 0) (q + 16) last in
    let end : word4 (q + 8) ≡ 0 =
      store_ne (store (store word1 q (q + 24)) (q + 8) 0) (q + 16) last (q + 8) (omega arith)
      ∙ store_eq (store word1 q (q + 24)) (q + 8) 0 in
    let word5 = store word4 (last + 8) q in
    let Near : ℕ → Type 0 = λ s. (q ≡ s) ⊎ IsSpaced s q in
    let near =
      All-append Near (seg ∷ rest) (q ∷ [])
        (All-mono (λ s. IsSpaced s q) Near (seg ∷ rest) (λ s h. inr h) far) (inl refl, tt) in
    Linked-frame word5 (store word5 (q + 24) v) 0 seg (rest ++ (q ∷ []))
      (heads_kept word5 (q + 24) v q (seg ∷ (rest ++ (q ∷ []))) (omega arith) (omega arith) near)
      (Linked-snoc word4 q 0 seg rest (Linked-frame word word4 0 seg rest heads l) d far own back
        end)

order_long : (i q : ℕ) (rest : List ℕ) → InOrder i (rest ++ (q ∷ [])) 1
unfolding InOrder
order_long i q [] = tt
order_long i q (s ∷ rest) = tt

module _ {F : Type 0} where
  grow_run :
      (seg i : ℕ) (rest : List ℕ) (xs : List ℕ) (l : ArrayList) (v : ℕ) (w : World F) (q : ℕ)
      (w1 : World F)
      → InSpans seg i rest 509 xs l w
      → allocate_page w ≡ ok q w1
      → q ≢ 0
      → push_back l v w
        ≡ ok
            (span_list seg i q 1)
            (record w1 { word = grown_words w1.word q (last_from seg rest) v })
  unfolding push_back push_back_slow new_segment store_word grown_words set_up
  grow_run seg i rest xs l v w q w1 h run ne =
      let last = last_from seg rest in
      let posl = last_from-All (λ s. 0 < s) seg rest h.positive.0 h.positive.1 in
      let full : (last + 24 + 8 * 509 == last + 4096) ≡ true = ground arith in
      let z0 : (q == 0) ≡ false = ground arith in
      let z1 : (q + 8 == 0) ≡ false = ground arith in
      let z2 : (q + 16 == 0) ≡ false = ground arith in
      let z3 : (last + 8 == 0) ≡ false = ground arith in
      let z4 : (q + 24 == 0) ≡ false = ground arith in
      let base : q + 24 + 8 ≡ q + 24 + 8 * 1 = omega arith in
      let w' = record w1 { word = grown_words w1.word q last v } in
      rw h.shape (
        rw (invariant-InSpans seg i rest 509 xs l w h) (
          rw full (
            rw run (
              rw (z0, z1)
                (rw z2 (
                  rw z3
                    (rw z4 (ap (λ t. ok (record (span_list seg i q 1) { tail = t }) w') base))))))))

  -- push_back, where the last segment is full, the pool or mmap has a page to give, and that does not overlap the
  -- segments: it returns the list with the new element at the end, as the first one of that page, which is
  -- the new last segment.
  pub push_back_slow-InSpans :
      (seg i : ℕ) (rest : List ℕ) (xs : List ℕ) (l : ArrayList) (v : ℕ) (w : World F)
      → InSpans seg i rest 509 xs l w
      → CanGive w
      → All (λ s. IsSpaced s (next_support_page w)) (seg ∷ rest)
      → Returns
          (InSpans seg i (rest ++ (next_support_page w ∷ [])) 1 (xs ++ (v ∷ [])))
          (push_back l v w)
  unfolding Returns
  push_back_slow-InSpans seg i rest xs l v w h can far =
      let q = next_support_page w in
      let g = allocate_page-Gives w can in
      let last = last_from seg rest in
      let word1 = g.after.word in
      let out = g.given.outside in
      let e : grown_words word1 q last v (q + 24) ≡ v = grown_words-new word1 q last v in
      rw (grow_run seg i rest xs l v w q g.after h g.given.run g.given.nonzero) (record {
        shape = ap (λ t. span_list seg i t 1) (sym (last_from-snoc seg q rest));
        links = grown-Linked w.word word1 q v seg rest out h.spaced far h.links;
        holds =
            contents-extend w.word (grown_words word1 q last v) q seg i rest v
              (let k = h.start in omega arith)
              (grown-data w.word word1 q last v (seg ∷ rest) out far
                (last_from-IsSpaced seg rest h.spaced))
              e
            ∙ ap (λ ys. ys ++ (v ∷ [])) h.holds;
        start = h.start;
        finish = omega arith;
        order = order_long i q rest;
        positive =
            All-append (λ s. 0 < s) (seg ∷ rest) (q ∷ []) h.positive
              (let k = g.given.nonzero in omega arith, tt);
        spaced = AreSpaced-snoc q (seg ∷ rest) h.spaced far;
      })
