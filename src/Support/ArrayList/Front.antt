-- ===== src/Support/ArrayList/Front.antt =====
-- pop_front of an ArrayList over several segments (src/runtime/support/arraylist.h).
use bsqgc.Prelude.{
  ℕ, suc, ◌+◌, ◌*◌, ◌<◌, List, [], ◌∷◌, ltb, ◌≡◌, refl, ap, sym, subst, ◌∙◌, ◌⊎◌, inl, inr, arith,
  Bool-cases, All, All-mono, length, ◌≢◌, ◌≤◌, ==_refl,
}
use bsqgc.Common.{store, store_eq, store_ne}
use bsqgc.Memory.Page.Links.{last_from}
use bsqgc.Memory.World.{World, Returns}
use bsqgc.Support.ArrayList.{ArrayList, pop_front}
use bsqgc.Support.ArrayList.Spans.{span_list, Linked, contents, InSpans, AreSpaced, IsSpaced}
use bsqgc.Support.ArrayList.Frame.{AgreeIn, contents-frame, Linked-frame}
use bsqgc.Support.ArrayList.Push.{order_from}
use bsqgc.Support.ArrayList.Segment.{words_at}
use bsqgc.Support.Xalloc.Given.{outside_page}
use bsqgc.Support.ArrayList.Steps.{inside_run, shift_run, unlinked_words}
use bsqgc.Support.ArrayList.First.{contents-IsBefore, contents-cons, order_next}

first_or : ℕ → List ℕ → ℕ
first_or d [] = d
first_or d (x ∷ xs) = x

without_first : List ℕ → List ℕ
without_first [] = []
without_first (x ∷ xs) = xs

-- The second segment becomes the first.
Linked-reroot :
    (word : ℕ → ℕ) (prev s : ℕ) (rest : List ℕ)
    → AreSpaced (s ∷ rest)
    → Linked word prev s rest
    → Linked (store word (s + 16) 0) 0 s rest
unfolding Linked
Linked-reroot word prev s [] d (p, n) =
    (store_eq word (s + 16) 0, store_ne word (s + 16) 0 (s + 8) (omega arith) ∙ n)
Linked-reroot word prev s (t ∷ rest) d (p, n, e, l) =
    let far : All (IsSpaced s) (t ∷ rest) = d.0 in
    (
      store_eq word (s + 16) 0,
      store_ne word (s + 16) 0 (s + 8) (omega arith) ∙ n,
      store_ne word (s + 16) 0 t (let h = d.0.0 in ground arith) ∙ e,
      Linked-frame word (store word (s + 16) 0) s t rest
          (All-mono (IsSpaced s) (λ u. AgreeIn word (store word (s + 16) 0) u (u + 24)) (t ∷ rest)
            (λ u h a lo hi. store_ne word (s + 16) 0 a (ground arith)) far)
          l,
    )

module _ {F : Type 0} where
  -- The list behind a pop_front that went on to the next segment: the one that was left is the first page of
  -- the pool, linked to the others, and the words of no other page have changed but the link back to it.
  abbrev pub IsShifted :
      (seg : ℕ) → List ℕ → (n : ℕ) → List ℕ → World F → ArrayList → World F → Type 0
  IsShifted seg [] n xs w l w' = ⊥
  IsShifted seg (s ∷ rest) n xs w l w' =
      InSpans s 0 rest n xs l w'
      × (w'.support_pages ≡ seg)
      × (w'.word seg ≡ w.support_pages)
      × ((a : ℕ) → (a < seg) ⊎ (seg + 4096 ≤ a) → s + 16 ≢ a → w'.word a ≡ w.word a)

  pub IsPopped :
      (seg i : ℕ) → List ℕ → (n x : ℕ) → List ℕ → World F → ℕ × ArrayList → World F → Type 0
  IsPopped seg i rest n x xs w r w' =
      (r.0 ≡ x)
      × (((i < 508) × InSpans seg (suc i) rest n xs r.1 w' × (w' ≡ w))
          ⊎ ((i ≡ 508) × IsShifted seg rest n xs w r.1 w'))

  inside-InSpans :
      (seg i : ℕ) (rest : List ℕ) (n x : ℕ) (xs : List ℕ) (l : ArrayList) (w : World F)
      → i < 508
      → InSpans seg i rest n (x ∷ xs) l w
      → (w.word (seg + 24 + 8 * i) ≡ x)
        × InSpans seg (suc i) rest n xs (span_list seg (suc i) (last_from seg rest) n) w
  unfolding first_or without_first
  inside-InSpans seg i rest n x xs l w lt h =
      let b = contents-IsBefore w.word seg i rest n x xs h.holds in
      let both = sym (contents-cons w.word seg i rest n h.start b) ∙ h.holds in
      (
        ap (first_or 0) both,
        record {
          shape = refl;
          links = h.links;
          holds = ap without_first both;
          start = omega arith;
          finish = h.finish;
          order = order_next i rest n b;
          positive = h.positive;
          spaced = h.spaced;
        },
      )

  shifted-InSpans :
      (seg s : ℕ) (rest : List ℕ) (n x : ℕ) (xs : List ℕ) (l : ArrayList) (w : World F)
      → InSpans seg 508 (s ∷ rest) n (x ∷ xs) l w
      → (w.word (seg + 24 + 8 * 508) ≡ x)
        × InSpans s 0 rest n xs
            (span_list s 0 (last_from s rest) n)
            (record w { word = unlinked_words seg s w; support_pages = seg })
  unfolding first_or without_first unlinked_words Linked contents words_at
  shifted-InSpans seg s rest n x xs l w h =
      let b = contents-IsBefore w.word seg 508 (s ∷ rest) n x xs h.holds in
      let both = sym (contents-cons w.word seg 508 (s ∷ rest) n h.start b) ∙ h.holds in
      let word1 = store w.word (s + 16) 0 in
      let word2 = unlinked_words seg s w in
      let far : All (IsSpaced seg) (s ∷ rest) = h.spaced.0 in
      let heads =
        All-mono (IsSpaced seg) (λ u. AgreeIn word1 word2 u (u + 24)) (s ∷ rest)
          (λ u k a lo hi. outside_page word1 seg w.support_pages a (ground arith)) far in
      let near : All (λ u. AgreeIn w.word word1 (u + 24) (u + 4096)) (s ∷ rest) = (
        λ a lo hi. store_ne w.word (s + 16) 0 a (omega arith),
        All-mono (IsSpaced s) (λ u. AgreeIn w.word word1 (u + 24) (u + 4096)) rest
            (λ u k a lo hi. store_ne w.word (s + 16) 0 a (ground arith)) h.spaced.1.0,
      ) in
      let data2 =
        All-mono (IsSpaced seg) (λ u. AgreeIn word1 word2 (u + 24) (u + 4096)) (s ∷ rest)
          (λ u k a lo hi. outside_page word1 seg w.support_pages a (ground arith)) far in
      (
        ap (first_or 0) both,
        record {
          shape = refl;
          links =
              Linked-frame word1 word2 0 s rest heads
                (Linked-reroot w.word seg s rest h.spaced.1 h.links.3);
          holds =
              contents-frame word1 word2 s 0 rest n (omega arith) h.finish data2
              ∙ contents-frame w.word word1 s 0 rest n (omega arith) h.finish near
              ∙ ap without_first both;
          start = omega arith;
          finish = h.finish;
          order = order_from s rest n;
          positive = h.positive.1;
          spaced = h.spaced.1;
        },
      )

  pop_inside :
      (seg i : ℕ) (rest : List ℕ) (n x : ℕ) (xs : List ℕ) (l : ArrayList) (w : World F)
      → InSpans seg i rest n (x ∷ xs) l w
      → i < 508
      → Returns (IsPopped seg i rest n x xs w) (pop_front l w)
  unfolding Returns IsPopped
  pop_inside seg i rest n x xs l w h lt =
      let (e, k) = inside-InSpans seg i rest n x xs l w lt h in
      rw (inside_run seg i rest n x xs l w lt h) (e, inl (lt, k, refl))

  unlinked_words-pool : (seg s : ℕ) (w : World F) → unlinked_words seg s w seg ≡ w.support_pages
  unfolding unlinked_words
  unlinked_words-pool seg s w = rw (==_refl seg) refl

  unlinked_words-outside :
      (seg s a : ℕ) (w : World F)
      → (a < seg) ⊎ (seg + 4096 ≤ a)
      → s + 16 ≢ a
      → unlinked_words seg s w a ≡ w.word a
  unfolding unlinked_words
  unlinked_words-outside seg s a w out ne =
      outside_page (store w.word (s + 16) 0) seg w.support_pages a out
      ∙ store_ne w.word (s + 16) 0 a ne

  pop_shift :
      (seg i : ℕ) (rest : List ℕ) (n x : ℕ) (xs : List ℕ) (l : ArrayList) (w : World F)
      → InSpans seg i rest n (x ∷ xs) l w
      → i ≡ 508
      → 0 < length rest
      → Returns (IsPopped seg i rest n x xs w) (pop_front l w)
  unfolding Returns IsPopped
  pop_shift seg i [] n x xs l w h e pos = absurd (omega arith)
  pop_shift seg i (s ∷ rest) n x xs l w h e pos =
      let h' = subst (λ j. InSpans seg j (s ∷ rest) n (x ∷ xs) l w) e h in
      let (ex, k) = shifted-InSpans seg s rest n x xs l w h' in
      rw (shift_run seg s rest n x xs l w h') (
        ex,
        inr (
          e,
          (
            k,
            refl,
            unlinked_words-pool seg s w,
            λ a out ne. unlinked_words-outside seg s a w out ne,
          ),
        ),
      )

  -- pop_front of a list over any number of segments that is not empty, unless its first element stands in the last
  -- place of its only segment: it returns the first element, and the list holds the others in order. Where
  -- that element was not in the last place of its segment, the list starts in the next place and the state is as
  -- before; otherwise the list starts in the next segment, and the one that it left is the first page
  -- of the pool, in front of the pages that were there.
  pub pop_front-IsPopped :
      (seg i : ℕ) (rest : List ℕ) (n x : ℕ) (xs : List ℕ) (l : ArrayList) (w : World F)
      → InSpans seg i rest n (x ∷ xs) l w
      → (i < 508) ⊎ (0 < length rest)
      → Returns (IsPopped seg i rest n x xs w) (pop_front l w)
  pop_front-IsPopped seg i rest n x xs l w h room = elim (Bool-cases (ltb i 508)) [
    | inl e ↦ pop_inside seg i rest n x xs l w h (ground arith)
    | inr e ↦ pop_shift seg i rest n x xs l w h (let k = h.start in ground arith) (ground arith)
  ]
