-- ===== src/Support/ArrayList/Clear.antt =====
-- clear of an ArrayList (src/runtime/support/arraylist.h): its segments go back to the pool.
use bsqgc.Prelude.{
  ℕ, zero, suc, ◌+◌, ◌<◌, false, List, [], ◌∷◌, ◌==◌, ◌≡◌, refl, inl, inr, arith, All, All-mono,
  All-and, length,
}
use bsqgc.Common.{store, store_eq, xmem_zerofill}
use bsqgc.Memory.Page.Chain.{Chain, link}
use bsqgc.Memory.Page.Links.{Chain-frame}
use bsqgc.Memory.World.{World, Returns, Returns-then, pure, load_word}
use bsqgc.Support.Xalloc.{free_page, zerofill_page, link_support_page}
use bsqgc.Support.Xalloc.Given.{outside_page}
use bsqgc.Support.ArrayList.{ArrayList, clear, free_segments}
use bsqgc.Support.ArrayList.Start.{unset_list}
use bsqgc.Support.ArrayList.Spans.{Linked, InSpans, AreSpaced, IsSpaced}
use bsqgc.Support.ArrayList.Frame.{AgreeIn, Linked-frame, invariant-InSpans}

-- The pages in the order in which they are pushed.
unfoldable pub pushed_onto : List ℕ → List ℕ → List ℕ
pushed_onto [] pool = pool
pushed_onto (s ∷ ss) pool = pushed_onto ss (s ∷ pool)

swap-IsSpaced : (a b : ℕ) → IsSpaced a b → IsSpaced b a
swap-IsSpaced a b (inl h) = inr h
swap-IsSpaced a b (inr h) = inl h

-- The pages of the pool do not overlap the segments.
abbrev pub AreApartFrom : List ℕ → List ℕ → Type 0
AreApartFrom pool = All (λ s. All (IsSpaced s) pool)

next_apart :
    (seg : ℕ) (ss pool : List ℕ)
    → All (IsSpaced seg) ss
    → AreApartFrom pool ss
    → AreApartFrom (seg ∷ pool) ss
next_apart seg ss pool far apart =
    All-mono (λ s. IsSpaced seg s × All (IsSpaced s) pool) (λ s. All (IsSpaced s) (seg ∷ pool)) ss
      (λ s h. (swap-IsSpaced seg s h.0, h.1))
      (All-and (IsSpaced seg) (λ s. All (IsSpaced s) pool) ss far apart)

module _ {F : Type 0} where
  -- The state after a page is given back.
  given_back : ℕ → World F → World F
  given_back seg w = record w {
    word = store (xmem_zerofill w.word seg 512) seg w.support_pages;
    support_pages = seg;
  }

  given_back-Chain :
      (seg : ℕ) (pool : List ℕ) (w : World F)
      → 0 < seg
      → Chain w.word w.support_pages pool
      → All (IsSpaced seg) pool
      → Chain (given_back seg w).word seg (seg ∷ pool)
  unfolding given_back
  given_back-Chain seg pool w pos c far =
      let word' = store (xmem_zerofill w.word seg 512) seg w.support_pages in
      link (omega arith) (
        rw (store_eq (xmem_zerofill w.word seg 512) seg w.support_pages) (
          Chain-frame w.word word' w.support_pages pool c (
            All-mono (IsSpaced seg) (λ a. word' a ≡ w.word a) pool
              (λ a h. outside_page w.word seg w.support_pages a (ground arith)) far)))

  given_back-Linked :
      (seg s : ℕ) (rest : List ℕ) (w : World F)
      → All (IsSpaced seg) (s ∷ rest)
      → Linked w.word seg s rest
      → Linked (given_back seg w).word seg s rest
  unfolding given_back
  given_back-Linked seg s rest w far l =
      let word' = store (xmem_zerofill w.word seg 512) seg w.support_pages in
      Linked-frame w.word word' seg s rest
        (All-mono (IsSpaced seg) (λ u. AgreeIn w.word word' u (u + 24)) (s ∷ rest)
          (λ u h a lo hi. outside_page w.word seg w.support_pages a (ground arith)) far)
        l

  free_round :
      (n seg next : ℕ) (w : World F)
      → 0 < seg
      → w.word (seg + 8) ≡ next
      → free_segments (suc n) seg w ≡ free_segments n next (given_back seg w)
  unfolding free_segments load_word free_page zerofill_page link_support_page given_back
  free_round n seg next w pos e =
      let z : (seg == 0) ≡ false = ground arith in
      let y : (seg + 8 == 0) ≡ false = ground arith in rw z (rw y (rw e refl))

  free_end :
      (n : ℕ) (w : World F) (pool : List ℕ)
      → Chain w.word w.support_pages pool
      → 0 < n
      → Returns
          (λ (u : Unit {0}) (w' : World F). Chain w'.word w'.support_pages pool)
          (free_segments n 0 w)
  unfolding Returns free_segments
  free_end zero w pool c lt = absurd (omega arith)
  free_end (suc n) w pool c lt = c

  free_segments-Chain :
      (fuel prev seg : ℕ) (rest pool : List ℕ) (w : World F)
      → Linked w.word prev seg rest
      → AreSpaced (seg ∷ rest)
      → All (λ s. 0 < s) (seg ∷ rest)
      → AreApartFrom pool (seg ∷ rest)
      → Chain w.word w.support_pages pool
      → suc (length rest) < fuel
      → Returns
          (λ (u : Unit {0}) (w' : World F).
            Chain w'.word w'.support_pages (pushed_onto (seg ∷ rest) pool))
          (free_segments fuel seg w)
  unfolding Linked pushed_onto given_back
  free_segments-Chain zero prev seg rest pool w l d pos apart c lt = elim lt [ ]
  free_segments-Chain (suc n) prev seg [] pool w l d pos apart c lt =
      rw (free_round n seg 0 w pos.0 l.1) (
        free_end n (given_back seg w) (seg ∷ pool) (given_back-Chain seg pool w pos.0 c apart.0)
          (omega arith))
  free_segments-Chain (suc n) prev seg (s ∷ rest) pool w l d pos apart c lt =
      rw (free_round n seg s w pos.0 l.1) (
        free_segments-Chain n seg s rest (seg ∷ pool) (given_back seg w)
          (given_back-Linked seg s rest w d.0 l.3) d.1 pos.1
          (next_apart seg (s ∷ rest) pool d.0 apart.1) (given_back-Chain seg pool w pos.0 c apart.0)
          (omega arith))

  done_with :
      (seg : ℕ) (rest pool : List ℕ) (w : World F)
      → Chain w.word w.support_pages (pushed_onto (seg ∷ rest) pool)
      → Returns
          (λ (l' : ArrayList) (w' : World F).
            (l' ≡ unset_list) × Chain w'.word w'.support_pages (pushed_onto (seg ∷ rest) pool))
          (pure unset_list w)
  unfolding Returns
  done_with seg rest pool w c = (refl, c)

  -- clear, where the pages of the pool do not overlap the segments and the fuel is above the number of
  -- segments and the null pointer: it returns the list without segments, and every segment is in the
  -- pool, in front of the pages that were there.
  pub clear-Chain :
      (fuel seg i : ℕ) (rest : List ℕ) (n : ℕ) (xs pool : List ℕ) (l : ArrayList) (w : World F)
      → InSpans seg i rest n xs l w
      → Chain w.word w.support_pages pool
      → AreApartFrom pool (seg ∷ rest)
      → suc (length rest) < fuel
      → Returns
          (λ (l' : ArrayList) (w' : World F).
            (l' ≡ unset_list) × Chain w'.word w'.support_pages (pushed_onto (seg ∷ rest) pool))
          (clear fuel l w)
  unfolding clear
  clear-Chain fuel seg i rest n xs pool l w h c apart lt = rw h.shape (
      rw (invariant-InSpans seg i rest n xs l w h) (
        Returns-then
          (λ (u : Unit {0}) (w' : World F).
            Chain w'.word w'.support_pages (pushed_onto (seg ∷ rest) pool))
          (λ (l' : ArrayList) (w' : World F).
            (l' ≡ unset_list) × Chain w'.word w'.support_pages (pushed_onto (seg ∷ rest) pool))
          (free_segments fuel seg w) (λ u. pure unset_list)
          (free_segments-Chain fuel 0 seg rest pool w h.links h.spaced h.positive apart c lt)
          (λ u w' k. done_with seg rest pool w' k)))
