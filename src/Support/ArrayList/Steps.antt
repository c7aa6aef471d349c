-- ===== src/Support/ArrayList/Steps.antt =====
-- pop_front of an ArrayList over several segments (src/runtime/support/arraylist.h): its run.
use bsqgc.Prelude.{ℕ, suc, ◌+◌, ◌*◌, ◌<◌, true, false, List, ◌∷◌, ◌==◌, ◌≡◌, ap, ◌∙◌, arith}
use bsqgc.Common.{store, store_ne, xmem_zerofill}
use bsqgc.Memory.Page.Links.{last_from}
use bsqgc.Memory.World.{World, ok, load_word, store_word}
use bsqgc.Support.Xalloc.{free_page, zerofill_page, link_support_page}
use bsqgc.Support.ArrayList.{ArrayList, is_empty, pop_front, shift_front_slow}
use bsqgc.Support.ArrayList.Spans.{span_list, Linked, InSpans}
use bsqgc.Support.ArrayList.Frame.{invariant-InSpans}
use bsqgc.Support.ArrayList.First.{contents-IsBefore, before_end, not_at_end}

span_list-pop :
    (seg i last n : ℕ)
    → record (span_list seg i last n) { head = seg + 24 + 8 * i + 8 } ≡ span_list seg (suc i) last n
span_list-pop seg i last n = ap (λ t. record (span_list seg i last n) { head = t }) (omega arith)

module _ {F : Type 0} where
  pub inside_run :
      (seg i : ℕ) (rest : List ℕ) (n x : ℕ) (xs : List ℕ) (l : ArrayList) (w : World F)
      → i < 508
      → InSpans seg i rest n (x ∷ xs) l w
      → pop_front l w
        ≡ ok (w.word (seg + 24 + 8 * i), span_list seg (suc i) (last_from seg rest) n) w
  unfolding pop_front is_empty load_word
  inside_run seg i rest n x xs l w lt h =
      let last = last_from seg rest in
      let pos = h.positive.0 in
      let b = contents-IsBefore w.word seg i rest n x xs h.holds in
      let some_left =
        before_end seg i last n (not_at_end seg i rest n b h.spaced) h.start h.finish in
      let there : (seg + 24 + 8 * i == 0) ≡ false = ground arith in
      let inside : (seg + 24 + 8 * i + 8 == seg + 4096) ≡ false = ground arith in
      rw h.shape (
        rw some_left (
          rw (invariant-InSpans seg i rest n (x ∷ xs) l w h) (
            rw there (
              rw inside
                (ap (λ r. ok (w.word (seg + 24 + 8 * i), r) w) (span_list-pop seg i last n))))))

  -- The words after the first segment is given back and the next one is unlinked from it.
  unfoldable pub unlinked_words : (seg s : ℕ) → World F → ℕ → ℕ
  unlinked_words seg s w =
      store (xmem_zerofill (store w.word (s + 16) 0) seg 512) seg w.support_pages

  pub shift_run :
      (seg s : ℕ) (rest : List ℕ) (n x : ℕ) (xs : List ℕ) (l : ArrayList) (w : World F)
      → InSpans seg 508 (s ∷ rest) n (x ∷ xs) l w
      → pop_front l w
        ≡ ok
            (w.word (seg + 24 + 8 * 508), span_list s 0 (last_from s rest) n)
            (record w { word = unlinked_words seg s w; support_pages = seg })
  unfolding pop_front is_empty load_word store_word shift_front_slow free_page zerofill_page
      link_support_page unlinked_words Linked last_from
  shift_run seg s rest n x xs l w h =
      let last = last_from s rest in
      let pos = h.positive.0 in
      let pos_s = h.positive.1.0 in
      let b = contents-IsBefore w.word seg 508 (s ∷ rest) n x xs h.holds in
      let some_left =
        before_end seg 508 last n (not_at_end seg 508 (s ∷ rest) n b h.spaced) h.start h.finish in
      let there : (seg + 24 + 8 * 508 == 0) ≡ false = ground arith in
      let full : (seg + 24 + 8 * 508 + 8 == seg + 4096) ≡ true = ground arith in
      let link : (seg + 8 == 0) ≡ false = ground arith in
      let next = h.links.1 in
      let zs : (s == 0) ≡ false = ground arith in
      let zp : (s + 16 == 0) ≡ false = ground arith in
      let start : store w.word (s + 16) 0 s ≡ s + 24 =
        store_ne w.word (s + 16) 0 s (omega arith) ∙ h.links.2 in
      let base : s + 24 ≡ s + 24 + 8 * 0 = omega arith in
      let w' = record w { word = unlinked_words seg s w; support_pages = seg } in
      rw h.shape (
        rw some_left (
          rw (invariant-InSpans seg 508 (s ∷ rest) n (x ∷ xs) l w h) (
            rw there (
              rw full (
                rw link (
                  rw (next, zs)
                    (rw zp (
                      rw zs (
                        rw start (
                          ap
                            (λ hd.
                              ok
                                (
                                  w.word (seg + 24 + 8 * 508),
                                  record (span_list s 0 last n) { head = hd },
                                )
                                w')
                            base))))))))))
