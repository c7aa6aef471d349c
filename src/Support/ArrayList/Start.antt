-- ===== src/Support/ArrayList/Start.antt =====
-- ArrayList::initialize (src/runtime/support/arraylist.h).
use bsqgc.Prelude.{ℕ, ◌+◌, ◌*◌, true, false, [], ◌==◌, ◌≡◌, ◌≢◌, refl, ◌∙◌, arith}
use bsqgc.Common.{store, store_eq, store_ne}
use bsqgc.Memory.World.{World, ok, Returns, store_word}
use bsqgc.Support.Xalloc.{allocate_page, take_support_page}
use bsqgc.Support.ArrayList.{ArrayList, initialize_list, new_segment, invariant}
use bsqgc.Support.ArrayList.Segment.{InSegment, segment_list, words_at, invariant-segment_list}

-- A list that owns no segment, as the constructor and `clear` leave it.
abbrev pub unset_list : ArrayList
unset_list = record {
  head = 0;
  tail = 0;
  head_min = 0;
  head_max = 0;
  tail_min = 0;
  tail_max = 0;
  head_segment = 0;
  tail_segment = 0;
}

start_list : ℕ → ArrayList
start_list p = record {
  head = p + 24;
  tail = p + 24;
  head_min = p + 24;
  head_max = p + 4096;
  tail_min = p + 24;
  tail_max = p + 4096;
  head_segment = p;
  tail_segment = p;
}

start_list-segment_list : (p : ℕ) → start_list p ≡ segment_list p 0 0
unfolding start_list
start_list-segment_list p =
    let a : p + 24 ≡ p + 24 + 8 * 0 = omega arith in
    let b : p + 24 ≡ p + 24 + 8 * (0 + 0) = omega arith in
    λ k. record (segment_list p 0 0) { head = a k; tail = b k }

module _ {F : Type 0} where
  -- From a list that owns no segment, with a page in the support pool, initialize gives the empty list at the
  -- start of that page.
  pub initialize_list-InSegment :
      (w : World F)
      → w.support_pages ≢ 0
      → Returns
          (λ (l : ArrayList) (w' : World F). InSegment w.support_pages 0 [] l w')
          (initialize_list unset_list w)
  unfolding Returns initialize_list new_segment allocate_page take_support_page store_word words_at
      start_list
  initialize_list-InSegment w ne =
      let p = w.support_pages in
      let a : (p == 0) ≡ false = ground arith in
      let b : (p + 8 == 0) ≡ false = ground arith in
      let c : (p + 16 == 0) ≡ false = ground arith in
      let word = store (store (store (λ x. w.word x) p (p + 24)) (p + 8) 0) (p + 16) 0 in
      let w' = record w { support_pages = w.word p; word = word } in
      let first : word (p + 16) ≡ 0 =
        store_eq (store (store w.word p (p + 24)) (p + 8) 0) (p + 16) 0 in
      let last : word (p + 8) ≡ 0 =
        store_ne (store (store w.word p (p + 24)) (p + 8) 0) (p + 16) 0 (p + 8) (omega arith)
        ∙ store_eq (store w.word p (p + 24)) (p + 8) 0 in
      let good : invariant (start_list p) w' ≡ ok true w' =
        rw (start_list-segment_list p)
          (invariant-segment_list p 0 0 w' (omega arith) (omega arith) (omega arith) first last) in
      rw a (
        rw a (
          rw b (
            rw c (
              rw good (record {
                shape = start_list-segment_list p;
                holds = refl;
                fits = omega arith;
                first = first;
                last = last;
              })))))
