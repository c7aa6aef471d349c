-- ===== src/Support/ArrayList/Tests.antt =====
-- Lists in the segment at 4096: with three elements, and with one in the last place.
use bsqgc.Prelude.{ℕ, inl, inr, [], ◌∷◌, ◌++◌, ◌==◌, if◌then◌else◌, ◌≡◌, refl, arith}
use bsqgc.Memory.World.{World, fault, Returns}
use bsqgc.Memory.Allocator.Sample.{world}
use bsqgc.Memory.Page.Links.{last_from}
use bsqgc.Support.ArrayList.Spans.{InSpans, span_list, Linked, contents, InOrder}
use bsqgc.Support.ArrayList.Push.{push_back-InSpans}
use bsqgc.Support.ArrayList.Grow.{push_back_slow-InSpans}
use bsqgc.Memory.Page.Chain.{Chain, done}
use bsqgc.Support.ArrayList.Clear.{pushed_onto, clear-Chain}
use bsqgc.Support.ArrayList.Front.{IsPopped, pop_front-IsPopped}
use bsqgc.Support.ArrayList.Back.{pop_back-InSegment}
use bsqgc.Support.ArrayList.Start.{unset_list, initialize_list-InSegment}
use bsqgc.Support.ArrayList.{clear, pop_back, initialize_list, ArrayList, push_back, pop_front}
use bsqgc.Support.ArrayList.Segment.{InSegment, segment_list, words_at, pop_front-full}

abbrev items : World ℕ
items = record world {
  word = λ a. if a == 4120 then 7 else if a == 4128 then 8 else if a == 4136 then 9 else 0;
}

items-InSegment : InSegment 4096 0 (7 ∷ 8 ∷ 9 ∷ []) (segment_list 4096 0 3) items
unfolding words_at
items-InSegment = record {
  shape = refl;
  holds = refl;
  fits = omega arith;
  first = refl;
  last = refl;
}

abbrev full : World ℕ
full = record world { word = λ a. if a == 8184 then 7 else 0 }

full-InSegment : InSegment 4096 508 (7 ∷ []) (segment_list 4096 508 1) full
unfolding words_at
full-InSegment = record {
  shape = refl;
  holds = refl;
  fits = omega arith;
  first = refl;
  last = refl;
}

pop_front-full_example : pop_front (segment_list 4096 508 1) full ≡ fault
pop_front-full_example =
    pop_front-full 4096 7 (segment_list 4096 508 1) full (omega arith) full-InSegment

pop_back-InSegment_example :
    Returns
      (λ (r : ℕ × ArrayList) (w' : World ℕ). (r.0 ≡ 9) × InSegment 4096 0 (7 ∷ 8 ∷ []) r.1 w')
      (pop_back (segment_list 4096 0 3) items)
pop_back-InSegment_example =
    pop_back-InSegment 4096 0 9 (7 ∷ 8 ∷ []) (segment_list 4096 0 3) items (omega arith)
      items-InSegment

-- A pool with the page at 12288.
abbrev pool : World ℕ
pool = record world { support_pages = 12288 }

initialize_list-InSegment_example :
    Returns
      (λ (l : ArrayList) (w' : World ℕ). InSegment 12288 0 [] l w')
      (initialize_list unset_list pool)
initialize_list-InSegment_example = initialize_list-InSegment pool (omega arith)

-- Two segments: 7 in the last place of the first, 9 in the second.
abbrev two_segments : World ℕ
two_segments = record world {
  word = λ a.
      if a == 8184
      then 7
      else if a == 4104
      then 12288
      else if a == 12288
      then 12312
      else if a == 12304
      then 4096
      else if a == 12312
      then 9
      else 0;
}

two_segments-InSpans :
    InSpans 4096 508 (12288 ∷ []) 1 (7 ∷ 9 ∷ []) (span_list 4096 508 12288 1) two_segments
unfolding Linked contents words_at InOrder last_from
two_segments-InSpans = record {
  shape = refl;
  links = (refl, refl, refl, (refl, refl));
  holds = refl;
  start = omega arith;
  finish = omega arith;
  order = tt;
  positive = (omega arith, (omega arith, tt));
  spaced = ((inl (omega arith), tt), (tt, tt));
}

pop_front-IsPopped_example :
    Returns
      (IsPopped 4096 508 (12288 ∷ []) 1 7 (9 ∷ []) two_segments)
      (pop_front (span_list 4096 508 12288 1) two_segments)
pop_front-IsPopped_example =
    pop_front-IsPopped 4096 508 (12288 ∷ []) 1 7 (9 ∷ []) (span_list 4096 508 12288 1) two_segments
      two_segments-InSpans (inr (omega arith))

push_back-InSpans_example :
    Returns
      (InSpans 4096 508 (12288 ∷ []) 2 ((7 ∷ 9 ∷ []) ++ (5 ∷ [])))
      (push_back (span_list 4096 508 12288 1) 5 two_segments)
push_back-InSpans_example =
    push_back-InSpans 4096 508 (12288 ∷ []) 1 (7 ∷ 9 ∷ []) (span_list 4096 508 12288 1) 5
      two_segments (omega arith) two_segments-InSpans

full-InSpans : InSpans 4096 508 [] 509 (7 ∷ []) (span_list 4096 508 4096 509) full
unfolding Linked contents words_at InOrder last_from
full-InSpans = record {
  shape = refl;
  links = (refl, refl);
  holds = refl;
  start = omega arith;
  finish = omega arith;
  order = omega arith;
  positive = (omega arith, tt);
  spaced = (tt, tt);
}

-- The page at 12288 comes from mmap.
push_back_slow-InSpans_example :
    Returns
      (InSpans 4096 508 (12288 ∷ []) 1 ((7 ∷ []) ++ (5 ∷ [])))
      (push_back (span_list 4096 508 4096 509) 5 full)
push_back_slow-InSpans_example =
    push_back_slow-InSpans 4096 508 [] (7 ∷ []) (span_list 4096 508 4096 509) 5 full full-InSpans
      (inr (refl, omega arith, refl)) (inl (omega arith), tt)

clear-Chain_example :
    Returns
      (λ (l' : ArrayList) (w' : World ℕ).
        (l' ≡ unset_list) × Chain w'.word w'.support_pages (pushed_onto (4096 ∷ 12288 ∷ []) []))
      (clear 3 (span_list 4096 508 12288 1) two_segments)
clear-Chain_example =
    clear-Chain 3 4096 508 (12288 ∷ []) 1 (7 ∷ 9 ∷ []) [] (span_list 4096 508 12288 1) two_segments
      two_segments-InSpans (done refl) (tt, (tt, tt)) (omega arith)
