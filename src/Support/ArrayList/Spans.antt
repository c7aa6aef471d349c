-- ===== src/Support/ArrayList/Spans.antt =====
-- An ArrayList over several segments (src/runtime/support/arraylist.h) as a list of its elements.
use bsqgc.Prelude.{
  ℕ, ◌+◌, ◌-◌, ◌*◌, ◌<◌, ◌≤◌, true, List, [], ◌∷◌, ◌++◌, ◌≡◌, refl, ◌⊎◌, inl, inr, arith, All,
}
use bsqgc.Memory.Page.Links.{last_from, last_from-All}
use bsqgc.Memory.World.{World}
use bsqgc.Support.ArrayList.{ArrayList, in_bounds, next_of, prev_of}
use bsqgc.Support.ArrayList.Segment.{words_at}

-- The list that starts at place `i` of segment `seg` and ends in front of place `n` of segment `last`.
abbrev pub span_list : (seg i last n : ℕ) → ArrayList
span_list seg i last n = record {
  head = seg + 24 + 8 * i;
  tail = last + 24 + 8 * n;
  head_min = seg + 24;
  head_max = seg + 4096;
  tail_min = last + 24;
  tail_max = last + 4096;
  head_segment = seg;
  tail_segment = last;
}

-- The pointers of the segments: data, next and prev. The first one's data pointer is not read.
unfoldable pub Linked : (ℕ → ℕ) → (prev seg : ℕ) → List ℕ → Type 0
Linked word prev seg [] = (word (prev_of seg) ≡ prev) × (word (next_of seg) ≡ 0)
Linked word prev seg (s ∷ rest) =
    (word (prev_of seg) ≡ prev)
    × (word (next_of seg) ≡ s)
    × (word s ≡ s + 24)
    × Linked word seg s rest

-- The elements: those of a segment and those of the segments behind it.
unfoldable pub contents : (ℕ → ℕ) → (seg i : ℕ) → List ℕ → (n : ℕ) → List ℕ
contents word seg i [] n = words_at word (seg + 24 + 8 * i) (n - i)
contents word seg i (s ∷ rest) n =
    words_at word (seg + 24 + 8 * i) (509 - i) ++ contents word s 0 rest n

-- The end is not in front of the start where they are in one segment.
unfoldable pub InOrder : ℕ → List ℕ → ℕ → Type 0
InOrder i [] n = i ≤ n
InOrder i (s ∷ rest) n = Unit

-- Two pages that do not overlap.
abbrev pub IsSpaced : ℕ → ℕ → Type 0
IsSpaced a b = (a + 4096 ≤ b) ⊎ (b + 4096 ≤ a)

abbrev pub AreSpaced : List ℕ → Type 0
AreSpaced [] = Unit
AreSpaced (s ∷ rest) = All (IsSpaced s) rest × AreSpaced rest

module _ {F : Type 0} where
  pub record InSpans (seg i : ℕ) (rest : List ℕ) (n : ℕ) (xs : List ℕ) (l : ArrayList) (w : World F)
      : Type 0 where
    pub shape : l ≡ span_list seg i (last_from seg rest) n
    pub links : Linked w.word 0 seg rest
    pub holds : contents w.word seg i rest n ≡ xs
    pub start : i < 509
    pub finish : n ≤ 509
    pub order : InOrder i rest n
    pub positive : All (λ s. 0 < s) (seg ∷ rest)
    pub spaced : AreSpaced (seg ∷ rest)

pub Linked-first :
    (word : ℕ → ℕ) (prev seg : ℕ) (rest : List ℕ)
    → Linked word prev seg rest
    → word (prev_of seg) ≡ prev
unfolding Linked
Linked-first word prev seg [] h = h.0
Linked-first word prev seg (s ∷ rest) h = h.0

pub Linked-last :
    (word : ℕ → ℕ) (prev seg : ℕ) (rest : List ℕ)
    → Linked word prev seg rest
    → word (next_of (last_from seg rest)) ≡ 0
unfolding Linked last_from
Linked-last word prev seg [] h = h.1
Linked-last word prev seg (s ∷ rest) h = Linked-last word seg s rest h.3

-- Whether the first and the last segment are the same.
pub same_or_IsSpaced :
    (seg : ℕ) (rest : List ℕ) (i n : ℕ)
    → InOrder i rest n
    → AreSpaced (seg ∷ rest)
    → ((last_from seg rest ≡ seg) × (i ≤ n)) ⊎ IsSpaced seg (last_from seg rest)
unfolding last_from InOrder
same_or_IsSpaced seg [] i n o d = inl (refl, o)
same_or_IsSpaced seg (s ∷ rest) i n o d = inr (last_from-All (IsSpaced seg) s rest d.0.0 d.0.1)

pub in_bounds-span_list :
    (seg i last n : ℕ)
    → 0 < seg
    → 0 < last
    → i < 509
    → n ≤ 509
    → ((last ≡ seg) × (i ≤ n)) ⊎ IsSpaced seg last
    → in_bounds (span_list seg i last n) ≡ true
unfolding in_bounds
in_bounds-span_list seg i last n pos posl lt le (inl (e, o)) = rw e (ground arith)
in_bounds-span_list seg i last n pos posl lt le (inr (inl a)) = ground arith
in_bounds-span_list seg i last n pos posl lt le (inr (inr a)) = ground arith
