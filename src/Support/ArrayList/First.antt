-- ===== src/Support/ArrayList/First.antt =====
-- The first element of an ArrayList over several segments (src/runtime/support/arraylist.h).
use bsqgc.Prelude.{
  ℕ, suc, ◌+◌, ◌-◌, ◌*◌, ◌<◌, ◌≤◌, false, List, [], ◌∷◌, ◌++◌, ◌==◌, ltb, ◌≡◌, refl, ap, sym, subst,
  ◌∙◌, ◌⊎◌, inl, inr, arith, Bool-cases,
}
use bsqgc.Memory.Page.Links.{last_from, last_from-All}
use bsqgc.Support.ArrayList.Segment.{words_at}
use bsqgc.Support.ArrayList.Spans.{contents, AreSpaced, InOrder, IsSpaced}

-- There is an element where start and end are in one segment.
unfoldable pub IsBefore : ℕ → List ℕ → ℕ → Type 0
IsBefore i [] n = i < n
IsBefore i (s ∷ rest) n = Unit

IsNil : List ℕ → Type 0
IsNil [] = Unit
IsNil (x ∷ xs) = ⊥

nonempty : (x : ℕ) (xs : List ℕ) → [] ≡ x ∷ xs → ⊥
unfolding IsNil
nonempty x xs e = subst (λ ys. IsNil ys) e tt

words_at-zero : (word : ℕ → ℕ) (a n : ℕ) → n ≡ 0 → words_at word a n ≡ []
unfolding words_at
words_at-zero word a n e = rw e refl

words_at-first :
    (word : ℕ → ℕ) (seg i n m : ℕ)
    → n ≡ suc m
    → words_at word (seg + 24 + 8 * i) n
      ≡ word (seg + 24 + 8 * i) ∷ words_at word (seg + 24 + 8 * suc i) m
unfolding words_at
words_at-first word seg i n m e =
    let place : seg + 24 + 8 * suc i ≡ seg + 24 + 8 * i + 8 = omega arith in rw (e, place) refl

pub contents-IsBefore :
    (word : ℕ → ℕ) (seg i : ℕ) (rest : List ℕ) (n x : ℕ) (xs : List ℕ)
    → contents word seg i rest n ≡ x ∷ xs
    → IsBefore i rest n
unfolding contents IsBefore
contents-IsBefore word seg i [] n x xs h = elim (Bool-cases (ltb i n)) [
  | inl e ↦ ground arith
  | inr e ↦
      let none : n - i ≡ 0 = ground arith in
      absurd (nonempty x xs (sym (words_at-zero word (seg + 24 + 8 * i) (n - i) none) ∙ h))
]
contents-IsBefore word seg i (s ∷ rest) n x xs h = tt

-- The first element and the others.
pub contents-cons :
    (word : ℕ → ℕ) (seg i : ℕ) (rest : List ℕ) (n : ℕ)
    → i < 509
    → IsBefore i rest n
    → contents word seg i rest n ≡ word (seg + 24 + 8 * i) ∷ contents word seg (suc i) rest n
unfolding contents IsBefore
contents-cons word seg i [] n lt b =
    let count : n - i ≡ suc (n - suc i) = omega arith in
    words_at-first word seg i (n - i) (n - suc i) count
contents-cons word seg i (s ∷ rest) n lt b =
    let count : 509 - i ≡ suc (509 - suc i) = omega arith in
    ap (λ ys. ys ++ contents word s 0 rest n)
      (words_at-first word seg i (509 - i) (509 - suc i) count)

pub before_end :
    (seg i last n : ℕ)
    → ((last ≡ seg) × (i < n)) ⊎ IsSpaced seg last
    → i < 509
    → n ≤ 509
    → (seg + 24 + 8 * i == last + 24 + 8 * n) ≡ false
before_end seg i last n (inl (e, o)) lt le = ground arith
before_end seg i last n (inr a) lt le = ground arith

pub not_at_end :
    (seg i : ℕ) (rest : List ℕ) (n : ℕ)
    → IsBefore i rest n
    → AreSpaced (seg ∷ rest)
    → ((last_from seg rest ≡ seg) × (i < n)) ⊎ IsSpaced seg (last_from seg rest)
unfolding IsBefore last_from
not_at_end seg i [] n b d = inl (refl, b)
not_at_end seg i (s ∷ rest) n b d = inr (last_from-All (IsSpaced seg) s rest d.0.0 d.0.1)

pub order_next : (i : ℕ) (rest : List ℕ) (n : ℕ) → IsBefore i rest n → InOrder (suc i) rest n
unfolding IsBefore InOrder
order_next i [] n b = omega arith
order_next i (s ∷ rest) n b = tt
