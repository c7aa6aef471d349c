-- ===== src/Prelude/Lists.antt =====
-- Lists measured and indexed by native numbers, and the predicates on lists that the parts share.
use Prim.Native.Nat.{ℕ, zero, suc, ◌+◌}
use mathlib.Core.Path.{◌≡◌, refl, subst, sym}
use mathlib.Core.Logic.{◌⊎◌, ◌≢◌, inl, inr}
use mathlib.Core.List.{List, [], ◌∷◌, ◌++◌}
use mathlib.Core.Option.{Option, none, some}
use mathlib.Core.Bool.{Bool, true, false, ◌||◌}
use bsqgc.Prelude.Tests.{◌==◌, ==_iff, Bool-cases, if◌then◌else◌}
use native.Mathlib.Omega.{arith}

module _ {ℓ} {A : Type ℓ} where
  abbrev pub length : List A → ℕ
  length [] = 0
  length (x ∷ xs) = suc (length xs)

  abbrev pub get_elem? : List A → ℕ → Option A
  get_elem? [] i = none
  get_elem? (x ∷ xs) zero = some x
  get_elem? (x ∷ xs) (suc i) = get_elem? xs i

  abbrev pub take : ℕ → List A → List A
  take zero xs = []
  take (suc n) [] = []
  take (suc n) (x ∷ xs) = x ∷ take n xs

  pub length-append : (xs ys : List A) → length (xs ++ ys) ≡ length xs + length ys
  length-append [] ys = omega arith
  length-append (x ∷ xs) ys = omega (arith, length-append xs ys)

-- Every element satisfies the predicate.
abbrev pub All {ℓ κ} : {A : Type ℓ} → (A → Type κ) → List A → Type κ
All P [] = Unit
All P (x ∷ xs) = P x × All P xs

-- Where an element stands in a list: a membership that can be taken apart into any type.
pub data In {ℓ} {A : Type ℓ} (a : A) : List A → Type ℓ where
  here : {xs : List A} → In a (a ∷ xs)
  there : {x : A} {xs : List A} → In a xs → In a (x ∷ xs)

module _ {ℓ} {A : Type ℓ} where
  pub In-inv : {a x : A} {xs : List A} → In a (x ∷ xs) → (x ≡ a) ⊎ In a xs
  In-inv here = inl refl
  In-inv (there i) = inr i

  pub In-append_left : {a : A} {xs : List A} (ys : List A) → In a xs → In a (xs ++ ys)
  In-append_left ys here = here
  In-append_left ys (there i) = there (In-append_left ys i)

  pub In-append_right : {a : A} (xs : List A) {ys : List A} → In a ys → In a (xs ++ ys)
  In-append_right [] i = i
  In-append_right (x ∷ xs) i = there (In-append_right xs i)

  pub In-append_inv : {a : A} (xs : List A) {ys : List A} → In a (xs ++ ys) → In a xs ⊎ In a ys
  In-append_inv [] i = inr i
  In-append_inv (x ∷ xs) here = inl here
  In-append_inv (x ∷ xs) (there i) = elim (In-append_inv xs i) [
    | inl j ↦ inl (there j)
    | inr j ↦ inr j
  ]

pub List-cases {ℓ} :
    {A : Type ℓ} (xs : List A) → (xs ≡ []) ⊎ ((x : A) × (ys : List A) × (xs ≡ x ∷ ys))
List-cases [] = inl refl
List-cases (x ∷ xs) = inr (x, xs, refl)

module _ {ℓ κ} {A : Type ℓ} (P : A → Type κ) where
  pub All-append : (xs ys : List A) → All P xs → All P ys → All P (xs ++ ys)
  All-append [] ys hx hy = hy
  All-append (x ∷ xs) ys hx hy = (hx.0, All-append xs ys hx.1 hy)

  -- What holds of the first elements of a longer list.
  pub All-take_append : (n : ℕ) (xs ys : List A) → All P (take n (xs ++ ys)) → All P (take n xs)
  All-take_append zero xs ys h = tt
  All-take_append (suc n) [] ys h = tt
  All-take_append (suc n) (x ∷ xs) ys h = (h.0, All-take_append n xs ys h.1)

  pub All-append_left : (xs ys : List A) → All P (xs ++ ys) → All P xs
  All-append_left [] ys h = tt
  All-append_left (x ∷ xs) ys h = (h.0, All-append_left xs ys h.1)

  pub All-append_right : (xs ys : List A) → All P (xs ++ ys) → All P ys
  All-append_right [] ys h = h
  All-append_right (x ∷ xs) ys h = All-append_right xs ys h.1

  pub All-In : {a : A} {xs : List A} → All P xs → In a xs → P a
  All-In h here = h.0
  All-In h (there i) = All-In h.1 i

  pub All-and {μ} : (Q : A → Type μ) (xs : List A) → All P xs → All Q xs → All (λ a. P a × Q a) xs
  All-and Q [] h k = tt
  All-and Q (x ∷ xs) h k = ((h.0, k.0), All-and Q xs h.1 k.1)

  pub All-mono {μ} : (Q : A → Type μ) (xs : List A) → ((a : A) → P a → Q a) → All P xs → All Q xs
  All-mono Q [] f h = tt
  All-mono Q (x ∷ xs) f h = (f x h.0, All-mono Q xs f h.1)

  -- What holds of the head and of every other element.
  pub forall_In-cons :
      {x : A} {xs : List A} → P x → ((a : A) → In a xs → P a) → (a : A) → In a (x ∷ xs) → P a
  forall_In-cons h hs a i = elim (In-inv i) [ inl e ↦ subst P e h | inr j ↦ hs a j ]

-- Membership as a test.
abbrev pub elem : ℕ → List ℕ → Bool
elem a [] = false
elem a (x ∷ xs) = (x == a) || elem a xs

pub elem→In : (a : ℕ) (xs : List ℕ) → elem a xs ≡ true → In a xs
elem→In a [] h = absurd (ground arith)
elem→In a (x ∷ xs) h = elim (Bool-cases (x == a)) [
  | inl e ↦ subst (λ u. In u (x ∷ xs)) ((==_iff x a).0 e) here
  | inr e ↦ there (elem→In a xs (ground arith))
]

-- No number stands twice in the list.
abbrev pub Distinct : List ℕ → Type 0
Distinct [] = Unit
Distinct (x ∷ xs) = All (λ y. x ≢ y) xs × Distinct xs

-- No element of the first list stands in the second.
abbrev pub Disjoint : List ℕ → List ℕ → Type 0
Disjoint xs ys = All (λ x. All (λ y. x ≢ y) ys) xs

pub Distinct-append :
    (xs ys : List ℕ) → Distinct (xs ++ ys) → Distinct xs × Distinct ys × Disjoint xs ys
Distinct-append [] ys d = (tt, d, tt)
Distinct-append (x ∷ xs) ys d =
    let (dx, dy, xy) = Distinct-append xs ys d.1 in
    (
      (All-append_left (λ y. x ≢ y) xs ys d.0, dx),
      dy,
      (All-append_right (λ y. x ≢ y) xs ys d.0, xy),
    )

Disjoint-cons :
    (y : ℕ) (xs ys : List ℕ) → All (λ x. y ≢ x) xs → Disjoint xs ys → Disjoint xs (y ∷ ys)
Disjoint-cons y [] ys h d = tt
Disjoint-cons y (x ∷ xs) ys h d = ((λ e. h.0 (sym e), d.0), Disjoint-cons y xs ys h.1 d.1)

Disjoint-nil : (xs : List ℕ) → Disjoint xs []
Disjoint-nil [] = tt
Disjoint-nil (x ∷ xs) = (tt, Disjoint-nil xs)

pub Disjoint-sym : (xs ys : List ℕ) → Disjoint xs ys → Disjoint ys xs
Disjoint-sym [] ys d = Disjoint-nil ys
Disjoint-sym (x ∷ xs) ys d = Disjoint-cons x ys xs d.0 (Disjoint-sym xs ys d.1)

pub elem_false→All : (a : ℕ) (xs : List ℕ) → elem a xs ≡ false → All (λ y. a ≢ y) xs
elem_false→All a [] h = tt
elem_false→All a (x ∷ xs) h = (ground arith, elem_false→All a xs (ground arith))

-- How many times a number stands in the list.
unfoldable pub occurrences : ℕ → List ℕ → ℕ
occurrences o [] = 0
occurrences o (v ∷ vs) = (if v == o then 1 else 0) + occurrences o vs

pub occurrences-append :
    (o : ℕ) (xs ys : List ℕ) → occurrences o (xs ++ ys) ≡ occurrences o xs + occurrences o ys
unfolding occurrences
occurrences-append o [] ys = omega arith
occurrences-append o (x ∷ xs) ys = rw (occurrences-append o xs ys) (omega arith)
