-- ===== src/Memory/Page/Links.antt =====
-- Linked lists of pages (src/runtime/memory/allocator.h): one element taken out, one put at the end.
use bsqgc.Prelude.{
  ℕ, List, [], ◌∷◌, ◌++◌, ◌≡◌, ◌≢◌, refl, sym, ◌∙◌, arith, Bool, true, false, ◌==◌, if◌then◌else◌,
  All, subst, Distinct,
}
use bsqgc.Common.{store, store_eq, store_ne}
use bsqgc.Memory.Page.{PageInfo}
use bsqgc.Memory.Page.Chain.{Chain, done, link, Chain-head, Chain-store_ne}

-- The links of the pages.
abbrev pub nexts : {F : Type 0} → (ℕ → PageInfo F) → ℕ → ℕ
nexts pages q = (pages q).next

-- The last of `x ∷ xs`.
unfoldable pub last_from : ℕ → List ℕ → ℕ
last_from x [] = x
last_from x (y ∷ ys) = last_from y ys

pub last_apart : (b x : ℕ) (bs ys : List ℕ) → All (λ y. b ≢ y) (x ∷ bs ++ ys) → last_from x bs ≢ b
unfolding last_from
last_apart b x [] ys h = let k = h.0 in omega arith
last_apart b x (y ∷ bs) ys h = last_apart b y bs ys h.1

-- A list less the element behind `b ∷ bs`.
pub Chain-unlink :
    (word : ℕ → ℕ) (b p : ℕ) (bs after : List ℕ)
    → Chain word b (b ∷ bs ++ (p ∷ after))
    → Distinct (b ∷ bs ++ (p ∷ after))
    → Chain (store word (last_from b bs) (word p)) b (b ∷ bs ++ after)
unfolding last_from
Chain-unlink word b p [] after c d =
    let (e, ne, c1) = Chain-head c in
    let (e1, ne1, c2) = Chain-head c1 in
    link ne (rw (store_eq word b (word p)) (Chain-store_ne b (word p) c2 d.0.1))
Chain-unlink word b p (x ∷ bs) after c d =
    let (e, ne, c1) = Chain-head c in
    let (e1, ne1, c2) = Chain-head c1 in
    let here : store word (last_from x bs) (word p) b ≡ word b =
      store_ne word (last_from x bs) (word p) b (last_apart b x bs (p ∷ after) d.0) in
    link ne (
      rw (here, e1)
        (Chain-unlink word x p bs after (subst (λ u. Chain word u (x ∷ bs ++ (p ∷ after))) e1 c1)
          d.1))

pub last_nonzero :
    (word : ℕ → ℕ) (x : ℕ) (bs ys : List ℕ) → Chain word x (x ∷ bs ++ ys) → last_from x bs ≢ 0
unfolding last_from
last_nonzero word x [] ys c = let (e, ne, c1) = Chain-head c in ne
last_nonzero word x (y ∷ bs) ys c =
    let (e, ne, c1) = Chain-head c in
    let (e1, ne1, c2) = Chain-head c1 in
    last_nonzero word y bs ys (subst (λ u. Chain word u (y ∷ bs ++ ys)) e1 c1)

pub All-middle :
    (P : ℕ → Type 0) (p : ℕ) (before after : List ℕ) → All P (before ++ (p ∷ after)) → P p
All-middle P p [] after h = h.0
All-middle P p (x ∷ bs) after h = All-middle P p bs after h.1

-- The page in the middle is none of the others.
pub Distinct-middle :
    (p : ℕ) (before after : List ℕ)
    → Distinct (before ++ (p ∷ after))
    → All (λ y. p ≢ y) before × All (λ y. p ≢ y) after
Distinct-middle p [] after d = (tt, d.0)
Distinct-middle p (x ∷ bs) after d =
    let (l, r) = Distinct-middle p bs after d.1 in
    let k = All-middle (λ y. x ≢ y) p bs after d.0 in ((λ e. k (sym e), l), r)

pub Chain-end : {word : ℕ → ℕ} {p : ℕ} → Chain word p [] → p ≡ 0
Chain-end (done e) = e

All-nil : (P : ℕ → Type 0) (xs : List ℕ) → All P xs → All P (xs ++ [])
All-nil P [] h = tt
All-nil P (x ∷ xs) h = (h.0, All-nil P xs h.1)

-- A list with a new element at the end.
pub Chain-snoc :
    (word : ℕ → ℕ) (x new : ℕ) (xs : List ℕ)
    → Chain word x (x ∷ xs)
    → Distinct (x ∷ xs)
    → All (λ y. new ≢ y) (x ∷ xs)
    → new ≢ 0
    → word new ≡ 0
    → Chain (store word (last_from x xs) new) x (x ∷ (xs ++ (new ∷ [])))
unfolding last_from
Chain-snoc word x new [] c d apart nz end =
    let (e, ne, c1) = Chain-head c in
    let last : store word x new new ≡ 0 =
      store_ne word x new new (let h = apart.0 in omega arith) ∙ end in
    link ne (rw (store_eq word x new) (link nz (rw last (done refl))))
Chain-snoc word x new (y ∷ ys) c d apart nz end =
    let (e, ne, c1) = Chain-head c in
    let (e1, ne1, c2) = Chain-head c1 in
    let here : store word (last_from y ys) new x ≡ word x =
      store_ne word (last_from y ys) new x
        (last_apart x y ys [] (All-nil (λ u. x ≢ u) (y ∷ ys) d.0)) in
    link ne (
      rw (here, e1)
        (Chain-snoc word y new ys (subst (λ u. Chain word u (y ∷ ys)) e1 c1) d.1 apart.1 nz end))

-- The same links in another memory.
pub Chain-frame :
    (word word' : ℕ → ℕ) (p : ℕ) (xs : List ℕ)
    → Chain word p xs
    → All (λ a. word' a ≡ word a) xs
    → Chain word' p xs
Chain-frame word word' p [] c h = done (Chain-end c)
Chain-frame word word' p (x ∷ xs) c h =
    let (e, ne, c1) = Chain-head c in
    let xne : x ≢ 0 = omega arith in
    rw e (link xne (rw h.0 (Chain-frame word word' (word x) xs c1 h.1)))

-- What holds of all elements holds of the last one.
pub last_from-All : (P : ℕ → Type 0) (x : ℕ) (xs : List ℕ) → P x → All P xs → P (last_from x xs)
unfolding last_from
last_from-All P x [] h hs = h
last_from-All P x (y ∷ ys) h hs = last_from-All P y ys hs.0 hs.1

module _ {F : Type 0} where
  next_if :
      (b : Bool) (x y : PageInfo F) → (if b then x else y).next ≡ (if b then x.next else y.next)
  next_if true x y = refl
  next_if false x y = refl

  -- The links after a write of a page.
  pub nexts-store :
      (pages : ℕ → PageInfo F) (q : ℕ) (page : PageInfo F)
      → nexts (store pages q page) ≡ store (nexts pages) q page.next
  nexts-store pages q page = λ k a. next_if (q == a) page (pages a) k
