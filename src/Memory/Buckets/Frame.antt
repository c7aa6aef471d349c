-- ===== src/Memory/Buckets/Frame.antt =====
-- The trees in the buckets (src/runtime/memory/allocator.h): a tree that the writes to other pages leave as it is.
use bsqgc.Prelude.{
  ℕ, List, [], ◌∷◌, ◌++◌, ◌≡◌, ◌≢◌, ap, All, All-mono, All-append_left, All-append_right, Distinct,
  Distinct-append, Disjoint,
}
use bsqgc.Common.{store, store_ne}
use bsqgc.Memory.Page.{PageInfo}
use bsqgc.Memory.Page.Links.{nexts, Chain-frame}
use bsqgc.Memory.Buckets.Tree.{Tree, leaf, node, IsTree, pages_of_tree}

-- The parts of a node hold different pages.
pub record AreApart (q : ℕ) (xs ls rs : List ℕ) : Type 0 where
  pub q_xs : All (λ y. q ≢ y) xs
  pub q_ls : All (λ y. q ≢ y) ls
  pub q_rs : All (λ y. q ≢ y) rs
  pub xs_ls : Disjoint xs ls
  pub xs_rs : Disjoint xs rs
  pub ls_rs : Disjoint ls rs
  pub own : Distinct (q ∷ xs)
  pub in_ls : Distinct ls
  pub in_rs : Distinct rs

Disjoint-append : (xs ls rs : List ℕ) → Disjoint xs (ls ++ rs) → Disjoint xs ls × Disjoint xs rs
Disjoint-append [] ls rs d = (tt, tt)
Disjoint-append (x ∷ xs) ls rs d =
    let (a, b) = Disjoint-append xs ls rs d.1 in
    ((All-append_left (λ y. x ≢ y) ls rs d.0, a), (All-append_right (λ y. x ≢ y) ls rs d.0, b))

pub Distinct-AreApart :
    (q : ℕ) (xs ls rs : List ℕ) → Distinct (q ∷ (xs ++ (ls ++ rs))) → AreApart q xs ls rs
Distinct-AreApart q xs ls rs d =
    let (dx, dlr, x_lr) = Distinct-append xs (ls ++ rs) d.1 in
    let (dl, dr, l_r) = Distinct-append ls rs dlr in
    let (x_l, x_r) = Disjoint-append xs ls rs x_lr in
    let ne = All-append_right (λ y. q ≢ y) xs (ls ++ rs) d.0 in
    record {
      q_xs = All-append_left (λ y. q ≢ y) xs (ls ++ rs) d.0;
      q_ls = All-append_left (λ y. q ≢ y) ls rs ne;
      q_rs = All-append_right (λ y. q ≢ y) ls rs ne;
      xs_ls = x_l;
      xs_rs = x_r;
      ls_rs = l_r;
      own = (All-append_left (λ y. q ≢ y) xs (ls ++ rs) d.0, dx);
      in_ls = dl;
      in_rs = dr;
    }

module _ {F : Type 0} where
  -- Two memories that agree on the pages of a list.
  abbrev pub Agree : (pages pages' : ℕ → PageInfo F) → List ℕ → Type 0
  Agree pages pages' = All (λ q. pages' q ≡ pages q)

  pub Agree-nexts :
      (pages pages' : ℕ → PageInfo F) (ps : List ℕ)
      → Agree pages pages' ps
      → All (λ q. nexts pages' q ≡ nexts pages q) ps
  Agree-nexts pages pages' ps =
      All-mono (λ q. pages' q ≡ pages q) (λ q. nexts pages' q ≡ nexts pages q) ps
        (λ q e. ap (λ p. p.next) e)

  pub Agree-store :
      (pages : ℕ → PageInfo F) (a : ℕ) (page : PageInfo F) (ps : List ℕ)
      → All (λ q. a ≢ q) ps
      → Agree pages (store pages a page) ps
  Agree-store pages a page ps =
      All-mono (λ q. a ≢ q) (λ q. store pages a page q ≡ pages q) ps
        (λ q ne. store_ne pages a page q ne)

  pub IsTree-frame :
      (pages pages' : ℕ → PageInfo F) (p : ℕ) (t : Tree)
      → Agree pages pages' (pages_of_tree t)
      → IsTree pages p t
      → IsTree pages' p t
  unfolding IsTree pages_of_tree
  IsTree-frame pages pages' p leaf a h = h
  IsTree-frame pages pages' p (node q xs l r) (eq, rest) (e, ne, chain, hl, hr) =
      let ls = pages_of_tree l in
      let rs = pages_of_tree r in
      let P : ℕ → Type 0 = λ u. pages' u ≡ pages u in
      let ax = All-append_left P xs (ls ++ rs) rest in
      let al = All-append_left P ls rs (All-append_right P xs (ls ++ rs) rest) in
      let ar = All-append_right P ls rs (All-append_right P xs (ls ++ rs) rest) in
      rw eq (
        e,
        ne,
        Chain-frame (nexts pages) (nexts pages') (pages q).next xs chain
            (Agree-nexts pages pages' xs ax),
        IsTree-frame pages pages' (pages q).left l al hl,
        IsTree-frame pages pages' (pages q).right r ar hr,
      )
