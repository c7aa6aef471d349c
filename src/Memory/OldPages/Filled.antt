-- ===== src/Memory/OldPages/Filled.antt =====
-- deleteOldPage for a page that is in no bucket (src/runtime/memory/allocator.h): the list of filled pages.
use bsqgc.Prelude.{
  ℕ, zero, suc, ◌<◌, true, false, List, [], ◌∷◌, ◌++◌, ◌==◌, ==_refl, ◌≡◌, ◌≢◌, refl, ap, sym, ◌∙◌,
  arith, All, All-append, length, subst, Distinct,
}
use bsqgc.Common.{store, store_ne}
use bsqgc.Memory.Page.{PageInfo}
use bsqgc.Memory.Page.Chain.{Chain, done, link, Chain-store_ne}
use bsqgc.Memory.Page.Links.{nexts-store, nexts}
use bsqgc.Memory.World.{World, ok, fault, Returns, load_page, store_page, load_alloc, store_alloc}
use bsqgc.Memory.Page.Chain.{Chain-head}
use bsqgc.Memory.OldPages.{find_in_list, delete_filled_page}
use bsqgc.Memory.Page.Links.{
  last_from, last_apart, Chain-unlink, last_nonzero, All-middle, Distinct-middle,
}

module _ {F : Type 0} where
  -- The search ends at the page; the one before it is the last that was passed.
  find_in_list-Chain :
      (fuel prev cur p : ℕ) (before after : List ℕ) (w : World F)
      → Chain (nexts w.pages) cur (before ++ (p ∷ after))
      → All (λ y. p ≢ y) before
      → length before < fuel
      → find_in_list fuel prev cur p w ≡ ok (last_from prev before, p) w
  unfolding find_in_list load_page last_from
  find_in_list-Chain zero prev cur p before after w c ne lt = elim lt [ ]
  find_in_list-Chain (suc f) prev cur p [] after w c ne lt =
      let (e, nz, c1) = Chain-head c in
      let there : (cur == p) ≡ true = ground arith in
      let nonzero : (cur == 0) ≡ false = ground arith in
      rw (nonzero, there) (ap (λ u. ok (prev, u) w) e)
  find_in_list-Chain (suc f) prev cur p (x ∷ bs) after w c ne lt =
      let (e, nz, c1) = Chain-head c in
      let nonzero : (cur == 0) ≡ false = ground arith in
      let other : (cur == p) ≡ false = let h = ne.0 in ground arith in
      rw (nonzero, other)
        (rw nonzero
          (rw e (find_in_list-Chain f x (w.pages x).next p bs after w c1 ne.1 (omega arith))))

  -- The search for a page that is not there.
  find_in_list-end :
      (fuel prev cur p : ℕ) (ps : List ℕ) (w : World F)
      → Chain (nexts w.pages) cur ps
      → All (λ y. p ≢ y) ps
      → length ps < fuel
      → (q : ℕ) × (find_in_list fuel prev cur p w ≡ ok (q, 0) w)
  unfolding find_in_list load_page
  find_in_list-end zero prev cur p ps w c ne lt = elim lt [ ]
  find_in_list-end (suc f) prev cur p [] w (done e) ne lt =
      let z : (cur == 0) ≡ true = ground arith in (prev, rw z (ap (λ u. ok (prev, u) w) e))
  find_in_list-end (suc f) prev cur p (x ∷ ps) w (link nz c) ne lt =
      let z : (cur == 0) ≡ false = ground arith in
      let other : (cur == p) ≡ false = let h = ne.0 in ground arith in
      let (q, e) = find_in_list-end f cur (w.pages cur).next p ps w c ne.1 (omega arith) in
      (q, rw (z, other) (rw z e))

  relinked : (p x : ℕ) (bs : List ℕ) → World F → World F
  relinked p x bs w =
      let prev = last_from x bs in
      record w { pages = store w.pages prev (record (w.pages prev) { next = (w.pages p).next }) }

  unlinked : (s p : ℕ) → (before : List ℕ) → World F → World F
  unlinked s p [] w = record w {
    alloc = store w.alloc s (record (w.alloc s) { filled_pages = (w.pages p).next });
  }
  unlinked s p (x ∷ bs) w = relinked p x bs w

  unlinked_then_cleared : (s p : ℕ) → (before : List ℕ) → World F → World F
  unlinked_then_cleared s p before w =
      let w1 = unlinked s p before w in
      record w1 { pages = store w1.pages p (record (w1.pages p) { next = 0; left = 0; right = 0 }) }

  delete_run :
      (fuel s p : ℕ) (before after : List ℕ) (w : World F)
      → Chain (nexts w.pages) (w.alloc s).filled_pages (before ++ (p ∷ after))
      → All (λ y. p ≢ y) before
      → p ≢ 0
      → length before < fuel
      → delete_filled_page fuel s p w ≡ ok tt (unlinked_then_cleared s p before w)
  unfolding delete_filled_page load_alloc load_page store_page store_alloc unlinked_then_cleared
      unlinked last_from relinked
  delete_run fuel s p [] after w c ne nz lt =
      let z : (p == 0) ≡ false = ground arith in
      rw (find_in_list-Chain fuel 0 (w.alloc s).filled_pages p [] after w c ne lt)
        (rw z (rw z (rw z refl)))
  delete_run fuel s p (x ∷ bs) after w c ne nz lt =
      let z : (p == 0) ≡ false = ground arith in
      let (e, nx, c1) = Chain-head c in
      let c' = subst (λ u. Chain (nexts w.pages) u (x ∷ bs ++ (p ∷ after))) e c in
      let k = last_nonzero (nexts w.pages) x bs (p ∷ after) c' in
      let y : (last_from x bs == 0) ≡ false = ground arith in
      rw (find_in_list-Chain fuel 0 (w.alloc s).filled_pages p (x ∷ bs) after w c ne lt)
        (rw z (rw y (rw y (rw y (rw z (rw z refl))))))

  pub record IsDeleted (s p : ℕ) (before after : List ℕ) (w w' : World F) : Type 0 where
    pub list : Chain (nexts w'.pages) (w'.alloc s).filled_pages (before ++ after)
    pub cleared : ((w'.pages p).next ≡ 0) × ((w'.pages p).left ≡ 0) × ((w'.pages p).right ≡ 0)
    pub others : (q : ℕ) → All (λ y. q ≢ y) (before ++ (p ∷ after)) → w'.pages q ≡ w.pages q

  clear_page :
      (p : ℕ) (pages : ℕ → PageInfo F) (cur : ℕ) (ps : List ℕ)
      → Chain (nexts pages) cur ps
      → All (λ y. p ≢ y) ps
      → Chain (nexts (store pages p (record (pages p) { next = 0; left = 0; right = 0 }))) cur ps
  clear_page p pages cur ps c h =
      subst (λ f. Chain f cur ps)
        (sym (nexts-store pages p (record (pages p) { next = 0; left = 0; right = 0 })))
        (Chain-store_ne p 0 c h)

  unlinked-list :
      (s p : ℕ) (before after : List ℕ) (w : World F)
      → Chain (nexts w.pages) (w.alloc s).filled_pages (before ++ (p ∷ after))
      → Distinct (before ++ (p ∷ after))
      → Chain
          (nexts (unlinked s p before w).pages)
          ((unlinked s p before w).alloc s).filled_pages
          (before ++ after)
  unfolding unlinked relinked
  unlinked-list s p [] after w c d = let (e, nz, c1) = Chain-head c in rw (==_refl s) c1
  unlinked-list s p (x ∷ bs) after w c d =
      let (e, nz, c1) = Chain-head c in
      subst (λ f. Chain f (w.alloc s).filled_pages (x ∷ bs ++ after))
        (sym (nexts-store w.pages (last_from x bs) _))
        (rw e (
          Chain-unlink (nexts w.pages) x p bs after
            (subst (λ u. Chain (nexts w.pages) u (x ∷ bs ++ (p ∷ after))) e c) d))

  unlinked-others :
      (s p : ℕ) (before after : List ℕ) (w : World F) (q : ℕ)
      → All (λ y. q ≢ y) (before ++ (p ∷ after))
      → (unlinked s p before w).pages q ≡ w.pages q
  unfolding unlinked relinked
  unlinked-others s p [] after w q h = refl
  unlinked-others s p (x ∷ bs) after w q h =
      store_ne w.pages (last_from x bs) _ q (last_apart q x bs (p ∷ after) h)

  -- deleteOldPage for a page in no bucket, where the list of filled pages has no page twice and holds the
  -- page, and the fuel is more than the number of pages in front of it: it returns; the list is the other
  -- pages in the same order, the page's links are null, and the pages that are not in the list are as before.
  pub delete_filled_page-IsDeleted :
      (fuel s p : ℕ) (before after : List ℕ) (w : World F)
      → Chain (nexts w.pages) (w.alloc s).filled_pages (before ++ (p ∷ after))
      → Distinct (before ++ (p ∷ after))
      → p ≢ 0
      → length before < fuel
      → Returns
          (λ (u : Unit {0}) (w' : World F). IsDeleted s p before after w w')
          (delete_filled_page fuel s p w)
  unfolding Returns unlinked_then_cleared
  delete_filled_page-IsDeleted fuel s p before after w c d nz lt =
      let (l, r) = Distinct-middle p before after d in
      let w1 = unlinked s p before w in
      rw (delete_run fuel s p before after w c l nz lt) (record {
        list =
            clear_page p w1.pages _ (before ++ after) (unlinked-list s p before after w c d)
              (All-append (λ y. p ≢ y) before after l r);
        cleared = rw (==_refl p) (refl, refl, refl);
        others = λ q h.
            let ne = All-middle (λ y. q ≢ y) p before after h in
            store_ne w1.pages p _ q (λ e. ne (sym e)) ∙ unlinked-others s p before after w q h;
      })

  -- deleteOldPage for a page that is in no bucket and not in the list of filled pages either: the list is
  -- searched to its end, and the page behind it is read through a null pointer.
  pub delete_filled_page-missing :
      (fuel s p : ℕ) (ps : List ℕ) (w : World F)
      → Chain (nexts w.pages) (w.alloc s).filled_pages ps
      → All (λ y. p ≢ y) ps
      → length ps < fuel
      → delete_filled_page fuel s p w ≡ fault
  unfolding delete_filled_page load_alloc load_page
  delete_filled_page-missing fuel s p ps w c ne lt =
      let (prev, e) = find_in_list-end fuel 0 (w.alloc s).filled_pages p ps w c ne lt in rw e refl
