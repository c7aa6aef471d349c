-- ===== src/Memory/OldPages/Lists.antt =====
-- The lists of pages of a GCAllocator (src/runtime/memory/allocator.h): the searches of checkNonAllocOrGCPage
-- and of deleteOldPage.
use bsqgc.Prelude.{
  ℕ, zero, suc, ◌<◌, true, false, not, List, [], ◌∷◌, ◌==◌, ◌≡◌, refl, inl, inr, Bool-cases, arith,
  length, elem,
}
use bsqgc.Memory.Page.Chain.{Chain, done, link}
use bsqgc.Memory.Page.Links.{nexts}
use bsqgc.Memory.World.{World, ok, load_page, load_alloc}
use bsqgc.Memory.OldPages.{in_list, check_non_alloc_or_gc_page}

module _ {F : Type 0} where
  pub in_list-Chain :
      (fuel cur p : ℕ) (ps : List ℕ) (w : World F)
      → Chain (nexts w.pages) cur ps
      → length ps < fuel
      → in_list fuel cur p w ≡ ok (elem p ps) w
  unfolding in_list load_page
  in_list-Chain zero cur p ps w c lt = elim lt [ ]
  in_list-Chain (suc f) cur p [] w (done e) lt =
      let z : (cur == 0) ≡ true = ground arith in rw z refl
  in_list-Chain (suc f) cur p (x ∷ ps) w (link ne c) lt =
      let z : (cur == 0) ≡ false = ground arith in
      rw z (
        rw z (elim (Bool-cases (cur == p)) [
          | inl e ↦ rw e refl
          | inr e ↦ rw e (in_list-Chain f (w.pages cur).next p ps w c (omega arith))
        ]))

  -- checkNonAllocOrGCPage, where the list of pending pages ends and the fuel is more than its length: it
  -- returns, the state is as before, and the answer is whether the page is neither the allocation page nor the
  -- evacuation page nor in that list.
  pub check_non_alloc_or_gc_page-Chain :
      (fuel s p : ℕ) (ps : List ℕ) (w : World F)
      → Chain (nexts w.pages) (w.alloc s).pendinggc_pages ps
      → length ps < fuel
      → check_non_alloc_or_gc_page fuel s p w
        ≡ ok (not (elem p ((w.alloc s).alloc_page ∷ (w.alloc s).evac_page ∷ ps))) w
  unfolding check_non_alloc_or_gc_page load_alloc
  check_non_alloc_or_gc_page-Chain fuel s p ps w c lt =
      let a = (w.alloc s).alloc_page in
      let b = (w.alloc s).evac_page in
      let there = in_list-Chain fuel (w.alloc s).pendinggc_pages p ps w c lt in
      let flip_a : (a == p) ≡ (p == a) = ground arith in
      let flip_b : (b == p) ≡ (p == b) = ground arith in
      rw (flip_a, flip_b)
        (elim (Bool-cases (p == a)) [
          | inl e ↦ rw e refl
          | inr e ↦
              rw e (elim (Bool-cases (p == b)) [ inl g ↦ rw g refl | inr g ↦ rw g (rw there refl) ])
        ])
