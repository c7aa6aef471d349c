-- ===== src/Support/Xalloc/Reuse.antt =====
-- A page that is given back to XAllocPageManager (src/runtime/support/xalloc.cpp) and taken again.
use bsqgc.Prelude.{
  ℕ, zero, suc, ◌+◌, ◌*◌, ◌<◌, ◌≤◌, false, ◌==◌, ◌≡◌, ◌≢◌, refl, ◌∙◌, ◌⊎◌, inl, arith,
}
use bsqgc.Common.{store, store_eq, store_ne, xmem_zerofill}
use bsqgc.Memory.World.{World, Returns, ◌>>◌}
use bsqgc.Support.Xalloc.{
  allocate_page, free_page, zerofill_page, link_support_page, take_support_page,
}

pub xmem_zerofill-outside :
    (n : ℕ) (word : ℕ → ℕ) (obj a : ℕ)
    → (a < obj) ⊎ (obj + 8 * n ≤ a)
    → xmem_zerofill word obj n a ≡ word a
unfolding xmem_zerofill
xmem_zerofill-outside ℕ.zero word obj a out = refl
xmem_zerofill-outside (suc n) word obj a out =
    xmem_zerofill-outside n (store word obj 0) (obj + 8) a (ground arith)
    ∙ store_ne word obj 0 a (ground arith)

xmem_zerofill-inside :
    (n k : ℕ) (word : ℕ → ℕ) (obj : ℕ) → k < n → xmem_zerofill word obj n (obj + 8 * k) ≡ 0
unfolding xmem_zerofill
xmem_zerofill-inside ℕ.zero k word obj lt = elim lt [ ]
xmem_zerofill-inside (suc n) zero word obj lt =
    let place : obj + 8 * 0 ≡ obj = omega arith in
    rw place (
      xmem_zerofill-outside n (store word obj 0) (obj + 8) obj (inl (omega arith))
      ∙ store_eq word obj 0)
xmem_zerofill-inside (suc n) (suc k) word obj lt =
    let place : obj + 8 * suc k ≡ obj + 8 + 8 * k = omega arith in
    rw place (xmem_zerofill-inside n k (store word obj 0) (obj + 8) (omega arith))

module _ {F : Type 0} where
  pub record IsSame (p : ℕ) (w : World F) (q : ℕ) (w' : World F) : Type 0 where
    pub page : q ≡ p
    pub pool : w'.support_pages ≡ w.support_pages
    pub cleared : (k : ℕ) → 0 < k → k < 512 → w'.word (p + 8 * k) ≡ 0
    pub outside : (a : ℕ) → (a < p) ⊎ (p + 4096 ≤ a) → w'.word a ≡ w.word a

  -- A page that is freed is the next one that is allocated: all its words but the first, in which the
  -- pool kept its link, are zero then, the rest of the pool is as before, and so are all words outside the page.
  pub allocate_page-free_page :
      (p : ℕ) (w : World F) → p ≢ 0 → Returns (IsSame p w) ((free_page p >> allocate_page) w)
  unfolding Returns allocate_page free_page zerofill_page link_support_page take_support_page
  allocate_page-free_page p w ne =
      let there : (p == 0) ≡ false = ground arith in
      let word = xmem_zerofill w.word p 512 in
      rw there (record {
        page = refl;
        pool = store_eq word p w.support_pages;
        cleared = λ k pos lt.
            store_ne word p w.support_pages (p + 8 * k) (omega arith)
            ∙ xmem_zerofill-inside 512 k w.word p lt;
        outside = λ a out.
            store_ne word p w.support_pages a (ground arith)
            ∙ xmem_zerofill-outside 512 w.word p a (ground arith);
      })
