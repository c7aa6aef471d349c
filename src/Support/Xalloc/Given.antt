-- ===== src/Support/Xalloc/Given.antt =====
-- The page that XAllocPageManager gives (src/runtime/support/xalloc.cpp), from the pool or from mmap.
use bsqgc.Prelude.{
  ℕ, ◌+◌, ◌<◌, ◌≤◌, true, false, ◌==◌, if◌then◌else◌, ◌≡◌, ◌≢◌, refl, ◌∙◌, ◌⊎◌, inl, inr, arith,
}
use bsqgc.Common.{store, store_ne, xmem_zerofill}
use bsqgc.Memory.World.{World, ok, store_word}
use bsqgc.Support.Xalloc.{allocate_page, map_support_page, take_support_page, zerofill_page}
use bsqgc.Support.Xalloc.Reuse.{xmem_zerofill-outside}

-- Words outside a page that is cleared and linked.
pub outside_page :
    (word : ℕ → ℕ) (seg v a : ℕ)
    → (a < seg) ⊎ (seg + 4096 ≤ a)
    → store (xmem_zerofill word seg 512) seg v a ≡ word a
outside_page word seg v a out =
    store_ne (xmem_zerofill word seg 512) seg v a (ground arith)
    ∙ xmem_zerofill-outside 512 word seg a (ground arith)

module _ {F : Type 0} where
  abbrev pub next_support_page : World F → ℕ
  next_support_page w = if w.support_pages == 0 then w.current_page_address else w.support_pages

  -- There is a page in the pool, or mmap gives one.
  abbrev pub CanGive : World F → Type 0
  CanGive w =
      (w.support_pages ≢ 0)
      ⊎ ((w.support_pages ≡ 0)
          × (w.current_page_address ≢ 0)
          × (w.mmap_fails w.current_page_address ≡ false))

  -- What is left of the state when a page is given.
  pub record IsGiven (w : World F) (q : ℕ) (w' : World F) : Type 0 where
    pub run : allocate_page w ≡ ok q w'
    pub address : q ≡ next_support_page w
    pub nonzero : q ≢ 0
    pub outside : (a : ℕ) → (a < q) ⊎ (q + 4096 ≤ a) → w'.word a ≡ w.word a

  pub record Gives (w : World F) : Type 0 where
    pub after : World F
    pub given : IsGiven w (next_support_page w) after

  pub allocate_page-Gives : (w : World F) → CanGive w → Gives w
  unfolding allocate_page map_support_page take_support_page zerofill_page store_word
  allocate_page-Gives w (inl ne) =
      let z : (w.support_pages == 0) ≡ false = ground arith in
      record {
        after = record w { support_pages = w.word w.support_pages };
        given = record {
          run = rw z refl;
          address = refl;
          nonzero = rw z ne;
          outside = λ a out. refl;
        };
      }
  allocate_page-Gives w (inr (e, ne, maps)) =
      let page = w.current_page_address in
      let z : (w.support_pages == 0) ≡ true = ground arith in
      let y : (page == 0) ≡ false = ground arith in
      record {
        after = record w {
          word = store (xmem_zerofill w.word page 512) page 0;
          support_pages = store (xmem_zerofill w.word page 512) page 0 page;
          current_page_address = page + 4096;
        };
        given = record {
          run = rw z (rw maps (rw y refl));
          address = refl;
          nonzero = rw z ne;
          outside = λ a out. outside_page w.word page 0 a (ground arith);
        };
      }
