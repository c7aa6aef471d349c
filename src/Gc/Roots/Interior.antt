-- ===== src/Gc/Roots/Interior.antt =====
-- The words that walkStack (src/runtime/memory/gc.cpp) looks at, where they point into the entry of an object.
use bsqgc.Prelude.{
  ℕ, ◌+◌, ◌*◌, ◌%◌, ◌<◌, ◌≡◌, refl, ap, true, false, inr, arith, ltb, le→ltb_false, In,
}
use bsqgc.Common.{block_allocation_size, size_of_meta_data}
use bsqgc.Support.PageTable.{PageTableInUseInfo, pagetable_query}
use bsqgc.Memory.Page.{PageInfo, size_of_page_info, get_meta_entry_at_index}
use bsqgc.Memory.Page.Rebuilding.{obj_at}
use bsqgc.Memory.Page.Layout.{IsLaidOut, entry_end, metadata_of_interior}
use bsqgc.Gc.Roots.{RootWalk, RootSource, is_candidate, candidate, walk_stack}
use bsqgc.Gc.Roots.Words.{IsListed, Refers, scanned_words, walk_stack-FindsRoots}

module _ {F : Type 0} (table : PageTableInUseInfo) (pages : ℕ → PageInfo F) (block i k : ℕ) where
  -- The address at offset `k` of the `i`-th entry of the page.
  abbrev pub into_entry : ℕ
  into_entry = (pages block).data_start + (i * (pages block).realsize + k)

  into_entry-Refers :
      (t : RootWalk)
      → IsLaidOut block (pages block)
      → i < (pages block).entrycount
      → k < (pages block).realsize
      → pagetable_query table into_entry ≡ true
      → (t.metas (obj_at (pages block).data_start (pages block).realsize i)).isalloc ≡ true
      → Refers table pages t.metas into_entry
          (obj_at (pages block).data_start (pages block).realsize i)
  unfolding is_candidate candidate get_meta_entry_at_index
  into_entry-Refers t laid low off q a =
      let e = entry_end i (pages block).entrycount k (pages block).realsize low off in
      let behind : ltb (into_entry % block_allocation_size) size_of_page_info ≡ false =
        le→ltb_false (into_entry % block_allocation_size) size_of_page_info
          (omega (arith, laid.aligned, laid.data_behind, laid.inside)) in
      record {
        managed = rw (q, behind) refl;
        target =
            ap (λ m. m + size_of_meta_data) (metadata_of_interior pages block i k laid low off).2;
        alloc = a;
      }

  -- For a page that is laid out in its block and in the page table, and an allocated object on it: if
  -- a word that walkStack looks at points anywhere into the object's entry, canaries and header
  -- included, the object is a root afterwards.
  pub walk_stack_interior :
      (src : RootSource) (t : RootWalk)
      → IsListed t
      → IsLaidOut block (pages block)
      → i < (pages block).entrycount
      → k < (pages block).realsize
      → pagetable_query table into_entry ≡ true
      → (t.metas (obj_at (pages block).data_start (pages block).realsize i)).isalloc ≡ true
      → In into_entry (scanned_words table pages src)
      → ((walk_stack table pages src t).metas
          (obj_at (pages block).data_start (pages block).realsize i)).isroot
        ≡ true
  walk_stack_interior src t l laid low off q a w =
      ((walk_stack-FindsRoots table pages src t l).root_iff
          (obj_at (pages block).data_start (pages block).realsize i)).1
        (inr (into_entry, w, into_entry-Refers t laid low off q a))
