-- ===== src/Memory/Page/Layout.antt =====
-- Address arithmetic on a page (src/runtime/memory/allocator.h): a pointer, its page, its index and its header.
use bsqgc.Prelude.{ℕ, ◌+◌, ◌-◌, ◌*◌, ◌/◌, ◌%◌, ◌≤◌, ◌<◌, ◌≡◌, refl, arith}
use bsqgc.Common.{block_allocation_size}
use bsqgc.Memory.Page.{
  PageInfo, size_of_page_info, extract_page_from_pointer, get_index_for_object_in_page,
  get_meta_entry_at_index, get_object_metadata_aligned,
}

-- A page that lies at a block address, with its entries behind its own data and inside the block.
pub record IsLaidOut {F : Type 0} (block : ℕ) (page : PageInfo F) : Type 0 where
  pub aligned : block % block_allocation_size ≡ 0
  pub data_behind : page.data_start ≡ block + size_of_page_info
  pub inside : page.entrycount * page.realsize ≤ block_allocation_size - size_of_page_info

div_entry : (i k rs : ℕ) → k < rs → (i * rs + k) / rs ≡ i
div_entry i k rs h = grind arith

after_base : (d x : ℕ) → d + x - d ≡ x
after_base d x = omega arith

pub entry_end : (i n k rs : ℕ) → i < n → k < rs → i * rs + k < n * rs
entry_end i n k rs h l = grind arith

module _ {F : Type 0} (pages : ℕ → PageInfo F) (block i k : ℕ)
    (laid : IsLaidOut block (pages block)) (low : i < (pages block).entrycount)
    (off : k < (pages block).realsize) where
  pub extract_page-entry :
      extract_page_from_pointer ((pages block).data_start + (i * (pages block).realsize + k))
      ≡ block
  unfolding extract_page_from_pointer
  extract_page-entry =
      let e = entry_end i (pages block).entrycount k (pages block).realsize low off in
      omega (arith, laid.aligned, laid.data_behind, laid.inside)

  -- For a page that is laid out in its block, an entry of it and an offset into that entry, every
  -- pointer to that offset leads back to the entry: the mask gives its page, the division its
  -- index, and getObjectMetadataAligned the header that getMetaEntryAtIndex gives for the index.
  pub metadata_of_interior :
      let page = pages block in
      let p = page.data_start + (i * page.realsize + k) in
      (extract_page_from_pointer p ≡ block)
      × (get_index_for_object_in_page pages p ≡ i)
      × (get_object_metadata_aligned pages p ≡ get_meta_entry_at_index page i)
  unfolding get_index_for_object_in_page get_object_metadata_aligned get_meta_entry_at_index
  metadata_of_interior =
      let page = pages block in
      let e : (page.data_start + (i * page.realsize + k) - page.data_start) / page.realsize ≡ i =
        rw (after_base page.data_start (i * page.realsize + k)) (div_entry i k page.realsize off) in
      (extract_page-entry, rw (extract_page-entry, e) refl, rw (extract_page-entry, e) refl)
