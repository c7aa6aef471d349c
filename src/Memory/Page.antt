-- ===== src/Memory/Page.antt =====
-- PageInfo and the object layout on a page (src/runtime/memory/allocator.h and allocator.cpp), with
-- ALLOC_DEBUG_CANARY on, as src/runtime/common.h sets it.
--
-- An entry is a canary block, the header, the object and a canary block. `F` is the type of the
-- float that a page keeps as its utilization; what is computed with it stands elsewhere.
pub mod Chain
pub mod Links
pub mod Init
pub mod Rebuilding
pub mod Free
pub mod Layout
mod Tests
use bsqgc.Prelude.{ℕ, zero, suc, ◌+◌, ◌-◌, ◌*◌, ◌/◌, ◌%◌, ◌^◌, Bool, true, false, if◌then◌else◌}
use bsqgc.Common.{
  block_allocation_size, size_of_meta_data, max_fwd_index, Metas, MetaData, store, reset_meta,
  gc_should_free_list_add,
}

abbrev pub canary_size : ℕ
canary_size = 16

abbrev pub canary_value : ℕ
canary_value = 0xDEAD_BEEF_DEAD_BEEF

-- Five pointers, four 16-bit numbers, a float and a 16-bit number, padded to a multiple of 8.
abbrev pub size_of_page_info : ℕ
size_of_page_info = 56

abbrev pub real_entry_size : ℕ → ℕ
real_entry_size esize = canary_size + esize + size_of_meta_data + canary_size

pub record PageInfo (F : Type 0) : Type 0 where
  pub freelist : ℕ
  pub next : ℕ
  pub left : ℕ
  pub right : ℕ
  pub data_start : ℕ
  pub allocsize : ℕ
  pub realsize : ℕ
  pub entrycount : ℕ
  pub freecount : ℕ
  pub approx_utilization : F
  pub pending_decs_count : ℕ

-- `p & PAGE_ADDR_MASK`, for a 64-bit pointer.
unfoldable pub extract_page_from_pointer : ℕ → ℕ
extract_page_from_pointer p = p / block_allocation_size * block_allocation_size

module _ {F : Type 0} where
  unfoldable pub get_index_for_object_in_page : (ℕ → PageInfo F) → ℕ → ℕ
  get_index_for_object_in_page pages p =
      let page = pages (extract_page_from_pointer p) in (p - page.data_start) / page.realsize

  -- getMetaEntryAtIndex: the address of a header.
  unfoldable pub get_meta_entry_at_index : PageInfo F → ℕ → ℕ
  get_meta_entry_at_index page idx = page.data_start + idx * page.realsize + canary_size

  unfoldable pub get_freelist_entry_at_index : PageInfo F → ℕ → ℕ
  get_freelist_entry_at_index page idx = page.data_start + idx * page.realsize

  unfoldable pub get_object_metadata_aligned : (ℕ → PageInfo F) → ℕ → ℕ
  get_object_metadata_aligned pages p =
      let page = pages (extract_page_from_pointer p) in
      let idx = (p - page.data_start) / page.realsize in
      page.data_start + idx * page.realsize + canary_size

  -- The loop of `initialize`: the entries below `n` are still to be linked, from the last one down.
  -- The result is the memory and the head of the list.
  pub link_entries : (ℕ → ℕ) → PageInfo F → ℕ → ℕ → (ℕ → ℕ) × ℕ
  link_entries word page zero freelist = (word, freelist)
  link_entries word page (suc i) freelist =
      let e = get_freelist_entry_at_index page i in link_entries (store word e freelist) page i e

  -- `unprocessed` is the literal 100.0f.
  unfoldable pub initialize :
      (unprocessed : F) → (ℕ → ℕ) → (block allocsize realsize : ℕ) → (ℕ → ℕ) × PageInfo F
  unfolding link_entries
  initialize unprocessed word block allocsize realsize =
      let count = (block_allocation_size - size_of_page_info) / realsize % 2 ^ 16 in
      let pp : PageInfo F = record {
        freelist = 0;
        next = 0;
        left = 0;
        right = 0;
        data_start = block + size_of_page_info;
        allocsize = allocsize;
        realsize = realsize;
        entrycount = count;
        freecount = count;
        approx_utilization = unprocessed;
        pending_decs_count = 0;
      } in
      let (word', head) = link_entries word pp count 0 in (word', record pp { freelist = head })

-- What `rebuild` changes while it runs.
pub record Rebuild : Type 0 where
  pub words : ℕ → ℕ
  pub metas : Metas
  pub head : ℕ
  pub count : ℕ

module _ {F : Type 0} where
  -- One round: RESET_METADATA_FOR_OBJECT clears the type pointer too, the word at the header.
  pub rebuild_entry : PageInfo F → ℕ → Rebuild → Rebuild
  rebuild_entry page i s =
      let meta = get_meta_entry_at_index page i in
      let obj = meta + size_of_meta_data in
      let e = get_freelist_entry_at_index page i in
      if gc_should_free_list_add (s.metas obj)
      then record {
        words = store (store s.words meta 0) e s.head;
        metas = store s.metas obj (reset_meta max_fwd_index);
        head = e;
        count = (s.count + 1) % 2 ^ 16;
      }
      else s

  pub rebuild_entries : PageInfo F → ℕ → Rebuild → Rebuild
  rebuild_entries page zero s = s
  rebuild_entries page (suc i) s = rebuild_entries page i (rebuild_entry page i s)

  unfoldable pub rebuild : (ℕ → ℕ) → Metas → PageInfo F → (ℕ → ℕ) × Metas × PageInfo F
  unfolding rebuild_entries rebuild_entry
  rebuild word metas page =
      let s =
        rebuild_entries page page.entrycount
          (record { words = word; metas = metas; head = 0; count = 0 }) in
      (s.words, s.metas, record page { freelist = s.head; freecount = s.count; next = 0 })
