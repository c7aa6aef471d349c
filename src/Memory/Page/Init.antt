-- ===== src/Memory/Page/Init.antt =====
-- PageInfo::initialize (src/runtime/memory/allocator.cpp): the free list of a fresh page.
use bsqgc.Prelude.{ℕ, zero, suc, ◌+◌, ◌*◌, ◌/◌, ◌%◌, ◌≤◌, ◌<◌, ◌≡◌, refl, arith, All, length}
use bsqgc.Common.{block_allocation_size, store}
use bsqgc.Memory.Page.{
  PageInfo, size_of_page_info, get_freelist_entry_at_index, link_entries, initialize,
}
use bsqgc.Memory.Page.Chain.{Chain, done, Chain-cons, lower_bound, entries_from, entry_next}

module _ {F : Type 0} (page : PageInfo F) (pos : 0 < page.realsize)
    (start : 0 < page.data_start) where
  -- With the entries from the `n`-th on linked, the loop links the rest in front of them.
  link_entries-Chain :
      (n k total head : ℕ) (word : ℕ → ℕ)
      → n + k ≡ total
      → Chain word head (entries_from page.data_start page.realsize n k)
      → All
          (λ a. page.data_start + n * page.realsize ≤ a)
          (entries_from page.data_start page.realsize n k)
      → Chain
          (link_entries word page n head).0
          (link_entries word page n head).1
          (entries_from page.data_start page.realsize 0 total)
  unfolding link_entries get_freelist_entry_at_index entries_from
  link_entries-Chain zero k total head word e c h = let e' : k ≡ total = omega arith in rw (← e') c
  link_entries-Chain (suc i) k total head word e c h =
      let d = page.data_start in
      let rs = page.realsize in
      let a = d + i * rs in
      let a' = d + suc i * rs in
      let step : a + rs ≡ a' = entry_next d rs i in
      link_entries-Chain i (suc k) total a (store word a head) (omega arith)
        (Chain-cons a' a c h (omega arith) (omega arith))
        (omega arith, lower_bound a' a (entries_from d rs (suc i) k) (omega arith) h)

pub length-entries_from : (d rs i k : ℕ) → length (entries_from d rs i k) ≡ k
unfolding entries_from
length-entries_from d rs i zero = refl
length-entries_from d rs i (suc k) = omega (arith, length-entries_from d rs (suc i) k)

fits_in :
    (rs : ℕ) → 0 < rs → (4040 / rs % 65536 * rs ≤ 4040) × (4040 < (4040 / rs % 65536 + 1) * rs)
fits_in rs pos = grind arith

module _ {F : Type 0} where
  -- What a fresh page has to be: its free list leads through all its entries in order, as many as
  -- `freecount` and `entrycount` say, the last of them ends inside the block, one more would not
  -- fit, and the page is in no list or tree.
  pub record IsFresh (block rs : ℕ) (word : ℕ → ℕ) (p : PageInfo F) : Type 0 where
    pub chain : Chain word p.freelist (entries_from p.data_start p.realsize 0 p.entrycount)
    pub counted : length (entries_from p.data_start p.realsize 0 p.entrycount) ≡ p.freecount
    pub fits : p.data_start + p.entrycount * p.realsize ≤ block + block_allocation_size
    pub full : block + block_allocation_size < p.data_start + (p.entrycount + 1) * p.realsize
    pub size : p.realsize ≡ rs
    pub behind_info : p.data_start ≡ block + size_of_page_info
    pub alone : (p.next ≡ 0) × (p.left ≡ 0) × (p.right ≡ 0) × (p.pending_decs_count ≡ 0)

  -- For every block address and an entry size that is not 0: after `initialize` the free list leads through all
  -- entries of the page in order, as many as freecount says; the last of them ends inside the block and one
  -- more would not fit; the entry size is the given one, and the data starts behind the page's own
  -- fields; and the page is in no list or tree and has no pending decrements.
  pub initialize-IsFresh :
      (unprocessed : F) (word : ℕ → ℕ) (block allocsize rs : ℕ)
      → 0 < rs
      → let r = initialize unprocessed word block allocsize rs in IsFresh block rs r.0 r.1
  unfolding initialize entries_from
  initialize-IsFresh unprocessed word block allocsize rs pos = record {
    chain =
        let p : PageInfo F = record {
          freelist = 0;
          next = 0;
          left = 0;
          right = 0;
          data_start = block + size_of_page_info;
          allocsize = allocsize;
          realsize = rs;
          entrycount = 4040 / rs % 65536;
          freecount = 4040 / rs % 65536;
          approx_utilization = unprocessed;
          pending_decs_count = 0;
        } in
        link_entries-Chain p pos (omega arith) (4040 / rs % 65536) 0 (4040 / rs % 65536) 0 word
          (omega arith) (done refl) tt;
    counted = length-entries_from _ _ 0 _;
    fits = omega (arith, fits_in rs pos);
    full = omega (arith, fits_in rs pos);
    size = refl;
    behind_info = refl;
    alone = (refl, refl, refl, refl);
  }
