-- ===== src/Memory/Allocator/Sample.antt =====
-- A state with one page, for runs.
use bsqgc.Prelude.{ℕ, true, false, none, [], ◌==◌, if◌then◌else◌}
use bsqgc.Common.{reset_meta, max_fwd_index}
use bsqgc.Memory.Page.{PageInfo}
use bsqgc.Support.PageTable.{pagetable_insert}
use bsqgc.Memory.World.{World, GcAllocator, ThreadInfo}

-- The page at 8192 has entries of 72 bytes from 8248 on; the first three are free.
abbrev pub page : PageInfo ℕ
page = record {
  freelist = 8248;
  next = 0;
  left = 0;
  right = 0;
  data_start = 8248;
  allocsize = 16;
  realsize = 72;
  entrycount = 3;
  freecount = 3;
  approx_utilization = 100;
  pending_decs_count = 0;
}

abbrev pub allocator : GcAllocator
allocator = record {
  freelist = 8248;
  evacfreelist = 0;
  alloc_page = 8192;
  evac_page = 0;
  allocsize = 16;
  realsize = 72;
  pendinggc_pages = 0;
  low_utilization_buckets = λ i. 0;
  high_utilization_buckets = λ i. 0;
  filled_pages = 0;
}

abbrev pub thread : ThreadInfo
thread = record {
  tl_id = 0;
  native_stack_base = 0;
  native_stack_contents = 0;
  roots = [];
  old_roots = [];
  forward_table = [];
  newly_filled_pages_count = 0;
  pending_roots = [];
  pending_young = [];
  pending_decs = [];
  pending_young_place = 0;
  pending_decs_place = 0;
  decremented_pages = [];
  max_decrement_count = 100;
  disable_automatic_collections = false;
  total_gc_pages = 1;
  total_empty_gc_pages = 0;
  total_live_bytes = 0;
}

abbrev pub words : ℕ → ℕ
words a = if a == 8248 then 8320 else if a == 8320 then 8392 else 0

abbrev pub world : World ℕ
world = record {
  word = words;
  type_info =
      λ t. record { type_id = t; type_size = 16; slot_size = 2; ptr_mask = none; typekey = 0 };
  metas = λ o. reset_meta max_fwd_index;
  pages = λ p. page;
  used = λ s. s == 2;
  alloc = λ s. allocator;
  empty_pages = 0;
  pagetable = pagetable_insert none 8192;
  current_page_address = 12288;
  mmap_fails = λ a. false;
  thread_counter = 0;
  support_pages = 0;
  tinfo = thread;
  should_reset_pending_decs = true;
}
