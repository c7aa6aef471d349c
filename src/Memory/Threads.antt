-- ===== src/Memory/Threads.antt =====
-- BSQMemoryTheadLocalInfo (src/runtime/memory/threadinfo.h and threadinfo.cpp): the set-up of the data of a
-- thread, and the constructor of GCAllocator (src/runtime/memory/allocator.h).
--
-- The arrays roots, old_roots and forward_table are lists of their entries below the counts; g_gcallocs is
-- `used` and `alloc` of the state, and a write outside it is a fault.
pub mod Start
mod Tests
use bsqgc.Prelude.{
  ℕ, zero, suc, ◌+◌, ◌*◌, ◌/◌, Bool, true, false, List, [], ◌∷◌, ◌==◌, if◌then◌else◌, ltb,
}
use bsqgc.Common.{store, block_allocation_size}
use bsqgc.Memory.Float.{FloatOps}
use bsqgc.Memory.Page.{PageInfo}
use bsqgc.Memory.World.{
  World, GcAllocator, ThreadInfo, Run, ok, fault, Cmd, pure, fail, gets, ◌>>=◌, ◌>>◌, load_page,
  load_tinfo, store_tinfo,
}
use bsqgc.Support.Xalloc.{allocate_page, free_page, zerofill_page}
use bsqgc.Gc.Collect.{bsq_max_alloc_slots}
use bsqgc.Gc.Evacuate.{slot_of_size}

-- BSQ_INITIAL_MAX_DECREMENT_COUNT.
abbrev pub initial_max_decrement_count : ℕ
initial_max_decrement_count = 1024 * block_allocation_size / (8 * 32)

-- The constructor of BSQMemoryTheadLocalInfo.
unfoldable pub new_thread_info : ThreadInfo
new_thread_info = record {
  tl_id = 0;
  native_stack_base = 0;
  native_stack_contents = 0;
  roots = [];
  old_roots = [];
  forward_table = [];
  newly_filled_pages_count = 0;
  pending_roots = [];
  pending_young = [];
  pending_decs = [];
  pending_young_place = 0;
  pending_decs_place = 0;
  decremented_pages = [];
  max_decrement_count = initial_max_decrement_count;
  disable_automatic_collections = false;
  total_gc_pages = 0;
  total_empty_gc_pages = 0;
  total_live_bytes = 0;
}

-- The constructor of GCAllocator. collectfp is the argument `collect` of allocate.
unfoldable pub new_gc_allocator : (allocsize realsize : ℕ) → GcAllocator
new_gc_allocator allocsize realsize = record {
  freelist = 0;
  evacfreelist = 0;
  alloc_page = 0;
  evac_page = 0;
  allocsize = allocsize;
  realsize = realsize;
  pendinggc_pages = 0;
  low_utilization_buckets = λ i. 0;
  high_utilization_buckets = λ i. 0;
  filled_pages = 0;
}

abbrev pub get_alloc_size : GcAllocator → ℕ
get_alloc_size a = a.allocsize

module _ {F : Type 0} where
  unfoldable pub initialize_thread_local_info : (tl_id caller_rbp : ℕ) → Cmd F (Unit {0})
  initialize_thread_local_info tl_id caller_rbp w = ok tt (record w {
    tinfo = record w.tinfo {
      tl_id = tl_id;
      native_stack_base = caller_rbp;
      roots = [];
      old_roots = [];
      forward_table = [];
    };
    used = λ s. if ltb s bsq_max_alloc_slots then false else w.used s;
  })

  -- InitBSQMemoryTheadLocalInfo.
  unfoldable pub init_thread_local_info : (rbp : ℕ) → Cmd F (Unit {0})
  init_thread_local_info rbp w =
      let id = w.thread_counter in
      initialize_thread_local_info id rbp (record w { thread_counter = id + 1 })

  put_allocator : GcAllocator → Cmd F (Unit {0})
  put_allocator a w =
      let s = get_alloc_size a / 8 in
      if ltb s bsq_max_alloc_slots
      then ok tt (record w { used = store w.used s true; alloc = store w.alloc s a })
      else fault

  unfoldable pub initialize_gc : List GcAllocator → Cmd F (Unit {0})
  unfolding put_allocator
  initialize_gc [] = pure tt
  initialize_gc (a ∷ allocs) = do put_allocator a; initialize_gc allocs

  -- The slot, whether it is not null, and the allocator in it.
  unfoldable pub get_allocator_for_page_size : (p : ℕ) → Cmd F (Bool × GcAllocator)
  get_allocator_for_page_size p = do
    page ← load_page p
    gets (λ w. (w.used (slot_of_size page.allocsize), w.alloc (slot_of_size page.allocsize)))

  unfoldable pub unload_native_root_set : Cmd F (Unit {0})
  unload_native_root_set = do
    t ← load_tinfo
    free_page t.native_stack_contents
    t' ← load_tinfo
    store_tinfo (record t' { native_stack_contents = 0 })

module _ (fl : FloatOps) where
  -- The loop of compute_average_time, over `n` times from the `i`-th on.
  unfoldable pub sum_times : (n i : ℕ) → (time : ℕ → fl.D) → (total : fl.D) → (num : ℕ) → fl.D × ℕ
  sum_times zero i time total num = (total, num)
  sum_times (suc n) i time total num =
      let elapsed_time = time i in
      let counts = fl.double_lt (fl.double_dec 0 0) elapsed_time in
      sum_times n (i + 1) time (if counts then fl.double_add total elapsed_time else total)
        (if counts then num + 1 else num)

  unfoldable pub compute_average_time : (ℕ → fl.D) → fl.D
  unfolding sum_times
  compute_average_time time =
      let (total, num) = sum_times 512 0 time (fl.double_dec 0 0) 0 in
      fl.double_div total (fl.double_of_nat num)
