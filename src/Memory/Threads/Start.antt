-- ===== src/Memory/Threads/Start.antt =====
-- The start of a thread (src/runtime/memory/threadinfo.h and threadinfo.cpp): its allocators are found by the size of
-- a page's objects.
use bsqgc.Prelude.{
  ℕ, ◌+◌, ◌/◌, ◌<◌, true, false, List, [], ◌∷◌, map, ◌==◌, ◌≡◌, ◌≢◌, refl, ap, sym, ◌∙◌, arith, All,
  All-mono, Distinct, ltb, if◌then◌else◌,
}
use bsqgc.Common.{store, store_eq, store_ne}
use bsqgc.Memory.World.{World, GcAllocator, ok, Returns, Returns-mono, ◌>>◌, load_page}
use bsqgc.Memory.Threads.{
  initialize_thread_local_info, init_thread_local_info, initialize_gc, get_allocator_for_page_size,
  put_allocator,
}

abbrev pub slot_of : GcAllocator → ℕ
slot_of a = a.allocsize / 8

others_of :
    (a : GcAllocator) (allocs : List GcAllocator)
    → All (λ s. slot_of a ≢ s) (map slot_of allocs)
    → All (λ b. slot_of b ≢ slot_of a) allocs
others_of a [] h = tt
others_of a (b ∷ bs) h = ((λ e. h.0 (sym e)), others_of a bs h.1)

module _ {F : Type 0} where
  -- The allocator is in its slot.
  abbrev pub IsPut : World F → GcAllocator → Type 0
  IsPut w a = (w.used (slot_of a) ≡ true) × (w.alloc (slot_of a) ≡ a)

  pub record ArePut (allocs : List GcAllocator) (w w' : World F) : Type 0 where
    pub found : All (IsPut w') allocs
    pub empty :
        (s : ℕ)
        → All (λ a. slot_of a ≢ s) allocs
        → (w'.used s ≡ w.used s) × (w'.alloc s ≡ w.alloc s)
    pub tinfo : w'.tinfo ≡ w.tinfo
    pub pages : w'.pages ≡ w.pages

  put : GcAllocator → World F → World F
  put a w = record w { used = store w.used (slot_of a) true; alloc = store w.alloc (slot_of a) a }

  put_run : (a : GcAllocator) (w : World F) → slot_of a < 64 → put_allocator a w ≡ ok tt (put a w)
  unfolding put_allocator put
  put_run a w lt = let e : ltb (a.allocsize / 8) 64 ≡ true = ground arith in rw e refl

  put-other :
      (a : GcAllocator) (w : World F) (s : ℕ)
      → slot_of a ≢ s
      → ((put a w).used s ≡ w.used s) × ((put a w).alloc s ≡ w.alloc s)
  unfolding put
  put-other a w s ne = (store_ne w.used (slot_of a) true s ne, store_ne w.alloc (slot_of a) a s ne)

  put-IsPut : (a : GcAllocator) (w : World F) → IsPut (put a w) a
  unfolding put
  put-IsPut a w = (store_eq w.used (slot_of a) true, store_eq w.alloc (slot_of a) a)

  after_put :
      (a : GcAllocator) (allocs : List GcAllocator) (w w' : World F)
      → All (λ b. slot_of b ≢ slot_of a) allocs
      → ArePut allocs (put a w) w'
      → ArePut (a ∷ allocs) w w'
  unfolding put
  after_put a allocs w w' ne h =
      let (eu, ea) = h.empty (slot_of a) ne in
      let (pu, pa) = put-IsPut a w in
      record {
        found = ((eu ∙ pu, ea ∙ pa), h.found);
        empty = λ s k.
            let (u, v) = h.empty s k.1 in let (u', v') = put-other a w s k.0 in (u ∙ u', v ∙ v');
        tinfo = h.tinfo;
        pages = h.pages;
      }

  initialize_gc-ArePut :
      (allocs : List GcAllocator) (w : World F)
      → Distinct (map slot_of allocs)
      → All (λ a. slot_of a < 64) allocs
      → Returns (λ (u : Unit {0}) (w' : World F). ArePut allocs w w') (initialize_gc allocs w)
  unfolding Returns initialize_gc
  initialize_gc-ArePut [] w d small = record {
    found = tt;
    empty = λ s h. (refl, refl);
    tinfo = refl;
    pages = refl;
  }
  initialize_gc-ArePut (a ∷ allocs) w d small = rw (put_run a w small.0) (
      Returns-mono (λ (u : Unit {0}) (w' : World F). ArePut allocs (put a w) w')
        (λ (u : Unit {0}) (w' : World F). ArePut (a ∷ allocs) w w') (initialize_gc allocs (put a w))
        (λ u w' h. after_put a allocs w w' (others_of a allocs d.0) h)
        (initialize_gc-ArePut allocs (put a w) d.1 small.1))

  pub record IsStarted (rbp : ℕ) (allocs : List GcAllocator) (w w' : World F) : Type 0 where
    pub id : w'.tinfo.tl_id ≡ w.thread_counter
    pub base : w'.tinfo.native_stack_base ≡ rbp
    pub roots : w'.tinfo.roots ≡ []
    pub old_roots : w'.tinfo.old_roots ≡ []
    pub forward_table : w'.tinfo.forward_table ≡ []
    pub found :
        All
          (λ a.
            (p : ℕ)
            → p ≢ 0
            → (w'.pages p).allocsize ≡ a.allocsize
            → get_allocator_for_page_size p w' ≡ ok (true, a) w')
          allocs
    pub empty : (s : ℕ) → s < 64 → All (λ a. slot_of a ≢ s) allocs → w'.used s ≡ false

  found_run :
      (a : GcAllocator) (w : World F)
      → IsPut w a
      → (p : ℕ) → p ≢ 0
      → (w.pages p).allocsize ≡ a.allocsize
      → get_allocator_for_page_size p w ≡ ok (true, a) w
  unfolding get_allocator_for_page_size load_page
  found_run a w (u, e) p ne size =
      let z : (p == 0) ≡ false = ground arith in rw z (rw size (rw (u, e) refl))

  -- InitBSQMemoryTheadLocalInfo and then initializeGC, for allocators that stand in different slots of the 64: they
  -- return; the thread has the next number and the given stack base and no roots; getAllocatorForPageSize
  -- gives each of the allocators for a page of its size; and all other slots are null.
  pub initialize_gc-IsStarted :
      (rbp : ℕ) (allocs : List GcAllocator) (w : World F)
      → Distinct (map slot_of allocs)
      → All (λ a. slot_of a < 64) allocs
      → Returns
          (λ (u : Unit {0}) (w' : World F). IsStarted rbp allocs w w')
          ((init_thread_local_info rbp >> initialize_gc allocs) w)
  unfolding init_thread_local_info initialize_thread_local_info
  initialize_gc-IsStarted rbp allocs w d small =
      let w1 = record w {
        thread_counter = w.thread_counter + 1;
        tinfo = record w.tinfo {
          tl_id = w.thread_counter;
          native_stack_base = rbp;
          roots = [];
          old_roots = [];
          forward_table = [];
        };
        used = λ s. if ltb s 64 then false else w.used s;
      } in
      Returns-mono (λ (u : Unit {0}) (w' : World F). ArePut allocs w1 w')
        (λ (u : Unit {0}) (w' : World F). IsStarted rbp allocs w w') (initialize_gc allocs w1)
        (λ u w' h. record {
          id = ap (λ t. t.tl_id) h.tinfo;
          base = ap (λ t. t.native_stack_base) h.tinfo;
          roots = ap (λ t. t.roots) h.tinfo;
          old_roots = ap (λ t. t.old_roots) h.tinfo;
          forward_table = ap (λ t. t.forward_table) h.tinfo;
          found = All-mono (IsPut w') _ allocs (λ a k. found_run a w' k) h.found;
          empty = λ s lt k. (h.empty s k).0 ∙ (let e : ltb s 64 ≡ true = ground arith in rw e refl);
        })
        (initialize_gc-ArePut allocs w1 d small)
