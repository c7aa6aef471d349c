-- ===== src/Memory/Allocator/NewPage.antt =====
-- allocate (src/runtime/memory/allocator.h) where the allocator has no page: the object is the first on a new one.
use bsqgc.Prelude.{
  ℕ, suc, ◌+◌, ◌-◌, ◌*◌, ◌^◌, ◌<◌, ◌≤◌, true, false, List, ==_refl, ◌≡◌, ◌≢◌, refl, ap, sym, subst,
  ◌∙◌, arith,
}
use bsqgc.Common.{store_field}
use bsqgc.Support.PageTable.{pagetable_query, missing_tables}
use bsqgc.Memory.Float.{FloatOps}
use bsqgc.Memory.Page.{canary_value}
use bsqgc.Memory.Page.Chain.{Chain, Chain-head, entries_from}
use bsqgc.Memory.Page.Init.{length-entries_from}
use bsqgc.Memory.World.{World, ok, Cmd, Returns, Returns-inv}
use bsqgc.Memory.Utilization.{num_low_util_buckets}
use bsqgc.Memory.GlobalPages.{allocate_fresh_page}
use bsqgc.Memory.GlobalPages.Fresh.{IsMapped, allocate_fresh_page-IsMapped}
use bsqgc.Memory.Buckets.Find.{get_fresh_page_for_allocator_empty}
use bsqgc.Memory.Allocator.{allocate, allocate_entry, get_fresh_page_for_allocator, setup_meta}
use bsqgc.Memory.Allocator.Entry.{HasEntry, entry_after, entry_after-IsAllocated}
use bsqgc.Memory.Allocator.Returned.{allocate_entry_run}
use bsqgc.Memory.Allocator.Ready.{with_page, ready, ready-alloc, refresh_run, new-HasEntry}

module _ (fl : FloatOps) where
  pub record IsOnNewPage (s type ts : ℕ) (w : World fl.F) (obj : ℕ) (w' : World fl.F) : Type 0 where
    pub address : obj ≡ w.current_page_address + 56 + 16 + 24
    pub header : w'.metas obj ≡ setup_meta true
    pub typed : w'.word (w.current_page_address + 56 + 16) ≡ type
    pub front_canary : w'.word (w.current_page_address + 56) ≡ canary_value
    pub page : (w'.alloc s).alloc_page ≡ w.current_page_address
    pub managed : pagetable_query w'.pagetable w.current_page_address ≡ true
    pub list : Chain w'.word (w'.alloc s).freelist (
        entries_from
          (w.current_page_address + 56)
          (ts + 56)
          1
          ((w'.pages w.current_page_address).entrycount - 1))
    pub count :
        suc (w'.pages w.current_page_address).freecount
        ≡ (w'.pages w.current_page_address).entrycount

  entry_after-entrycount :
      (s type e p : ℕ) (w : World fl.F)
      → ((entry_after fl true w s type e).pages p).entrycount ≡ (w.pages p).entrycount
  unfolding entry_after
  entry_after-entrycount s type e p w =
      store_field (λ r. r.entrycount) w.pages (w.alloc s).alloc_page _ p refl

  entry_after-page :
      (s type e : ℕ) (w : World fl.F)
      → ((entry_after fl true w s type e).alloc s).alloc_page ≡ (w.alloc s).alloc_page
  unfolding entry_after
  entry_after-page s type e w = rw (==_refl s) refl

  managed_after :
      (s type q : ℕ) (w : World fl.F)
      → pagetable_query (entry_after fl true (ready fl s q w) s type (q + 56)).pagetable q
        ≡ pagetable_query w.pagetable q
  unfolding entry_after ready
  managed_after s type q w = refl

  entry_after-IsOnNewPage :
      (s type ts : ℕ) (w w1 : World fl.F)
      → IsMapped fl ts (ts + 56) w w.current_page_address w1
      → HasEntry fl true s type
          (w.current_page_address + 56)
          (entries_from
            (w.current_page_address + 56)
            (ts + 56)
            1
            ((w1.pages w.current_page_address).entrycount - 1))
          (ready fl s w.current_page_address w1)
      → IsOnNewPage s type ts w (w.current_page_address + 56 + 16 + 24) (
          entry_after fl true
            (ready fl s w.current_page_address w1)
            s
            type
            (w.current_page_address + 56))
  unfolding with_page ready
  entry_after-IsOnNewPage s type ts w w1 m h =
      let q = w.current_page_address in
      let w2 = ready fl s q w1 in
      let d = entry_after-IsAllocated fl true s type (q + 56) _ w2 h in
      let w' = entry_after fl true w2 s type (q + 56) in
      let on_q : (w2.alloc s).alloc_page ≡ q = ap (λ a. a.alloc_page) (ready-alloc fl s q w1) in
      let kept = entry_after-entrycount s type (q + 56) q w2 in
      record {
        address = refl;
        header = d.header;
        typed = d.typed;
        front_canary = d.front_canary;
        page = entry_after-page s type (q + 56) w2 ∙ on_q;
        managed = managed_after s type q w1 ∙ m.managed;
        list =
            subst
              (λ c. Chain w'.word (w'.alloc s).freelist (entries_from (q + 56) (ts + 56) 1 (c - 1)))
              (sym kept) d.list;
        count =
            subst (λ u. suc (w'.pages u).freecount ≡ (w2.pages u).freecount) on_q d.page_count
            ∙ sym m.fresh.counted
            ∙ length-entries_from (w1.pages q).data_start (w1.pages q).realsize 0
                (w1.pages q).entrycount
            ∙ sym kept;
      }

  allocate_new_run :
      (collect : Cmd fl.F (Unit {0})) (fuel s type e : ℕ) (rest : List ℕ) (q : ℕ)
      (w w1 : World fl.F)
      → (w.type_info type).type_size ≡ (w.alloc s).allocsize
      → (w.alloc s).freelist ≡ 0
      → (w.alloc s).alloc_page ≡ 0
      → get_fresh_page_for_allocator fl fuel s w ≡ ok q w1
      → q ≢ 0
      → w1.type_info ≡ w.type_info
      → HasEntry fl true s type e rest (ready fl s q w1)
      → allocate fl collect fuel s type w
        ≡ ok (e + 16 + 24) (entry_after fl true (ready fl s q w1) s type e)
  unfolding ready
  allocate_new_run collect fuel s type e rest q w w1 size nofree nopage fresh ne types h =
      let w2 = ready fl s q w1 in
      let (head, fne, c) = Chain-head h.chain in
      let info = ap (λ f. f type) (sym types) in
      refresh_run fl collect fuel s type q w w1 size nofree nopage fresh ne
      ∙ ap (λ i. allocate_entry fl s type i w2) info
      ∙ allocate_entry_run fl s type w2 fne h.page h.sync
      ∙ ap (λ u. ok (u + 16 + 24) (entry_after fl true w2 s type u)) head

  -- allocate for an allocator without a page, where its buckets of low utilization and the pool are empty, mmap
  -- gives the next page, the page table has all the tables for it, that page lies below 2^48, and an entry of the allocator's size with its
  -- header and canaries fits on a page: it returns the first object of that page, with a fresh header, its type and
  -- its canary; the page is the allocator's and in the page table, and all its other entries are free,
  -- in order, and counted as such.
  pub allocate-IsOnNewPage :
      (collect : Cmd fl.F (Unit {0})) (fuel s type ts : ℕ) (w : World fl.F)
      → (w.type_info type).type_size ≡ ts
      → (w.alloc s).allocsize ≡ ts
      → (w.alloc s).realsize ≡ ts + 56
      → ts + 56 ≤ 4040
      → (w.alloc s).freelist ≡ 0
      → (w.alloc s).alloc_page ≡ 0
      → ((k : ℕ) → k < num_low_util_buckets → (w.alloc s).low_utilization_buckets k ≡ 0)
      → w.empty_pages ≡ 0
      → w.mmap_fails w.current_page_address ≡ false
      → missing_tables w.pagetable w.current_page_address ≡ 0
      → w.current_page_address ≢ 0
      → w.current_page_address < 2 ^ 48
      → Returns (IsOnNewPage s type ts w) (allocate fl collect fuel s type w)
  unfolding Returns
  allocate-IsOnNewPage collect fuel s type ts w tsize asize rsize le nofree nopage empty none maps
        tables ne bound =
      let q = w.current_page_address in
      let mapped =
        allocate_fresh_page-IsMapped fl ts (ts + 56) w bound none maps tables (omega arith) in
      let (q1, w1, run, m) =
        Returns-inv (IsMapped fl ts (ts + 56) w) (allocate_fresh_page fl ts (ts + 56) w) mapped in
      let m' = subst (λ u. IsMapped fl ts (ts + 56) w u w1) m.address m in
      let fresh : get_fresh_page_for_allocator fl fuel s w ≡ ok q w1 =
        get_fresh_page_for_allocator_empty fl fuel s w empty
        ∙ (λ k. allocate_fresh_page fl (asize k) (rsize k) w)
        ∙ run
        ∙ ap (λ u. ok u w1) m.address in
      let first : q + 56 + 0 * (ts + 56) ≡ q + 56 = omega arith in
      let h =
        subst
          (λ e.
            HasEntry fl true s type e
              (entries_from (q + 56) (ts + 56) 1 ((w1.pages q).entrycount - 1)) (ready fl s q w1))
          first (new-HasEntry fl s type q ts w w1 m' ne tsize asize le) in
      rw
        (allocate_new_run collect fuel s type (q + 56) _ q w w1 (tsize ∙ sym asize) nofree nopage
          fresh ne m.types h)
        (entry_after-IsOnNewPage s type ts w w1 m' h)
