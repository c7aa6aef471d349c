-- ===== src/Memory/Allocator/Ready.antt =====
-- allocate (src/runtime/memory/allocator.h) where the allocator has no page: its state once it has a new one.
use bsqgc.Prelude.{
  ℕ, zero, suc, ◌+◌, ◌-◌, ◌*◌, ◌<◌, ◌≤◌, true, false, ◌==◌, ==_refl, ◌≡◌, ◌≢◌, refl, ap, sym, subst,
  ◌∙◌, arith, All, All-mono,
}
use bsqgc.Common.{store}
use bsqgc.Memory.Float.{FloatOps}
use bsqgc.Memory.Page.Chain.{Chain, entries_from, entry_next, lower_bound}
use bsqgc.Memory.Page.Init.{length-entries_from}
use bsqgc.Memory.World.{World, GcAllocator, ok, Cmd, load_page, load_alloc, store_alloc}
use bsqgc.Memory.GlobalPages.Fresh.{IsMapped}
use bsqgc.Memory.Allocator.{
  allocate, allocate_entry, get_fresh_page_for_allocator, allocator_refresh_page, set_alloc_page,
  load_type,
}
use bsqgc.Memory.Allocator.Entry.{IsApart, HasEntry}

-- The addresses of entries are not below the first of them.
entries_from-above : (d rs i k : ℕ) → All (λ a. d + i * rs ≤ a) (entries_from d rs i k)
unfolding entries_from
entries_from-above d rs i zero = tt
entries_from-above d rs i (suc k) =
    let step : d + i * rs + rs ≡ d + suc i * rs = entry_next d rs i in
    (
      omega arith,
      lower_bound (d + suc i * rs) (d + i * rs) (entries_from d rs (suc i) k) (omega arith)
          (entries_from-above d rs (suc i) k),
    )

some_entry : (rs n : ℕ) → 0 < rs → rs ≤ 4040 → 4040 < (n + 1) * rs → 0 < n
some_entry rs zero pos le h = absurd (omega arith)
some_entry rs (suc n) pos le h = omega arith

few_entries : (rs n : ℕ) → 0 < rs → n * rs ≤ 4040 → n < 65536
few_entries rs n pos h = grind arith

module _ (fl : FloatOps) where
  -- The allocator with a page that is new.
  unfoldable pub with_page : (s q : ℕ) → World fl.F → GcAllocator
  with_page s q w = record (w.alloc s) { alloc_page = q; freelist = (w.pages q).freelist }

  unfoldable pub ready : (s q : ℕ) → World fl.F → World fl.F
  ready s q w = record w {
    alloc =
        store (store w.alloc s (record (w.alloc s) { alloc_page = q })) s
          (record (w.alloc s) { alloc_page = q; freelist = (w.pages q).freelist });
  }

  pub ready-alloc : (s q : ℕ) (w : World fl.F) → (ready s q w).alloc s ≡ with_page s q w
  unfolding ready with_page
  ready-alloc s q w = rw (==_refl s) refl

  pub refresh_run :
      (collect : Cmd fl.F (Unit {0})) (fuel s type q : ℕ) (w w1 : World fl.F)
      → (w.type_info type).type_size ≡ (w.alloc s).allocsize
      → (w.alloc s).freelist ≡ 0
      → (w.alloc s).alloc_page ≡ 0
      → get_fresh_page_for_allocator fl fuel s w ≡ ok q w1
      → q ≢ 0
      → allocate fl collect fuel s type w
        ≡ allocate_entry fl s type (w.type_info type) (ready s q w1)
  unfolding allocate load_type load_alloc store_alloc load_page allocator_refresh_page
      set_alloc_page ready
  refresh_run collect fuel s type q w w1 size nofree nopage fresh ne =
      let b : ((w.type_info type).type_size == (w.alloc s).allocsize) ≡ true = ground arith in
      let z : (q == 0) ≡ false = ground arith in
      let f : ((w.alloc s).freelist == 0) ≡ true = ground arith in
      let g : ((w.alloc s).alloc_page == 0) ≡ true = ground arith in
      rw b (rw f (rw g (rw fresh (rw (==_refl s) (rw z refl)))))

  -- The entries of a new page are apart, where an entry holds an object, a header and two canaries.
  IsApart-entries :
      (d rs ts k : ℕ) → rs ≡ ts + 56 → All (IsApart (d + 0 * rs) ts) (entries_from d rs 1 k)
  IsApart-entries d rs ts k e =
      All-mono (λ a. d + 1 * rs ≤ a) (IsApart (d + 0 * rs) ts) (entries_from d rs 1 k)
        (λ a h. (omega arith, omega arith, omega arith)) (entries_from-above d rs 1 k)

  pub new-HasEntry :
      (s type q ts : ℕ) (w w1 : World fl.F)
      → IsMapped fl ts (ts + 56) w q w1
      → q ≢ 0
      → (w.type_info type).type_size ≡ ts
      → (w.alloc s).allocsize ≡ ts
      → ts + 56 ≤ 4040
      → HasEntry fl true s type
          (q + 56 + 0 * (ts + 56))
          (entries_from (q + 56) (ts + 56) 1 ((w1.pages q).entrycount - 1))
          (ready s q w1)
  unfolding ready entries_from
  new-HasEntry s type q ts w w1 m ne size asize le =
      let page = w1.pages q in
      let n = page.entrycount in
      let rs_e = m.fresh.size in
      let d_e = m.fresh.behind_info in
      let total = length-entries_from page.data_start page.realsize 0 n in
      let counted = m.fresh.counted in
      let full : q + 4096 < q + 56 + (n + 1) * (ts + 56) =
        subst (λ r. q + 4096 < q + 56 + (n + 1) * r) rs_e
          (subst (λ u. q + 4096 < u + (n + 1) * page.realsize) d_e m.fresh.full) in
      let fits : q + 56 + n * (ts + 56) ≤ q + 4096 =
        subst (λ r. q + 56 + n * r ≤ q + 4096) rs_e
          (subst (λ u. u + n * page.realsize ≤ q + 4096) d_e m.fresh.fits) in
      let pos = some_entry (ts + 56) n (omega arith) le (omega arith) in
      let few = few_entries (ts + 56) n (omega arith) (omega arith) in
      let count : n ≡ suc (n - 1) = omega arith in
      let chain : Chain w1.word page.freelist (entries_from (q + 56) (ts + 56) 0 n) =
        subst (λ r. Chain w1.word page.freelist (entries_from (q + 56) r 0 n)) rs_e
          (subst (λ u. Chain w1.word page.freelist (entries_from u page.realsize 0 n)) d_e
            m.fresh.chain) in
      let types = ap (λ f. (f type).type_size) m.types ∙ size in
      let own = ==_refl s in
      let entries =
        subst (λ c. Chain w1.word page.freelist (entries_from (q + 56) (ts + 56) 0 c)) count
          chain in
      let free : 0 < page.freecount = omega arith in
      let bound : page.freecount < 65536 = omega arith in
      let asize1 = ap (λ f. (f s).allocsize) m.allocators ∙ asize in
      record {
        size = rw own (types ∙ sym asize1);
        page = rw own ne;
        chain = rw own entries;
        sync = rw own refl;
        some_free = rw own free;
        count_bound = rw own bound;
        apart = rw types (IsApart-entries (q + 56) (ts + 56) ts (n - 1) refl);
      }
