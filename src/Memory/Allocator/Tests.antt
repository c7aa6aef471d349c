-- ===== src/Memory/Allocator/Tests.antt =====
-- An allocation on a page with three free entries.
use bsqgc.Prelude.{ℕ, true, [], ◌∷◌, refl, arith}
use bsqgc.Memory.Allocator.Sample.{world, words, allocator}
use bsqgc.Memory.Float.Fixed.{fixed}
use bsqgc.Memory.Page.Chain.{Chain, done, link}
use bsqgc.Support.PageTable.{pagetable_insert, missing_tables}
use bsqgc.Memory.World.{World, Returns, pure, fault}
use bsqgc.Memory.Allocator.{allocate}
use bsqgc.Memory.Allocator.Returned.{allocate-IsAllocated}
use bsqgc.Memory.Allocator.NewPage.{IsOnNewPage, allocate-IsOnNewPage}
use bsqgc.Memory.Allocator.Stays.{Stays}
use bsqgc.Memory.Allocator.Entry.{IsAllocated, HasEntry}

free_list : Chain words 8248 (8248 ∷ 8320 ∷ 8392 ∷ [])
free_list = link (omega arith) (link (omega arith) (link (omega arith) (done refl)))

world_entry : HasEntry fixed true 2 5000 8248 (8320 ∷ 8392 ∷ []) world
world_entry = record {
  size = refl;
  page = omega arith;
  chain = free_list;
  sync = refl;
  some_free = omega arith;
  count_bound = omega arith;
  apart = ((omega arith, omega arith, omega arith), ((omega arith, omega arith, omega arith), tt));
}

allocate-IsAllocated_example :
    Returns
      (IsAllocated true 2 5000 8248 (8320 ∷ 8392 ∷ []) world)
      (allocate fixed (pure tt) 10 2 5000 world)
allocate-IsAllocated_example =
    allocate-IsAllocated fixed (pure tt) 10 2 5000 8248 (8320 ∷ 8392 ∷ []) world world_entry

-- An allocator without a page, and the next page at 12288.
abbrev no_page : World ℕ
no_page = record world { alloc = λ s. record allocator { freelist = 0; alloc_page = 0 } }

allocate-IsOnNewPage_example :
    Returns (IsOnNewPage fixed 2 5000 16 no_page) (allocate fixed (λ w. fault) 1 2 5000 no_page)
unfolding missing_tables pagetable_insert
allocate-IsOnNewPage_example =
    allocate-IsOnNewPage fixed (λ w. fault) 1 2 5000 16 no_page refl refl refl (omega arith) refl
      refl (λ k lt. refl) refl refl refl (omega arith) (omega arith)

-- A page with 34 of its 100 entries in use, and 31 of them when it was processed last.
abbrev third_used : World ℕ
third_used = record world {
  pages = λ p. record (world.pages p) {
    entrycount = 100;
    freecount = 66;
    approx_utilization = 310_000;
  };
}
