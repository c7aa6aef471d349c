-- ===== src/Gc/Roots/Found.antt =====
-- walkStack (src/runtime/memory/gc.cpp) from start to end: its words, and the objects that they point into.
use bsqgc.Prelude.{ℕ, ◌+◌, ◌-◌, ◌*◌, ◌/◌, ◌%◌, ◌<◌, ◌≤◌, true, ◌≡◌, ◌↔◌, ◌⊎◌}
use bsqgc.Support.PageTable.{PageTableInUseInfo, pagetable_query}
use bsqgc.Memory.Page.{PageInfo}
use bsqgc.Gc.Roots.{RootWalk, RootSource}
use bsqgc.Gc.Roots.Words.{IsListed, SameButRoot}
use bsqgc.Gc.Roots.Scanned.{IsScanned}

module _ {F : Type 0} (table : PageTableInUseInfo) (pages : ℕ → PageInfo F) where
  abbrev pub page_at : ℕ → PageInfo F
  page_at w = pages (w / 4096 * 4096)

  -- The word points into the entry of the object `o`, canaries and header included: its page is in the page table, it
  -- is behind the page's own 56 bytes, and it is within the entry whose object `o` is.
  pub record PointsInto (w o : ℕ) : Type 0 where
    pub managed : pagetable_query table w ≡ true
    pub behind : 56 ≤ w % 4096
    pub entry : ℕ
    pub object : o ≡ (page_at w).data_start + entry * (page_at w).realsize + 16 + 24
    pub above : entry * (page_at w).realsize ≤ w - (page_at w).data_start
    pub below : w - (page_at w).data_start < (entry + 1) * (page_at w).realsize

  -- What walkStack owes.
  pub record IsFound (src : RootSource) (t t' : RootWalk) : Type 0 where
    pub listed : IsListed t'
    pub same : (o : ℕ) → SameButRoot (t.metas o) (t'.metas o)
    pub root_iff :
        (o : ℕ)
        → ((t'.metas o).isroot ≡ true) ↔ (
            ((t.metas o).isroot ≡ true)
            ⊎ ((w : ℕ) × IsScanned src w × PointsInto w o × ((t.metas o).isalloc ≡ true)))
