-- ===== src/Memory/Page/Tests.antt =====
-- A fresh page and a page that is rebuilt, and their theorems.
use bsqgc.Prelude.{ℕ, ◌≡◌, refl, false, ◌==◌, ◌||◌, arith}
use bsqgc.Common.{Metas, gc_should_free_list_add}
use bsqgc.Memory.Page.{
  PageInfo, initialize, rebuild, rebuild_entries, rebuild_entry, link_entries,
  get_freelist_entry_at_index, get_meta_entry_at_index,
}
use bsqgc.Memory.Page.Init.{IsFresh, initialize-IsFresh}
use bsqgc.Memory.Page.Free.{IsRebuilt, rebuild-IsRebuilt}

abbrev fresh : PageInfo ℕ
fresh = (initialize {F = ℕ} 100 (λ a. 0) 8192 16 72).1

fresh_first : fresh.freelist ≡ 8248
unfolding initialize link_entries get_freelist_entry_at_index
fresh_first = refl

fresh_count : fresh.freecount ≡ 56
unfolding initialize
fresh_count = refl

initialize-IsFresh_example :
    IsFresh 8192 72
      (initialize {F = ℕ} 100 (λ a. 0) 8192 16 72).0
      (initialize {F = ℕ} 100 (λ a. 0) 8192 16 72).1
initialize-IsFresh_example = initialize-IsFresh 100 (λ a. 0) 8192 16 72 (omega arith)

-- A page of three entries, with objects at 8288, 8360 and 8432.
abbrev page : PageInfo ℕ
page = record {
  freelist = 0;
  next = 4096;
  left = 0;
  right = 0;
  data_start = 8248;
  allocsize = 16;
  realsize = 72;
  entrycount = 3;
  freecount = 0;
  approx_utilization = 0;
  pending_decs_count = 0;
}

-- The first is a root, the second was evacuated, and the third is an old object with a reference to
-- it that no walk has marked.
abbrev headers : Metas
headers o = record {
  isalloc = (o == 8288) || (o == 8432);
  isyoung = o == 8288;
  ismarked = false;
  isroot = o == 8288;
  forward_index = 0;
  ref_count = 1;
}

abbrev after : PageInfo ℕ
after = (rebuild (λ a. 0) headers page).2

-- The second and the third entry are free: the object that is referred to is among them.
rebuild_frees_referenced : after.freecount ≡ 2
unfolding rebuild rebuild_entries rebuild_entry get_meta_entry_at_index get_freelist_entry_at_index
    gc_should_free_list_add
rebuild_frees_referenced = refl

rebuild-IsRebuilt_example :
    IsRebuilt
      (λ a. 0)
      headers
      page
      (rebuild (λ a. 0) headers page).0
      (rebuild (λ a. 0) headers page).1
      (rebuild (λ a. 0) headers page).2
rebuild-IsRebuilt_example =
    rebuild-IsRebuilt (λ a. 0) headers page (omega arith) (omega arith) (omega arith)
