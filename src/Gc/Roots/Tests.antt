-- ===== src/Gc/Roots/Tests.antt =====
-- A heap of one page with two objects, and the theorems about roots at it.
use bsqgc.Prelude.{ℕ, ◌≡◌, refl, true, false, none, [], ◌∷◌, arith, ◌==◌, ◌||◌, here, if◌then◌else◌}
use bsqgc.Common.{Metas}
use bsqgc.Support.PageTable.{PageTableInUseInfo, pagetable_insert, pagetable_query}
use bsqgc.Memory.Page.{
  PageInfo, extract_page_from_pointer, get_index_for_object_in_page, get_meta_entry_at_index,
  get_object_metadata_aligned,
}
use bsqgc.Memory.Page.Layout.{IsLaidOut, metadata_of_interior}
use bsqgc.Memory.Page.Rebuilding.{obj_at}
use bsqgc.Gc.Roots.{
  RootWalk, RootSource, new_global_data_storage, initialize_global_data, global_words, words_from,
  is_candidate, candidate, check_potential_ptr, check_words, walk_stack,
}
use bsqgc.Gc.Roots.Words.{IsListed}
use bsqgc.Gc.Roots.Interior.{walk_stack_interior}

abbrev block : ℕ
block = 0x40_0000_1000

-- Entries of 72 bytes for objects of 16, at offsets 0, 72, ….
abbrev page : PageInfo ℕ
page = record {
  freelist = 0;
  next = 0;
  left = 0;
  right = 0;
  data_start = 0x40_0000_1038;
  allocsize = 16;
  realsize = 72;
  entrycount = 56;
  freecount = 54;
  approx_utilization = 0;
  pending_decs_count = 0;
}

abbrev pages : ℕ → PageInfo ℕ
pages _ = page

abbrev table : PageTableInUseInfo
table = pagetable_insert none 0x40_0000_1000

-- The first two entries' objects are allocated, and young.
abbrev headers : Metas
headers o = record {
  isalloc = (o == 0x40_0000_1060) || (o == 0x40_0000_10a8);
  isyoung = true;
  ismarked = false;
  isroot = false;
  forward_index = 0xffff_ffff;
  ref_count = 0;
}

abbrev start : RootWalk
start = record { metas = headers; roots = []; pending_roots = [] }

-- The global storage has a pointer into the second object.
abbrev source : RootSource
source = record {
  global_data = initialize_global_data 16 8192 new_global_data_storage;
  global_word = λ a. if a == 8192 then 0x40_0000_10b0 else 17;
  disable_stack_refs_for_tests = true;
  stack_word = λ a. 0;
  native_stack_base = 0;
  rbp = 0;
  registers = [];
}

start-IsListed : IsListed start
start-IsListed = record { roots_once = λ o. refl; pending_once = λ o. refl }

page-IsLaidOut : IsLaidOut block (pages block)
page-IsLaidOut = record { aligned = refl; data_behind = refl; inside = omega arith }

found : (walk_stack table pages source start).roots ≡ 0x40_0000_10a8 ∷ []
unfolding initialize_global_data global_words words_from walk_stack check_words is_candidate
    candidate get_object_metadata_aligned extract_page_from_pointer pagetable_query pagetable_insert
    check_potential_ptr
found = refl

-- The pointer of the global storage is 48 bytes into the second entry.
walk_stack_interior_example :
    ((walk_stack table pages source start).metas (obj_at 0x40_0000_1038 72 1)).isroot ≡ true
unfolding pagetable_query pagetable_insert initialize_global_data global_words words_from
walk_stack_interior_example =
    walk_stack_interior table pages block 1 48 source start start-IsListed page-IsLaidOut
      (omega arith) (omega arith) refl refl here

metadata_of_interior_example :
    (extract_page_from_pointer 0x40_0000_10b0 ≡ block)
    × (get_index_for_object_in_page pages 0x40_0000_10b0 ≡ 1)
    × (get_object_metadata_aligned pages 0x40_0000_10b0 ≡ get_meta_entry_at_index page 1)
metadata_of_interior_example =
    metadata_of_interior pages block 1 48 page-IsLaidOut (omega arith) (omega arith)
