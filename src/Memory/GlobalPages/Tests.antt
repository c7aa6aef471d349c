-- ===== src/Memory/GlobalPages/Tests.antt =====
-- A page that is reused and a page that is new.
use bsqgc.Prelude.{refl, arith}
use bsqgc.Memory.Float.Fixed.{fixed}
use bsqgc.Support.PageTable.{pagetable_insert, missing_tables}
use bsqgc.Memory.World.{Returns, ◌>>◌}
use bsqgc.Memory.GlobalPages.{add_new_page, allocate_fresh_page}
use bsqgc.Memory.GlobalPages.Fresh.{
  IsReused, IsMapped, allocate_fresh_page-add_new_page, allocate_fresh_page-IsMapped,
}
use bsqgc.Memory.Allocator.Sample.{world}

allocate_fresh_page-add_new_page_example :
    Returns
      (IsReused fixed 8192 32 88 world)
      ((add_new_page 8192 >> allocate_fresh_page fixed 32 88) world)
allocate_fresh_page-add_new_page_example =
    allocate_fresh_page-add_new_page fixed 8192 32 88 world (omega arith) (omega arith)

allocate_fresh_page-IsMapped_example :
    Returns (IsMapped fixed 32 88 world) (allocate_fresh_page fixed 32 88 world)
unfolding missing_tables pagetable_insert
allocate_fresh_page-IsMapped_example =
    allocate_fresh_page-IsMapped fixed 32 88 world (omega arith) refl refl refl (omega arith)
