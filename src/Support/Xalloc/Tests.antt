-- ===== src/Support/Xalloc/Tests.antt =====
-- A support page that is used twice.
use bsqgc.Prelude.{arith}
use bsqgc.Memory.World.{Returns, ◌>>◌}
use bsqgc.Memory.Allocator.Sample.{world}
use bsqgc.Support.Xalloc.{allocate_page, free_page}
use bsqgc.Support.Xalloc.Reuse.{IsSame, allocate_page-free_page}

allocate_page-free_page_example :
    Returns (IsSame 8192 world) ((free_page 8192 >> allocate_page) world)
allocate_page-free_page_example = allocate_page-free_page 8192 world (omega arith)
