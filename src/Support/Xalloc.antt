-- ===== src/Support/Xalloc.antt =====
-- XAllocPageManager (src/runtime/support/xalloc.h and xalloc.cpp): the pool of pages for the lists of the
-- runtime. The first word of a page in the pool is the link to the next one.
pub mod Reuse
pub mod Given
mod Tests
use bsqgc.Prelude.{ℕ, ◌+◌, ◌<◌, Bool, true, false, ◌==◌, if◌then◌else◌}
use bsqgc.Common.{block_allocation_size, store, xmem_zerofill}
use bsqgc.Memory.World.{World, Run, ok, fault, Cmd, pure, ◌>>=◌, ◌>>◌, load_word, store_word}

module _ {F : Type 0} where
  -- xmem_zerofillpage.
  unfoldable pub zerofill_page : ℕ → Cmd F (Unit {0})
  zerofill_page page w = ok tt (record w { word = xmem_zerofill w.word page 512 })

  -- The page that mmap gives becomes the only one of the pool.
  unfoldable pub map_support_page : Cmd F (Unit {0})
  map_support_page w =
      let page = w.current_page_address in
      if w.mmap_fails page
      then fault
      else (do zerofill_page page; store_word page 0)
          (record w { support_pages = page; current_page_address = page + block_allocation_size })

  unfoldable pub take_support_page : Cmd F ℕ
  take_support_page w =
      let page = w.support_pages in ok page (record w { support_pages = w.word page })

  unfoldable pub allocate_page : Cmd F ℕ
  allocate_page w =
      if w.support_pages == 0
      then (do map_support_page; take_support_page) w
      else take_support_page w

  unfoldable pub link_support_page : ℕ → Cmd F (Unit {0})
  link_support_page page w =
      ok tt (record w { word = store w.word page w.support_pages; support_pages = page })

  unfoldable pub free_page : ℕ → Cmd F (Unit {0})
  free_page page = do zerofill_page page; link_support_page page
