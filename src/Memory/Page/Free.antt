-- ===== src/Memory/Page/Free.antt =====
-- PageInfo::rebuild (src/runtime/memory/allocator.cpp): the new free list, and the headers.
use bsqgc.Prelude.{ℕ, ◌+◌, ◌*◌, ◌^◌, ◌<◌, ◌≡◌, ◌≢◌, refl, true, arith, length}
use bsqgc.Common.{Metas, gc_should_free_list_add}
use bsqgc.Memory.Page.{PageInfo, canary_size, Rebuild, rebuild}
use bsqgc.Memory.Page.Chain.{Chain, done}
use bsqgc.Memory.Page.Rebuilding.{meta_at, obj_at, cleared, free_entries, rebuild_entries-Partly}

-- What `rebuild` owes: the free list leads, in order, through the entries whose header
-- GC_SHOULD_FREE_LIST_ADD picks, and `freecount` is their number; those headers are reset and the
-- others, on this page and off it, are as they were; the only words written are the links and type
-- pointers of those entries; and the page leaves the list that it was in.
pub record IsRebuilt {F : Type 0} (word : ℕ → ℕ) (ms : Metas) (page : PageInfo F) (word' : ℕ → ℕ)
    (ms' : Metas) (page' : PageInfo F) : Type 0 where
  pub chain :
      Chain word' page'.freelist (free_entries ms page.data_start page.realsize 0 page.entrycount)
  pub counted :
      page'.freecount ≡ length (free_entries ms page.data_start page.realsize 0 page.entrycount)
  pub headers :
      (j : ℕ)
      → j < page.entrycount
      → ms' (obj_at page.data_start page.realsize j)
        ≡ cleared (ms (obj_at page.data_start page.realsize j))
  pub others :
      (o : ℕ)
      → ((j : ℕ) → j < page.entrycount → obj_at page.data_start page.realsize j ≢ o)
      → ms' o ≡ ms o
  pub words :
      (a : ℕ)
      → ((j : ℕ)
          → j < page.entrycount
          → gc_should_free_list_add (ms (obj_at page.data_start page.realsize j)) ≡ true
          → (page.data_start + j * page.realsize ≢ a)
            × (meta_at page.data_start page.realsize j ≢ a))
      → word' a ≡ word a
  pub unlinked : page'.next ≡ 0

-- On a page with its data behind address 0, entries longer than a canary block and fewer than 2^16
-- of them, for all headers and words: after `rebuild` the free list leads through exactly the entries that
-- GC_SHOULD_FREE_LIST_ADD picks, in the order of the page, and freecount is their number; the headers of
-- these are reset and all others are as before; the only words written are the links and type
-- pointers of these entries; and the page has no next page.
pub rebuild-IsRebuilt :
    {F : Type 0} (word : ℕ → ℕ) (ms : Metas) (page : PageInfo F)
    → 0 < page.data_start
    → canary_size < page.realsize
    → page.entrycount < 2 ^ 16
    → let r = rebuild word ms page in IsRebuilt word ms page r.0 r.1 r.2
unfolding rebuild free_entries
rebuild-IsRebuilt word ms page start room small =
    let s₀ : Rebuild = record { words = word; metas = ms; head = 0; count = 0 } in
    let p =
      rebuild_entries-Partly page ms word start room page.entrycount 0 page.entrycount s₀
        (omega arith) small
        (record {
          chain = done refl;
          above = tt;
          counted = refl;
          left = λ j h. refl;
          past = λ j le lt. absurd (omega arith);
          others = λ o h. refl;
          kept = λ a h. refl;
        }) in
    record {
      chain = p.chain;
      counted = p.counted;
      headers = λ j h. p.past j (omega arith) (omega arith);
      others = λ o h. p.others o (λ j lt. h j (omega arith));
      words = λ a h. p.kept a (λ j lt. h j (omega arith));
      unlinked = refl;
    }
