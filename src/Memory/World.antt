-- ===== src/Memory/World.antt =====
-- The state that the allocator and the collector share, and the commands over it.
--
-- GCAllocator and the static data of src/runtime/memory/allocator.h, gtl_info of threadinfo.h, and the
-- static data of src/runtime/common.h. The thread's worklists (ArrayList) are lists: push_back appends and
-- pop_front takes the head.
use bsqgc.Prelude.{ℕ, Bool, List, ◌==◌, if◌then◌else◌, ◌≡◌, refl, ◌+◌, ◌%◌, [], ◌∷◌, false}
use bsqgc.Common.{Memory, Metas, MetaData, TypeInfoBase, store}
use bsqgc.Support.PageTable.{PageTableInUseInfo}
use bsqgc.Memory.Page.{PageInfo}

-- Pages by address, 0 for nullptr. A bucket array is a function from its indices.
pub record GcAllocator : Type 0 where
  pub freelist : ℕ
  pub evacfreelist : ℕ
  pub alloc_page : ℕ
  pub evac_page : ℕ
  pub allocsize : ℕ
  pub realsize : ℕ
  pub pendinggc_pages : ℕ
  pub low_utilization_buckets : ℕ → ℕ
  pub high_utilization_buckets : ℕ → ℕ
  pub filled_pages : ℕ

pub record ThreadInfo : Type 0 where
  pub tl_id : ℕ
  pub native_stack_base : ℕ
  -- The page for the words of the native stack, 0 for nullptr.
  pub native_stack_contents : ℕ
  pub roots : List ℕ
  pub old_roots : List ℕ
  -- The places of forward_table below forward_table_index.
  pub forward_table : List ℕ
  pub newly_filled_pages_count : ℕ
  pub pending_roots : List ℕ
  pub pending_young : List ℕ
  pub pending_decs : List ℕ
  -- The places of the first elements of pending_young and pending_decs in their segments.
  pub pending_young_place : ℕ
  pub pending_decs_place : ℕ
  -- The places of decremented_pages below decremented_pages_index.
  pub decremented_pages : List ℕ
  pub max_decrement_count : ℕ
  pub disable_automatic_collections : Bool
  pub total_gc_pages : ℕ
  pub total_empty_gc_pages : ℕ
  pub total_live_bytes : ℕ

-- `mmap_fails` is the answer of mmap at an address with MAP_FIXED: whether it is MAP_FAILED rather than
-- that address. `alloc` is the allocator of a slot of g_gcallocs, where `used` says that the slot is not null.
pub record World (F : Type 0) : Type 0 where
  pub word : ℕ → ℕ
  pub type_info : ℕ → TypeInfoBase
  pub metas : Metas
  pub pages : ℕ → PageInfo F
  pub used : ℕ → Bool
  pub alloc : ℕ → GcAllocator
  pub empty_pages : ℕ
  pub pagetable : PageTableInUseInfo
  pub current_page_address : ℕ
  pub mmap_fails : ℕ → Bool
  pub thread_counter : ℕ
  -- The free list of XAllocPageManager.
  pub support_pages : ℕ
  pub tinfo : ThreadInfo
  -- The static variable of collect.
  pub should_reset_pending_decs : Bool

-- A segment of a worklist has 509 places. pop_front of the last element of a list faults where that
-- stands in the last place, since shift_front_slow then reads through the next segment.
abbrev pub next_place : ℕ → ℕ
next_place place = (place + 1) % 509

unfoldable pub pops_last_place : ℕ → List ℕ → Bool
pops_last_place place [] = place == 508
pops_last_place place (o ∷ os) = false

-- `fault` is a failed assert or an access through nullptr.
pub data Run (F A : Type 0) : Type 0 where
  ok : A → World F → Run F A
  fault : Run F A
  out_of_fuel : Run F A

-- The command returns, and what it returns has the property.
unfoldable pub Returns : {F A : Type 0} → (A → World F → Type 0) → Run F A → Type 0
Returns P (ok a w) = P a w
Returns P fault = ⊥
Returns P out_of_fuel = ⊥

abbrev pub Cmd : Type 0 → Type 0 → Type 0
Cmd F A = World F → Run F A

abbrev pub and_then : {F A B : Type 0} → Run F A → (A → Cmd F B) → Run F B
and_then (ok a w) k = k a w
and_then fault k = fault
and_then out_of_fuel k = out_of_fuel

infixl 5 ◌>>=◌ ◌>>◌
abbrev pub ◌>>=◌ : {F A B : Type 0} → Cmd F A → (A → Cmd F B) → Cmd F B
◌>>=◌ m k w = and_then (m w) k

abbrev pub ◌>>◌ : {F B : Type 0} → Cmd F (Unit {0}) → Cmd F B → Cmd F B
◌>>◌ m k w = and_then (m w) (λ _. k)

abbrev pub pure : {F A : Type 0} → A → Cmd F A
pure a w = ok a w

abbrev pub fail : {F A : Type 0} → Cmd F A
fail w = fault

abbrev pub no_fuel : {F A : Type 0} → Cmd F A
no_fuel w = out_of_fuel

abbrev pub assert : {F : Type 0} → Bool → Cmd F (Unit {0})
assert b w = if b then ok tt w else fault

module _ {F : Type 0} where
  -- Reads.
  abbrev pub gets : {A : Type 0} → (World F → A) → Cmd F A
  gets f w = ok (f w) w

  -- A read of the fields of a page: nullptr is a fault.
  unfoldable pub load_page : ℕ → Cmd F (PageInfo F)
  load_page p w = if p == 0 then fault else ok (w.pages p) w

  unfoldable pub store_page : ℕ → PageInfo F → Cmd F (Unit {0})
  store_page p page w = if p == 0 then fault else ok tt (record w { pages = store w.pages p page })

  unfoldable pub load_word : ℕ → Cmd F ℕ
  load_word a w = if a == 0 then fault else ok (w.word a) w

  unfoldable pub store_word : ℕ → ℕ → Cmd F (Unit {0})
  store_word a v w = if a == 0 then fault else ok tt (record w { word = store w.word a v })

  -- The header of the object at an address.
  unfoldable pub load_meta : ℕ → Cmd F MetaData
  load_meta o w = ok (w.metas o) w

  unfoldable pub store_meta : ℕ → MetaData → Cmd F (Unit {0})
  store_meta o m w = ok tt (record w { metas = store w.metas o m })

  unfoldable pub load_alloc : ℕ → Cmd F GcAllocator
  load_alloc s w = ok (w.alloc s) w

  unfoldable pub store_alloc : ℕ → GcAllocator → Cmd F (Unit {0})
  store_alloc s a w = ok tt (record w { alloc = store w.alloc s a })

  unfoldable pub load_tinfo : Cmd F ThreadInfo
  load_tinfo w = ok w.tinfo w

  unfoldable pub store_tinfo : ThreadInfo → Cmd F (Unit {0})
  store_tinfo t w = ok tt (record w { tinfo = t })

  abbrev pub memory_of : World F → Memory
  memory_of w = record { word = w.word; type_info = w.type_info }

  -- What two commands behind one another return, and a weaker property of what a command returns.
  pub Returns-then :
      {A B : Type 0} (P : A → World F → Type 0) (Q : B → World F → Type 0) (r : Run F A)
      (k : A → Cmd F B)
      → Returns P r
      → ((a : A) (w : World F) → P a w → Returns Q (k a w))
      → Returns Q (and_then r k)
  unfolding Returns
  Returns-then P Q (ok a w) k h f = f a w h
  Returns-then P Q fault k h f = absurd h
  Returns-then P Q out_of_fuel k h f = absurd h

  pub Returns-mono :
      {A : Type 0} (P Q : A → World F → Type 0) (r : Run F A)
      → ((a : A) (w : World F) → P a w → Q a w)
      → Returns P r
      → Returns Q r
  unfolding Returns
  Returns-mono P Q (ok a w) f h = f a w h
  Returns-mono P Q fault f h = absurd h
  Returns-mono P Q out_of_fuel f h = absurd h

  -- A command that returns has a result and a state.
  pub Returns-inv :
      {A : Type 0} (P : A → World F → Type 0) (r : Run F A)
      → Returns P r
      → (a : A) × (w : World F) × (r ≡ ok a w) × P a w
  unfolding Returns
  Returns-inv P (ok a w) h = (a, w, refl, h)
  Returns-inv P fault h = absurd h
  Returns-inv P out_of_fuel h = absurd h
