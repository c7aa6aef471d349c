-- ===== src/Gc/Roots.antt =====
-- Finding the roots: checkPotentialPtr and walkStack (src/runtime/memory/gc.cpp), and the loading of the
-- native stack and registers (loadNativeRootSet, src/runtime/memory/threadinfo.cpp).
--
-- The contents of the global storage, of the stack and of the registers are arguments: the words that the C++ code reads
-- from them.
pub mod Words
pub mod Scanned
pub mod Found
pub mod Interior
mod Tests
use bsqgc.Prelude.{
  ℕ, zero, suc, ◌+◌, ◌-◌, ◌/◌, ◌%◌, ◌^◌, Bool, true, false, not, ◌&&◌, ◌||◌, ◌==◌, Option, none,
  some, List, [], ◌∷◌, ◌++◌, map, ltb, leb, if◌then◌else◌, length,
}
use bsqgc.Common.{
  Metas, store, size_of_meta_data, block_allocation_size, gc_should_process_as_root,
  gc_mark_as_root,
}
use bsqgc.Support.PageTable.{PageTableInUseInfo, pagetable_query}
use bsqgc.Memory.Page.{PageInfo, size_of_page_info, get_object_metadata_aligned}

-- What the phase changes.
pub record RootWalk : Type 0 where
  pub metas : Metas
  pub roots : List ℕ
  pub pending_roots : List ℕ

-- The object that a header precedes is made a root.
mark_root : Bool → ℕ → RootWalk → RootWalk
mark_root young obj t = record {
  metas = store t.metas obj (gc_mark_as_root (t.metas obj));
  roots = t.roots ++ (obj ∷ []);
  pending_roots = if young then t.pending_roots ++ (obj ∷ []) else t.pending_roots;
}

module _ {F : Type 0} (table : PageTableInUseInfo) (pages : ℕ → PageInfo F) where
  -- The address is on a page of the collector, behind the page's own data.
  unfoldable pub is_candidate : ℕ → Bool
  is_candidate addr =
      pagetable_query table addr && not (ltb (addr % block_allocation_size) size_of_page_info)

  -- The object that the address would belong to.
  unfoldable pub candidate : ℕ → ℕ
  candidate addr = get_object_metadata_aligned pages addr + size_of_meta_data

  unfoldable pub check_potential_ptr : ℕ → RootWalk → RootWalk
  unfolding mark_root
  check_potential_ptr addr t =
      if is_candidate addr
      then (let obj = candidate addr in
          if gc_should_process_as_root (t.metas obj)
          then mark_root (t.metas obj).isyoung obj t
          else t)
      else t

  unfoldable pub check_words : List ℕ → RootWalk → RootWalk
  check_words [] t = t
  check_words (w ∷ ws) t = check_words ws (check_potential_ptr w t)

-- PTR_IN_RANGE and PTR_NOT_IN_STACK.
ptr_in_range : ℕ → Bool
ptr_in_range v = leb (2 ^ 31) v && leb v 281_474_976_710_656

ptr_not_in_stack : (base curr v : ℕ) → Bool
ptr_not_in_stack base curr v = ltb v curr || ltb base v

-- The walk over the frames: one word a round, from the frame pointer up to the base. It also gives
-- the frame pointer at its end, with which the registers are tested.
load_frames : (rounds : ℕ) → (ℕ → ℕ) → (base frame : ℕ) → List ℕ × ℕ
load_frames zero word base frame = ([], frame)
load_frames (suc n) word base frame =
    let v = word frame in
    let rest = load_frames n word base (frame + 8) in
    if leb frame base
    then (if ptr_in_range v && ptr_not_in_stack base frame v then (v ∷ rest.0, rest.1) else rest)
    else ([], frame)

process_register : (base curr r : ℕ) → ℕ
process_register base curr r = if ptr_in_range r && ptr_not_in_stack base curr r then r else 0

-- The native stack's words and the registers rax to r15, in order, that may be pointers.
unfoldable pub load_native_root_set : (ℕ → ℕ) → (base rbp : ℕ) → List ℕ → List ℕ × List ℕ
unfolding load_frames process_register ptr_in_range ptr_not_in_stack
load_native_root_set word base rbp registers =
    let (contents, curr) = load_frames ((base - rbp) / 8 + 2) word base rbp in
    (contents, map (process_register base curr) registers)

-- The place of the global storage, a null pointer where there is none, and its end.
pub record GlobalDataStorage : Type 0 where
  pub native_global_storage : ℕ
  pub native_global_storage_end : ℕ

unfoldable pub new_global_data_storage : GlobalDataStorage
new_global_data_storage = record { native_global_storage = 0; native_global_storage_end = 0 }

unfoldable pub initialize_global_data : (numbytes start : ℕ) → GlobalDataStorage → GlobalDataStorage
initialize_global_data numbytes start g = record {
  native_global_storage = start;
  native_global_storage_end = start + numbytes;
}

-- `while(curr < native_global_storage_end)`, in that many rounds.
unfoldable pub words_from : (rounds : ℕ) → (ℕ → ℕ) → (curr : ℕ) → List ℕ
words_from zero word curr = []
words_from (suc n) word curr = word curr ∷ words_from n word (curr + 8)

-- The words of the global storage, if there is one.
unfoldable pub global_words : GlobalDataStorage → (ℕ → ℕ) → List ℕ
unfolding words_from
global_words g word =
    if g.native_global_storage == 0
    then []
    else words_from ((g.native_global_storage_end + 7 - g.native_global_storage) / 8) word
        g.native_global_storage

-- The words of the global storage, if there is one, then those of the stack and the registers unless
-- the tests have them left out.
pub record RootSource : Type 0 where
  pub global_data : GlobalDataStorage
  pub global_word : ℕ → ℕ
  pub disable_stack_refs_for_tests : Bool
  pub stack_word : ℕ → ℕ
  pub native_stack_base : ℕ
  pub rbp : ℕ
  pub registers : List ℕ

unfoldable pub walk_stack :
    {F : Type 0} → PageTableInUseInfo → (ℕ → PageInfo F) → RootSource → RootWalk → RootWalk
unfolding load_native_root_set
walk_stack table pages src t =
    let t' = check_words table pages (global_words src.global_data src.global_word) t in
    let loaded = load_native_root_set src.stack_word src.native_stack_base src.rbp src.registers in
    if src.disable_stack_refs_for_tests
    then t'
    else check_words table pages loaded.1 (check_words table pages loaded.0 t')

-- BSQ_MAX_ROOTS, and the words of the page that loadNativeRootSet writes to.
abbrev pub max_roots : ℕ
max_roots = 2048

abbrev pub max_stack_words : ℕ
max_stack_words = 512

-- The assert of loadNativeRootSet on its frame pointers, which are 8 apart, and the end of its page.
unfoldable pub loads_safely : RootSource → Bool
loads_safely src =
    let loaded = load_native_root_set src.stack_word src.native_stack_base src.rbp src.registers in
    src.disable_stack_refs_for_tests
    || ((ltb src.native_stack_base src.rbp || (src.rbp % 8 == 0))
        && leb (length loaded.0) max_stack_words)

-- walkStack as it runs: `none` where an assert fails or an array is written behind its end.
unfoldable pub run_walk_stack :
    {F : Type 0} → PageTableInUseInfo → (ℕ → PageInfo F) → RootSource → RootWalk → Option RootWalk
run_walk_stack table pages src t =
    let t' = walk_stack table pages src t in
    if loads_safely src && leb (length t'.roots) max_roots then some t' else none
