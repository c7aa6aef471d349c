-- ===== src/Gc/Mark.antt =====
-- walkSingleRoot and the loop of markingWalk (src/runtime/memory/gc.cpp): a depth-first visit of the
-- young objects with a stack of grey and black entries.
--
-- The stack's top is the head of the list. The phase writes only headers, so the memory of the
-- slots is a parameter of every function, and the headers are passed along.
pub mod Graph
pub mod Closed
pub mod Counted
pub mod Rounds
pub mod Sound
pub mod Correct
mod Tests
use bsqgc.Prelude.{
  ℕ, zero, suc, ◌+◌, Bool, true, false, not, ◌&&◌, ◌||◌, Option, none, some, List, [], ◌∷◌, ◌++◌,
  ◌==◌, if◌then◌else◌, leb, length,
}
use bsqgc.Memory.World.{next_place, pops_last_place}
use bsqgc.Common.{
  Memory, Metas, store, gc_type, gc_should_visit, gc_mark_as_marked, ptr_mask_ptr,
  string_and_ptr_valued, size_of_meta_data,
}

pub data Color : Type 0 where
  grey black : Color

pub record MarkStackEntry : Type 0 where
  pub obj : ℕ
  pub color : Color

abbrev pub entry : ℕ → Color → MarkStackEntry
entry o c = record { obj = o; color = c }

-- What the walk changes.
pub record Walk : Type 0 where
  pub visit_stack : List MarkStackEntry
  pub metas : Metas
  pub pending_young : List ℕ

abbrev pub walk_of : List MarkStackEntry → Metas → List ℕ → Walk
walk_of st ms py = record { visit_stack = st; metas = ms; pending_young = py }

abbrev pub is_black : Color → Bool
is_black grey = false
is_black black = true

-- GC_MARK_AS_MARKED on the header of an object.
abbrev pub mark : Metas → ℕ → Metas
mark ms o = store ms o (gc_mark_as_marked (ms o))

-- The slot holds a pointer that the walk follows: not null, by the mask a pointer, and its header
-- is not at address 0.
abbrev pub is_traced : ℕ → ℕ → Bool
is_traced mask v =
    not (v == 0)
    && (((mask == ptr_mask_ptr) || string_and_ptr_valued mask v) && not (v == size_of_meta_data))

pub visit_slot : ℕ → ℕ → Walk → Walk
visit_slot mask v w =
    if is_traced mask v && gc_should_visit (w.metas v)
    then record w { visit_stack = entry v grey ∷ w.visit_stack; metas = mark w.metas v }
    else w

-- `while(*ptr_mask != '\0')`: one character of the mask and one slot a round.
pub visit_slots : Memory → List ℕ → ℕ → Walk → Walk
visit_slots mem [] slot w = w
visit_slots mem (mask ∷ masks) slot w =
    visit_slots mem masks (slot + 8) (visit_slot mask (mem.word slot) w)

pub visit_object : Memory → MarkStackEntry → Option (List ℕ) → Walk → Walk
visit_object mem e none w = record w { pending_young = w.pending_young ++ (e.obj ∷ []) }
visit_object mem e (some masks) w =
    if is_black e.color
    then record w { pending_young = w.pending_young ++ (e.obj ∷ []) }
    else visit_slots mem masks e.obj (record w { visit_stack = entry e.obj black ∷ w.visit_stack })

-- One round of the outer loop, after pop_back; the state has the rest of the stack.
pub walk_step : Memory → MarkStackEntry → Walk → Walk
walk_step mem e w = visit_object mem e (gc_type mem e.obj).ptr_mask w

-- A segment of visit_stack has room for 254 entries of 16 bytes from offset 24 on. The end of the page is not
-- a place of an entry, so push_back never goes to a second segment: one more entry is written behind the page.
abbrev pub max_visit_stack : ℕ
max_visit_stack = 254

pub stack_fits : List MarkStackEntry → Bool
stack_fits st = leb (length st) max_visit_stack

-- `none`: the fuel ran out, or visit_stack was written behind its page. The stack is highest at the end of a round.
unfoldable pub walk_single_root : Memory → ℕ → List MarkStackEntry → Metas → List ℕ → Option Walk
walk_single_root mem fuel [] ms py = some (walk_of [] ms py)
walk_single_root mem zero (e ∷ st) ms py = none
walk_single_root mem (suc fuel) (e ∷ st) ms py =
    let w = walk_step mem e (walk_of st ms py) in
    let rest = walk_single_root mem fuel w.visit_stack w.metas w.pending_young in
    if stack_fits w.visit_stack then rest else none

-- The loop of markingWalk over pending_roots, whose first element stands in place `place` of its segment. Each
-- root gets `fuel` rounds. `none` is also where pop_front faults.
unfoldable pub mark_pending_roots :
    Memory → (fuel place : ℕ) → List ℕ → Metas → List ℕ → Option Walk
mark_pending_roots mem fuel place [] ms py = some (walk_of [] ms py)
mark_pending_roots mem fuel place (obj ∷ roots) ms py =
    let walked = walk_single_root mem fuel (entry obj grey ∷ []) (mark ms obj) py in
    let skipped = mark_pending_roots mem fuel (next_place place) roots ms py in
    if pops_last_place place roots
    then none
    else if gc_should_visit (ms obj)
    then elim walked [
      | none ↦ none
      | some w ↦ mark_pending_roots mem fuel (next_place place) roots w.metas w.pending_young
    ]
    else skipped
