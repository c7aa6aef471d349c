-- ===== src/Gc/Mark/Tests.antt =====
-- Runs of the marking walk on a small heap, and its theorem at that heap.
use bsqgc.Memory.World.{pops_last_place}
use mathlib.Core.Option
use bsqgc.Prelude.{
  ℕ, ◌≡◌, refl, false, none, some, List, [], ◌∷◌, ◌==◌, if◌then◌else◌, arith, elem, elem→In,
}
use bsqgc.Common.{Memory, Metas, TypeInfoBase}
use bsqgc.Gc.Mark.{
  Walk, visit_slots, visit_slot, visit_object, walk_step, walk_single_root, mark_pending_roots,
  stack_fits,
}
use bsqgc.Gc.Mark.Rounds.{Covers}
use bsqgc.Gc.Mark.Correct.{Unmarked, MarksReachable, mark_pending_roots-MarksReachable}

-- 1000 points to 2000 and to 3000, and 3000 points to 2000.
abbrev words : ℕ → ℕ
words a =
    if a == 1000
    then 2000
    else if a == 1008
    then 3000
    else if a == 3000
    then 2000
    else if a == 976
    then 1
    else if a == 2976
    then 2
    else 0

abbrev types : ℕ → TypeInfoBase
types t = record {
  type_id = t;
  type_size = 16;
  slot_size = 2;
  ptr_mask = if t == 1 then some (b'1' ∷ b'1' ∷ []) else if t == 2 then some (b'1' ∷ []) else none;
  typekey = 0;
}

abbrev memory : Memory
memory = record { word = words; type_info = types }

abbrev objects : List ℕ
objects = 1000 ∷ 2000 ∷ 3000 ∷ []

abbrev headers : Metas
headers o = record {
  isalloc = elem o objects;
  isyoung = elem o objects;
  ismarked = false;
  isroot = o == 1000;
  forward_index = 0xffff_ffff;
  ref_count = 0;
}

headers-Unmarked : Unmarked headers
headers-Unmarked o = refl

objects-Covers : Covers objects headers
objects-Covers o h = elem→In o objects (ground arith)

mark_pending_roots-MarksReachable_example :
    (w : Walk) × (mark_pending_roots memory 6 0 (1000 ∷ []) headers [] ≡ some w)
    × MarksReachable memory headers (1000 ∷ []) w
mark_pending_roots-MarksReachable_example =
    mark_pending_roots-MarksReachable memory objects 6 0 (1000 ∷ []) headers headers-Unmarked
      objects-Covers (omega arith) (omega arith) (omega arith)

abbrev pending : Walk → List ℕ
pending w = w.pending_young

-- 3000 comes before 2000, to which it points: 2000 was marked when 1000 was visited.
shared_child_order :
    Option.map pending (mark_pending_roots memory 6 0 (1000 ∷ []) headers [])
    ≡ some (3000 ∷ 2000 ∷ 1000 ∷ [])
unfolding mark_pending_roots stack_fits pops_last_place walk_single_root walk_step visit_object
    visit_slots visit_slot
shared_child_order = refl
