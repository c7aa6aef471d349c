-- ===== src/Gc/Mark/Rounds.antt =====
-- The walk of walkSingleRoot (src/runtime/memory/gc.cpp) and the rounds that it takes.
use bsqgc.Prelude.{
  ℕ, zero, suc, ◌+◌, ◌*◌, ◌≤◌, ◌≡◌, refl, true, false, ◌&&◌, Option, none, some, List, [], ◌∷◌, inl,
  inr, arith, if◌then◌else◌, Bool-cases, In, here, there, length, leb,
}
use bsqgc.Common.{Memory, Metas, gc_type, gc_should_visit}
use bsqgc.Gc.Mark.{
  MarkStackEntry, entry, Color, grey, black, Walk, walk_of, is_black, is_traced, mark, visit_slot,
  visit_slots, visit_object, walk_step, walk_single_root, stack_fits, max_visit_stack,
}
use bsqgc.Gc.Mark.Graph.{Extends}

-- The list has every object that a walk could visit.
abbrev pub Covers : List ℕ → Metas → Type 0
Covers all ms = (o : ℕ) → gc_should_visit (ms o) ≡ true → In o all

-- How many objects of the list are still to be visited.
abbrev pub unvisited : List ℕ → Metas → ℕ
unvisited [] ms = 0
unvisited (o ∷ all) ms = (if gc_should_visit (ms o) then 1 else 0) + unvisited all ms

abbrev rounds_of : Color → ℕ
rounds_of grey = 2
rounds_of black = 1

abbrev pub weight : List MarkStackEntry → ℕ
weight [] = 0
weight (e ∷ st) = rounds_of e.color + weight st

-- What is left to do, in rounds.
abbrev pub work : List ℕ → List MarkStackEntry → Metas → ℕ
work all st ms = weight st + 2 * unvisited all ms

pub Covers-mark : (all : List ℕ) (ms : Metas) (v : ℕ) → Covers all ms → Covers all (mark ms v)
Covers-mark all ms v c o h = c o (ground arith)

unvisited-mark_le :
    (all : List ℕ) (ms : Metas) (v : ℕ) → unvisited all (mark ms v) ≤ unvisited all ms
unvisited-mark_le [] ms v = omega arith
unvisited-mark_le (o ∷ all) ms v = ground (arith, unvisited-mark_le all ms v)

pub unvisited-mark :
    {v : ℕ} {all : List ℕ} (ms : Metas)
    → In v all
    → gc_should_visit (ms v) ≡ true
    → unvisited all (mark ms v) + 1 ≤ unvisited all ms
unvisited-mark {v} ms (here {xs = all}) h = ground (arith, unvisited-mark_le all ms v)
unvisited-mark {v} ms (there {x = o} {xs = all} i) h = ground (arith, unvisited-mark ms i h)

-- How high the stack can still become.
abbrev pub height : List ℕ → List MarkStackEntry → Metas → ℕ
height all st ms = length st + unvisited all ms

-- One slot: what the list covers stays covered, and neither the work nor the height grows.
abbrev Bounded : List ℕ → Walk → Walk → Type 0
Bounded all w w' =
    Covers all w'.metas
    × (work all w'.visit_stack w'.metas ≤ work all w.visit_stack w.metas)
    × (height all w'.visit_stack w'.metas ≤ height all w.visit_stack w.metas)

visit_slot-Bounded :
    (all : List ℕ) (mask v : ℕ) (w : Walk)
    → Covers all w.metas
    → Bounded all w (visit_slot mask v w)
unfolding visit_slot
visit_slot-Bounded all mask v w c =
    elim (Bool-cases (is_traced mask v && gc_should_visit (w.metas v))) [
      | inl e ↦
          let h : gc_should_visit (w.metas v) ≡ true = ground arith in
          let less = unvisited-mark w.metas (c v h) h in
          rw e (Covers-mark all w.metas v c, omega arith, omega arith)
      | inr e ↦ rw e (c, omega arith, omega arith)
    ]

visit_slots-Bounded :
    (mem : Memory) (all : List ℕ) (masks : List ℕ) (slot : ℕ) (w : Walk)
    → Covers all w.metas
    → Bounded all w (visit_slots mem masks slot w)
unfolding visit_slots
visit_slots-Bounded mem all [] slot w c = (c, omega arith, omega arith)
visit_slots-Bounded mem all (mask ∷ masks) slot w c =
    let w' = visit_slot mask (mem.word slot) w in
    let one = visit_slot-Bounded all mask (mem.word slot) w c in
    let rest = visit_slots-Bounded mem all masks (slot + 8) w' one.0 in
    let (c1, le1, up1) = one in let (c2, le2, up2) = rest in (c2, omega arith, omega arith)

-- One round pops an entry and leaves less to do.
abbrev Shrinks : List ℕ → MarkStackEntry → List MarkStackEntry → Metas → Walk → Type 0
Shrinks all e st ms w =
    Covers all w.metas
    × (work all w.visit_stack w.metas + 1 ≤ work all (e ∷ st) ms)
    × (height all w.visit_stack w.metas ≤ height all (e ∷ st) ms)

black_or_grey : (c : Color) → is_black c ≡ false → rounds_of c ≡ 2
black_or_grey grey h = refl
black_or_grey black h = absurd (ground arith)

one_round : (c : Color) → 1 ≤ rounds_of c
one_round grey = omega arith
one_round black = omega arith

visit_object-Shrinks :
    (mem : Memory) (all : List ℕ) (e : MarkStackEntry) (mask : Option (List ℕ))
    (st : List MarkStackEntry) (ms : Metas) (py : List ℕ)
    → Covers all ms
    → Shrinks all e st ms (visit_object mem e mask (walk_of st ms py))
unfolding visit_object
visit_object-Shrinks mem all e none st ms py c = (c, omega (arith, one_round e.color), omega arith)
visit_object-Shrinks mem all e (some masks) st ms py c = elim (Bool-cases (is_black e.color)) [
  | inl b ↦ rw b (c, omega (arith, one_round e.color), omega arith)
  | inr b ↦
      let w = walk_of (entry e.obj black ∷ st) ms py in
      let (c', le, up) = visit_slots-Bounded mem all masks e.obj w c in
      rw b (c', omega (arith, le, black_or_grey e.color b), omega arith)
]

walk_step-Shrinks :
    (mem : Memory) (all : List ℕ) (e : MarkStackEntry) (st : List MarkStackEntry) (ms : Metas)
    (py : List ℕ)
    → Covers all ms
    → Shrinks all e st ms (walk_step mem e (walk_of st ms py))
unfolding walk_step
walk_step-Shrinks mem all e st ms py =
    visit_object-Shrinks mem all e (gc_type mem e.obj).ptr_mask st ms py

pub walk_single_root-ends :
    (mem : Memory) (all : List ℕ) (fuel : ℕ) (st : List MarkStackEntry) (ms : Metas) (py : List ℕ)
    → Covers all ms
    → work all st ms ≤ fuel
    → height all st ms ≤ max_visit_stack
    → (w : Walk) × (walk_single_root mem fuel st ms py ≡ some w)
unfolding walk_single_root stack_fits
walk_single_root-ends mem all fuel [] ms py c h low = (walk_of [] ms py, refl)
walk_single_root-ends mem all zero (e ∷ st) ms py c h low =
    absurd (omega (arith, one_round e.color))
walk_single_root-ends mem all (suc fuel) (e ∷ st) ms py c h low =
    let w = walk_step mem e (walk_of st ms py) in
    let (c', le, up) = walk_step-Shrinks mem all e st ms py c in
    let fits : leb (length w.visit_stack) max_visit_stack ≡ true = ground arith in
    let (u, eq) =
      walk_single_root-ends mem all fuel w.visit_stack w.metas w.pending_young c' (omega arith)
        (omega arith) in
    (u, rw fits eq)

-- Marking more leaves no more to visit.
pub Covers-Extends :
    (all : List ℕ) (ms ms' : Metas) → Extends ms ms' → Covers all ms → Covers all ms'
Covers-Extends all ms ms' x c o h = c o (ground (arith, x.young o, x.marked o))

pub unvisited-Extends :
    (all : List ℕ) (ms ms' : Metas) → Extends ms ms' → unvisited all ms' ≤ unvisited all ms
unvisited-Extends [] ms ms' x = omega arith
unvisited-Extends (o ∷ all) ms ms' x =
    ground (arith, x.young o, x.marked o, unvisited-Extends all ms ms' x)
