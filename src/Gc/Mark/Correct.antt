-- ===== src/Gc/Mark/Correct.antt =====
-- The loop of markingWalk (src/runtime/memory/gc.cpp) over pending_roots.
use bsqgc.Memory.World.{next_place, pops_last_place}
use bsqgc.Prelude.{
  ℕ, ◌*◌, ◌≤◌, ◌≡◌, ◌↔◌, refl, ◌∙◌, ◌&&◌, subst, Bool, true, false, some, List, [], ◌∷◌, inl, inr,
  arith, if◌then◌else◌, Bool-cases, In, here, there, forall_In-cons, length, ◌+◌, ◌%◌, ◌≢◌, sym,
  suc,
}
use bsqgc.Common.{Memory, Metas, gc_should_visit}
use bsqgc.Gc.Mark.{
  entry, grey, is_traced, Walk, walk_of, mark, walk_single_root, mark_pending_roots,
  max_visit_stack,
}
use bsqgc.Gc.Mark.Graph.{
  SlotIn, SlotsDone, Reach, root, child, Extends, Extends-refl, Extends-trans, mark-Extends,
  walk_single_root-Extends,
}
use bsqgc.Gc.Mark.Closed.{Tracked, mark_new, walk_single_root-Tracked}
use bsqgc.Gc.Mark.Counted.{Counted, times, walk_single_root-Counted}
use bsqgc.Gc.Mark.Rounds.{
  Covers, unvisited, unvisited-mark, Covers-mark, Covers-Extends, unvisited-Extends,
  walk_single_root-ends,
}
use bsqgc.Gc.Mark.Sound.{MarkedReach, mark_reached, walk_single_root-MarkedReach}

clash : {b : Bool} → b ≡ false → b ≡ true → ⊥
clash f t = ground arith

mark_self : (ms : Metas) (v : ℕ) → (mark ms v v).ismarked ≡ true
mark_self ms v = ground arith

-- pop_front comes to the end of a list in another than the last place of a segment.
abbrev pub EndsInside : ℕ → List ℕ → Type 0
EndsInside place [] = Unit
EndsInside place (o ∷ os) = (place + length (o ∷ os)) % 509 ≢ 0

EndsInside-inside :
    (place o : ℕ) (os : List ℕ) → EndsInside place (o ∷ os) → pops_last_place place os ≡ false
unfolding pops_last_place
EndsInside-inside place o [] h = ground arith
EndsInside-inside place o (p ∷ os) h = refl

EndsInside-next :
    (place o : ℕ) (os : List ℕ) → EndsInside place (o ∷ os) → EndsInside (next_place place) os
EndsInside-next place o [] h = tt
EndsInside-next place o (p ∷ os) h =
    let e : ((place + 1) % 509 + suc (length os)) % 509 ≡ (place + suc (suc (length os))) % 509 =
      omega arith in
    λ z. h (sym e ∙ z)

module _ (mem : Memory) (ms₀ : Metas) (roots : ℕ → Type 0) where
  -- Between two roots: nothing is on the stack.
  record Between (ms : Metas) (py : List ℕ) : Type 0 where
    tracked : Tracked (λ _. ⊥) mem [] ms
    counted : Counted [] ms py
    reached : MarkedReach mem ms₀ roots ms

  -- One root: the walk from it ends, and it is marked.
  one_root :
      (all : List ℕ) (fuel obj : ℕ) (ms : Metas) (py : List ℕ)
      → Between ms py
      → Covers all ms
      → 2 * unvisited all ms ≤ fuel
      → unvisited all ms ≤ max_visit_stack
      → roots obj
      → gc_should_visit (ms obj) ≡ true
      → (w : Walk) × (walk_single_root mem fuel (entry obj grey ∷ []) (mark ms obj) py ≡ some w)
        × Between w.metas w.pending_young
        × Extends (mark ms obj) w.metas
  one_root all fuel obj ms py b cov le low r h =
      let st = entry obj grey ∷ [] in
      let ms' = mark ms obj in
      let (w, eq) =
        walk_single_root-ends mem all fuel st ms' py (Covers-mark all ms obj cov)
          (omega (arith, unvisited-mark ms (cov obj h) h))
          (omega (arith, unvisited-mark ms (cov obj h) h)) in
      let young : (ms₀ obj).isyoung ≡ true = ground (arith, b.reached.ext.young obj) in
      let c : Counted st ms' py = λ o. ground (arith, b.counted o, b.counted obj) in
      let mr : MarkedReach mem ms₀ roots ms' = record {
        ext = Extends-trans b.reached.ext (mark-Extends ms obj);
        reach = mark_reached mem ms₀ roots ms obj b.reached.reach (root r young);
      } in
      (
        w,
        eq,
        record {
          tracked =
              walk_single_root-Tracked mem fuel st ms' py eq
                (mark_new (λ _. ⊥) mem [] ms obj b.tracked);
          counted = walk_single_root-Counted mem fuel st ms' py eq c;
          reached = walk_single_root-MarkedReach mem ms₀ roots fuel st ms' py eq c mr;
        },
        walk_single_root-Extends mem fuel st ms' py eq,
      )

  -- The loop over the roots that are left.
  loop :
      (all : List ℕ) (fuel place : ℕ) (todo : List ℕ) (ms : Metas) (py : List ℕ)
      → Between ms py
      → Covers all ms
      → 2 * unvisited all ms ≤ fuel
      → unvisited all ms ≤ max_visit_stack
      → EndsInside place todo
      → ((o : ℕ) → In o todo → roots o)
      → (w : Walk) × (mark_pending_roots mem fuel place todo ms py ≡ some w)
        × Between w.metas w.pending_young
        × Extends ms w.metas
        × ((o : ℕ) → In o todo → (ms₀ o).isyoung ≡ true → (w.metas o).ismarked ≡ true)
  unfolding mark_pending_roots
  loop all fuel place [] ms py b cov le low ends rs =
      (walk_of [] ms py, refl, b, Extends-refl ms, λ o i y. elim i [ ])
  loop all fuel place (obj ∷ todo) ms py b cov le low ends rs =
      elim (Bool-cases (gc_should_visit (ms obj))) [
        | inl h ↦
            let (w, eq, b', x) = one_root all fuel obj ms py b cov le low (rs obj here) h in
            let inside = EndsInside-inside place obj todo ends in
            let fewer = unvisited-Extends all ms w.metas (Extends-trans (mark-Extends ms obj) x) in
            let x' = Extends-trans (mark-Extends ms obj) x in
            let (u, eq', b'', x'', ok) =
              loop all fuel (next_place place) todo w.metas w.pending_young b'
                (Covers-Extends all ms w.metas x' cov) (omega arith) (omega arith)
                (EndsInside-next place obj todo ends) (λ o i. rs o (there i)) in
            (
              u,
              rw inside (rw h (rw eq eq')),
              b'',
              Extends-trans x' x'',
              forall_In-cons (λ o. (ms₀ o).isyoung ≡ true → (u.metas o).ismarked ≡ true)
                  (λ y. x''.marked obj (x.marked obj (mark_self ms obj))) ok,
            )
        | inr h ↦
            let (u, eq', b'', x'', ok) =
              loop all fuel (next_place place) todo ms py b cov le low
                (EndsInside-next place obj todo ends) (λ o i. rs o (there i)) in
            let inside = EndsInside-inside place obj todo ends in
            (
              u,
              rw inside (rw h eq'),
              b'',
              x'',
              forall_In-cons (λ o. (ms₀ o).isyoung ≡ true → (u.metas o).ismarked ≡ true)
                  (λ y. x''.marked obj (ground (arith, b.reached.ext.young obj))) ok,
            )
      ]

  -- A slot that is done holds no young object that is not marked.
  slot_marked :
      (ms : Metas) {v : ℕ} {masks : List ℕ} {slot : ℕ}
      → SlotIn mem v masks slot
      → SlotsDone mem ms masks slot
      → (ms v).isyoung ≡ true
      → (ms v).ismarked ≡ true
  slot_marked ms {v} (SlotIn.here {mask} e t) d y =
      let d' : (is_traced mask v && gc_should_visit (ms v)) ≡ false =
        subst (λ u. (is_traced mask u && gc_should_visit (ms u)) ≡ false) e d.0 in
      ground arith
  slot_marked ms (SlotIn.there i) d y = slot_marked ms i d.1 y

  Reach-young : {o : ℕ} → Reach mem ms₀ roots o → (ms₀ o).isyoung ≡ true
  Reach-young (root r y) = y
  Reach-young (child r i y) = y

  -- With nothing on the stack and the roots marked, all that can be reached is marked.
  Reach-marked :
      (w : Walk)
      → Between w.metas w.pending_young
      → ((o : ℕ) → roots o → (ms₀ o).isyoung ≡ true → (w.metas o).ismarked ≡ true)
      → {o : ℕ} → Reach mem ms₀ roots o
      → (w.metas o).ismarked ≡ true
  Reach-marked w b rs (root r y) = rs _ r y
  Reach-marked w b rs (child {o} {v} r i y) =
      elim (b.tracked o (b.reached.ext.young o ∙ Reach-young r) (Reach-marked w b rs r)) [
        | inl s ↦ elim s [ ]
        | inr (inl d) ↦ slot_marked w.metas i d (b.reached.ext.young v ∙ y)
        | inr (inr n) ↦ absurd n
      ]

-- No object is marked.
abbrev pub Unmarked : Metas → Type 0
Unmarked ms = (o : ℕ) → (ms o).ismarked ≡ false

-- What a walk from the roots has to leave behind: exactly the young objects that the roots reach
-- through young objects are marked, pending_young has each of them once and nothing else, and no
-- header changed in any other way.
pub record MarksReachable (mem : Memory) (ms : Metas) (roots : List ℕ) (w : Walk) : Type 0 where
  pub marked_iff : (o : ℕ) → ((w.metas o).ismarked ≡ true) ↔ Reach mem ms (λ r. In r roots) o
  pub pending_once : (o : ℕ) → times o w.pending_young ≡ (if (w.metas o).ismarked then 1 else 0)
  pub only_marks : Extends ms w.metas

-- From headers of which none is marked, with at most 254 objects that can be visited and two rounds of
-- fuel for each, and for a list of pending roots whose last element is not in the last place of a segment: the
-- loop of markingWalk over pending_roots ends, visit_stack stays on its page, and the loop marks
-- and lists exactly what the roots reach through young objects, each object once, and changes no
-- other field of a header.
pub mark_pending_roots-MarksReachable :
    (mem : Memory) (all : List ℕ) (fuel place : ℕ) (roots : List ℕ) (ms : Metas)
    → Unmarked ms
    → Covers all ms
    → 2 * unvisited all ms ≤ fuel
    → unvisited all ms ≤ max_visit_stack
    → EndsInside place roots
    → (w : Walk) × (mark_pending_roots mem fuel place roots ms [] ≡ some w)
      × MarksReachable mem ms roots w
mark_pending_roots-MarksReachable mem all fuel place roots ms un cov le low ends =
    let start : Between mem ms (λ r. In r roots) ms [] = record {
      tracked = λ o y m. absurd (clash (un o) m);
      counted = λ o. rw (un o) refl;
      reached = record { ext = Extends-refl ms; reach = λ o m. absurd (clash (un o) m) };
    } in
    let (w, eq, b, x, ok) =
      loop mem ms (λ r. In r roots) all fuel place roots ms [] start cov le low ends (λ o i. i) in
    (
      w,
      eq,
      record {
        marked_iff = λ o. (b.reached.reach o, Reach-marked mem ms (λ r. In r roots) w b ok);
        pending_once = λ o. omega (arith, b.counted o);
        only_marks = x;
      },
    )
