-- ===== src/Gc/DeadRoots.antt =====
-- computeDeadRootsForDecrement (src/runtime/memory/gc.cpp): the roots of the last collection that are no
-- roots any more go to pending_decs.
--
-- An index that only moves forward through an array is the list of what is left of it.
pub mod Merge
pub mod Correct
mod Tests
use bsqgc.Prelude.{
  ℕ, zero, suc, ◌+◌, Bool, true, false, Option, none, some, List, [], ◌∷◌, ◌++◌, ltb,
}
use bsqgc.Support.Qsort.{Array, qsort}

-- The places from `i` on.
abbrev pub read : Array → (i n : ℕ) → List ℕ
read arr i zero = []
read arr i (suc n) = arr i ∷ read arr (i + 1) n

-- The `while`: what is left of the roots, what is left of the old roots, and pending_decs.
pub dead_roots_loop : (roots old_roots pending_decs : List ℕ) → List ℕ
dead_roots_loop roots [] pd = pd
dead_roots_loop [] (o ∷ os) pd = dead_roots_loop [] os (pd ++ (o ∷ []))
dead_roots_loop (r ∷ rs) (o ∷ os) pd = elim (ltb r o) [
  | true ↦ dead_roots_loop rs (o ∷ os) pd
  | false ↦ elim (ltb o r) [
    | true ↦ dead_roots_loop (r ∷ rs) os (pd ++ (o ∷ []))
    | false ↦ dead_roots_loop rs os pd
  ]
]

-- What the function changes of the thread's data; `old_roots` has `old_roots_count` places.
pub record RootSets : Type 0 where
  pub roots : Array
  pub old_roots : List ℕ
  pub pending_decs : List ℕ

finish_dead_roots : ℕ → RootSets → Option Array → Option RootSets
finish_dead_roots count t none = none
finish_dead_roots count t (some roots) = some (record {
  roots = roots;
  old_roots = [];
  pending_decs = dead_roots_loop (read roots 0 count) t.old_roots t.pending_decs;
})

-- `fuel` is for the depth of the sort.
unfoldable pub compute_dead_roots : (fuel roots_count : ℕ) → RootSets → Option RootSets
unfolding finish_dead_roots dead_roots_loop
compute_dead_roots fuel count t = finish_dead_roots count t (qsort fuel t.roots 0 count)
