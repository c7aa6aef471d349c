-- ===== src/Gc/DeadRoots/Tests.antt =====
-- Root sets of two collections, and the theorem at them.
use bsqgc.Prelude.{ℕ, ◌≡◌, refl, Option, some, none, List, [], ◌∷◌, ◌==◌, if◌then◌else◌, arith}
use bsqgc.Support.Qsort.{swap, partition, partition_loop, qsort}
use bsqgc.Gc.DeadRoots.{RootSets, compute_dead_roots}
use bsqgc.Gc.DeadRoots.Correct.{FindsDead, compute_dead_roots-FindsDead}

-- The roots are 5000, 1000 and 3000; 2000 and 6000 are roots no more.
abbrev sets : RootSets
sets = record {
  roots = λ i. if i == 0 then 5000 else if i == 1 then 1000 else if i == 2 then 3000 else 0;
  old_roots = 1000 ∷ 2000 ∷ 5000 ∷ 6000 ∷ [];
  pending_decs = 7000 ∷ [];
}

abbrev pending : Option RootSets → List ℕ
pending none = []
pending (some t) = t.pending_decs

dead_of_sets : pending (compute_dead_roots 4 3 sets) ≡ 7000 ∷ 2000 ∷ 6000 ∷ []
unfolding compute_dead_roots qsort partition partition_loop swap
dead_of_sets = refl

compute_dead_roots-FindsDead_example :
    (t' : RootSets) × (compute_dead_roots 4 3 sets ≡ some t') × FindsDead 3 sets t'
compute_dead_roots-FindsDead_example =
    compute_dead_roots-FindsDead 4 3 sets (omega arith) (omega arith)
