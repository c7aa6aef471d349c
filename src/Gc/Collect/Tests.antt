-- ===== src/Gc/Collect/Tests.antt =====
-- The roots of two collections.
use bsqgc.Prelude.{ℕ, ◌≤◌, [], ◌∷◌, arith}
use bsqgc.Support.Qsort.Rearranges.{occurrences}
use bsqgc.Memory.World.{World, Returns, ◌>>◌}
use bsqgc.Memory.Allocator.Sample.{world}
use bsqgc.Gc.Evacuate.{array_at}
use bsqgc.Gc.Collect.{find_dead_roots, finish_roots}
use bsqgc.Gc.Collect.Cycle.{IsCycle, finish_roots-find_dead_roots}

-- The roots 5000 and 1000, after a collection with the roots 1000 and 2000.
abbrev rooted : World ℕ
rooted = record world {
  tinfo = record world.tinfo { roots = 5000 ∷ 1000 ∷ []; old_roots = 1000 ∷ 2000 ∷ [] };
}

rooted_once : (v : ℕ) → occurrences v 2 (array_at (5000 ∷ 1000 ∷ [])) ≤ 1
unfolding array_at
rooted_once v = ground arith

finish_roots-find_dead_roots_example :
    Returns
      (λ (u : Unit {0}) (w' : World ℕ). IsCycle rooted w')
      ((find_dead_roots 3 >> finish_roots) rooted)
finish_roots-find_dead_roots_example =
    finish_roots-find_dead_roots 3 rooted (omega arith) rooted_once (omega arith)
