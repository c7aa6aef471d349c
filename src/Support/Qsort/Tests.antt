-- ===== src/Support/Qsort/Tests.antt =====
-- A run of the sort, and its theorems at that array.
use bsqgc.Prelude.{ℕ, ◌≡◌, refl, Option, some, none, List, [], ◌∷◌, ◌==◌, if◌then◌else◌, arith}
use bsqgc.Support.Qsort.{Array, swap, partition, partition_loop, qsort}
use bsqgc.Support.Qsort.Rearranges.{Rearranges}
use bsqgc.Support.Qsort.Partition.{IsPartition, partition-IsPartition}
use bsqgc.Support.Qsort.Sorted.{IsSorted, qsort-IsSorted}

abbrev sample : Array
sample i =
    if i == 0 then 30 else if i == 1 then 10 else if i == 2 then 30 else if i == 3 then 20 else 0

abbrev first_four : Option Array → List ℕ
first_four none = []
first_four (some arr) = arr 0 ∷ arr 1 ∷ arr 2 ∷ arr 3 ∷ []

qsort-sample : first_four (qsort 5 sample 0 4) ≡ 10 ∷ 20 ∷ 30 ∷ 30 ∷ []
unfolding qsort partition partition_loop swap
qsort-sample = refl

qsort-IsSorted_example :
    (b : Array) × (qsort 5 sample 0 4 ≡ some b) × Rearranges 0 4 sample b × IsSorted 0 4 b
qsort-IsSorted_example = qsort-IsSorted 5 0 4 sample (omega arith)

partition-IsPartition_example :
    IsPartition 0 3 sample (partition sample 0 3).0 (partition sample 0 3).1
partition-IsPartition_example = partition-IsPartition 0 3 sample (omega arith)
