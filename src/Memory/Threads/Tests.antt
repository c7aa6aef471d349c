-- ===== src/Memory/Threads/Tests.antt =====
-- A thread with two allocators.
use bsqgc.Prelude.{ℕ, List, [], ◌∷◌, ◌≡◌, refl, arith, ◌==◌, if◌then◌else◌}
use bsqgc.Memory.Float.Fixed.{fixed}
use bsqgc.Memory.World.{World, GcAllocator, Returns, ◌>>◌}
use bsqgc.Memory.Allocator.Sample.{world}
use bsqgc.Memory.Threads.{
  new_gc_allocator, init_thread_local_info, initialize_gc, compute_average_time, sum_times,
}
use bsqgc.Memory.Threads.Start.{IsStarted, initialize_gc-IsStarted}

two_allocators : List GcAllocator
two_allocators = new_gc_allocator 16 72 ∷ new_gc_allocator 32 88 ∷ []

initialize_gc-IsStarted_example :
    Returns
      (λ (u : Unit {0}) (w' : World ℕ). IsStarted 4096 two_allocators world w')
      ((init_thread_local_info 4096 >> initialize_gc two_allocators) world)
unfolding two_allocators new_gc_allocator
initialize_gc-IsStarted_example =
    initialize_gc-IsStarted 4096 two_allocators world ((omega arith, tt), (tt, tt))
      (omega arith, (omega arith, tt))

-- Two collections of 2 and of 4 milliseconds.
average_of_two :
    compute_average_time fixed (λ i. if i == 0 then 2_000_000 else if i == 1 then 4_000_000 else 0)
    ≡ 3_000_000
unfolding compute_average_time sum_times
average_of_two = refl
