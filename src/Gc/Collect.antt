-- ===== src/Gc/Collect.antt =====
-- collect (src/runtime/memory/gc.cpp): the phases of a collection, one after the other.
pub mod Cycle
mod Tests
use bsqgc.Prelude.{ℕ, zero, suc, ◌+◌, true, false, Option, none, some, List, [], ◌∷◌, if◌then◌else◌}
use bsqgc.Common.{Metas, store, gc_clear_root_mark}
use bsqgc.Memory.Float.{FloatOps}
use bsqgc.Memory.World.{
  World, Run, ok, fault, out_of_fuel, Cmd, pure, ◌>>=◌, ◌>>◌, gets, load_tinfo, store_tinfo,
  memory_of,
}
use bsqgc.Memory.Allocator.{process_collector_pages}
use bsqgc.Memory.OldPages.{update_mem_stats}
use bsqgc.Gc.Roots.{RootSource, RootWalk, run_walk_stack}
use bsqgc.Gc.Mark.{Walk, mark_pending_roots}
use bsqgc.Gc.DeadRoots.{RootSets, read, compute_dead_roots}
use bsqgc.Gc.Evacuate.{array_at, count_of, process_marked_young_objects}
use bsqgc.Gc.Decrement.{process_decrements}

abbrev pub bsq_max_alloc_slots : ℕ
bsq_max_alloc_slots = 64

-- GC_CLEAR_ROOT_MARK on the headers of objects.
unfoldable pub clear_root_marks : List ℕ → Metas → Metas
clear_root_marks [] ms = ms
clear_root_marks (o ∷ os) ms = clear_root_marks os (store ms o (gc_clear_root_mark (ms o)))

module _ {F : Type 0} where
  after_walk : RootWalk → World F → Option Walk → Run F (Unit {0})
  after_walk r w none = out_of_fuel
  after_walk r w (some k) = ok tt (record w {
    metas = k.metas;
    tinfo = record w.tinfo {
      roots = r.roots;
      pending_roots = [];
      pending_young = k.pending_young;
      pending_young_place = 0;
    };
  })

  mark_from : (fuel : ℕ) → World F → Option RootWalk → Run F (Unit {0})
  mark_from fuel w none = fault
  mark_from fuel w (some r) =
      after_walk r w (mark_pending_roots (memory_of w) fuel 0 r.pending_roots r.metas [])

  -- markingWalk, with the reset of pending_young in front of it. `fuel` is for each root's walk.
  unfoldable pub marking_walk : RootSource → (fuel : ℕ) → Cmd F (Unit {0})
  unfolding after_walk mark_from
  marking_walk src fuel w = mark_from fuel w (
      run_walk_stack w.pagetable w.pages src
        (record { metas = w.metas; roots = w.tinfo.roots; pending_roots = [] }))

  unfoldable pub after_dead_roots : ℕ → World F → Option RootSets → Run F (Unit {0})
  after_dead_roots count w none = out_of_fuel
  after_dead_roots count w (some r) = ok tt (record w {
    tinfo = record w.tinfo {
      roots = read r.roots 0 count;
      old_roots = r.old_roots;
      pending_decs = r.pending_decs;
    };
  })

  -- computeDeadRootsForDecrement on the state.
  unfoldable pub find_dead_roots : (fuel : ℕ) → Cmd F (Unit {0})
  unfolding after_dead_roots
  find_dead_roots fuel w =
      let t = w.tinfo in
      after_dead_roots (count_of t.roots) w (
        compute_dead_roots fuel (count_of t.roots) (record {
          roots = array_at t.roots;
          old_roots = t.old_roots;
          pending_decs = t.pending_decs;
        }))

  reset_young : Cmd F (Unit {0})
  reset_young = do t ← load_tinfo; store_tinfo (record t { pending_young = []; forward_table = [] })

  -- The list of pending decrements is set up again if it was empty after the last collection.
  reset_pending_decs : Cmd F (Unit {0})
  reset_pending_decs w =
      if w.should_reset_pending_decs
      then ok tt (record w {
        tinfo = record w.tinfo { pending_decs = []; pending_decs_place = 0 };
        should_reset_pending_decs = false;
      })
      else ok tt w

  clear_pending_decs : Cmd F (Unit {0})
  clear_pending_decs w = elim w.tinfo.pending_decs [
    | [] ↦ ok tt (record w { should_reset_pending_decs = true })
    | o ∷ os ↦ ok tt w
  ]

  -- The end of a collection: the roots become the old roots.
  unfoldable pub finish_roots : Cmd F (Unit {0})
  unfolding clear_root_marks
  finish_roots w =
      let t = w.tinfo in
      ok tt (record w {
        metas = clear_root_marks t.roots w.metas;
        tinfo = record t { roots = []; old_roots = t.roots; newly_filled_pages_count = 0 };
      })

module _ (fl : FloatOps) where
  -- The loop over g_gcallocs, `n` slots left from the `s`-th on.
  process_allocators : (fuel n s : ℕ) → Cmd fl.F (Unit {0})
  process_allocators fuel zero s = pure tt
  process_allocators fuel (suc n) s = do
    used ← gets (λ w. w.used s)
    (if used then (do process_collector_pages fl fuel s; update_mem_stats fuel s) else pure tt)
    process_allocators fuel n (s + 1)

  unfoldable pub collect : RootSource → (fuel : ℕ) → Cmd fl.F (Unit {0})
  unfolding process_allocators reset_young reset_pending_decs clear_pending_decs
  collect src fuel = do
    marking_walk src fuel
    process_marked_young_objects fl fuel fuel
    reset_young
    reset_pending_decs
    find_dead_roots fuel
    process_decrements fl fuel
    clear_pending_decs
    t ← load_tinfo
    store_tinfo (record t { total_live_bytes = 0 })
    process_allocators fuel bsq_max_alloc_slots 0
    finish_roots
