-- ===== src/Memory/Allocator/Stays.antt =====
-- pageNeedsMoved (src/runtime/memory/gc.cpp) against processPage (allocator.cpp) and deleteOldPage (allocator.h): the
-- place that a page is taken from and the one that it is put to.
use bsqgc.Prelude.{ℕ, zero, suc, ◌+◌, ◌<◌, true, false, ◌==◌, some, ◌≡◌, ◌≢◌, ◌⊎◌}
use bsqgc.Common.{store}
use bsqgc.Memory.Float.{FloatOps}
use bsqgc.Memory.World.{World, ok}
use bsqgc.Memory.Utilization.{
  index_or_zero, get_bucket_index, num_low_util_buckets, num_high_util_buckets,
  calc_approx_utilization,
}
use bsqgc.Memory.Utilization.Moved.{PlaceOf, in_low, in_high, in_full, in_none}
use bsqgc.Memory.Buckets.{Util, low, high, bucket, insert_page_in_bucket, delete_page_from_bucket}
use bsqgc.Memory.OldPages.{delete_old_page, delete_filled_page}
use bsqgc.Memory.Allocator.{process_page, push_filled}

module _ (fl : FloatOps) where
  -- The lower end of a bucket: 0.05 a step.
  abbrev pub bound : fl.F → ℕ → fl.F
  bound t zero = t
  bound t (suc j) = bound (fl.add t (fl.dec 5 2)) j

  abbrev pub Fits : fl.F → ℕ → fl.F → Type 0
  Fits t j u = (fl.lt (bound t j) u ≡ true) × (fl.le u (bound t (suc j)) ≡ true)

  -- The index of the first of `n` buckets from `t` on that the utilization fits, or 0 where it fits none.
  pub IsBucket : (n : ℕ) → (t u : fl.F) → ℕ → Type 0
  IsBucket n t u i =
      ((i < n) × Fits t i u × ((j : ℕ) → j < i → ¬ (Fits t j u)))
      ⊎ ((i ≡ 0) × ((j : ℕ) → j < n → ¬ (Fits t j u)))

  -- The same for indices from `i` on.
  abbrev FromBucket : (n i : ℕ) → (t u : fl.F) → ℕ → Type 0
  FromBucket n i t u r =
      ((k : ℕ) × (r ≡ i + k) × (k < n) × Fits t k u × ((j : ℕ) → j < k → ¬ (Fits t j u)))
      ⊎ ((r ≡ 0) × ((j : ℕ) → j < n → ¬ (Fits t j u)))

  -- The number of a bucket.
  index_of : PlaceOf → ℕ
  index_of (in_low i) = i
  index_of (in_high i) = i
  index_of in_full = 0
  index_of in_none = 0

  low_index : fl.F → ℕ
  low_index u = index_or_zero (get_bucket_index fl u num_low_util_buckets (some 0) false)

  high_index : fl.F → ℕ
  high_index u = index_or_zero (get_bucket_index fl u num_high_util_buckets (some 0) true)

  -- The state with the new utilization of a page.
  abbrev pub reweighed : ℕ → fl.F → World fl.F → World fl.F
  reweighed p u w = record w {
    pages = store w.pages p (record (w.pages p) { approx_utilization = u });
  }

  -- deleteOldPage takes the page out of this bucket, and processPage puts it in again.
  abbrev pub InBucket : (fuel s p : ℕ) → fl.F → World fl.F → Util → ℕ → Type 0
  InBucket fuel s p u w k i =
      (delete_old_page fl fuel s p w ≡ delete_page_from_bucket fl fuel (bucket k s i) p w)
      × (process_page fl fuel s p w
          ≡ insert_page_in_bucket fl fuel (bucket k s i) p u (reweighed p u w))

  -- Where the page stays: in a bucket of low utilization, 0.01 to 0.60, in one of high utilization, up to
  -- 0.90, among the filled pages, up to 1, or nowhere.
  pub Stays : (fuel s p : ℕ) → fl.F → World fl.F → Type 0
  Stays fuel s p u w =
      ((i : ℕ) × (fl.le (fl.dec 1 2) u ≡ true)
        × (fl.le u (fl.dec 60 2) ≡ true)
        × IsBucket 12 (fl.dec 0 0) u i
        × InBucket fuel s p u w low i)
      ⊎ ((i : ℕ) × (fl.lt (fl.dec 60 2) u ≡ true)
          × (fl.le u (fl.dec 90 2) ≡ true)
          × IsBucket 6 (fl.dec 60 2) u i
          × InBucket fuel s p u w high i)
      ⊎ ((fl.lt (fl.dec 90 2) u ≡ true)
          × (fl.le u (fl.dec 1 0) ≡ true)
          × (delete_old_page fl fuel s p w ≡ delete_filled_page fuel s p w)
          × (process_page fl fuel s p w ≡ push_filled s p (reweighed p u w)))
      ⊎ ((delete_old_page fl fuel s p w ≡ delete_filled_page fuel s p w)
          × (process_page fl fuel s p w ≡ ok tt (reweighed p u w)))

  module _ (fuel s p : ℕ) (w : World fl.F) (ne : p ≢ 0)
      (used : ((w.pages p).entrycount == (w.pages p).freecount) ≡ false) where
    abbrev old_of : fl.F
    old_of = (w.pages p).approx_utilization

    abbrev new_of : fl.F
    new_of = calc_approx_utilization fl (w.pages p)
