-- ===== src/Memory/OldPages/Stats.antt =====
-- updateMemStats (src/runtime/memory/allocator.cpp): the live bytes of the pages of an allocator.
use bsqgc.Prelude.{
  ℕ, ◌+◌, ◌-◌, ◌*◌, ◌%◌, ◌^◌, ◌<◌, ◌≤◌, false, List, [], ◌∷◌, ◌++◌, ◌==◌, ◌≡◌, ◌≢◌, ap, arith,
}
use bsqgc.Memory.Page.{PageInfo}
use bsqgc.Memory.World.{World, ok, load_page, load_tinfo, store_tinfo}
use bsqgc.Memory.OldPages.{count_page}

-- The unsigned subtraction does not wrap.
counted :
    (t a e f : ℕ)
    → f ≤ e
    → a * e < 2 ^ 64
    → (t + a * e + 2 ^ 64 - a * f) % 2 ^ 64 ≡ (t + a * (e - f)) % 2 ^ 64
counted t a e f le lt = let split : a * e ≡ a * (e - f) + a * f = grind arith in omega arith

module _ {F : Type 0} where
  -- The bytes of the objects on a page, without headers and canaries.
  abbrev pub live_bytes_of : PageInfo F → ℕ
  live_bytes_of page = page.allocsize * (page.entrycount - page.freecount)

  unfoldable pub live_bytes : (ℕ → PageInfo F) → List ℕ → ℕ
  live_bytes pages [] = 0
  live_bytes pages (p ∷ ps) = live_bytes_of (pages p) + live_bytes pages ps

  -- No more entries are free than there are, and the size of all of them is a 64-bit number.
  abbrev pub IsCountable : PageInfo F → Type 0
  IsCountable page =
      (page.freecount ≤ page.entrycount) × (page.allocsize * page.entrycount < 2 ^ 64)

  unfoldable pub add_live : ℕ → World F → World F
  add_live n w = record w {
    tinfo = record w.tinfo { total_live_bytes = (w.tinfo.total_live_bytes + n) % 2 ^ 64 };
  }

  abbrev pub IsSmall : World F → Type 0
  IsSmall w = w.tinfo.total_live_bytes < 2 ^ 64

  unfoldable pub set_live : World F → ℕ → World F
  set_live w n = record w { tinfo = record w.tinfo { total_live_bytes = n } }

  pub add_live-zero : (w : World F) → IsSmall w → add_live 0 w ≡ w
  unfolding add_live set_live
  add_live-zero w h = ap (set_live w) (omega arith)

  pub add_live-add_live : (m n : ℕ) (w : World F) → add_live n (add_live m w) ≡ add_live (m + n) w
  unfolding add_live set_live
  add_live-add_live m n w = ap (set_live w) (omega arith)

  pub add_live-IsSmall : (n : ℕ) (w : World F) → IsSmall (add_live n w)
  unfolding add_live
  add_live-IsSmall n w = omega arith

  pub live_bytes-append :
      (pages : ℕ → PageInfo F) (xs ys : List ℕ)
      → live_bytes pages (xs ++ ys) ≡ live_bytes pages xs + live_bytes pages ys
  unfolding live_bytes
  live_bytes-append pages [] ys = omega arith
  live_bytes-append pages (x ∷ xs) ys = rw (live_bytes-append pages xs ys) (omega arith)

  pub count_page_run :
      (p : ℕ) (w : World F)
      → p ≢ 0
      → IsCountable (w.pages p)
      → count_page p w ≡ ok tt (add_live (live_bytes_of (w.pages p)) w)
  unfolding count_page load_page load_tinfo store_tinfo add_live set_live
  count_page_run p w ne h =
      let z : (p == 0) ≡ false = ground arith in
      let page = w.pages p in
      rw z (
        rw z (
          ap (λ n. ok tt (set_live w n))
            (counted w.tinfo.total_live_bytes page.allocsize page.entrycount page.freecount h.0
              h.1)))
