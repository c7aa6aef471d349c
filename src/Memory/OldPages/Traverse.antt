-- ===== src/Memory/OldPages/Traverse.antt =====
-- updateMemStats (src/runtime/memory/allocator.cpp): its walk through lists, trees and buckets.
use bsqgc.Prelude.{
  ℕ, zero, suc, ◌+◌, ◌%◌, ◌^◌, ◌<◌, ◌≤◌, true, false, List, [], ◌∷◌, ◌++◌, ◌==◌, ◌≡◌, ap, sym, ◌∙◌,
  arith, All, length, All-append_left, All-append_right,
}
use bsqgc.Memory.Page.{PageInfo}
use bsqgc.Memory.Page.Chain.{Chain, done, link}
use bsqgc.Memory.Page.Links.{nexts}
use bsqgc.Memory.World.{World, ok, load_page, load_alloc}
use bsqgc.Memory.Buckets.{Util, low, high, buckets_of, load_place}
use bsqgc.Memory.Buckets.Tree.{Tree, leaf, node, IsTree, pages_of_tree, pages_of_buckets, walk_fuel}
use bsqgc.Memory.OldPages.{count_list, traverse_bst, count_buckets, update_mem_stats}
use bsqgc.Memory.OldPages.Stats.{
  live_bytes_of, live_bytes, IsCountable, add_live, IsSmall, add_live-zero, add_live-add_live,
  add_live-IsSmall, live_bytes-append, count_page_run,
}

module _ {F : Type 0} where
  abbrev pub AreCountable : (ℕ → PageInfo F) → List ℕ → Type 0
  AreCountable pages = All (λ p. IsCountable (pages p))

  -- Two sums, one after the other.
  add_twice :
      (ps qs : List ℕ) (w : World F)
      → add_live (live_bytes w.pages qs) (add_live (live_bytes w.pages ps) w)
        ≡ add_live (live_bytes w.pages (ps ++ qs)) w
  add_twice ps qs w =
      add_live-add_live (live_bytes w.pages ps) (live_bytes w.pages qs) w
      ∙ ap (λ n. add_live n w) (sym (live_bytes-append w.pages ps qs))

  pub count_list_run :
      (fuel cur : ℕ) (ps : List ℕ) (w : World F)
      → Chain (nexts w.pages) cur ps
      → AreCountable w.pages ps
      → IsSmall w
      → length ps < fuel
      → count_list fuel cur w ≡ ok tt (add_live (live_bytes w.pages ps) w)
  unfolding count_list load_page live_bytes add_live
  count_list_run zero cur ps w c h small lt = elim lt [ ]
  count_list_run (suc f) cur [] w (done e) h small lt =
      let z : (cur == 0) ≡ true = ground arith in rw z (ap (ok tt) (sym (add_live-zero w small)))
  count_list_run (suc f) cur (x ∷ ps) w (link ne c) h small lt =
      let z : (cur == 0) ≡ false = ground arith in
      let w1 = add_live (live_bytes_of (w.pages cur)) w in
      rw z (
        rw (count_page_run cur w ne h.0) (
          rw z (
            count_list_run f (w.pages cur).next ps w1 c h.1
              (add_live-IsSmall (live_bytes_of (w.pages cur)) w) (omega arith)
            ∙ ap (ok tt)
                (add_live-add_live (live_bytes_of (w.pages cur)) (live_bytes w.pages ps) w))))

  pub traverse_bst_run :
      (fuel p : ℕ) (t : Tree) (w : World F)
      → IsTree w.pages p t
      → AreCountable w.pages (pages_of_tree t)
      → IsSmall w
      → walk_fuel t ≤ fuel
      → traverse_bst fuel p w ≡ ok tt (add_live (live_bytes w.pages (pages_of_tree t)) w)
  unfolding traverse_bst IsTree pages_of_tree walk_fuel load_page add_live live_bytes
  traverse_bst_run zero p leaf w h c small le = absurd (omega arith)
  traverse_bst_run zero p (node q xs l r) w h c small le = absurd (omega arith)
  traverse_bst_run (suc f) p leaf w h c small le =
      let z : (p == 0) ≡ true = ground arith in rw z (ap (ok tt) (sym (add_live-zero w small)))
  traverse_bst_run (suc f) p (node q xs l r) w (e, ne, chain, hl, hr) c small le =
      let z : (q == 0) ≡ false = ground arith in
      let own = live_bytes w.pages (q ∷ xs) in
      let ls = pages_of_tree l in
      let rs = pages_of_tree r in
      let w1 = add_live own w in
      let w2 = add_live (live_bytes w.pages ls) w1 in
      let cl = All-append_left (λ u. IsCountable (w.pages u)) (q ∷ xs) (ls ++ rs) c in
      let ct = All-append_right (λ u. IsCountable (w.pages u)) (q ∷ xs) (ls ++ rs) c in
      let c1 = All-append_left (λ u. IsCountable (w.pages u)) ls rs ct in
      let c2 = All-append_right (λ u. IsCountable (w.pages u)) ls rs ct in
      rw (e, z)
        (rw (count_list_run f q (q ∷ xs) w (link ne chain) cl small (omega arith)) (
          rw z (
            rw
              (traverse_bst_run f (w.pages q).left l w1 hl c1 (add_live-IsSmall own w)
                (omega arith))
              (rw z (
                traverse_bst_run f (w.pages q).right r w2 hr c2
                  (add_live-IsSmall (live_bytes w.pages ls) w1) (omega arith)
                ∙ ap (ok tt) (add_twice ls rs w1)
                ∙ ap (ok tt) (add_twice (q ∷ xs) (ls ++ rs) w))))))

  -- The buckets hold the trees, and the fuel is enough for each.
  abbrev pub HoldTrees : (fuel : ℕ) → Util → (s : ℕ) → (ℕ → Tree) → World F → Type 0
  HoldTrees fuel u s trees w =
      (i : ℕ) → IsTree w.pages (buckets_of u (w.alloc s) i) (trees i) × (walk_fuel (trees i) ≤ fuel)

  count_buckets_run :
      (fuel : ℕ) (u : Util) (s n i : ℕ) (trees : ℕ → Tree) (w : World F)
      → HoldTrees fuel u s trees w
      → AreCountable w.pages (pages_of_buckets trees n i)
      → IsSmall w
      → count_buckets fuel u s n i w
        ≡ ok tt (add_live (live_bytes w.pages (pages_of_buckets trees n i)) w)
  unfolding count_buckets pages_of_buckets load_place load_alloc add_live live_bytes
  count_buckets_run fuel u s zero i trees w h c small = ap (ok tt) (sym (add_live-zero w small))
  count_buckets_run fuel u s (suc n) i trees w h c small =
      let ps = pages_of_tree (trees i) in
      let qs = pages_of_buckets trees n (i + 1) in
      let c1 = All-append_left (λ p. IsCountable (w.pages p)) ps qs c in
      let c2 = All-append_right (λ p. IsCountable (w.pages p)) ps qs c in
      rw (traverse_bst_run fuel (buckets_of u (w.alloc s) i) (trees i) w (h i).0 c1 small (h i).1) (
        count_buckets_run fuel u s n (i + 1) trees (add_live (live_bytes w.pages ps) w) h c2
          (add_live-IsSmall (live_bytes w.pages ps) w)
        ∙ ap (ok tt) (add_twice ps qs w))

  -- updateMemStats, where the filled pages form a list and each bucket a tree, the fuel is enough for each
  -- walk, no page has more free entries than entries, and all sizes are 64-bit numbers: it returns, and the
  -- state is as before but for total_live_bytes, to which the object size times the number of entries in use
  -- of every one of these pages is added, modulo 2^64.
  pub update_mem_stats-live_bytes :
      (fuel s : ℕ) (filled : List ℕ) (highs lows : ℕ → Tree) (w : World F)
      → Chain (nexts w.pages) (w.alloc s).filled_pages filled
      → length filled < fuel
      → HoldTrees fuel high s highs w
      → HoldTrees fuel low s lows w
      → AreCountable w.pages (filled ++ (pages_of_buckets highs 6 0 ++ pages_of_buckets lows 12 0))
      → w.tinfo.total_live_bytes < 2 ^ 64
      → update_mem_stats fuel s w
        ≡ ok tt (record w {
          tinfo = record w.tinfo {
            total_live_bytes =
                (w.tinfo.total_live_bytes
                  + live_bytes w.pages
                      (filled ++ (pages_of_buckets highs 6 0 ++ pages_of_buckets lows 12 0)))
                % 2 ^ 64;
          };
        })
  unfolding update_mem_stats load_alloc add_live
  update_mem_stats-live_bytes fuel s filled highs lows w chain lt hh hl c small =
      let P : ℕ → Type 0 = λ p. IsCountable (w.pages p) in
      let hs = pages_of_buckets highs 6 0 in
      let ls = pages_of_buckets lows 12 0 in
      let c0 = All-append_left P filled (hs ++ ls) c in
      let ct = All-append_right P filled (hs ++ ls) c in
      let c1 = All-append_left P hs ls ct in
      let c2 = All-append_right P hs ls ct in
      let w1 = add_live (live_bytes w.pages filled) w in
      let w2 = add_live (live_bytes w.pages hs) w1 in
      rw (count_list_run fuel (w.alloc s).filled_pages filled w chain c0 small lt) (
        rw
          (count_buckets_run fuel high s 6 0 highs w1 hh c1
            (add_live-IsSmall (live_bytes w.pages filled) w))
          (count_buckets_run fuel low s 12 0 lows w2 hl c2
              (add_live-IsSmall (live_bytes w.pages hs) w1)
            ∙ ap (ok tt) (add_twice hs ls w1)
            ∙ ap (ok tt) (add_twice filled (hs ++ ls) w)))
