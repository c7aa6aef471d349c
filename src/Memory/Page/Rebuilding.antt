-- ===== src/Memory/Page/Rebuilding.antt =====
-- The loop of PageInfo::rebuild (src/runtime/memory/allocator.cpp).
use bsqgc.Prelude.{
  ℕ, zero, suc, ◌+◌, ◌*◌, ◌^◌, ◌≤◌, ◌<◌, ◌≡◌, ◌≢◌, refl, sym, subst, ◌∙◌, true, false, List, [],
  ◌∷◌, arith, All, length, inl, inr, Bool-cases, ◌==◌, ==_iff, if◌then◌else◌,
}
use bsqgc.Common.{
  Metas, MetaData, store, store_eq, store_ne, reset_meta, max_fwd_index, gc_should_free_list_add,
  size_of_meta_data,
}
use bsqgc.Memory.Page.{
  PageInfo, canary_size, get_freelist_entry_at_index, get_meta_entry_at_index, Rebuild,
  rebuild_entry, rebuild_entries,
}
use bsqgc.Memory.Page.Chain.{Chain, Chain-store, Chain-cons, lower_bound, entry_next, entry_step}

-- The header and the object of the `i`-th entry.
abbrev pub meta_at : (d rs i : ℕ) → ℕ
meta_at d rs i = d + i * rs + canary_size

abbrev pub obj_at : (d rs i : ℕ) → ℕ
obj_at d rs i = meta_at d rs i + size_of_meta_data

-- What becomes of a header.
abbrev pub cleared : MetaData → MetaData
cleared m = if gc_should_free_list_add m then reset_meta max_fwd_index else m

-- Of `k` entries from the `i`-th on, in order, those whose header is to be freed.
unfoldable pub free_entries : Metas → (d rs i k : ℕ) → List ℕ
free_entries ms d rs i zero = []
free_entries ms d rs i (suc k) =
    let rest = free_entries ms d rs (suc i) k in
    if gc_should_free_list_add (ms (obj_at d rs i)) then (d + i * rs) ∷ rest else rest

length-free_entries_le : (ms : Metas) (d rs i k : ℕ) → length (free_entries ms d rs i k) ≤ k
unfolding free_entries
length-free_entries_le ms d rs i zero = omega arith
length-free_entries_le ms d rs i (suc k) = ground (arith, length-free_entries_le ms d rs (suc i) k)

-- The state of the loop when the entries below `n` are left and `k` are done.
pub record Partly (ms₀ : Metas) (word₀ : ℕ → ℕ) (d rs n k : ℕ) (s : Rebuild) : Type 0 where
  pub chain : Chain s.words s.head (free_entries ms₀ d rs n k)
  pub above : All (λ a. d + n * rs ≤ a) (free_entries ms₀ d rs n k)
  pub counted : s.count ≡ length (free_entries ms₀ d rs n k)
  pub left : (j : ℕ) → j < n → s.metas (obj_at d rs j) ≡ ms₀ (obj_at d rs j)
  pub past : (j : ℕ) → n ≤ j → j < n + k → s.metas (obj_at d rs j) ≡ cleared (ms₀ (obj_at d rs j))
  pub others : (o : ℕ) → ((j : ℕ) → j < n + k → obj_at d rs j ≢ o) → s.metas o ≡ ms₀ o
  pub kept :
      (a : ℕ)
      → ((j : ℕ)
          → j < n + k
          → gc_should_free_list_add (ms₀ (obj_at d rs j)) ≡ true
          → (d + j * rs ≢ a) × (meta_at d rs j ≢ a))
      → s.words a ≡ word₀ a

obj_at_lt : (d rs i j : ℕ) → 0 < rs → i < j → obj_at d rs i < obj_at d rs j
obj_at_lt d rs i j pos h = omega (arith, entry_step i j rs h)

free_entries_yes :
    (ms : Metas) (d rs i k : ℕ)
    → gc_should_free_list_add (ms (obj_at d rs i)) ≡ true
    → free_entries ms d rs i (suc k) ≡ (d + i * rs) ∷ free_entries ms d rs (suc i) k
unfolding free_entries
free_entries_yes ms d rs i k f = rw f refl

free_entries_no :
    (ms : Metas) (d rs i k : ℕ)
    → gc_should_free_list_add (ms (obj_at d rs i)) ≡ false
    → free_entries ms d rs i (suc k) ≡ free_entries ms d rs (suc i) k
unfolding free_entries
free_entries_no ms d rs i k f = rw f refl

cleared_yes :
    (m : MetaData) → gc_should_free_list_add m ≡ true → cleared m ≡ reset_meta max_fwd_index
cleared_yes m f = rw f refl

cleared_no : (m : MetaData) → gc_should_free_list_add m ≡ false → cleared m ≡ m
cleared_no m f = rw f refl

module _ {F : Type 0} (page : PageInfo F) (ms₀ : Metas) (word₀ : ℕ → ℕ)
    (start : 0 < page.data_start) (room : canary_size < page.realsize) where
  free_case :
      (i k : ℕ) (s : Rebuild)
      → suc i + k < 2 ^ 16
      → Partly ms₀ word₀ page.data_start page.realsize (suc i) k s
      → gc_should_free_list_add (ms₀ (obj_at page.data_start page.realsize i)) ≡ true
      → Partly ms₀ word₀ page.data_start page.realsize i (suc k) (rebuild_entry page i s)
  unfolding rebuild_entry free_entries get_freelist_entry_at_index get_meta_entry_at_index
  free_case i k s small p f =
      let d = page.data_start in
      let rs = page.realsize in
      let step : d + i * rs + rs ≡ d + suc i * rs = entry_next d rs i in
      let same = p.left i (omega arith) in
      let a = d + i * rs in
      let a' = d + suc i * rs in
      let o = obj_at d rs i in
      let len = length-free_entries_le ms₀ d rs (suc i) k in
      rw (same, f)
        (record {
          chain = rw (free_entries_yes ms₀ d rs i k f) (
              Chain-cons a' a (Chain-store a' (meta_at d rs i) 0 p.chain p.above (omega arith))
                p.above (omega arith) (omega arith));
          above = rw (free_entries_yes ms₀ d rs i k f) (
            omega arith,
            lower_bound a' a (free_entries ms₀ d rs (suc i) k) (omega arith) p.above,
          );
          counted = rw (free_entries_yes ms₀ d rs i k f) (omega (arith, p.counted, len));
          left = λ j h.
              store_ne s.metas o (reset_meta max_fwd_index) (obj_at d rs j)
                (omega (arith, obj_at_lt d rs j i (omega arith) h))
              ∙ p.left j (omega arith);
          past = λ j le lt. elim (Bool-cases (i == j)) [
            | inl e ↦
                subst
                  (λ u.
                    store s.metas o (reset_meta max_fwd_index) (obj_at d rs u)
                    ≡ cleared (ms₀ (obj_at d rs u)))
                  ((==_iff i j).0 e)
                  (store_eq s.metas o (reset_meta max_fwd_index) ∙ sym (cleared_yes (ms₀ o) f))
            | inr e ↦
                let lt' : i < j = ground arith in
                store_ne s.metas o (reset_meta max_fwd_index) (obj_at d rs j)
                  (omega (arith, obj_at_lt d rs i j (omega arith) lt'))
                ∙ p.past j lt' (omega arith)
          ];
          others = λ u h.
              store_ne s.metas o (reset_meta max_fwd_index) u (h i (omega arith))
              ∙ p.others u (λ j lt. h j (omega arith));
          kept = λ u h.
              let ne = h i (omega arith) f in
              store_ne (store s.words (meta_at d rs i) 0) a s.head u ne.0
              ∙ store_ne s.words (meta_at d rs i) 0 u ne.1
              ∙ p.kept u (λ j lt. h j (omega arith));
        })

  keep_case :
      (i k : ℕ) (s : Rebuild)
      → Partly ms₀ word₀ page.data_start page.realsize (suc i) k s
      → gc_should_free_list_add (ms₀ (obj_at page.data_start page.realsize i)) ≡ false
      → Partly ms₀ word₀ page.data_start page.realsize i (suc k) (rebuild_entry page i s)
  unfolding rebuild_entry free_entries get_freelist_entry_at_index get_meta_entry_at_index
  keep_case i k s p f =
      let d = page.data_start in
      let rs = page.realsize in
      let step : d + i * rs + rs ≡ d + suc i * rs = entry_next d rs i in
      let same = p.left i (omega arith) in
      rw (same, f)
        (record {
          chain = rw (free_entries_no ms₀ d rs i k f) p.chain;
          above = rw (free_entries_no ms₀ d rs i k f) (
              lower_bound (d + suc i * rs) (d + i * rs) (free_entries ms₀ d rs (suc i) k)
                (omega arith) p.above);
          counted = rw (free_entries_no ms₀ d rs i k f) p.counted;
          left = λ j h. p.left j (omega arith);
          past = λ j le lt. elim (Bool-cases (i == j)) [
            | inl e ↦
                subst (λ u. s.metas (obj_at d rs u) ≡ cleared (ms₀ (obj_at d rs u)))
                  ((==_iff i j).0 e) (same ∙ sym (cleared_no (ms₀ (obj_at d rs i)) f))
            | inr e ↦ p.past j (ground arith) (omega arith)
          ];
          others = λ u h. p.others u (λ j lt. h j (omega arith));
          kept = λ u h. p.kept u (λ j lt. h j (omega arith));
        })

  pub rebuild_entries-Partly :
      (n k total : ℕ) (s : Rebuild)
      → n + k ≡ total
      → total < 2 ^ 16
      → Partly ms₀ word₀ page.data_start page.realsize n k s
      → Partly ms₀ word₀ page.data_start page.realsize 0 total (rebuild_entries page n s)
  unfolding rebuild_entries
  rebuild_entries-Partly zero k total s e small p =
      let e' : k ≡ total = omega arith in
      subst (λ t. Partly ms₀ word₀ page.data_start page.realsize 0 t s) e' p
  rebuild_entries-Partly (suc i) k total s e small p =
      let m = ms₀ (obj_at page.data_start page.realsize i) in
      rebuild_entries-Partly i (suc k) total (rebuild_entry page i s) (omega arith) small
        (elim (Bool-cases (gc_should_free_list_add m)) [
          | inl f ↦ free_case i k s (omega arith) p f
          | inr f ↦ keep_case i k s p f
        ])
