-- ===== src/Support/PageTable/Laws.antt =====
-- pagetable_insert and pagetable_query (src/runtime/support/pagetable.h), one after the other.
use mathlib.Core.Path.{ap₂}
use bsqgc.Prelude.{
  ℕ, ◌+◌, ◌*◌, ◌/◌, ◌^◌, ◌<◌, ◌≡◌, refl, Bool, true, ◌&&◌, ◌||◌, Option, none, some, arith, ◌==◌,
  Bool-cases, ==_iff, ◌∙◌, sym, inl, inr, ==_refl,
}
use bsqgc.Common.{store}
use bsqgc.Support.PageTable.{
  PageTableInUseInfo, Level2, Level3, Level4, allocated, allocated_last, index_at, query_level4,
  query_level3, query_level2, query_root, pagetable_insert, pagetable_query, missing_root,
  missing_level2, missing_level3, missing_tables, is_some,
}

level4_store :
    (t : Option Level4) (l l' : ℕ)
    → query_level4 (some (store (allocated_last t) l true)) l' ≡ ((l == l') || query_level4 t l')
unfolding query_level4 allocated_last
level4_store none l l' = ground arith
level4_store (some t) l l' = ground arith

level3_store :
    (t : Option Level3) (k l k' l' : ℕ)
    → query_level3
        (some (store (allocated t) k (some (store (allocated_last (allocated t k)) l true))))
        k'
        l'
      ≡ (((k == k') && (l == l')) || query_level3 t k' l')
unfolding query_level3 query_level4 allocated
level3_store none k l k' l' = elim (Bool-cases (k == k')) [
  | inl e ↦ rw e (level4_store none l l')
  | inr e ↦ rw e refl
]
level3_store (some t) k l k' l' = elim (Bool-cases (k == k')) [
  | inl e ↦ rw e (rw (← (==_iff k k').0 e) (level4_store (t k) l l'))
  | inr e ↦ rw e refl
]

level2_store :
    (t : Option Level2) (j k l j' k' l' : ℕ)
    → query_level2
        (some (
          store (allocated t) j (
            some (
              store
                (allocated (allocated t j))
                k
                (some (store (allocated_last (allocated (allocated t j) k)) l true))))))
        j'
        k'
        l'
      ≡ (((j == j') && ((k == k') && (l == l'))) || query_level2 t j' k' l')
unfolding query_level2 query_level3 allocated
level2_store none j k l j' k' l' = elim (Bool-cases (j == j')) [
  | inl e ↦ rw e (level3_store none k l k' l')
  | inr e ↦ rw e refl
]
level2_store (some t) j k l j' k' l' = elim (Bool-cases (j == j')) [
  | inl e ↦ rw e (rw (← (==_iff j j').0 e) (level3_store (t j) k l k' l'))
  | inr e ↦ rw e refl
]

-- The two addresses have the same four indices.
same_indices : ℕ → ℕ → Bool
same_indices a b =
    (index_at a 39 == index_at b 39)
    && ((index_at a 30 == index_at b 30)
        && ((index_at a 21 == index_at b 21) && (index_at a 12 == index_at b 12)))

query-insert_indices :
    (t : PageTableInUseInfo) (a b : ℕ)
    → pagetable_query (pagetable_insert t a) b ≡ (same_indices a b || pagetable_query t b)
unfolding pagetable_query pagetable_insert query_root query_level2 allocated same_indices
query-insert_indices none a b = elim (Bool-cases (index_at a 39 == index_at b 39)) [
  | inl e ↦ rw e (
      level2_store none (index_at a 30) (index_at a 21) (index_at a 12) (index_at b 30)
        (index_at b 21) (index_at b 12))
  | inr e ↦ rw e refl
]
query-insert_indices (some t) a b = elim (Bool-cases (index_at a 39 == index_at b 39)) [
  | inl e ↦ rw e (
      rw (← (==_iff (index_at a 39) (index_at b 39)).0 e) (
        level2_store (t (index_at a 39)) (index_at a 30) (index_at a 21) (index_at a 12)
          (index_at b 30) (index_at b 21) (index_at b 12)))
  | inr e ↦ rw e refl
]

-- A page number, put together from its four indices.
abbrev joined : (i j k l : ℕ) → ℕ
joined i j k l = ((i * 512 + j) * 512 + k) * 512 + l

page_joined :
    (a : ℕ)
    → a < 2 ^ 48
    → a / 4096 ≡ joined (index_at a 39) (index_at a 30) (index_at a 21) (index_at a 12)
page_joined a h = omega arith

joined_iff :
    (i j k l i' j' k' l' : ℕ)
    → j < 512
    → k < 512
    → l < 512
    → j' < 512
    → k' < 512
    → l' < 512
    → ((i == i') && ((j == j') && ((k == k') && (l == l'))))
      ≡ (joined i j k l == joined i' j' k' l')
joined_iff i j k l i' j' k' l' hj hk hl hj' hk' hl' = ground arith

-- Two addresses below 2^48 have the same indices exactly if they lie on one page.
same_indices_iff : (a b : ℕ) → a < 2 ^ 48 → b < 2 ^ 48 → same_indices a b ≡ (a / 4096 == b / 4096)
unfolding same_indices
same_indices_iff a b ha hb =
    joined_iff (index_at a 39) (index_at a 30) (index_at a 21) (index_at a 12) (index_at b 39)
      (index_at b 30) (index_at b 21) (index_at b 12) (omega arith) (omega arith) (omega arith)
      (omega arith) (omega arith) (omega arith)
    ∙ sym (ap₂ (λ (x y : ℕ). x == y) (page_joined a ha) (page_joined b hb))

-- For addresses below 2^48, after the page of `a` is inserted, a lookup of `b` succeeds exactly if
-- `b` lies on the same 4096-byte page as `a`, or its lookup succeeded before.
pub pagetable_query-pagetable_insert :
    (t : PageTableInUseInfo) (a b : ℕ)
    → a < 2 ^ 48
    → b < 2 ^ 48
    → pagetable_query (pagetable_insert t a) b ≡ ((a / 4096 == b / 4096) || pagetable_query t b)
pagetable_query-pagetable_insert t a b ha hb =
    rw (query-insert_indices t a b, same_indices_iff a b ha hb) refl

missing_at :
    (t : PageTableInUseInfo) (a : ℕ) (i j k : ℕ)
    → i ≡ index_at a 39
    → j ≡ index_at a 30
    → k ≡ index_at a 21
    → missing_root (pagetable_insert t a) i j k ≡ 0
unfolding pagetable_insert missing_root missing_level2 missing_level3 is_some
missing_at t a i j k p q r =
    rw (p, q, r)
      (rw (==_refl (index_at a 39))
        (rw (==_refl (index_at a 30)) (rw (==_refl (index_at a 21)) refl)))

-- After the page of `a` is inserted, the insertion of a page `b` of the same 2 MB has no table to allocate.
pub missing_tables-pagetable_insert :
    (t : PageTableInUseInfo) (a b : ℕ)
    → a / 2 ^ 21 ≡ b / 2 ^ 21
    → missing_tables (pagetable_insert t a) b ≡ 0
unfolding missing_tables
missing_tables-pagetable_insert t a b same =
    missing_at t a (index_at b 39) (index_at b 30) (index_at b 21) (omega arith) (omega arith)
      (omega arith)
