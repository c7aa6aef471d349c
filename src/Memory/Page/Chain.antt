-- ===== src/Memory/Page/Chain.antt =====
-- Free lists in memory: the addresses that the `next` links lead through, and the entry addresses
-- of a page.
use bsqgc.Prelude.{
  ℕ, zero, suc, ◌+◌, ◌*◌, ◌≤◌, ◌<◌, ◌≡◌, ◌≢◌, refl, List, [], ◌∷◌, arith, All, All-mono,
}
use bsqgc.Common.{store, store_ne}

-- From `p` the links lead through the addresses of the list to nullptr.
pub data Chain (word : ℕ → ℕ) : ℕ → List ℕ → Type 0 where
  done : {p : ℕ} → p ≡ 0 → Chain word p []
  link : {p : ℕ} {xs : List ℕ} → p ≢ 0 → Chain word (word p) xs → Chain word p (p ∷ xs)

-- A write below all the addresses of a chain leaves it as it is.
pub Chain-store :
    {word : ℕ → ℕ} {p : ℕ} {xs : List ℕ} (lo b v : ℕ)
    → Chain word p xs
    → All (λ a. lo ≤ a) xs
    → b < lo
    → Chain (store word b v) p xs
Chain-store lo b v (done e) h lt = done e
Chain-store {word} lo b v (link {p} {xs} ne c) h lt =
    let same : store word b v p ≡ word p = ground (arith, h.0) in
    link ne (rw same (Chain-store lo b v c h.1 lt))

-- A write elsewhere leaves a chain as it is.
pub Chain-store_ne :
    {word : ℕ → ℕ} {p : ℕ} {xs : List ℕ} (b v : ℕ)
    → Chain word p xs
    → All (λ a. b ≢ a) xs
    → Chain (store word b v) p xs
Chain-store_ne b v (done e) h = done e
Chain-store_ne {word} b v (link {p} {xs} ne c) h =
    let same : store word b v p ≡ word p = store_ne word b v p h.0 in
    link ne (rw same (Chain-store_ne b v c h.1))

pub Chain-head :
    {word : ℕ → ℕ} {p e : ℕ} {xs : List ℕ}
    → Chain word p (e ∷ xs)
    → (p ≡ e) × (p ≢ 0) × Chain word (word e) xs
Chain-head (link ne c) = (refl, ne, c)

-- A new head in front of a chain.
pub Chain-cons :
    {word : ℕ → ℕ} {p : ℕ} {xs : List ℕ} (lo e : ℕ)
    → Chain word p xs
    → All (λ a. lo ≤ a) xs
    → e < lo
    → 0 < e
    → Chain (store word e p) e (e ∷ xs)
Chain-cons {word} {p} lo e c h lt pos =
    let same : store word e p e ≡ p = ground arith in
    link (omega arith) (rw same (Chain-store lo e p c h lt))

pub lower_bound :
    (lo lo' : ℕ) (xs : List ℕ) → lo' ≤ lo → All (λ a. lo ≤ a) xs → All (λ a. lo' ≤ a) xs
lower_bound lo lo' xs le = All-mono (λ a. lo ≤ a) (λ a. lo' ≤ a) xs (λ a h. omega arith)

-- The entries of a page lie behind one another.
pub entry_step : (i j rs : ℕ) → i < j → i * rs + rs ≤ j * rs
entry_step i j rs h = grind arith

-- The addresses of `k` entries of size `rs`, from the `i`-th on, of a page with its data at `d`.
unfoldable pub entries_from : (d rs i k : ℕ) → List ℕ
entries_from d rs i zero = []
entries_from d rs i (suc k) = (d + i * rs) ∷ entries_from d rs (suc i) k

pub entry_next : (d rs i : ℕ) → d + i * rs + rs ≡ d + suc i * rs
entry_next d rs i = grind arith
