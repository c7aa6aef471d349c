-- ===== src/Support/ArrayList/Extend.antt =====
-- A new segment behind those of an ArrayList (src/runtime/support/arraylist.h): the links and the elements.
use bsqgc.Prelude.{
  ℕ, ◌+◌, ◌-◌, ◌*◌, ◌≤◌, List, [], ◌∷◌, ◌++◌, append_assoc, ◌≡◌, ◌≢◌, refl, sym, ◌∙◌, ◌⊎◌, inl, inr,
  arith, All, All-append,
}
use bsqgc.Common.{store, store_eq, store_ne}
use bsqgc.Memory.Page.Links.{last_from, last_from-All}
use bsqgc.Support.ArrayList.Segment.{words_at}
use bsqgc.Support.ArrayList.Spans.{Linked, contents, AreSpaced, IsSpaced}
use bsqgc.Support.ArrayList.Frame.{AgreeIn, words_at-frame}
use bsqgc.Support.ArrayList.Push.{last_from-IsSpaced}

pub last_from-snoc : (seg q : ℕ) (rest : List ℕ) → last_from seg (rest ++ (q ∷ [])) ≡ q
unfolding last_from
last_from-snoc seg q [] = refl
last_from-snoc seg q (s ∷ rest) = last_from-snoc s q rest

-- Not in the head of the same segment, nor in another one.
next_apart : (last s : ℕ) → (last ≡ s) ⊎ IsSpaced s last → (last + 8 ≢ s) × (last + 8 ≢ s + 16)
next_apart last s (inl e) = (omega arith, omega arith)
next_apart last s (inr h) = (ground arith, ground arith)

-- The write to the next pointer of the last segment.
pub Linked-snoc :
    (word : ℕ → ℕ) (q prev seg : ℕ) (rest : List ℕ)
    → Linked word prev seg rest
    → AreSpaced (seg ∷ rest)
    → All (λ s. IsSpaced s q) (seg ∷ rest)
    → word q ≡ q + 24
    → word (q + 16) ≡ last_from seg rest
    → word (q + 8) ≡ 0
    → Linked (store word (last_from seg rest + 8) q) prev seg (rest ++ (q ∷ []))
unfolding Linked last_from
Linked-snoc word q prev seg [] (p, n) d far own_data back end =
    let h = far.0 in
    (
      store_ne word (seg + 8) q (seg + 16) (omega arith) ∙ p,
      store_eq word (seg + 8) q,
      store_ne word (seg + 8) q q (ground arith) ∙ own_data,
      (
        store_ne word (seg + 8) q (q + 16) (ground arith) ∙ back,
        store_ne word (seg + 8) q (q + 8) (ground arith) ∙ end,
      ),
    )
Linked-snoc word q prev seg (s ∷ rest) (p, n, e, l) d far own_data back end =
    let last = last_from s rest in
    let away = last_from-All (IsSpaced seg) s rest d.0.0 d.0.1 in
    let own = next_apart last s (last_from-IsSpaced s rest d.1).0 in
    (
      store_ne word (last + 8) q (seg + 16) (ground arith) ∙ p,
      store_ne word (last + 8) q (seg + 8) (ground arith) ∙ n,
      store_ne word (last + 8) q s own.0 ∙ e,
      Linked-snoc word q seg s rest l d.1 far.1 own_data back end,
    )

-- The elements with the first of the new segment.
pub contents-extend :
    (word word' : ℕ → ℕ) (q seg i : ℕ) (rest : List ℕ) (v : ℕ)
    → i ≤ 509
    → All (λ s. AgreeIn word word' (s + 24) (s + 4096)) (seg ∷ rest)
    → word' (q + 24) ≡ v
    → contents word' seg i (rest ++ (q ∷ [])) 1 ≡ contents word seg i rest 509 ++ (v ∷ [])
unfolding contents words_at
contents-extend word word' q seg i [] v le h e =
    let own =
      words_at-frame word word' (seg + 24 + 8 * i) (509 - i)
        (λ a lo hi. h.0 a (omega arith) (omega arith)) in
    let place : q + 24 + 8 * 0 ≡ q + 24 = omega arith in rw place (λ k. own k ++ (e k ∷ []))
contents-extend word word' q seg i (s ∷ rest) v le h e =
    let own =
      words_at-frame word word' (seg + 24 + 8 * i) (509 - i)
        (λ a lo hi. h.0 a (omega arith) (omega arith)) in
    let below = contents-extend word word' q s 0 rest v (omega arith) h.1 e in
    (λ k. own k ++ below k)
    ∙ sym (
        append_assoc (words_at word (seg + 24 + 8 * i) (509 - i)) (contents word s 0 rest 509)
          (v ∷ []))

pub AreSpaced-snoc :
    (q : ℕ) (ss : List ℕ) → AreSpaced ss → All (λ s. IsSpaced s q) ss → AreSpaced (ss ++ (q ∷ []))
AreSpaced-snoc q [] d h = (tt, tt)
AreSpaced-snoc q (s ∷ ss) d h =
    (All-append (IsSpaced s) ss (q ∷ []) d.0 (h.0, tt), AreSpaced-snoc q ss d.1 h.1)
