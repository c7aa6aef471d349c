-- ===== src/Support/ArrayList/Push.antt =====
-- push_back of an ArrayList over several segments (src/runtime/support/arraylist.h), with room in the last segment.
use bsqgc.Prelude.{
  ℕ, suc, ◌+◌, ◌-◌, ◌*◌, ◌<◌, ◌≤◌, false, List, [], ◌∷◌, ◌++◌, append_assoc, ◌==◌, ◌≡◌, ◌≢◌, refl,
  ap, sym, ◌∙◌, ◌⊎◌, inl, inr, arith, All, All-mono,
}
use bsqgc.Common.{store, store_ne}
use bsqgc.Memory.Page.Links.{last_from, last_from-All}
use bsqgc.Memory.World.{World, Returns, store_word}
use bsqgc.Support.ArrayList.{ArrayList, push_back}
use bsqgc.Support.ArrayList.Segment.{words_at, words_at-snoc}
use bsqgc.Support.ArrayList.Spans.{span_list, contents, InSpans, AreSpaced, InOrder, IsSpaced}
use bsqgc.Support.ArrayList.Frame.{AgreeIn, words_at-frame, Linked-frame, invariant-InSpans}

apart_head :
    (s a last b : ℕ)
    → (last ≡ s) ⊎ IsSpaced s last
    → last + 24 ≤ a
    → a < last + 4096
    → s ≤ b
    → b < s + 24
    → a ≢ b
apart_head s a last b (inl e) lo hi lb hb = omega arith
apart_head s a last b (inr h) lo hi lb hb = ground arith

pub order_from : (s : ℕ) (rest : List ℕ) (n : ℕ) → InOrder 0 rest n
unfolding InOrder
order_from s [] n = omega arith
order_from s (t ∷ rest) n = tt

order_suc : (i : ℕ) (rest : List ℕ) (n : ℕ) → InOrder i rest n → InOrder i rest (suc n)
unfolding InOrder
order_suc i [] n h = omega arith
order_suc i (t ∷ rest) n h = tt

span_list-push :
    (seg i last n : ℕ)
    → record (span_list seg i last n) { tail = last + 24 + 8 * n + 8 }
      ≡ span_list seg i last (suc n)
span_list-push seg i last n = ap (λ t. record (span_list seg i last n) { tail = t }) (omega arith)

-- A write to the data of the last segment is in no head.
pub heads_kept :
    (word : ℕ → ℕ) (a v last : ℕ) (ss : List ℕ)
    → last + 24 ≤ a
    → a < last + 4096
    → All (λ s. (last ≡ s) ⊎ IsSpaced s last) ss
    → All (λ s. AgreeIn word (store word a v) s (s + 24)) ss
heads_kept word a v last ss lo hi =
    All-mono (λ s. (last ≡ s) ⊎ IsSpaced s last) (λ s. AgreeIn word (store word a v) s (s + 24)) ss
      (λ s h b lb hb. store_ne word a v b (apart_head s a last b h lo hi lb hb))

-- Where the last segment stands from the others.
pub last_from-IsSpaced :
    (seg : ℕ) (rest : List ℕ)
    → AreSpaced (seg ∷ rest)
    → All (λ s. (last_from seg rest ≡ s) ⊎ IsSpaced s (last_from seg rest)) (seg ∷ rest)
unfolding last_from
last_from-IsSpaced seg [] d = (inl refl, tt)
last_from-IsSpaced seg (s ∷ rest) d =
    (inr (last_from-All (IsSpaced seg) s rest d.0.0 d.0.1), last_from-IsSpaced s rest d.1)

pub contents-snoc :
    (word : ℕ → ℕ) (seg i : ℕ) (rest : List ℕ) (n v : ℕ)
    → i < 509
    → n < 509
    → InOrder i rest n
    → AreSpaced (seg ∷ rest)
    → contents (store word (last_from seg rest + 24 + 8 * n) v) seg i rest (suc n)
      ≡ contents word seg i rest n ++ (v ∷ [])
unfolding contents last_from InOrder
contents-snoc word seg i [] n v li ln o d =
    let place : seg + 24 + 8 * n ≡ seg + 24 + 8 * i + 8 * (n - i) = omega arith in
    let count : suc n - i ≡ suc (n - i) = omega arith in
    rw (place, count) (words_at-snoc word (seg + 24 + 8 * i) v (n - i))
contents-snoc word seg i (s ∷ rest) n v li ln o d =
    let a = last_from s rest + 24 + 8 * n in
    let far = last_from-All (IsSpaced seg) s rest d.0.0 d.0.1 in
    let own =
      words_at-frame word (store word a v) (seg + 24 + 8 * i) (509 - i)
        (λ b lo hi. store_ne word a v b (ground arith)) in
    let below = contents-snoc word s 0 rest n v (omega arith) ln (order_from s rest n) d.1 in
    (λ k. own k ++ below k)
    ∙ sym (
        append_assoc (words_at word (seg + 24 + 8 * i) (509 - i)) (contents word s 0 rest n)
          (v ∷ []))

module _ {F : Type 0} where
  -- push_back, where the last of the segments has room: it returns the list with the new element at the end, in the
  -- same segments.
  pub push_back-InSpans :
      (seg i : ℕ) (rest : List ℕ) (n : ℕ) (xs : List ℕ) (l : ArrayList) (v : ℕ) (w : World F)
      → n < 509
      → InSpans seg i rest n xs l w
      → Returns (InSpans seg i rest (suc n) (xs ++ (v ∷ []))) (push_back l v w)
  unfolding Returns push_back store_word
  push_back-InSpans seg i rest n xs l v w room h =
      let last = last_from seg rest in
      let a = last + 24 + 8 * n in
      let room' : (a == last + 4096) ≡ false = ground arith in
      let there : (a == 0) ≡ false = ground arith in
      rw h.shape (
        rw (invariant-InSpans seg i rest n xs l w h) (
          rw room' (
            rw there (record {
              shape = span_list-push seg i last n;
              links =
                  Linked-frame w.word (store w.word a v) 0 seg rest
                    (heads_kept w.word a v last (seg ∷ rest) (omega arith) (omega arith)
                      (last_from-IsSpaced seg rest h.spaced))
                    h.links;
              holds =
                  contents-snoc w.word seg i rest n v h.start room h.order h.spaced
                  ∙ ap (λ ys. ys ++ (v ∷ [])) h.holds;
              start = h.start;
              finish = omega arith;
              order = order_suc i rest n h.order;
              positive = h.positive;
              spaced = h.spaced;
            }))))
