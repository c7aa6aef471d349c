-- ===== src/Gc/DeadRoots/Merge.antt =====
-- The merge of computeDeadRootsForDecrement (src/runtime/memory/gc.cpp) over two ascending lists.
use mathlib.Core.List.{append-nil, append_assoc}
use bsqgc.Prelude.{
  ℕ, ◌≤◌, ◌<◌, ◌≡◌, refl, sym, ap, ltb→lt, ◌∙◌, true, false, inl, inr, List, [], ◌∷◌, ◌++◌, arith,
  ltb, elem, Bool-cases, if◌then◌else◌,
}
use bsqgc.Gc.DeadRoots.{dead_roots_loop}

-- From `lo` on ascending, and strictly so.
abbrev pub AscendsFrom : ℕ → List ℕ → Type 0
AscendsFrom lo [] = Unit
AscendsFrom lo (x ∷ xs) = (lo ≤ x) × AscendsFrom x xs

abbrev pub StrictFrom : ℕ → List ℕ → Type 0
StrictFrom lo [] = Unit
StrictFrom lo (x ∷ xs) = (lo < x) × StrictFrom x xs

abbrev pub Ascends : List ℕ → Type 0
Ascends [] = Unit
Ascends (x ∷ xs) = AscendsFrom x xs

abbrev pub StrictlyAscends : List ℕ → Type 0
StrictlyAscends [] = Unit
StrictlyAscends (x ∷ xs) = StrictFrom x xs

AscendsFrom→Ascends : (lo : ℕ) (xs : List ℕ) → AscendsFrom lo xs → Ascends xs
AscendsFrom→Ascends lo [] h = tt
AscendsFrom→Ascends lo (x ∷ xs) h = h.1

StrictFrom→StrictlyAscends : (lo : ℕ) (xs : List ℕ) → StrictFrom lo xs → StrictlyAscends xs
StrictFrom→StrictlyAscends lo [] h = tt
StrictFrom→StrictlyAscends lo (x ∷ xs) h = h.1

-- Of `os`, in order, what is not in `rs`.
unfoldable pub absent : (rs os : List ℕ) → List ℕ
absent rs [] = []
absent rs (o ∷ os) = let rest = absent rs os in if elem o rs then rest else o ∷ rest

absent_nil : (os : List ℕ) → absent [] os ≡ os
unfolding absent
absent_nil [] = refl
absent_nil (o ∷ os) = rw (absent_nil os) refl

elem_below : (o lo : ℕ) (rs : List ℕ) → o < lo → AscendsFrom lo rs → elem o rs ≡ false
elem_below o lo [] h a = refl
elem_below o lo (r ∷ rs) h a = ground (arith, elem_below o r rs (omega arith) a.1)

-- A root below all the old roots makes no difference.
absent_drop :
    (r lo : ℕ) (rs os : List ℕ) → r ≤ lo → StrictFrom lo os → absent (r ∷ rs) os ≡ absent rs os
unfolding absent
absent_drop r lo rs [] h s = refl
absent_drop r lo rs (o ∷ os) h s = ground (arith, absent_drop r o rs os (omega arith) s.1)

absent_hit : (o : ℕ) (rs os : List ℕ) → elem o rs ≡ true → absent rs (o ∷ os) ≡ absent rs os
unfolding absent
absent_hit o rs os h = rw h refl

absent_miss : (o : ℕ) (rs os : List ℕ) → elem o rs ≡ false → absent rs (o ∷ os) ≡ o ∷ absent rs os
unfolding absent
absent_miss o rs os h = rw h refl

-- An old root that is pushed stands in front of those that are found later.
push_first :
    (o : ℕ) (rs os pd x : List ℕ)
    → elem o rs ≡ false
    → x ≡ (pd ++ (o ∷ [])) ++ absent rs os
    → x ≡ pd ++ absent rs (o ∷ os)
push_first o rs os pd x h e =
    e ∙ append_assoc pd (o ∷ []) (absent rs os) ∙ ap (λ l. pd ++ l) (sym (absent_miss o rs os h))

pub dead_roots_loop-absent :
    (rs os pd : List ℕ)
    → Ascends rs
    → StrictlyAscends os
    → dead_roots_loop rs os pd ≡ pd ++ absent rs os
unfolding dead_roots_loop
dead_roots_loop-absent rs [] pd a s = unfold absent in sym (append-nil pd)
dead_roots_loop-absent [] (o ∷ os) pd a s =
    push_first o [] os pd (dead_roots_loop [] os (pd ++ (o ∷ []))) refl
      (dead_roots_loop-absent [] os (pd ++ (o ∷ [])) a (StrictFrom→StrictlyAscends o os s))
dead_roots_loop-absent (r ∷ rs) (o ∷ os) pd a s = elim (Bool-cases (ltb r o)) [
  | inl lt ↦
      rw (lt, dead_roots_loop)
        (dead_roots_loop-absent rs (o ∷ os) pd (AscendsFrom→Ascends r rs a) s
          ∙ ap (λ l. pd ++ l) (sym (absent_drop r r rs (o ∷ os) (omega arith) (ltb→lt r o lt, s))))
  | inr ge ↦
      rw (ge, dead_roots_loop)
        (elim (Bool-cases (ltb o r)) [
          | inl lt ↦
              rw (lt, dead_roots_loop)
                (push_first o (r ∷ rs) os pd (dead_roots_loop (r ∷ rs) os (pd ++ (o ∷ [])))
                  (elem_below o r (r ∷ rs) (ltb→lt o r lt) (omega arith, a))
                  (dead_roots_loop-absent (r ∷ rs) os (pd ++ (o ∷ [])) a
                    (StrictFrom→StrictlyAscends o os s)))
          | inr ge' ↦ rw ge' (
              dead_roots_loop-absent rs os pd (AscendsFrom→Ascends r rs a)
                (StrictFrom→StrictlyAscends o os s)
              ∙ ap (λ l. pd ++ l)
                  (sym (
                    absent_hit o (r ∷ rs) os (ground arith)
                    ∙ absent_drop r o rs os (ground arith) s)))
        ])
]
