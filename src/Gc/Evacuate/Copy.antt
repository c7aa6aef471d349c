-- ===== src/Gc/Evacuate/Copy.antt =====
-- xmem_copy (src/runtime/common.h) on the slots of an object.
use bsqgc.Prelude.{
  ℕ, suc, ◌+◌, ◌*◌, ◌<◌, ◌≤◌, List, [], ◌∷◌, ◌≡◌, refl, ◌∙◌, ◌⊎◌, inl, length, arith,
}
use bsqgc.Common.{store, store_eq, store_ne, xmem_copy}
use bsqgc.Gc.Evacuate.Forward.{slots_of, cons_path}

pub xmem_copy-outside :
    (n : ℕ) (word : ℕ → ℕ) (src trgt a : ℕ)
    → (a < trgt) ⊎ (trgt + 8 * n ≤ a)
    → xmem_copy word src trgt n a ≡ word a
unfolding xmem_copy
xmem_copy-outside ℕ.zero word src trgt a out = refl
xmem_copy-outside (suc n) word src trgt a out =
    xmem_copy-outside n (store word trgt (word src)) (src + 8) (trgt + 8) a (ground arith)
    ∙ store_ne word trgt (word src) a (ground arith)

pub slots_of-ext :
    (f g : ℕ → ℕ) (masks : List ℕ) (slot : ℕ)
    → ((a : ℕ) → slot ≤ a → a < slot + 8 * length masks → f a ≡ g a)
    → slots_of f masks slot ≡ slots_of g masks slot
unfolding slots_of
slots_of-ext f g [] slot h = refl
slots_of-ext f g (m ∷ masks) slot h =
    cons_path (h slot (omega arith) (omega arith))
      (slots_of-ext f g masks (slot + 8) (λ a le lt. h a (omega arith) (omega arith)))

-- The slots of the copy are those of the object, where the two do not overlap.
pub xmem_copy-slots :
    (masks : List ℕ) (word : ℕ → ℕ) (src trgt : ℕ)
    → (src + 8 * length masks ≤ trgt) ⊎ (trgt + 8 * length masks ≤ src)
    → slots_of (xmem_copy word src trgt (length masks)) masks trgt ≡ slots_of word masks src
unfolding slots_of xmem_copy
xmem_copy-slots [] word src trgt apart = refl
xmem_copy-slots (m ∷ masks) word src trgt apart =
    let word' = store word trgt (word src) in
    cons_path
      (xmem_copy-outside (length masks) word' (src + 8) (trgt + 8) trgt (inl (omega arith))
        ∙ store_eq word trgt (word src))
      (xmem_copy-slots masks word' (src + 8) (trgt + 8) (ground arith)
        ∙ slots_of-ext word' word masks (src + 8)
            (λ a le lt. store_ne word trgt (word src) a (ground arith)))
