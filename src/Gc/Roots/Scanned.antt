-- ===== src/Gc/Roots/Scanned.antt =====
-- The words that walkStack (src/runtime/memory/gc.cpp) looks at: the global storage, the stack between the frame
-- pointer and the base, and the registers.
use bsqgc.Prelude.{
  ℕ, zero, suc, ◌+◌, ◌-◌, ◌*◌, ◌/◌, ◌^◌, ◌<◌, ◌≤◌, Bool, true, false, ◌&&◌, ◌||◌, ◌==◌, List, [],
  ◌∷◌, ◌++◌, map, length, ◌%◌, ltb, leb, if◌then◌else◌, ◌≡◌, ◌≢◌, ◌↔◌, ◌⊎◌, refl, sym, subst, ◌∙◌,
  ap, inl, inr, Bool-cases, arith, In, here, there, In-inv, In-append_left, In-append_right,
  In-append_inv,
}
use bsqgc.Gc.Roots.{
  RootSource, words_from, global_words, ptr_in_range, ptr_not_in_stack, process_register,
  loads_safely, load_frames, load_native_root_set,
}
use bsqgc.Support.PageTable.{PageTableInUseInfo}
use bsqgc.Memory.Page.{PageInfo}
use bsqgc.Gc.Roots.Words.{scanned_words}

-- A value that may be a pointer to an object, seen from place `curr` of the stack: an address of the range that
-- is not between `curr` and the base.
abbrev pub IsForeign : (base curr v : ℕ) → Type 0
IsForeign base curr v = (2 ^ 31 ≤ v) × (v ≤ 281_474_976_710_656) × ((v < curr) ⊎ (base < v))

-- The first place behind the base.
abbrev pub stop_of : (base rbp : ℕ) → ℕ
stop_of base rbp = if ltb base rbp then rbp else rbp + 8 * ((base - rbp) / 8 + 1)

abbrev pub InGlobals : RootSource → ℕ → Type 0
InGlobals src v =
    (k : ℕ) × (src.global_data.native_global_storage ≢ 0)
    × (src.global_data.native_global_storage + 8 * k < src.global_data.native_global_storage_end)
    × (src.global_word (src.global_data.native_global_storage + 8 * k) ≡ v)

abbrev pub InStack : RootSource → ℕ → Type 0
InStack src v =
    (k : ℕ) × (src.rbp + 8 * k ≤ src.native_stack_base)
    × IsForeign src.native_stack_base (src.rbp + 8 * k) v
    × (src.stack_word (src.rbp + 8 * k) ≡ v)

-- A register that may be a pointer, or the null pointer in place of another one.
abbrev pub InRegisters : RootSource → ℕ → Type 0
InRegisters src v =
    (r : ℕ) × In r src.registers
    × ((IsForeign src.native_stack_base (stop_of src.native_stack_base src.rbp) r × (r ≡ v))
        ⊎ (¬ (IsForeign src.native_stack_base (stop_of src.native_stack_base src.rbp) r) × (0 ≡ v)))

abbrev pub IsScanned : RootSource → ℕ → Type 0
IsScanned src v =
    InGlobals src v
    ⊎ ((src.disable_stack_refs_for_tests ≡ false) × (InStack src v ⊎ InRegisters src v))

foreign : (base curr v : ℕ) → Bool
foreign base curr v = ptr_in_range v && ptr_not_in_stack base curr v

foreign-IsForeign : (base curr v : ℕ) → foreign base curr v ≡ true → IsForeign base curr v
unfolding foreign ptr_in_range ptr_not_in_stack
foreign-IsForeign base curr v h = (
  ground arith,
  ground arith,
  elim (Bool-cases (ltb v curr)) [ inl e ↦ inl (ground arith) | inr e ↦ inr (ground arith) ],
)

IsForeign-foreign : (base curr v : ℕ) → IsForeign base curr v → foreign base curr v ≡ true
unfolding foreign ptr_in_range ptr_not_in_stack
IsForeign-foreign base curr v (lo, hi, inl lt) = ground arith
IsForeign-foreign base curr v (lo, hi, inr gt) = ground arith

-- The words of the global storage.
AtWord : (ℕ → ℕ) → (n c v : ℕ) → Type 0
AtWord word n c v = (k : ℕ) × (k < n) × (word (c + 8 * k) ≡ v)

In-words_from : (word : ℕ → ℕ) (n c v : ℕ) → In v (words_from n word c) → AtWord word n c v
unfolding words_from AtWord
In-words_from word zero c v i = elim i [ ]
In-words_from word (suc n) c v i = elim (In-inv i) [
  | inl e ↦ (0, omega arith, ap word (omega arith) ∙ e)
  | inr j ↦
      let (k, lt, e) = In-words_from word n (c + 8) v j in
      (suc k, omega arith, ap word (omega arith) ∙ e)
]

words_from-In :
    (word : ℕ → ℕ) (n c k v : ℕ) → k < n → word (c + 8 * k) ≡ v → In v (words_from n word c)
unfolding words_from
words_from-In word zero c k v lt e = absurd (omega arith)
words_from-In word (suc n) c zero v lt e =
    let at : word c ≡ v = ap word (omega arith) ∙ e in
    subst (λ u. In u (words_from (suc n) word c)) at here
words_from-In word (suc n) c (suc k) v lt e =
    there (words_from-In word n (c + 8) k v (omega arith) (ap word (omega arith) ∙ e))

-- The words of the stack.
AtFrame : (ℕ → ℕ) → (n base frame v : ℕ) → Type 0
AtFrame word n base frame v =
    (k : ℕ) × (k < n)
    × (frame + 8 * k ≤ base)
    × IsForeign base (frame + 8 * k) v
    × (word (frame + 8 * k) ≡ v)

AtFrame-next :
    (word : ℕ → ℕ) (n base frame v : ℕ)
    → AtFrame word n base (frame + 8) v
    → AtFrame word (suc n) base frame v
unfolding AtFrame
AtFrame-next word n base frame v (k, lt, le, f, e) =
    let next : frame + 8 + 8 * k ≡ frame + 8 * suc k = omega arith in
    (
      suc k,
      omega arith,
      omega arith,
      subst (λ a. IsForeign base a v) next f,
      subst (λ a. word a ≡ v) next e,
    )

In-frame :
    (word : ℕ → ℕ) (n base frame v : ℕ) (b c : Bool)
    → leb frame base ≡ b
    → foreign base frame (word frame) ≡ c
    → ((j : In v (load_frames n word base (frame + 8)).0) → AtFrame word n base (frame + 8) v)
    → In v
        (if b
          then (if c
              then (
                word frame ∷ (load_frames n word base (frame + 8)).0,
                (load_frames n word base (frame + 8)).1,
              )
              else load_frames n word base (frame + 8))
          else ([], frame)).0
    → AtFrame word (suc n) base frame v
unfolding AtFrame
In-frame word n base frame v false c le f rest i = elim i [ ]
In-frame word n base frame v true false le f rest i = AtFrame-next word n base frame v (rest i)
In-frame word n base frame v true true le f rest i = elim (In-inv i) [
  | inl e ↦
      let here_ : frame ≡ frame + 8 * 0 = omega arith in
      (
        0,
        omega arith,
        ground arith,
        subst (λ a. IsForeign base a v) here_
            (subst (λ u. IsForeign base frame u) e (foreign-IsForeign base frame (word frame) f)),
        subst (λ a. word a ≡ v) here_ e,
      )
  | inr j ↦ AtFrame-next word n base frame v (rest j)
]

In-load_frames :
    (word : ℕ → ℕ) (n base frame v : ℕ)
    → In v (load_frames n word base frame).0
    → AtFrame word n base frame v
unfolding load_frames foreign
In-load_frames word zero base frame v i = elim i [ ]
In-load_frames word (suc n) base frame v i =
    In-frame word n base frame v (leb frame base) (foreign base frame (word frame)) refl refl
      (λ j. In-load_frames word n base (frame + 8) v j) i

load_frames-In :
    (word : ℕ → ℕ) (n base frame k v : ℕ)
    → k < n
    → frame + 8 * k ≤ base
    → IsForeign base (frame + 8 * k) v
    → word (frame + 8 * k) ≡ v
    → In v (load_frames n word base frame).0
unfolding load_frames foreign
load_frames-In word zero base frame k v lt le f e = absurd (omega arith)
load_frames-In word (suc n) base frame zero v lt le f e =
    let at : frame + 8 * 0 ≡ frame = omega arith in
    let inside : leb frame base ≡ true = ground arith in
    let here_ : word frame ≡ v = subst (λ a. word a ≡ v) at e in
    let ok =
      IsForeign-foreign base frame (word frame)
        (subst (λ u. IsForeign base frame u) (sym here_) (subst (λ a. IsForeign base a v) at f)) in
    rw inside
      (rw ok (subst (λ u. In u (word frame ∷ (load_frames n word base (frame + 8)).0)) here_ here))
load_frames-In word (suc n) base frame (suc k) v lt le f e =
    let inside : leb frame base ≡ true = ground arith in
    let next : frame + 8 * suc k ≡ frame + 8 + 8 * k = omega arith in
    let rest =
      load_frames-In word n base (frame + 8) k v (omega arith) (omega arith)
        (subst (λ a. IsForeign base a v) next f) (subst (λ a. word a ≡ v) next e) in
    rw inside (elim (Bool-cases (foreign base frame (word frame))) [
      | inl g ↦ rw g (there rest)
      | inr g ↦ rw g rest
    ])

stop_next : (base frame : ℕ) → frame ≤ base → stop_of base (frame + 8) ≡ stop_of base frame
stop_next base frame le = elim (Bool-cases (ltb base (frame + 8))) [
  | inl e ↦
      let last : (base - frame) / 8 ≡ 0 = ground arith in
      let f : ltb base frame ≡ false = ground arith in rw (e, f, last) (omega arith)
  | inr e ↦
      let one : (base - (frame + 8)) / 8 + 1 ≡ (base - frame) / 8 = ground arith in
      let f : ltb base frame ≡ false = ground arith in rw (e, f) (omega arith)
]

load_frames-stop :
    (word : ℕ → ℕ) (n base frame : ℕ)
    → base < frame + 8 * n
    → (load_frames n word base frame).1 ≡ stop_of base frame
unfolding load_frames foreign
load_frames-stop word zero base frame lt = let e : ltb base frame ≡ true = ground arith in rw e refl
load_frames-stop word (suc n) base frame lt = elim (Bool-cases (leb frame base)) [
  | inl b ↦
      let ih =
        load_frames-stop word n base (frame + 8) (omega arith)
        ∙ stop_next base frame (ground arith) in
      rw b
        (elim (Bool-cases (foreign base frame (word frame))) [ inl g ↦ rw g ih | inr g ↦ rw g ih ])
  | inr b ↦ let e : ltb base frame ≡ true = ground arith in rw (b, e) refl
]

any_true : (a b : Bool) → (a || ((b || true) && true)) ≡ true
any_true true b = refl
any_true false true = refl
any_true false false = refl

-- No more words than there are places up to the base.
load_frames-length :
    (word : ℕ → ℕ) (n m base frame : ℕ)
    → base < frame + 8 * m
    → length (load_frames n word base frame).0 ≤ m
unfolding load_frames foreign
load_frames-length word zero m base frame lt = omega arith
load_frames-length word (suc n) zero base frame lt =
    let b : leb frame base ≡ false = ground arith in rw b (omega arith)
load_frames-length word (suc n) (suc m) base frame lt =
    let ih = load_frames-length word n m base (frame + 8) (omega arith) in
    elim (Bool-cases (leb frame base)) [
      | inl b ↦ rw b (elim (Bool-cases (foreign base frame (word frame))) [
        | inl g ↦ rw g (omega arith)
        | inr g ↦ rw g (omega arith)
      ])
      | inr b ↦ rw b (omega arith)
    ]

-- The frame pointer is aligned and at most 512 places below the base.
pub loads_safely-aligned :
    (src : RootSource)
    → src.rbp % 8 ≡ 0
    → src.native_stack_base < src.rbp + 8 * 512
    → loads_safely src ≡ true
unfolding loads_safely load_native_root_set
loads_safely-aligned src al near =
    let n = (src.native_stack_base - src.rbp) / 8 + 2 in
    let le = load_frames-length src.stack_word n 512 src.native_stack_base src.rbp near in
    let a : (src.rbp % 8 == 0) ≡ true = ground arith in
    let b : leb (length (load_frames n src.stack_word src.native_stack_base src.rbp).0) 512 ≡ true =
      ground arith in
    rw (a, b) (any_true src.disable_stack_refs_for_tests (ltb src.native_stack_base src.rbp))

In-map : (f : ℕ → ℕ) (xs : List ℕ) (v : ℕ) → In v (map f xs) → (r : ℕ) × In r xs × (f r ≡ v)
In-map f [] v i = elim i [ ]
In-map f (x ∷ xs) v i = elim (In-inv i) [
  | inl e ↦ (x, here, e)
  | inr j ↦ let (r, k, e) = In-map f xs v j in (r, there k, e)
]

map-In : (f : ℕ → ℕ) {r : ℕ} {xs : List ℕ} → In r xs → In (f r) (map f xs)
map-In f here = here
map-In f (there i) = there (map-In f i)

-- The registers, as they are kept.
RegisterAt : (base stop r v : ℕ) → Type 0
RegisterAt base stop r v = (IsForeign base stop r × (r ≡ v)) ⊎ (¬ (IsForeign base stop r) × (0 ≡ v))

clash : {b : Bool} → b ≡ false → b ≡ true → ⊥
clash f t = ground arith

register-RegisterAt :
    (base stop r v : ℕ) → process_register base stop r ≡ v → RegisterAt base stop r v
unfolding RegisterAt process_register foreign
register-RegisterAt base stop r v e = elim (Bool-cases (foreign base stop r)) [
  | inl g ↦ inl (foreign-IsForeign base stop r g, subst (λ b. (if b then r else 0) ≡ v) g e)
  | inr g ↦
      inr
        (λ f. clash g (IsForeign-foreign base stop r f), subst (λ b. (if b then r else 0) ≡ v) g e)
]

RegisterAt-register :
    (base stop r v : ℕ) → RegisterAt base stop r v → process_register base stop r ≡ v
unfolding RegisterAt process_register foreign
RegisterAt-register base stop r v (inl (f, e)) = rw (IsForeign-foreign base stop r f) e
RegisterAt-register base stop r v (inr (n, e)) = elim (Bool-cases (foreign base stop r)) [
  | inl g ↦ absurd (n (foreign-IsForeign base stop r g))
  | inr g ↦ rw g e
]

In-global_words :
    (src : RootSource) (v : ℕ)
    → In v (global_words src.global_data src.global_word)
    → InGlobals src v
unfolding global_words AtWord
In-global_words src v i =
    let s = src.global_data.native_global_storage in
    let e = src.global_data.native_global_storage_end in
    elim (Bool-cases (s == 0)) [
      | inl z ↦
          elim (subst (λ b. In v (if b then [] else words_from ((e + 7 - s) / 8) src.global_word s))
            z i) [ ]
      | inr z ↦
          let j =
            subst (λ b. In v (if b then [] else words_from ((e + 7 - s) / 8) src.global_word s)) z
              i in
          let (k, lt, at) = In-words_from src.global_word ((e + 7 - s) / 8) s v j in
          (k, ground arith, omega arith, at)
    ]

global_words-In :
    (src : RootSource) (v : ℕ)
    → InGlobals src v
    → In v (global_words src.global_data src.global_word)
unfolding global_words
global_words-In src v (k, ne, lt, e) =
    let z : (src.global_data.native_global_storage == 0) ≡ false = ground arith in
    rw z (words_from-In src.global_word _ _ k v (omega arith) e)

-- The words of a walk are these.
pub In-scanned_words :
    {F : Type 0} (table : PageTableInUseInfo) (pages : ℕ → PageInfo F) (src : RootSource) (v : ℕ)
    → In v (scanned_words table pages src) ↔ IsScanned src v
unfolding load_native_root_set AtFrame RegisterAt
In-scanned_words table pages src v =
    let base = src.native_stack_base in
    let n = (base - src.rbp) / 8 + 2 in
    let gs = global_words src.global_data src.global_word in
    let frames = load_frames n src.stack_word base src.rbp in
    let stop : frames.1 ≡ stop_of base src.rbp =
      load_frames-stop src.stack_word n base src.rbp (omega arith) in
    let regs = map (process_register base frames.1) src.registers in
    let rest = if src.disable_stack_refs_for_tests then [] else (frames.0 ++ regs) in
    (
      λ i. elim (In-append_inv gs i) [
        | inl g ↦ inl (In-global_words src v g)
        | inr j ↦ elim (Bool-cases src.disable_stack_refs_for_tests) [
          | inl d ↦ elim (subst (λ b. In v (if b then [] else (frames.0 ++ regs))) d j) [ ]
          | inr d ↦
              let k = subst (λ b. In v (if b then [] else (frames.0 ++ regs))) d j in
              inr (
                d,
                elim (In-append_inv frames.0 k) [
                  | inl a ↦
                      let (m, lt, le, f, at) = In-load_frames src.stack_word n base src.rbp v a in
                      inl (m, le, f, at)
                  | inr a ↦
                      let (r, b, e) = In-map (process_register base frames.1) src.registers v a in
                      inr (
                        r,
                        b,
                        register-RegisterAt base (stop_of base src.rbp) r v
                            (subst (λ c. process_register base c r ≡ v) stop e),
                      )
                ],
              )
        ]
      ],
      λ h. elim h [
        | inl g ↦ In-append_left rest (global_words-In src v g)
        | inr (d, inl (m, le, f, at)) ↦ In-append_right gs (
            subst (λ b. In v (if b then [] else (frames.0 ++ regs))) (sym d)
              (In-append_left regs
                (load_frames-In src.stack_word n base src.rbp m v (omega arith) le f at)))
        | inr (d, inr (r, b, at)) ↦
            let e =
              subst (λ c. process_register base c r ≡ v) (sym stop)
                (RegisterAt-register base (stop_of base src.rbp) r v at) in
            In-append_right gs (
              subst (λ b. In v (if b then [] else (frames.0 ++ regs))) (sym d)
                (In-append_right frames.0
                  (subst (λ u. In u regs) e (map-In (process_register base frames.1) b))))
      ],
    )
