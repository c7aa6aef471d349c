-- ===== src/Memory/Allocator/Entry.antt =====
-- An entry of a free list that is allocated (src/runtime/memory/allocator.h): what has to hold before and after.
use bsqgc.Prelude.{
  ap, sym, ℕ, suc, ◌+◌, ◌%◌, ◌^◌, ◌<◌, Bool, true, false, List, ◌∷◌, ==_refl, ◌≡◌, ◌≢◌, refl, ◌∙◌,
  arith, All, All-mono,
}
use bsqgc.Common.{store, store_eq, store_ne, size_of_meta_data}
use bsqgc.Memory.Float.{FloatOps}
use bsqgc.Memory.Page.{canary_size, canary_value}
use bsqgc.Memory.Page.Chain.{Chain, Chain-store_ne, Chain-head}
use bsqgc.Memory.World.{GcAllocator, World}
use bsqgc.Memory.Allocator.{setup_meta}

-- None of the three words that are written in an entry: the canaries and the type pointer.
abbrev pub IsApart : (entry type_size a : ℕ) → Type 0
IsApart entry ts a = (entry ≢ a) × (entry + 16 ≢ a) × (entry + 40 + ts ≢ a)

-- The free list and the page of an allocation (`true`) and of an evacuation.
abbrev pub list_of : Bool → GcAllocator → ℕ
list_of true a = a.freelist
list_of false a = a.evacfreelist

abbrev pub page_of : Bool → GcAllocator → ℕ
page_of true a = a.alloc_page
page_of false a = a.evac_page

abbrev pub set_list : Bool → GcAllocator → ℕ → GcAllocator
set_list true a p = record a { freelist = p }
set_list false a p = record a { evacfreelist = p }

list_of-set_list : (young : Bool) (a : GcAllocator) (p : ℕ) → list_of young (set_list young a p) ≡ p
list_of-set_list true a p = refl
list_of-set_list false a p = refl

module _ {F : Type 0} where
  -- What an allocation from the head of a free list has to do; the rest of the list is `rest`.
  pub record IsAllocated (young : Bool) (s type entry : ℕ) (rest : List ℕ) (w : World F) (obj : ℕ)
      (w' : World F) : Type 0 where
    pub address : obj ≡ entry + canary_size + size_of_meta_data
    pub header : w'.metas obj ≡ setup_meta young
    pub others : (o : ℕ) → obj ≢ o → w'.metas o ≡ w.metas o
    pub typed : w'.word (entry + canary_size) ≡ type
    pub front_canary : w'.word entry ≡ canary_value
    pub back_canary : w'.word (obj + (w.type_info type).type_size) ≡ canary_value
    pub outside : (a : ℕ) → IsApart entry (w.type_info type).type_size a → w'.word a ≡ w.word a
    pub list : Chain w'.word (list_of young (w'.alloc s)) rest
    pub page_list : (w'.pages (page_of young (w.alloc s))).freelist ≡ list_of young (w'.alloc s)
    pub page_count :
        suc (w'.pages (page_of young (w.alloc s))).freecount
        ≡ (w.pages (page_of young (w.alloc s))).freecount
    pub allocator :
        w'.alloc ≡ store w.alloc s (set_list young (w.alloc s) (list_of young (w'.alloc s)))
    pub page :
        w'.pages
        ≡ store w.pages (page_of young (w.alloc s)) (record (w.pages (page_of young (w.alloc s))) {
          freelist = list_of young (w'.alloc s);
          freecount = (w'.pages (page_of young (w.alloc s))).freecount;
        })
    pub frame :
        w' ≡ record w { word = w'.word; metas = w'.metas; alloc = w'.alloc; pages = w'.pages }

module _ (fl : FloatOps) where
  unfoldable pub entry_after : Bool → World fl.F → (s type e : ℕ) → World fl.F
  entry_after young w s type e =
      let a = w.alloc s in
      let p = page_of young a in
      let page = w.pages p in
      record w {
        alloc = store w.alloc s (set_list young a (w.word e));
        pages = store w.pages p (record page {
          freelist = w.word page.freelist;
          freecount = (page.freecount + 65535) % 2 ^ 16;
        });
        word =
            store
              (store (store w.word e canary_value) (e + 16 + 24 + (w.type_info type).type_size)
                canary_value)
              (e + 16) type;
        metas = store w.metas (e + 16 + 24) (setup_meta young);
      }

  -- The words after the allocation.
  written :
      (word : ℕ → ℕ) (e ts type a : ℕ)
      → IsApart e ts a
      → store (store (store word e canary_value) (e + 16 + 24 + ts) canary_value) (e + 16) type a
        ≡ word a
  written word e ts type a apart =
      let w1 = store word e canary_value in
      let w2 = store w1 (e + 16 + 24 + ts) canary_value in
      store_ne w2 (e + 16) type a apart.1
      ∙ store_ne w1 (e + 16 + 24 + ts) canary_value a (let h = apart.2 in omega arith)
      ∙ store_ne word e canary_value a apart.0

  apart_1 : (e ts : ℕ) (xs : List ℕ) → All (IsApart e ts) xs → All (λ a. e ≢ a) xs
  apart_1 e ts xs = All-mono (IsApart e ts) (λ a. e ≢ a) xs (λ a h. h.0)

  apart_2 : (e ts : ℕ) (xs : List ℕ) → All (IsApart e ts) xs → All (λ a. e + 16 ≢ a) xs
  apart_2 e ts xs = All-mono (IsApart e ts) (λ a. e + 16 ≢ a) xs (λ a h. h.1)

  apart_3 : (e ts : ℕ) (xs : List ℕ) → All (IsApart e ts) xs → All (λ a. e + 16 + 24 + ts ≢ a) xs
  apart_3 e ts xs =
      All-mono (IsApart e ts) (λ a. e + 16 + 24 + ts ≢ a) xs (λ a h. let k = h.2 in omega arith)

  -- The rest of the list is not touched by what is written in the entry.
  rest_Chain :
      (word : ℕ → ℕ) (e ts type q : ℕ) (rest : List ℕ)
      → Chain word q rest
      → All (IsApart e ts) rest
      → Chain
          (store (store (store word e canary_value) (e + 16 + 24 + ts) canary_value) (e + 16) type)
          q
          rest
  rest_Chain word e ts type q rest c h =
      Chain-store_ne (e + 16) type
        (Chain-store_ne (e + 16 + 24 + ts) canary_value
          (Chain-store_ne e canary_value c (apart_1 e ts rest h)) (apart_3 e ts rest h))
        (apart_2 e ts rest h)

  -- What the theorems on both kinds of allocation ask for: a type of the allocator's size, a page, and a
  -- free list of at least one entry, on which the allocator and the page agree and whose other entries are
  -- not where the allocation writes.
  pub record HasEntry (young : Bool) (s type e : ℕ) (rest : List ℕ) (w : World fl.F) : Type 0 where
    pub size : (w.type_info type).type_size ≡ (w.alloc s).allocsize
    pub page : page_of young (w.alloc s) ≢ 0
    pub chain : Chain w.word (list_of young (w.alloc s)) (e ∷ rest)
    pub sync : (w.pages (page_of young (w.alloc s))).freelist ≡ list_of young (w.alloc s)
    pub some_free : 0 < (w.pages (page_of young (w.alloc s))).freecount
    pub count_bound : (w.pages (page_of young (w.alloc s))).freecount < 2 ^ 16
    pub apart : All (IsApart e (w.type_info type).type_size) rest

  pub entry_after-IsAllocated :
      (young : Bool) (s type e : ℕ) (rest : List ℕ) (w : World fl.F)
      → HasEntry young s type e rest w
      → IsAllocated young s type e rest w (e + 16 + 24) (entry_after young w s type e)
  unfolding entry_after
  entry_after-IsAllocated young s type e rest w h =
      let (head, fne, c) = Chain-head h.chain in
      let sync = h.sync ∙ head in
      let p = page_of young (w.alloc s) in
      let new_list : list_of young ((entry_after young w s type e).alloc s) ≡ w.word e =
        rw (==_refl s) (list_of-set_list young (w.alloc s) (w.word e)) in
      let list_eq : w.word (w.pages p).freelist
          ≡ list_of young ((entry_after young w s type e).alloc s) =
        ap w.word sync ∙ sym new_list in
      let count_eq : ((w.pages p).freecount + 65535) % 2 ^ 16
          ≡ ((entry_after young w s type e).pages p).freecount =
        rw (==_refl p) refl in
      record {
        address = refl;
        header = store_eq w.metas (e + 16 + 24) (setup_meta young);
        others = λ o ne. store_ne w.metas (e + 16 + 24) (setup_meta young) o ne;
        typed = rw (==_refl (e + 16)) refl;
        front_canary =
            store_ne
              (store (store w.word e canary_value) (e + 16 + 24 + (w.type_info type).type_size)
                canary_value)
              (e + 16) type e (omega arith)
            ∙ store_ne (store w.word e canary_value) (e + 16 + 24 + (w.type_info type).type_size)
                canary_value e (omega arith)
            ∙ store_eq w.word e canary_value;
        back_canary =
            store_ne
              (store (store w.word e canary_value) (e + 16 + 24 + (w.type_info type).type_size)
                canary_value)
              (e + 16) type (e + 16 + 24 + (w.type_info type).type_size) (omega arith)
            ∙ store_eq (store w.word e canary_value) (e + 16 + 24 + (w.type_info type).type_size)
                canary_value;
        outside = λ a d. written w.word e (w.type_info type).type_size type a d;
        list = rw (==_refl s) (
            rw (list_of-set_list young (w.alloc s) (w.word e))
              (rest_Chain w.word e (w.type_info type).type_size type (w.word e) rest c h.apart));
        page_list =
            rw (==_refl p)
              (rw (==_refl s) (rw (list_of-set_list young (w.alloc s) (w.word e), sync) refl));
        page_count = rw (==_refl p) (let k = h.some_free in let l = h.count_bound in omega arith);
        allocator = ap (λ v. store w.alloc s (set_list young (w.alloc s) v)) (sym new_list);
        page = λ k.
            store w.pages p (record (w.pages p) { freelist = list_eq k; freecount = count_eq k });
        frame = refl;
      }
