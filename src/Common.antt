-- ===== src/Common.antt =====
-- src/runtime/common.h and src/language/bsqtype.h: the constants, the object header with its macros, the
-- type descriptors, and the memory that the collector reads.
--
-- Memory is split by use. `word` holds the 8-byte words by address (slots of objects, links of
-- free lists, and the type pointer that opens each header); the rest of a header is a `MetaData`
-- record. A header is found by the address of the object that it precedes, as
-- GC_GET_META_DATA_ADDR computes it, so `metas o` is the header at `o - sizeof(MetaData)`.
use bsqgc.Prelude.{
  ℕ, suc, ◌+◌, ◌-◌, ◌%◌, ◌^◌, Bool, true, false, not, ◌&&◌, ◌||◌, Option, List, ◌==◌, ==_refl, ◌≡◌,
  ◌≢◌, refl, ap, ◌∙◌, arith, if◌then◌else◌, inl, inr, Bool-cases,
}

abbrev pub block_allocation_size : ℕ
block_allocation_size = 4096

-- A type pointer, four flags and two 32-bit numbers, padded to a multiple of 8.
abbrev pub size_of_meta_data : ℕ
size_of_meta_data = 24

abbrev pub max_fwd_index : ℕ
max_fwd_index = 0xffff_ffff

abbrev pub word_mod : ℕ
word_mod = 2 ^ 64

pub record MetaData : Type 0 where
  pub isalloc : Bool
  pub isyoung : Bool
  pub ismarked : Bool
  pub isroot : Bool
  pub forward_index : ℕ
  pub ref_count : ℕ

-- The characters of the mask are numbers; `none` is LEAF_PTR_MASK.
pub record TypeInfoBase : Type 0 where
  pub type_id : ℕ
  pub type_size : ℕ
  pub slot_size : ℕ
  pub ptr_mask : Option (List ℕ)
  pub typekey : ℕ

pub record Memory : Type 0 where
  pub word : ℕ → ℕ
  pub type_info : ℕ → TypeInfoBase

abbrev pub Metas : Type 0
Metas = ℕ → MetaData

-- Writes through a pointer.
abbrev pub store {ℓ} : {A : Type ℓ} → (ℕ → A) → ℕ → A → ℕ → A
store f a v b = if a == b then v else f b

pub store_eq {ℓ} : {A : Type ℓ} (f : ℕ → A) (a : ℕ) (v : A) → store f a v a ≡ v
store_eq f a v = rw (==_refl a) refl

pub store_ne {ℓ} : {A : Type ℓ} (f : ℕ → A) (a : ℕ) (v : A) (b : ℕ) → a ≢ b → store f a v b ≡ f b
store_ne f a v b ne = let e : (a == b) ≡ false = ground arith in rw e refl

-- A write that leaves a field as it is.
pub store_field :
    {A B : Type 0} (field : A → B) (f : ℕ → A) (a : ℕ) (v : A) (b : ℕ)
    → field v ≡ field (f a)
    → field (store f a v b) ≡ field (f b)
store_field field f a v b h = elim (Bool-cases (a == b)) [
  | inl e ↦ let eq : a ≡ b = ground arith in rw e (h ∙ ap (λ c. field (f c)) eq)
  | inr e ↦ rw e refl
]

-- RESET_METADATA_FOR_OBJECT, less the type pointer, which is the word in front of it.
abbrev pub reset_meta : ℕ → MetaData
reset_meta fp = record {
  isalloc = false;
  isyoung = false;
  ismarked = false;
  isroot = false;
  forward_index = fp;
  ref_count = 0;
}

abbrev pub gc_should_visit : MetaData → Bool
gc_should_visit m = m.isyoung && not m.ismarked

abbrev pub gc_should_process_as_root : MetaData → Bool
gc_should_process_as_root m = m.isalloc && not m.isroot

abbrev pub gc_mark_as_root : MetaData → MetaData
gc_mark_as_root m = record m { isroot = true }

abbrev pub gc_mark_as_marked : MetaData → MetaData
gc_mark_as_marked m = record m { ismarked = true }

abbrev pub gc_clear_young_mark : MetaData → MetaData
gc_clear_young_mark m = record m { isyoung = false }

abbrev pub gc_clear_root_mark : MetaData → MetaData
gc_clear_root_mark m = record m { ismarked = false; isroot = false }

unfoldable pub gc_should_free_list_add : MetaData → Bool
gc_should_free_list_add m =
    not m.isalloc || (m.ref_count == 0 && not m.isroot) || (not m.isroot && not m.ismarked)

-- GC_TYPE(O): the descriptor that the first word of the header points to.
abbrev pub gc_type : Memory → ℕ → TypeInfoBase
gc_type mem o = mem.type_info (mem.word ((o + word_mod - size_of_meta_data) % word_mod))

abbrev pub ptr_mask_ptr : ℕ
ptr_mask_ptr = b'1'

abbrev pub ptr_mask_string : ℕ
ptr_mask_string = b'2'

-- PTR_MASK_STRING_AND_SLOT_PTR_VALUED: an inline string has its length in the low 3 bits.
abbrev pub string_and_ptr_valued : ℕ → ℕ → Bool
string_and_ptr_valued m v = (m == ptr_mask_string) && (v % 8 == 0)

-- xmem_zerofill and xmem_copy, `n` words from an address on.
unfoldable pub xmem_zerofill : (ℕ → ℕ) → ℕ → ℕ → ℕ → ℕ
xmem_zerofill word obj ℕ.zero = word
xmem_zerofill word obj (suc n) = xmem_zerofill (store word obj 0) (obj + 8) n

unfoldable pub xmem_copy : (ℕ → ℕ) → (src trgt n : ℕ) → ℕ → ℕ
xmem_copy word src trgt ℕ.zero = word
xmem_copy word src trgt (suc n) = xmem_copy (store word trgt (word src)) (src + 8) (trgt + 8) n
