-- ===== src/Minimize/Enums.antt =====
-- tooling/minimize/src/enums.rs: the variants of an enum, and the discriminator that finds them.
-- The translation of the types of fields is an argument. `none` is a panic.
pub mod Bits
pub mod Decode
pub mod Tags
pub mod Laws
pub mod Described
pub mod Taggers
pub mod Roundtrip
use minirust.Prelude.{
  ℕ, ◌+◌, ◌-◌, ◌*◌, ◌^◌, Bool, true, false, List, [], ◌∷◌, Option, none, some, ◌>>=◌, get_elem?,
  if◌then◌else◌, ltb, ◌==◌,
}
use minirust.Prelude.Int.{ℤ, pos, negsuc, ◌+ℤ◌, ◌-ℤ◌, ltb_ℤ}
use minirust.Lang.Types.{
  signed, unsigned, IntType, Ty, Variants, no_variants, Discriminator, Children, no_children,
}
use minirust.Lang.Layout.{align_from_bytes}
use minirust.Build.Types.{tuple_ty, insert_variant, insert_child}
use minirust.Minimize.Program.{Ctxt}
use minirust.Minimize.Rust.{
  VariantDef, TyKind, TagEncoding, direct, niche, Tag, RsVariants, single, multiple, RsLayout,
  RsTypes,
}

abbrev pub translate_size : ℕ → ℕ
translate_size size = size

unfoldable pub translate_align : ℕ → Option ℕ
translate_align align = align_from_bytes align

-- `as i128`
abbrev pub as_i128 : ℕ → ℤ
as_i128 v = if ltb v (2 ^ 127) then pos v else negsuc (2 ^ 128 - v - 1)

unfoldable pub int_from_bits : RsTypes → ℕ → IntType → Option ℤ
int_from_bits q bits ity =
    let size = ity.size * 8 in
    if ltb size 256
    then some (elim ity.signed [
      | unsigned ↦ pos (q.truncate size bits)
      | signed ↦ as_i128 (q.sign_extend size bits)
    ])
    else none

-- The translation of a type
abbrev pub Translator : Type 0
Translator = ℕ → Ctxt → Option (Ty × Ctxt)

-- `let Type::Int(..) = .. else panic!`
unfoldable pub expect_int : Ty → Option IntType
expect_int (Ty.int ity) = some ity
expect_int _ = none

-- `translate_adt_variant_fields` from the i-th field on, given the offsets of the shape
unfoldable pub translate_fields :
    Translator → List ℕ → ℕ → List ℕ → Ctxt → Option (List (ℕ × Ty) × Ctxt)
translate_fields translate offsets i [] c = some ([], c)
translate_fields translate offsets i (field ∷ fields) c = do
  (ty, c₁) ← translate field c
  offset ← get_elem? offsets i
  (rest, c₂) ← translate_fields translate offsets (i + 1) fields c₁
  some ((translate_size offset, ty) ∷ rest, c₂)

unfoldable pub translate_adt_variant_fields :
    Translator → List ℕ → VariantDef → Ctxt → Option (List (ℕ × Ty) × Ctxt)
translate_adt_variant_fields translate shape variant c =
    translate_fields translate shape 0 variant.fields c

-- Of an enum: its size and alignment, the type of its discriminants, and the offset, the type and
-- the encoding of its tag
pub record Tagging : Type 0 where
  pub size : ℕ
  pub align : ℕ
  pub discriminant_ty : IntType
  pub tag_offset : ℕ
  pub tag_ty : IntType
  pub encoding : TagEncoding

-- The variants and the branches of the discriminator that are made so far
abbrev pub Parts : Type 0
Parts = Variants × Children

-- A variant with a tag, and the branch that knows it by the tag
unfoldable pub add_tagged : Tagging → ℤ → ℤ → List (ℕ × Ty) → Parts → Parts
add_tagged t discr_int tag_int fields parts = (
  insert_variant discr_int (tuple_ty fields t.size t.align)
      ((t.tag_offset, (t.tag_ty, tag_int)) ∷ []) parts.0,
  insert_child tag_int (tag_int +ℤ pos 1) (Discriminator.known discr_int) parts.1,
)

-- A variant without a tag
unfoldable pub add_untagged : Tagging → ℤ → List (ℕ × Ty) → Parts → Parts
add_untagged t discr_int fields parts =
    (insert_variant discr_int (tuple_ty fields t.size t.align) [] parts.0, parts.1)

-- The tag of a variant with a niche
unfoldable pub niche_tag : RsTypes → IntType → ℤ → ℕ → ℕ → ℤ
niche_tag q tag_ty discr_int niche_variants_start niche_start =
    q.bring_in_bounds tag_ty.signed tag_ty.size
      (discr_int -ℤ pos niche_variants_start +ℤ pos niche_start)

-- The `match tag_encoding` of the loop over the variants
unfoldable pub add_variant : RsTypes → Tagging → ℕ → ℕ → List (ℕ × Ty) → Parts → Option Parts
add_variant q t variant_idx discr fields parts = do
  discr_int ← int_from_bits q discr t.discriminant_ty
  elim t.encoding [
    | direct ↦ some (add_tagged t discr_int discr_int fields parts)
    | niche untagged_variant niche_variants_start niche_start ↦
        if untagged_variant == variant_idx
        then some (add_untagged t discr_int fields parts)
        else (do
          discr_int ← int_from_bits q discr t.tag_ty
          some (
              add_tagged t discr_int
                (niche_tag q t.tag_ty discr_int niche_variants_start niche_start) fields parts))
  ]

-- The loop over the variants, from the index `i` on
unfoldable pub translate_variants :
    RsTypes
    → Translator
    → Tagging
    → List (List ℕ)
    → ℕ
    → List VariantDef
    → Parts
    → Ctxt
    → Option (Parts × Ctxt)
translate_variants q translate t shapes i [] parts c = some (parts, c)
translate_variants q translate t shapes i (variant ∷ variants) parts c = do
  shape ← get_elem? shapes i
  (fields, c₁) ← translate_adt_variant_fields translate shape variant c
  parts₁ ← add_variant q t i variant.discr fields parts
  translate_variants q translate t shapes (i + 1) variants parts₁ c₁

abbrev pub tag_min : RsTypes → IntType → ℕ → ℤ
tag_min q tag_ty size = elim tag_ty.signed [
  | signed ↦ q.signed_int_min (size * 8)
  | unsigned ↦ pos 0
]

abbrev pub tag_max : RsTypes → IntType → ℕ → ℤ
tag_max q tag_ty size = elim tag_ty.signed [
  | signed ↦ q.signed_int_max (size * 8)
  | unsigned ↦ q.unsigned_int_max (size * 8)
]

-- A branch for a range of invalid tags, if it is not empty
abbrev pub add_invalid : Bool → ℤ → ℤ → Children → Children
add_invalid true a b branches = insert_child a b Discriminator.invalid branches
add_invalid false a b branches = branches

-- The branches for the tags outside the valid range
unfoldable pub add_invalid_tags : ℤ → ℤ → ℤ → ℤ → Children → Children
add_invalid_tags min max start end branches =
    if ltb_ℤ end start
    then add_invalid (ltb_ℤ (end +ℤ pos 1) start) (end +ℤ pos 1) start branches
    else add_invalid (ltb_ℤ min start) min start
        (add_invalid (ltb_ℤ end max) (end +ℤ pos 1) (max +ℤ pos 1) branches)

-- The fallback, and the branches with those for invalid tags
unfoldable pub fallback_of : RsTypes → Tagging → Tag → Children → Option (Discriminator × Children)
fallback_of q t tag branches = elim t.encoding [
  | direct ↦ some (Discriminator.invalid, branches)
  | niche untagged_variant _ _ ↦ (do
    start ← int_from_bits q tag.valid_start t.tag_ty
    end ← int_from_bits q tag.valid_end t.tag_ty
    some (
      Discriminator.known (pos untagged_variant),
      add_invalid_tags (tag_min q t.tag_ty tag.size) (tag_max q t.tag_ty tag.size) start end
          branches,
    ))
]

-- `translate_enum`, of one variant
unfoldable pub single_variant :
    Translator
    → RsLayout
    → List VariantDef
    → ℕ
    → ℕ
    → Ctxt
    → Option ((Variants × Discriminator) × Ctxt)
single_variant translate layout defs index align c = do
  variant ← get_elem? defs index
  (fields, c₁) ← translate_adt_variant_fields translate layout.offsets variant c
  some (
    (
      Variants.variant (pos 0) (tuple_ty fields (translate_size layout.size) align) [] no_variants,
      Discriminator.known (pos 0),
    ),
    c₁,
  )

abbrev pub tagging_of : RsLayout → ℕ → IntType → ℕ → IntType → TagEncoding → Tagging
tagging_of layout align discriminant_ty tag_offset tag_ty encoding = record {
  size = translate_size layout.size;
  align = align;
  discriminant_ty = discriminant_ty;
  tag_offset = translate_size tag_offset;
  tag_ty = tag_ty;
  encoding = encoding;
}

-- `translate_enum`, of more variants
unfoldable pub multiple_variants :
    RsTypes
    → Translator
    → RsLayout
    → List VariantDef
    → ℕ
    → IntType
    → Tag
    → TagEncoding
    → ℕ
    → List (List ℕ)
    → Ctxt
    → Option ((Variants × Discriminator) × Ctxt)
multiple_variants q translate layout defs align discriminant_ty tag encoding tag_field shapes c = do
  tag_offset ← get_elem? layout.offsets tag_field
  (tag_int_ty, c₁) ← translate tag.int_ty c
  tag_ty ← expect_int tag_int_ty
  let t = tagging_of layout align discriminant_ty tag_offset tag_ty encoding
  (parts, c₂) ← translate_variants q translate t shapes 0 defs (no_variants, no_children) c₁
  (fallback, branches) ← fallback_of q t tag parts.1
  some ((parts.0, Discriminator.branch (translate_size tag_offset) tag_ty fallback branches), c₂)

-- The match of `translate_enum` on the variants of the layout
unfoldable pub enum_variants :
    RsTypes
    → Translator
    → RsLayout
    → List VariantDef
    → ℕ
    → IntType
    → RsVariants
    → Ctxt
    → Option ((Variants × Discriminator) × Ctxt)
enum_variants q translate layout defs align discriminant_ty (single index) c =
    single_variant translate layout defs index align c
enum_variants q translate layout defs align discriminant_ty (multiple tag encoding tag_field shapes)
      c =
    multiple_variants q translate layout defs align discriminant_ty tag encoding tag_field shapes c

unfoldable pub translate_enum :
    RsTypes → Translator → ℕ → List VariantDef → Ctxt → Option (Ty × Ctxt)
translate_enum q translate ty defs c = do
  let layout = q.layout_of ty
  align ← translate_align layout.align
  (discriminant_int, c₁) ← translate (q.discriminant_ty ty) c
  discriminant_ty ← expect_int discriminant_int
  ((variants, discriminator), c₂) ←
      enum_variants q translate layout defs align discriminant_ty layout.variants c₁
  some (Ty.enum variants discriminant_ty discriminator (translate_size layout.size) align, c₂)

-- The kind is that of an enum, and so the assertion that it is one holds.
unfoldable pub discriminant_for_variant : RsTypes → Translator → ℕ → ℕ → Ctxt → Option (ℤ × Ctxt)
discriminant_for_variant q translate ty variant_idx c = elim (q.kind ty) [
  | TyKind.enum defs ↦ (do
    (discriminant_int, c₁) ← translate (q.discriminant_ty ty) c
    discriminant_ty ← expect_int discriminant_int
    variant ← get_elem? defs variant_idx
    discriminant ← int_from_bits q variant.discr discriminant_ty
    some (discriminant, c₁))
  | _ ↦ none
]
