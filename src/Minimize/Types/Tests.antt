-- ===== src/Minimize/Types/Tests.antt =====
-- An enum with a niche, and a tuple that holds it, translated.
use minirust.Prelude.{
  ℕ, zero, suc, ◌+◌, ◌-◌, ◌%◌, ◌^◌, ◌≡◌, refl, sym, ap, true, false, Option, get_elem?, some_inj,
  [], ◌∷◌, none, some, if◌then◌else◌, ltb, ◌==◌, arith,
}
use minirust.Prelude.Int.{ℤ, pos, negsuc, ◌+ℤ◌, ◌-ℤ◌}
use minirust.Lang.Types.{
  signed, unsigned, IntType, Ty, Variants, no_variants, Discriminator, no_children, child,
}
use minirust.Lang.Layout.{align_from_bytes, is_power_of_two}
use minirust.Lang.Discriminants.{decode_discriminant}
use minirust.Build.Types.{tuple_ty}
use minirust.Minimize.Program.{Rustc, Ctxt}
use minirust.Minimize.Program.Translate.{empty_ctxt}
use minirust.Minimize.Rust.{VariantDef, TyKind, niche, Tag, single, multiple, RsLayout, RsTypes}
use minirust.Minimize.Enums.{
  Translator, Tagging, tagging_of, translate_align, int_from_bits, expect_int, translate_fields,
  translate_adt_variant_fields, add_tagged, add_untagged, niche_tag, add_variant,
  translate_variants, add_invalid_tags, fallback_of, multiple_variants, enum_variants,
  translate_enum,
}
use minirust.Minimize.Enums.Bits.{Represents, int_from_bits-Represents}
use minirust.Minimize.Enums.Laws.{valid_tag, IsTag}
use minirust.Minimize.Enums.Described.{tagger_of, documented_tag, number_of, AreIndices}
use minirust.Minimize.Enums.Roundtrip.{translate_enum-untagged}
use minirust.Minimize.Types.{translate_kind, translate_ty}
use minirust.Minimize.Types.Cache.{translate_ty_again}
use minirust.Minimize.Types.Fuel.{components, RanksBelow, translate_ty_fuel}

abbrev rustc : Rustc
rustc = record {
  dynamic = λ ty. none;
  has_principal = λ t. true;
  size_and_align = λ ty. none;
  vtable_entries = λ ty t. [];
  resolve_drop_in_place = λ ty. 0;
  first_method_vtable_slot = λ ty t. 3;
  own_entries = λ t. 0;
  drop_in_place_slot = 0;
  entry = 0;
}

abbrev none_def : VariantDef
none_def = record { fields = []; discr = 0 }

abbrev some_def : VariantDef
some_def = record { fields = 2 ∷ []; discr = 1 }

abbrev option_tag : Tag
option_tag = record { int_ty = 0; size = 1; valid_start = 0; valid_end = 2 }

abbrev plain_layout : RsLayout
plain_layout = record {
  size = 1;
  align = 1;
  offsets = 0 ∷ 1 ∷ [];
  is_sized = true;
  is_uninhabited = false;
  variants = single 0;
}

abbrev option_layout : RsLayout
option_layout = record plain_layout {
  variants = multiple option_tag (niche 1 0 2) 0 ([] ∷ (0 ∷ []) ∷ []);
}

abbrev kind_of : ℕ → TyKind
kind_of zero = TyKind.uint 1
kind_of (suc zero) = TyKind.enum (none_def ∷ some_def ∷ [])
kind_of (suc (suc zero)) = TyKind.bool
kind_of (suc (suc (suc n))) = TyKind.tuple (1 ∷ 0 ∷ [])

-- 0 is u8, 1 is Option<bool>, 2 is bool, and 3 is (Option<bool>, u8).
abbrev types : RsTypes
types = record {
  kind = kind_of;
  layout_of = λ ty. if ty == 1 then option_layout else plain_layout;
  is_freeze = λ ty. true;
  is_unpin = λ ty. true;
  discriminant_ty = λ ty. 0;
  truncate = λ w v. v % 2 ^ w;
  sign_extend =
      λ w v. if ltb (v % 2 ^ w) (2 ^ (w - 1)) then v % 2 ^ w else v % 2 ^ w + (2 ^ 128 - 2 ^ w);
  signed_int_min = λ w. negsuc (2 ^ (w - 1) - 1);
  signed_int_max = λ w. pos (2 ^ (w - 1) - 1);
  unsigned_int_max = λ w. pos (2 ^ w - 1);
  bring_in_bounds = λ s size i. i;
}

int_from_bits-Represents_example :
    (i : ℤ) × (int_from_bits types 255 (record { signed = signed; size = 1 }) ≡ some i)
    × Represents signed 8 255 i
int_from_bits-Represents_example =
    int_from_bits-Represents types 255 (record { signed = signed; size = 1 }) (λ w v le. refl)
      (λ w v lt le. refl) (omega arith) (omega arith)

abbrev u8 : IntType
u8 = record { signed = unsigned; size = 1 }

abbrev sub_types : Translator
sub_types = translate_ty rustc types 1

abbrev discriminator : Discriminator
discriminator = Discriminator.branch 0 u8 (Discriminator.known (pos 1)) (
    child (pos 2) (pos 3) (Discriminator.known (pos 0))
      (child (pos 3) (pos 256) Discriminator.invalid no_children))

abbrev option_variants : Variants
unfolding tuple_ty
option_variants =
    Variants.variant (pos 0) (tuple_ty [] 1 1) ((0, (u8, pos 2)) ∷ [])
      (Variants.variant (pos 1) (tuple_ty ((0, Ty.bool) ∷ []) 1 1) [] no_variants)

abbrev cached_u8 : Ctxt
cached_u8 = record empty_ctxt { ty_cache = (0, Ty.int u8) ∷ [] }

abbrev cached_both : Ctxt
cached_both = record empty_ctxt { ty_cache = (0, Ty.int u8) ∷ (2, Ty.bool) ∷ [] }

translate_option :
    translate_enum types sub_types 1 (none_def ∷ some_def ∷ []) empty_ctxt
    ≡ some (Ty.enum option_variants u8 discriminator 1 1, cached_both)
unfolding translate_ty translate_kind translate_enum enum_variants multiple_variants
    translate_variants translate_adt_variant_fields translate_fields add_variant add_tagged
    add_untagged niche_tag fallback_of add_invalid_tags int_from_bits expect_int translate_align
    align_from_bytes is_power_of_two tuple_ty ◌+ℤ◌ ◌-ℤ◌
translate_option = refl

one_aligned : translate_align 1 ≡ some 1
unfolding translate_align align_from_bytes is_power_of_two
one_aligned = refl

u8_first : sub_types 0 empty_ctxt ≡ some (Ty.int u8, cached_u8)
unfolding translate_ty translate_kind
u8_first = refl

u8_again : sub_types 0 cached_u8 ≡ some (Ty.int u8, cached_u8)
unfolding translate_ty translate_kind
u8_again = refl

abbrev tagging : Tagging
tagging = tagging_of option_layout 1 u8 0 u8 (niche 1 0 2)

three-IsTag : IsTag types tagging option_tag (pos 3)
unfolding IsTag
three-IsTag = (refl, refl)

abbrev doc : ℕ → VariantDef → Option (ℤ × ℤ)
doc i def = documented_tag types u8 u8 (niche 1 0 2) i def.discr

abbrev num : ℕ → VariantDef → Option ℤ
num i def = number_of types u8 u8 (niche 1 0 2) i def.discr

option_indices : AreIndices (niche 1 0 2) (none_def ∷ some_def ∷ [])
option_indices zero def at = ap (λ (v : VariantDef). v.discr) (sym (some_inj at))
option_indices (suc zero) def at = ap (λ (v : VariantDef). v.discr) (sym (some_inj at))
option_indices (suc (suc i)) def at = cc

some_number : num 1 some_def ≡ some (pos 1)
unfolding int_from_bits
some_number = refl

one_some :
    (j : ℕ) (def : VariantDef)
    → get_elem? (none_def ∷ some_def ∷ []) j ≡ some def
    → num j def ≡ some (pos 1)
    → j ≡ 1
unfolding int_from_bits
one_some zero def at h = cc
one_some (suc zero) def at h = refl
one_some (suc (suc j)) def at h = cc

no_three :
    (j : ℕ) (def : VariantDef) (d : ℤ)
    → get_elem? (none_def ∷ some_def ∷ []) j ≡ some def
    → doc j def ≡ some (pos 3, d)
    → ⊥
unfolding int_from_bits ◌+ℤ◌ ◌-ℤ◌
no_three zero def d at h = cc
no_three (suc zero) def d at h = cc
no_three (suc (suc j)) def d at h = cc

translate_enum-untagged_example :
    (tagger_of option_variants (pos 1) ≡ some [])
    × (decode_discriminant (λ offset ity. some (pos 3)) discriminator
        ≡ (if valid_tag types tagging option_tag (pos 3) then some (pos 1) else none))
translate_enum-untagged_example =
    translate_enum-untagged types sub_types (none_def ∷ some_def ∷ []) 1 option_tag (niche 1 0 2) 0
      ([] ∷ (0 ∷ []) ∷ []) empty_ctxt cached_u8 cached_u8 cached_both 0 1 1 1 u8 u8 u8
      option_variants discriminator refl translate_option one_aligned u8_first u8_again refl
      option_indices 1 0 2 some_def (pos 3) (λ offset ity. some (pos 3)) refl refl some_number
      one_some no_three refl three-IsTag

-- 2 is the tag of the variant 0, 0 and 1 are values of the variant 1, and 3 is invalid.
decoded :
    (decode_discriminant (λ offset ity. some (pos 2)) discriminator ≡ some (pos 0))
    × (decode_discriminant (λ offset ity. some (pos 1)) discriminator ≡ some (pos 1))
    × (decode_discriminant (λ offset ity. some (pos 3)) discriminator ≡ none)
unfolding decode_discriminant
decoded = (refl, refl, refl)

translate_ty_again_example : translate_ty rustc types 1 0 cached_u8 ≡ some (Ty.int u8, cached_u8)
translate_ty_again_example =
    translate_ty_again rustc types 1 0 0 empty_ctxt cached_u8 (Ty.int u8) u8_first

abbrev rank : ℕ → ℕ
rank zero = 0
rank (suc zero) = 1
rank (suc (suc zero)) = 0
rank (suc (suc (suc n))) = 2

types_finite : (ty : ℕ) → RanksBelow rank (rank ty) (components types ty (kind_of ty))
unfolding RanksBelow components
types_finite zero = tt
types_finite (suc zero) = (omega arith, (omega arith, (omega arith, tt)))
types_finite (suc (suc zero)) = tt
types_finite (suc (suc (suc n))) = (omega arith, (omega arith, tt))

translate_ty_fuel_example :
    translate_ty rustc types (3 + 4) 3 empty_ctxt ≡ translate_ty rustc types 3 3 empty_ctxt
translate_ty_fuel_example =
    translate_ty_fuel rustc types rank types_finite 3 4 3 empty_ctxt (omega arith)
