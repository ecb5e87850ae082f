-- ===== src/Fmt/CompTypes.antt =====
-- tooling/miniutil/src/fmt/ty.rs: the definitions of the composite types, printed until no new one
-- is met. The loop runs on fuel: `none` is a panic or the end of the fuel.
use minirust.Prelude.{
  ℕ, zero, suc, List, [], ◌∷◌, ◌++◌, Option, none, some, length, get_elem?, ◌>>=◌,
}
use minirust.Lang.Types.{Ty, Fields, no_fields, Tail, no_tail, tail, Variants, no_variants}
use minirust.Lang.Layout.{x86_64, layout}
use minirust.Fmt.Text.{Text, ◌⧺◌, codes, fmt_nat, fmt_int}
use minirust.Fmt.Types.{
  CompTypes, to_string, fmt_int_type, fmt_layout_strategy, fmt_comptype_index, fmt_type,
}

unfoldable pub fmt_comptype_fields : Fields → CompTypes → Text × CompTypes
fmt_comptype_fields no_fields comptypes = ([], comptypes)
fmt_comptype_fields (Fields.field offset f fields) comptypes =
    let ty = fmt_type f comptypes in
    let rest = fmt_comptype_fields fields ty.1 in
    (
      codes "  at byte " ⧺ fmt_nat offset ⧺ codes ": " ⧺ to_string ty.0 ⧺ codes ",\n" ⧺ rest.0,
      rest.1,
    )

unfoldable pub fmt_comptype_chunks : List (ℕ × ℕ) → Text
fmt_comptype_chunks [] = []
fmt_comptype_chunks ((offset, size) ∷ chunks) =
    codes "  chunk(at="
    ⧺ fmt_nat offset
    ⧺ codes ", size="
    ⧺ fmt_nat size
    ⧺ codes "),\n"
    ⧺ fmt_comptype_chunks chunks

-- The unsized field of a tuple
unfoldable pub fmt_tail : Tail → CompTypes → Text × CompTypes
fmt_tail no_tail comptypes = ([], comptypes)
fmt_tail (tail unsized_ty) comptypes =
    let ty = fmt_type unsized_ty comptypes in
    (codes "  tail: " ⧺ to_string ty.0 ⧺ codes ",\n", ty.1)

-- The variants of an enum
unfoldable pub fmt_variants : Variants → CompTypes → Text × CompTypes
fmt_variants no_variants comptypes = ([], comptypes)
fmt_variants (Variants.variant discriminant ty _ variants) comptypes =
    let typ = fmt_type ty comptypes in
    let rest = fmt_variants variants typ.1 in
    (
      codes "  Variant "
          ⧺ fmt_int discriminant
          ⧺ codes ": "
          ⧺ to_string typ.0
          ⧺ codes "\n"
          ⧺ rest.0,
      rest.1,
    )

unfoldable pub keyword : Ty → Option Text
keyword (Ty.tuple _ _ _) = some (codes "tuple")
keyword (Ty.union _ _ _ _) = some (codes "union")
keyword (Ty.enum _ _ _ _ _) = some (codes "enum")
keyword _ = none

-- What stands between the braces of `fmt_comptype`
unfoldable pub fmt_comptype_body : Ty → CompTypes → Option (Text × CompTypes)
fmt_comptype_body (Ty.tuple sized_fields _ unsized_field) comptypes =
    let fields = fmt_comptype_fields sized_fields comptypes in
    let unsized = fmt_tail unsized_field fields.1 in some (fields.0 ⧺ unsized.0, unsized.1)
fmt_comptype_body (Ty.union fields chunks _ _) comptypes =
    let printed = fmt_comptype_fields fields comptypes in
    some (printed.0 ⧺ fmt_comptype_chunks chunks, printed.1)
fmt_comptype_body (Ty.enum variants discriminant_ty _ _ _) comptypes =
    let printed = fmt_variants variants comptypes in
    some
      (codes "  Discriminant: " ⧺ fmt_int_type discriminant_ty ⧺ codes "\n" ⧺ printed.0, printed.1)
fmt_comptype_body _ comptypes = none

unfoldable pub fmt_comptype : ℕ → Ty → CompTypes → Option (Text × CompTypes)
fmt_comptype i t comptypes = do
  kind ← keyword t
  strategy ← layout x86_64 t
  (body, comptypes₁) ← fmt_comptype_body t comptypes
  some (
    kind
        ⧺ codes " "
        ⧺ fmt_comptype_index i
        ⧺ codes " ("
        ⧺ fmt_layout_strategy strategy
        ⧺ codes ") {\n"
        ⧺ body
        ⧺ codes "}\n\n",
    comptypes₁,
  )

-- The loop of `fmt_comptypes` from the index `i` on: what it prints, and the list at its end
unfoldable pub fmt_comptypes_from : ℕ → ℕ → CompTypes → Option (Text × CompTypes)
fmt_comptypes_from zero i comptypes = none
fmt_comptypes_from (suc fuel) i comptypes = elim (get_elem? comptypes i) [
  | none ↦ some ([], comptypes)
  | some c ↦ (do
    (s, comptypes₁) ← fmt_comptype i c comptypes
    (rest, comptypes₂) ← fmt_comptypes_from fuel (suc i) comptypes₁
    some (s ⧺ rest, comptypes₂))
]

unfoldable mutual
  -- The composite types in a type, itself included
  pub parts : Ty → List Ty
  parts (Ty.array elem count) = parts elem
  parts (Ty.slice elem) = parts elem
  parts (Ty.tuple fields head rest) =
      Ty.tuple fields head rest ∷ (field_parts fields ++ tail_parts rest)
  parts (Ty.union fields chunks size align) = Ty.union fields chunks size align ∷ field_parts fields
  parts (Ty.enum variants ity discriminator size align) =
      Ty.enum variants ity discriminator size align ∷ variant_parts variants
  parts _ = []

  pub field_parts : Fields → List Ty
  field_parts no_fields = []
  field_parts (Fields.field _ ty fields) = parts ty ++ field_parts fields

  pub tail_parts : Tail → List Ty
  tail_parts no_tail = []
  tail_parts (tail ty) = parts ty

  pub variant_parts : Variants → List Ty
  variant_parts no_variants = []
  variant_parts (Variants.variant _ ty _ variants) = parts ty ++ variant_parts variants

-- The composite types in the types of a list
unfoldable pub all_parts : List Ty → List Ty
all_parts [] = []
all_parts (t ∷ ts) = parts t ++ all_parts ts

-- One round for each composite type that can be met, and one to see that none is left
unfoldable pub fmt_comptypes : CompTypes → Option Text
fmt_comptypes comptypes = do
  (out, _) ← fmt_comptypes_from (suc (length (all_parts comptypes))) 0 comptypes
  some out
