-- ===== src/Fmt/Types.antt =====
-- tooling/miniutil/src/fmt/ty.rs, and the names of vtables.rs and of expr.rs: types and the list
-- `comptypes` of the composite types that the printer has met.
-- The list is a `&mut Vec` in the source: here it goes in and comes out. `none` is a panic, or the
-- end of the fuel of `fmt_comptypes`, which is the number of rounds of its loop. Two types are equal
-- when they are built alike: a map inside a type stands for its entries in the order of its keys.
use native.Mathlib.Decide.{ℕ_discrete}
use minirust.Prelude.{
  Bool, true, false, if◌then◌else◌, ℕ, suc, ◌*◌, Bool, true, false, List, [], ◌∷◌, ◌++◌, Option,
  none, some, length, ◌>>=◌,
}
use minirust.Lang.Types.{
  TraitName, IntType, Signedness, signed, unsigned, mutable, immutable, PtrType, ref, box, raw,
  fn_ptr, vtable_ptr, PointerMetaKind, element_count, vtable_pointer, LayoutStrategy, sized,
  PointeeInfo, Ty,
}
use minirust.Lang.Layout.{layout_meta_kind}
use minirust.Fmt.Text.{Text, ◌⧺◌, codes, fmt_nat, fmt_int}

pub data FmtExpr : Type 0 where
  non_atomic atomic : Text → FmtExpr

abbrev pub to_string : FmtExpr → Text
to_string (FmtExpr.non_atomic s) = s
to_string (FmtExpr.atomic s) = s

abbrev pub to_atomic_string : FmtExpr → Text
to_atomic_string (FmtExpr.non_atomic s) = codes "(" ⧺ s ⧺ codes ")"
to_atomic_string (FmtExpr.atomic s) = s

abbrev pub CompTypes : Type 0
CompTypes = List Ty

unfoldable pub Ty-discrete : Discrete Ty
Ty-discrete = hlevel ℕ_discrete

unfoldable pub fmt_trait_name : TraitName → Text
fmt_trait_name trait_name = codes "trait" ⧺ fmt_nat trait_name

abbrev pub sign_letter : Signedness → Text
sign_letter signed = codes "i"
sign_letter unsigned = codes "u"

unfoldable pub fmt_int_type : IntType → Text
fmt_int_type int_ty = sign_letter int_ty.signed ⧺ fmt_nat (int_ty.size * 8)

unfoldable pub fmt_meta_kind : PointerMetaKind → Text
fmt_meta_kind PointerMetaKind.none = codes "thin"
fmt_meta_kind element_count = codes "meta=len"
fmt_meta_kind (vtable_pointer name) = codes "meta=vtable<" ⧺ fmt_trait_name name ⧺ codes ">"

unfoldable pub fmt_packed : Option ℕ → Text
fmt_packed none = []
fmt_packed (some packed) = codes ", packed=" ⧺ fmt_nat packed

unfoldable pub fmt_layout_strategy : LayoutStrategy → Text
fmt_layout_strategy (sized size align) =
    codes "size=" ⧺ fmt_nat size ⧺ codes ", align=" ⧺ fmt_nat align
fmt_layout_strategy (LayoutStrategy.slice size align) =
    codes "size=" ⧺ fmt_nat size ⧺ codes "*len, align=" ⧺ fmt_nat align
fmt_layout_strategy (LayoutStrategy.trait_object _) = codes "size,align={unknown}"
fmt_layout_strategy (LayoutStrategy.tuple head rest) =
    codes "head=(end="
    ⧺ fmt_nat head.end
    ⧺ codes ", align="
    ⧺ fmt_nat head.align
    ⧺ codes ")"
    ⧺ fmt_packed head.packed_align
    ⧺ codes ", tail=("
    ⧺ fmt_layout_strategy rest
    ⧺ codes ")"

abbrev pub flag : Bool → Text → Text
flag true s = []
flag false s = s

unfoldable pub fmt_pointee_info : PointeeInfo → Text
fmt_pointee_info pointee =
    codes "pointee_info("
    ⧺ fmt_meta_kind (layout_meta_kind pointee.layout)
    ⧺ codes ", "
    ⧺ fmt_layout_strategy pointee.layout
    ⧺ flag pointee.inhabited (codes ", uninhabited")
    ⧺ flag pointee.freeze (codes ", !Freeze")
    ⧺ flag pointee.unpin (codes ", !Unpin")
    ⧺ codes ")"

unfoldable pub fmt_ptr_type : PtrType → FmtExpr
fmt_ptr_type (ref mutable pointee) = FmtExpr.non_atomic (codes "&mut " ⧺ fmt_pointee_info pointee)
fmt_ptr_type (ref immutable pointee) = FmtExpr.non_atomic (codes "&" ⧺ fmt_pointee_info pointee)
fmt_ptr_type (box pointee) = FmtExpr.atomic (codes "Box<" ⧺ fmt_pointee_info pointee ⧺ codes ">")
fmt_ptr_type (raw kind) = FmtExpr.non_atomic (codes "*raw(" ⧺ fmt_meta_kind kind ⧺ codes ")")
fmt_ptr_type fn_ptr = FmtExpr.atomic (codes "fn()")
fmt_ptr_type (vtable_ptr _) = FmtExpr.atomic (codes "{vtable}")

abbrev pub is_yes {ℓ} : {A : Type ℓ} → Dec A → Bool
is_yes (yes _) = true
is_yes (no _) = false

-- `==` of composite types
unfoldable pub same_ty : Ty → Ty → Bool
same_ty x y = is_yes (Ty-discrete x y)

-- `iter().position(..)`
unfoldable pub position : Ty → CompTypes → Option ℕ
position ty [] = none
position ty (x ∷ xs) = if same_ty x ty then some 0 else (do i ← position ty xs; some (suc i))

unfoldable pub get_comptype_index : Ty → CompTypes → ℕ × CompTypes
get_comptype_index ty comptypes = elim (position ty comptypes) [
  | some i ↦ (i, comptypes)
  | none ↦ (length comptypes, comptypes ++ ty ∷ [])
]

unfoldable pub fmt_comptype_index : ℕ → Text
fmt_comptype_index id = codes "T" ⧺ fmt_nat id

-- `fmt_type` of a composite type
unfoldable pub fmt_composite : Ty → CompTypes → FmtExpr × CompTypes
fmt_composite t comptypes =
    let indexed = get_comptype_index t comptypes in
    (FmtExpr.atomic (fmt_comptype_index indexed.0), indexed.1)

unfoldable pub fmt_type : Ty → CompTypes → FmtExpr × CompTypes
fmt_type (Ty.int int_ty) comptypes = (FmtExpr.atomic (fmt_int_type int_ty), comptypes)
fmt_type (Ty.ptr ptr_ty) comptypes = (fmt_ptr_type ptr_ty, comptypes)
fmt_type Ty.bool comptypes = (FmtExpr.atomic (codes "bool"), comptypes)
fmt_type (Ty.tuple fs head rest) comptypes = fmt_composite (Ty.tuple fs head rest) comptypes
fmt_type (Ty.union fs chunks size align) comptypes =
    fmt_composite (Ty.union fs chunks size align) comptypes
fmt_type (Ty.enum vs ity discriminator size align) comptypes =
    fmt_composite (Ty.enum vs ity discriminator size align) comptypes
fmt_type (Ty.array elem count) comptypes =
    let printed = fmt_type elem comptypes in
    (
      FmtExpr.atomic (codes "[" ⧺ to_string printed.0 ⧺ codes "; " ⧺ fmt_int count ⧺ codes "]"),
      printed.1,
    )
fmt_type (Ty.slice elem) comptypes =
    let printed = fmt_type elem comptypes in
    (FmtExpr.atomic (codes "[" ⧺ to_string printed.0 ⧺ codes "]"), printed.1)
fmt_type (Ty.trait_object name) comptypes =
    (FmtExpr.atomic (codes "dyn " ⧺ fmt_trait_name name), comptypes)
