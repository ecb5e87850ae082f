-- ===== src/Build/Exprs.antt =====
-- build/expr.rs and the pointers of build/function.rs: value and place expressions.
-- `none` is a panic.
use minirust.Prelude.{
  ℕ, Bool, true, false, ◌&&◌, List, [], ◌∷◌, Option, none, some, ◌>>=◌, length, ◌==◌, if◌then◌else◌,
}
use minirust.Prelude.Int.{ℤ, pos}
use minirust.Lang.Types.{unsigned, Ty, Fields, no_fields, field}
use minirust.Lang.Syntax.{
  Constant, IntUnOp, CastOp, UnOp, BinOp, ValueExpr, PlaceExpr, ValueExprs, no_exprs, expr,
}
use minirust.Build.Types.{TypeConv, u8, usize, unit_conv, raw_ptr, array_ty}

abbrev pub to_exprs : List ValueExpr → ValueExprs
to_exprs [] = no_exprs
to_exprs (e ∷ es) = expr e (to_exprs es)

abbrev pub count_fields : Fields → ℕ
count_fields no_fields = 0
count_fields (field _ _ fields) = minirust.Prelude.suc (count_fields fields)

unfoldable pub const_int : TypeConv → ℤ → ValueExpr
const_int t n = ValueExpr.constant (Constant.int n) t.get_type

unfoldable pub const_int_typed : TypeConv → ℤ → ValueExpr
const_int_typed t n = ValueExpr.constant (Constant.int n) t.get_type

unfoldable pub const_bool : Bool → ValueExpr
const_bool b = ValueExpr.constant (Constant.bool b) Ty.bool

unfoldable pub tuple : List ValueExpr → Ty → Option ValueExpr
tuple args (Ty.tuple sized_fields head rest) =
    if count_fields sized_fields == length args
    then some (ValueExpr.tuple (to_exprs args) (Ty.tuple sized_fields head rest))
    else none
tuple args _ = none

unfoldable pub array : List ValueExpr → Ty → ValueExpr
unfolding array_ty
array args elem_ty = ValueExpr.tuple (to_exprs args) (array_ty elem_ty (pos (length args)))

unfoldable pub variant : ℤ → ValueExpr → Ty → ValueExpr
variant discriminant value enum_ty = ValueExpr.variant discriminant value enum_ty

unfoldable pub get_discriminant : PlaceExpr → ValueExpr
get_discriminant place = ValueExpr.get_discriminant place

unfoldable pub unit : ValueExpr
unfolding unit_conv
unit = ValueExpr.tuple no_exprs unit_conv.get_type

unfoldable pub null : ValueExpr
unfolding unit_conv raw_ptr
null = ValueExpr.constant (Constant.pointer_without_provenance (pos 0)) (raw_ptr unit_conv).get_type

unfoldable pub load : PlaceExpr → ValueExpr
load p = ValueExpr.load p

unfoldable pub addr_of : PlaceExpr → Ty → Option ValueExpr
addr_of target ty = elim ty [ Ty.ptr ptr_ty ↦ some (ValueExpr.addr_of target ptr_ty) | _ ↦ none ]

unfoldable pub neg : ValueExpr → ValueExpr
neg v = ValueExpr.un_op (UnOp.int IntUnOp.neg) v

unfoldable pub bit_not : ValueExpr → ValueExpr
bit_not v = ValueExpr.un_op (UnOp.int IntUnOp.bit_not) v

unfoldable pub count_ones : ValueExpr → ValueExpr
count_ones v = ValueExpr.un_op (UnOp.int IntUnOp.count_ones) v

unfoldable pub int_cast : TypeConv → ValueExpr → Option ValueExpr
int_cast t v = elim t.get_type [
  | Ty.int ity ↦ some (ValueExpr.un_op (UnOp.cast (CastOp.int_to_int ity)) v)
  | _ ↦ none
]

unfoldable pub compute_size : Ty → ValueExpr → ValueExpr
compute_size ty v = ValueExpr.un_op (UnOp.compute_size ty) v

unfoldable pub compute_align : Ty → ValueExpr → ValueExpr
compute_align ty v = ValueExpr.un_op (UnOp.compute_align ty) v

unfoldable pub transmute : ValueExpr → Ty → ValueExpr
transmute v t = ValueExpr.un_op (UnOp.cast (CastOp.transmute t)) v

unfoldable pub ptr_addr : ValueExpr → ValueExpr
unfolding transmute
ptr_addr v = transmute v usize.get_type

unfoldable pub ptr_to_ptr : ValueExpr → Ty → Option ValueExpr
unfolding transmute
ptr_to_ptr v t = elim t [ Ty.ptr p ↦ some (transmute v (Ty.ptr p)) | _ ↦ none ]

-- `T::get_type() == u8::get_type()`
abbrev pub is_u8 : Ty → Bool
is_u8 (Ty.int ity) = elim ity.signed [ unsigned ↦ ity.size == 1 | _ ↦ false ]
is_u8 _ = false

unfoldable pub bool_to_int : TypeConv → ValueExpr → Option ValueExpr
unfolding transmute int_cast
bool_to_int t v =
    let int = transmute v u8.get_type in if is_u8 t.get_type then some int else int_cast t int

unfoldable pub get_thin_pointer : ValueExpr → ValueExpr
get_thin_pointer v = ValueExpr.un_op UnOp.get_thin_pointer v

unfoldable pub get_metadata : ValueExpr → ValueExpr
get_metadata v = ValueExpr.un_op UnOp.get_metadata v

unfoldable pub construct_wide_pointer : ValueExpr → ValueExpr → Ty → Option ValueExpr
construct_wide_pointer ptr meta ptr_ty = elim ptr_ty [
  | Ty.ptr p ↦ some (ValueExpr.bin_op (BinOp.construct_wide_pointer p) ptr meta)
  | _ ↦ none
]
