-- ===== src/Build/Places.antt =====
-- build/expr.rs, build/function.rs: pointer arithmetic, names, place expressions and arguments.
use minirust.Prelude.{ℕ, Bool, true, false}
use minirust.Prelude.Int.{ℤ, pos}
use minirust.Lang.Types.{TraitName, PointerMetaKind, PtrType, Ty}
use minirust.Lang.Syntax.{
  FnName, VTableName, TraitMethodName, LocalName, GlobalName, Constant, UnOp, BinOp, ValueExpr,
  PlaceExpr, ArgumentExpr,
}
use minirust.Build.Types.{TypeConv, unit_conv, raw_ptr}

pub data InBounds : Type 0 where
  within anywhere : InBounds

-- `matches!(inbounds, InBounds::Yes)`
abbrev pub is_within : InBounds → Bool
is_within within = true
is_within anywhere = false

unfoldable pub ptr_offset : ValueExpr → ValueExpr → InBounds → ValueExpr
ptr_offset l r inbounds = ValueExpr.bin_op (BinOp.ptr_offset (is_within inbounds)) l r

unfoldable pub ptr_offset_from : ValueExpr → ValueExpr → InBounds → ValueExpr
ptr_offset_from l r inbounds =
    ValueExpr.bin_op (BinOp.ptr_offset_from (is_within inbounds) false) l r

unfoldable pub ptr_offset_from_nonneg : ValueExpr → ValueExpr → InBounds → ValueExpr
ptr_offset_from_nonneg l r inbounds =
    ValueExpr.bin_op (BinOp.ptr_offset_from (is_within inbounds) true) l r

unfoldable pub local_by_name : LocalName → PlaceExpr
local_by_name name = PlaceExpr.local name

unfoldable pub local : ℕ → PlaceExpr
unfolding local_by_name
local x = local_by_name x

unfoldable pub deref : ValueExpr → Ty → PlaceExpr
deref operand ty = PlaceExpr.deref operand ty

unfoldable pub global_by_name : TypeConv → GlobalName → PlaceExpr
unfolding deref
global_by_name t name =
    deref
      (ValueExpr.constant (Constant.global_pointer (record { name = name; offset = 0 }))
        (Ty.ptr (PtrType.raw PointerMetaKind.none)))
      t.get_type

unfoldable pub global : TypeConv → ℕ → PlaceExpr
unfolding global_by_name
global t x = global_by_name t x

unfoldable pub const_vtable : VTableName → TraitName → ValueExpr
const_vtable vtable_name trait_name =
    ValueExpr.constant (Constant.vtable_pointer vtable_name)
      (Ty.ptr (PtrType.vtable_ptr trait_name))

unfoldable pub vtable_method_lookup : ValueExpr → TraitMethodName → ValueExpr
vtable_method_lookup operand method = ValueExpr.un_op (UnOp.vtable_method_lookup method) operand

unfoldable pub field : PlaceExpr → ℤ → PlaceExpr
field root n = PlaceExpr.field root n

unfoldable pub index : PlaceExpr → ValueExpr → PlaceExpr
index root i = PlaceExpr.index root i

unfoldable pub downcast : PlaceExpr → ℤ → PlaceExpr
downcast root discriminant = PlaceExpr.downcast root discriminant

unfoldable pub unit_place : PlaceExpr
unfolding unit_conv raw_ptr
unit_place =
    PlaceExpr.deref
      (ValueExpr.constant (Constant.pointer_without_provenance (pos 1))
        (raw_ptr unit_conv).get_type)
      unit_conv.get_type

unfoldable pub by_value : ValueExpr → ArgumentExpr
by_value val = ArgumentExpr.by_value val

unfoldable pub in_place : PlaceExpr → ArgumentExpr
in_place arg = ArgumentExpr.in_place arg

unfoldable pub fn_ptr : FnName → ValueExpr
fn_ptr name = ValueExpr.constant (Constant.fn_pointer name) (Ty.ptr PtrType.fn_ptr)

unfoldable pub fn_ptr_internal : ℕ → ValueExpr
unfolding fn_ptr
fn_ptr_internal fn_name = fn_ptr fn_name
