-- ===== src/Fmt/Brackets/Pieces.antt =====
-- ty.rs and expr.rs: the brackets of types, constants and operators.
use minirust.Prelude.{
  ℕ, Bool, true, false, ◌*◌, Option, none, some, List, [], ◌≡◌, refl, ◌==◌, Bool-cases, inl, inr,
}
use minirust.Prelude.Int.{ℤ, pos, ◌==ℤ◌}
use minirust.Lang.Types.{
  Ty, IntType, Signedness, signed, unsigned, mutable, immutable, PtrType, ref, box, raw, fn_ptr,
  vtable_ptr, PointerMetaKind, element_count, vtable_pointer, LayoutStrategy, sized, PointeeInfo,
}
use minirust.Lang.Syntax.{Relocation, Constant}
use minirust.Fmt.Text.{Text, ◌⧺◌, codes, fmt_nat}
use minirust.Fmt.Types.{
  FmtExpr, CompTypes, to_string, to_atomic_string, fmt_trait_name, sign_letter, fmt_int_type,
  fmt_meta_kind, fmt_packed, fmt_layout_strategy, flag, fmt_pointee_info, fmt_ptr_type,
  fmt_composite, fmt_comptype_index, fmt_type, get_comptype_index,
}
use minirust.Fmt.Exprs.{
  fmt_fn_name, fmt_vtable_name, fmt_trait_method_name, fmt_local_name, fmt_global_name,
  fmt_relocation, fmt_constant, call, generic_call, call_two, between,
}
use minirust.Fmt.Brackets.{
  IsBalanced, scan, scan-append, is_plain, append-IsBalanced, is_plain-IsBalanced,
  fmt_nat-IsBalanced, fmt_int-IsBalanced,
}

-- A word and a number
named-IsBalanced : (s : Text) (n : ℕ) → IsBalanced s → IsBalanced (s ⧺ fmt_nat n)
named-IsBalanced s n h = append-IsBalanced s (fmt_nat n) h (fmt_nat-IsBalanced n)

pub fmt_trait_name-IsBalanced : (n : ℕ) → IsBalanced (fmt_trait_name n)
unfolding fmt_trait_name IsBalanced scan
fmt_trait_name-IsBalanced n stack = simp (scan-append, fmt_nat-IsBalanced)

pub fmt_comptype_index-IsBalanced : (n : ℕ) → IsBalanced (fmt_comptype_index n)
unfolding fmt_comptype_index IsBalanced scan
fmt_comptype_index-IsBalanced n stack = simp (scan-append, fmt_nat-IsBalanced)

sign_letter-IsBalanced : (s : Signedness) → IsBalanced (sign_letter s)
sign_letter-IsBalanced signed = is_plain-IsBalanced (codes "i") refl
sign_letter-IsBalanced unsigned = is_plain-IsBalanced (codes "u") refl

pub fmt_int_type-IsBalanced : (t : IntType) → IsBalanced (fmt_int_type t)
unfolding fmt_int_type
fmt_int_type-IsBalanced t =
    named-IsBalanced (sign_letter t.signed) (t.size * 8) (sign_letter-IsBalanced t.signed)

fmt_meta_kind-IsBalanced : (k : PointerMetaKind) → IsBalanced (fmt_meta_kind k)
unfolding fmt_meta_kind IsBalanced scan
fmt_meta_kind-IsBalanced PointerMetaKind.none stack = refl
fmt_meta_kind-IsBalanced element_count stack = refl
fmt_meta_kind-IsBalanced (vtable_pointer name) stack = simp (scan-append, fmt_trait_name-IsBalanced)

fmt_packed-IsBalanced : (p : Option ℕ) → IsBalanced (fmt_packed p)
unfolding fmt_packed IsBalanced scan
fmt_packed-IsBalanced none stack = refl
fmt_packed-IsBalanced (some p) stack = simp (scan-append, fmt_nat-IsBalanced)

pub fmt_layout_strategy-IsBalanced : (l : LayoutStrategy) → IsBalanced (fmt_layout_strategy l)
unfolding fmt_layout_strategy IsBalanced scan
fmt_layout_strategy-IsBalanced (sized size align) stack = simp (scan-append, fmt_nat-IsBalanced)
fmt_layout_strategy-IsBalanced (LayoutStrategy.slice size align) stack =
    simp (scan-append, fmt_nat-IsBalanced)
fmt_layout_strategy-IsBalanced (LayoutStrategy.trait_object _) stack = refl
fmt_layout_strategy-IsBalanced (LayoutStrategy.tuple head rest) stack =
    simp
      (scan-append, fmt_nat-IsBalanced, fmt_packed-IsBalanced, fmt_layout_strategy-IsBalanced rest)

flag-IsBalanced : (b : Bool) (s : Text) → IsBalanced s → IsBalanced (flag b s)
flag-IsBalanced true s h = is_plain-IsBalanced [] refl
flag-IsBalanced false s h = h

fmt_pointee_info-IsBalanced : (p : PointeeInfo) → IsBalanced (fmt_pointee_info p)
unfolding fmt_pointee_info IsBalanced scan
fmt_pointee_info-IsBalanced p stack =
    let plain : (b : Bool) (s : Text)
        → is_plain s ≡ true
        → (st : List ℕ) → scan (flag b s) st ≡ some st =
      λ b s h. flag-IsBalanced b s (is_plain-IsBalanced s h) in
    simp (
      scan-append,
      fmt_meta_kind-IsBalanced,
      fmt_layout_strategy-IsBalanced,
      plain p.inhabited (codes ", uninhabited") refl,
      plain p.freeze (codes ", !Freeze") refl,
      plain p.unpin (codes ", !Unpin") refl,
    )

pub fmt_ptr_type-IsBalanced : (p : PtrType) → IsBalanced (to_string (fmt_ptr_type p))
unfolding fmt_ptr_type IsBalanced scan
fmt_ptr_type-IsBalanced (ref mutable pointee) stack =
    simp (scan-append, fmt_pointee_info-IsBalanced)
fmt_ptr_type-IsBalanced (ref immutable pointee) stack =
    simp (scan-append, fmt_pointee_info-IsBalanced)
fmt_ptr_type-IsBalanced (box pointee) stack = simp (scan-append, fmt_pointee_info-IsBalanced)
fmt_ptr_type-IsBalanced (raw kind) stack = simp (scan-append, fmt_meta_kind-IsBalanced)
fmt_ptr_type-IsBalanced fn_ptr stack = refl
fmt_ptr_type-IsBalanced (vtable_ptr _) stack = refl

pub fmt_type-IsBalanced : (t : Ty) (cs : CompTypes) → IsBalanced (to_string (fmt_type t cs).0)
unfolding fmt_type IsBalanced scan fmt_composite
fmt_type-IsBalanced (Ty.int ity) cs stack = fmt_int_type-IsBalanced ity stack
fmt_type-IsBalanced (Ty.ptr p) cs stack = fmt_ptr_type-IsBalanced p stack
fmt_type-IsBalanced Ty.bool cs stack = refl
fmt_type-IsBalanced (Ty.tuple fs head rest) cs stack =
    fmt_comptype_index-IsBalanced (get_comptype_index (Ty.tuple fs head rest) cs).0 stack
fmt_type-IsBalanced (Ty.union fs ch sz al) cs stack =
    fmt_comptype_index-IsBalanced (get_comptype_index (Ty.union fs ch sz al) cs).0 stack
fmt_type-IsBalanced (Ty.enum vs ity d sz al) cs stack =
    fmt_comptype_index-IsBalanced (get_comptype_index (Ty.enum vs ity d sz al) cs).0 stack
fmt_type-IsBalanced (Ty.array elem count) cs stack =
    simp (scan-append, fmt_type-IsBalanced elem cs, fmt_int-IsBalanced)
fmt_type-IsBalanced (Ty.slice elem) cs stack = simp (scan-append, fmt_type-IsBalanced elem cs)
fmt_type-IsBalanced (Ty.trait_object name) cs stack = simp (scan-append, fmt_trait_name-IsBalanced)

pub to_atomic_string-IsBalanced :
    (e : FmtExpr) → IsBalanced (to_string e) → IsBalanced (to_atomic_string e)
unfolding IsBalanced scan
to_atomic_string-IsBalanced (FmtExpr.atomic s) h stack = h stack
to_atomic_string-IsBalanced (FmtExpr.non_atomic s) h stack = simp (scan-append, h)

pub fmt_local_name-IsBalanced : (n : ℕ) → IsBalanced (fmt_local_name n)
unfolding fmt_local_name
fmt_local_name-IsBalanced n = named-IsBalanced (codes "_") n (is_plain-IsBalanced (codes "_") refl)

pub fmt_fn_name-IsBalanced : (n : ℕ) → IsBalanced (fmt_fn_name n)
unfolding fmt_fn_name
fmt_fn_name-IsBalanced n = named-IsBalanced (codes "f") n (is_plain-IsBalanced (codes "f") refl)

pub fmt_vtable_name-IsBalanced : (n : ℕ) → IsBalanced (fmt_vtable_name n)
unfolding fmt_vtable_name
fmt_vtable_name-IsBalanced n =
    named-IsBalanced (codes "vtable") n (is_plain-IsBalanced (codes "vtable") refl)

pub fmt_trait_method_name-IsBalanced : (n : ℕ) → IsBalanced (fmt_trait_method_name n)
unfolding fmt_trait_method_name
fmt_trait_method_name-IsBalanced n =
    named-IsBalanced (codes "m") n (is_plain-IsBalanced (codes "m") refl)

pub fmt_global_name-IsBalanced : (n : ℕ) → IsBalanced (fmt_global_name n)
unfolding fmt_global_name IsBalanced scan
fmt_global_name-IsBalanced n stack = simp (scan-append, fmt_nat-IsBalanced)

pub fmt_relocation-IsBalanced : (r : Relocation) → IsBalanced (to_string (fmt_relocation r))
unfolding fmt_relocation IsBalanced scan
fmt_relocation-IsBalanced r stack = elim (Bool-cases (r.offset == 0)) [
  | inl e ↦ rw e (fmt_global_name-IsBalanced r.name stack)
  | inr e ↦ rw e (simp (scan-append, fmt_global_name-IsBalanced, fmt_nat-IsBalanced))
]

fmt_address-IsBalanced :
    (i : ℤ) → IsBalanced (to_string (fmt_constant (Constant.pointer_without_provenance i)))
unfolding fmt_constant IsBalanced scan
fmt_address-IsBalanced i stack = elim (Bool-cases (i ==ℤ pos 0)) [
  | inl e ↦ rw e refl
  | inr e ↦ rw e (simp (scan-append, fmt_int-IsBalanced))
]

pub fmt_constant-IsBalanced : (c : Constant) → IsBalanced (to_string (fmt_constant c))
unfolding fmt_constant
fmt_constant-IsBalanced (Constant.int i) = fmt_int-IsBalanced i
fmt_constant-IsBalanced (Constant.bool true) = is_plain-IsBalanced (codes "true") refl
fmt_constant-IsBalanced (Constant.bool false) = is_plain-IsBalanced (codes "false") refl
fmt_constant-IsBalanced (Constant.global_pointer r) = fmt_relocation-IsBalanced r
fmt_constant-IsBalanced (Constant.fn_pointer n) = fmt_fn_name-IsBalanced n
fmt_constant-IsBalanced (Constant.vtable_pointer n) = fmt_vtable_name-IsBalanced n
fmt_constant-IsBalanced (Constant.pointer_without_provenance i) = fmt_address-IsBalanced i

module _ (name : Text) (named : is_plain name ≡ true) where
  pub call-IsBalanced : (s : Text) → IsBalanced s → IsBalanced (call name s)
  unfolding IsBalanced scan
  call-IsBalanced s h stack = simp (scan-append, is_plain-IsBalanced name named, h)

  pub generic_call-IsBalanced :
      (g s : Text) → IsBalanced g → IsBalanced s → IsBalanced (generic_call name g s)
  unfolding IsBalanced scan
  generic_call-IsBalanced g s k h stack = simp (scan-append, is_plain-IsBalanced name named, h, k)

  pub call_two-IsBalanced :
      (l r : Text) → IsBalanced l → IsBalanced r → IsBalanced (call_two name l r)
  unfolding IsBalanced scan
  call_two-IsBalanced l r h k stack = simp (scan-append, is_plain-IsBalanced name named, h, k)

  pub between-IsBalanced :
      (l r : Text) → IsBalanced l → IsBalanced r → IsBalanced (between name l r)
  unfolding IsBalanced scan
  between-IsBalanced l r h k stack = simp (scan-append, is_plain-IsBalanced name named, h, k)
