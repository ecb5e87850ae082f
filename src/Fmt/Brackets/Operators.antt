-- ===== src/Fmt/Brackets/Operators.antt =====
-- expr.rs: the brackets of operators on printed operands.
use minirust.Prelude.{Bool, true, false, some, List, [], ◌∷◌, ◌≡◌, refl}
use minirust.Lang.Types.{
  Mutability, mutable, immutable, Ty, mutable, immutable, PtrType, Mutability,
}
use minirust.Lang.Syntax.{
  neg, bit_not, count_ones, int_to_int, transmute, UnOp, IntBinOp, IntBinOpWithOverflow, RelOp,
  BinOp,
}
use minirust.Fmt.Text.{Text, ◌⧺◌, codes, join}
use minirust.Fmt.Types.{FmtExpr, CompTypes, to_string, to_atomic_string, fmt_int_type, fmt_type}
use minirust.Fmt.Exprs.{
  fmt_trait_method_name, fmt_un_op, fmt_int_bin_op, overflow_name, rel_name, offset_name,
  offset_from_name, fmt_bin_op, mutbl_prefix, fmt_tuple, fmt_addr_of,
}
use minirust.Fmt.Brackets.{
  IsBalanced, scan, is_plain, scan-append, append-IsBalanced, is_plain-IsBalanced,
}
use minirust.Fmt.Brackets.Pieces.{
  fmt_int_type-IsBalanced, fmt_type-IsBalanced, fmt_ptr_type-IsBalanced,
  fmt_trait_method_name-IsBalanced, to_atomic_string-IsBalanced, call-IsBalanced,
  generic_call-IsBalanced, call_two-IsBalanced, between-IsBalanced,
}

-- The operators whose text closes its bracket
unfoldable pub ClosesBracket : UnOp → Type 0
ClosesBracket (UnOp.int bit_not) = ⊥
ClosesBracket (UnOp.int count_ones) = ⊥
ClosesBracket _ = Unit

pub fmt_un_op-IsBalanced :
    (op : UnOp) (s : Text) (cs : CompTypes)
    → ClosesBracket op
    → IsBalanced s
    → IsBalanced (to_string (fmt_un_op op s cs).0)
unfolding fmt_un_op ClosesBracket
fmt_un_op-IsBalanced (UnOp.int neg) s cs c h = call-IsBalanced (codes "-") refl s h
fmt_un_op-IsBalanced (UnOp.int bit_not) s cs c h = absurd c
fmt_un_op-IsBalanced (UnOp.int count_ones) s cs c h = absurd c
fmt_un_op-IsBalanced (UnOp.cast (int_to_int t)) s cs c h =
    generic_call-IsBalanced (codes "int2int") refl (fmt_int_type t) s (fmt_int_type-IsBalanced t) h
fmt_un_op-IsBalanced (UnOp.cast (transmute t)) s cs c h =
    generic_call-IsBalanced (codes "transmute") refl (to_string (fmt_type t cs).0) s
      (fmt_type-IsBalanced t cs) h
fmt_un_op-IsBalanced UnOp.get_thin_pointer s cs c h =
    call-IsBalanced (codes "get_thin_ptr") refl s h
fmt_un_op-IsBalanced UnOp.get_metadata s cs c h = call-IsBalanced (codes "get_metadata") refl s h
fmt_un_op-IsBalanced (UnOp.compute_size t) s cs c h =
    generic_call-IsBalanced (codes "compute_size") refl (to_string (fmt_type t cs).0) s
      (fmt_type-IsBalanced t cs) h
fmt_un_op-IsBalanced (UnOp.compute_align t) s cs c h =
    generic_call-IsBalanced (codes "compute_align") refl (to_string (fmt_type t cs).0) s
      (fmt_type-IsBalanced t cs) h
fmt_un_op-IsBalanced (UnOp.vtable_method_lookup m) s cs c h =
    generic_call-IsBalanced (codes "vtable_lookup") refl (fmt_trait_method_name m) s
      (fmt_trait_method_name-IsBalanced m) h

fmt_int_bin_op-IsBalanced :
    (op : IntBinOp) (l r : Text)
    → IsBalanced l
    → IsBalanced r
    → IsBalanced (to_string (fmt_int_bin_op op l r))
unfolding fmt_int_bin_op
fmt_int_bin_op-IsBalanced IntBinOp.add l r h k = between-IsBalanced (codes "+") refl l r h k
fmt_int_bin_op-IsBalanced IntBinOp.sub l r h k = between-IsBalanced (codes "-") refl l r h k
fmt_int_bin_op-IsBalanced IntBinOp.mul l r h k = between-IsBalanced (codes "*") refl l r h k
fmt_int_bin_op-IsBalanced IntBinOp.div l r h k = between-IsBalanced (codes "/") refl l r h k
fmt_int_bin_op-IsBalanced IntBinOp.rem l r h k = between-IsBalanced (codes "%") refl l r h k
fmt_int_bin_op-IsBalanced IntBinOp.shl l r h k = between-IsBalanced (codes "<<") refl l r h k
fmt_int_bin_op-IsBalanced IntBinOp.shr l r h k = between-IsBalanced (codes ">>") refl l r h k
fmt_int_bin_op-IsBalanced IntBinOp.bit_and l r h k = between-IsBalanced (codes "&") refl l r h k
fmt_int_bin_op-IsBalanced IntBinOp.bit_or l r h k = between-IsBalanced (codes "|") refl l r h k
fmt_int_bin_op-IsBalanced IntBinOp.bit_xor l r h k = between-IsBalanced (codes "^") refl l r h k
fmt_int_bin_op-IsBalanced IntBinOp.add_unchecked l r h k =
    call_two-IsBalanced (codes "AddUnchecked") refl l r h k
fmt_int_bin_op-IsBalanced IntBinOp.sub_unchecked l r h k =
    call_two-IsBalanced (codes "SubUnchecked") refl l r h k
fmt_int_bin_op-IsBalanced IntBinOp.mul_unchecked l r h k =
    call_two-IsBalanced (codes "MulUnchecked") refl l r h k
fmt_int_bin_op-IsBalanced IntBinOp.div_exact l r h k =
    call_two-IsBalanced (codes "DivExact") refl l r h k
fmt_int_bin_op-IsBalanced IntBinOp.shl_unchecked l r h k =
    call_two-IsBalanced (codes "ShlUnchecked") refl l r h k
fmt_int_bin_op-IsBalanced IntBinOp.shr_unchecked l r h k =
    call_two-IsBalanced (codes "ShrUnchecked") refl l r h k

overflow_name-is_plain :
    (op : IntBinOpWithOverflow) → is_plain (overflow_name op ⧺ codes "WithOverflow") ≡ true
overflow_name-is_plain IntBinOpWithOverflow.add = refl
overflow_name-is_plain IntBinOpWithOverflow.sub = refl
overflow_name-is_plain IntBinOpWithOverflow.mul = refl

rel_name-is_plain : (op : RelOp) → is_plain (rel_name op) ≡ true
rel_name-is_plain RelOp.lt = refl
rel_name-is_plain RelOp.gt = refl
rel_name-is_plain RelOp.le = refl
rel_name-is_plain RelOp.ge = refl
rel_name-is_plain RelOp.eq = refl
rel_name-is_plain RelOp.ne = refl
rel_name-is_plain RelOp.cmp = refl

offset_name-is_plain : (b : Bool) → is_plain (offset_name b) ≡ true
offset_name-is_plain true = refl
offset_name-is_plain false = refl

offset_from_name-is_plain : (b c : Bool) → is_plain (offset_from_name b c) ≡ true
offset_from_name-is_plain true true = refl
offset_from_name-is_plain true false = refl
offset_from_name-is_plain false true = refl
offset_from_name-is_plain false false = refl

pub fmt_bin_op-IsBalanced :
    (op : BinOp) (l r : FmtExpr)
    → IsBalanced (to_string l)
    → IsBalanced (to_string r)
    → IsBalanced (to_string (fmt_bin_op op l r))
unfolding fmt_bin_op IsBalanced scan
fmt_bin_op-IsBalanced (BinOp.int op) l r h k stack =
    fmt_int_bin_op-IsBalanced op (to_atomic_string l) (to_atomic_string r)
      (to_atomic_string-IsBalanced l h) (to_atomic_string-IsBalanced r k) stack
fmt_bin_op-IsBalanced (BinOp.int_with_overflow op) l r h k stack =
    call_two-IsBalanced (overflow_name op ⧺ codes "WithOverflow") (overflow_name-is_plain op)
      (to_atomic_string l) (to_atomic_string r) (to_atomic_string-IsBalanced l h)
      (to_atomic_string-IsBalanced r k) stack
fmt_bin_op-IsBalanced (BinOp.rel op) l r h k stack =
    between-IsBalanced (rel_name op) (rel_name-is_plain op) (to_atomic_string l)
      (to_atomic_string r) (to_atomic_string-IsBalanced l h) (to_atomic_string-IsBalanced r k) stack
fmt_bin_op-IsBalanced (BinOp.ptr_offset b) l r h k stack =
    call_two-IsBalanced (offset_name b) (offset_name-is_plain b) (to_string l) (to_string r) h k
      stack
fmt_bin_op-IsBalanced (BinOp.ptr_offset_from b c) l r h k stack =
    call_two-IsBalanced (offset_from_name b c) (offset_from_name-is_plain b c) (to_string l)
      (to_string r) h k stack
fmt_bin_op-IsBalanced (BinOp.construct_wide_pointer p) l r h k stack =
    simp (scan-append, fmt_ptr_type-IsBalanced p, h, k)

squares-IsBalanced : (s : Text) → IsBalanced s → IsBalanced (codes "[" ⧺ s ⧺ codes "]")
unfolding IsBalanced scan
squares-IsBalanced s h stack = simp (scan-append, h)

raw-IsBalanced : (s : Text) → IsBalanced s → IsBalanced (codes "&raw " ⧺ s)
unfolding IsBalanced scan
raw-IsBalanced s h stack = simp (scan-append, h)

reference-IsBalanced :
    (m : Mutability) (s : Text) → IsBalanced s → IsBalanced (codes "&" ⧺ mutbl_prefix m ⧺ s)
unfolding IsBalanced scan
reference-IsBalanced mutable s h stack = simp (scan-append, h)
reference-IsBalanced immutable s h stack = simp (scan-append, h)

-- The types of a tuple expression
unfoldable pub IsTupleType : Ty → Type 0
IsTupleType (Ty.array _ _) = Unit
IsTupleType (Ty.tuple _ _ _) = Unit
IsTupleType _ = ⊥

pub fmt_tuple_total :
    (t : Ty) (s : Text)
    → IsTupleType t
    → (e : FmtExpr) × (fmt_tuple t s ≡ some e) × (IsBalanced s → IsBalanced (to_string e))
unfolding fmt_tuple IsTupleType
fmt_tuple_total (Ty.array _ _) s h =
    (FmtExpr.atomic (codes "[" ⧺ s ⧺ codes "]"), refl, squares-IsBalanced s)
fmt_tuple_total (Ty.tuple _ _ _) s h =
    (FmtExpr.atomic (codes "(" ⧺ s ⧺ codes ")"), refl, call-IsBalanced [] refl s)
fmt_tuple_total (Ty.int _) s h = absurd h
fmt_tuple_total Ty.bool s h = absurd h
fmt_tuple_total (Ty.ptr _) s h = absurd h
fmt_tuple_total (Ty.slice _) s h = absurd h
fmt_tuple_total (Ty.union _ _ _ _) s h = absurd h
fmt_tuple_total (Ty.enum _ _ _ _ _) s h = absurd h
fmt_tuple_total (Ty.trait_object _) s h = absurd h

-- The pointer types of an `AddrOf`
unfoldable pub IsAddrOfType : PtrType → Type 0
IsAddrOfType (PtrType.raw _) = Unit
IsAddrOfType (PtrType.ref _ _) = Unit
IsAddrOfType _ = ⊥

pub fmt_addr_of_total :
    (p : PtrType) (target : FmtExpr)
    → IsAddrOfType p
    → (e : FmtExpr) × (fmt_addr_of p target ≡ some e)
      × (IsBalanced (to_string target) → IsBalanced (to_string e))
unfolding fmt_addr_of IsAddrOfType
fmt_addr_of_total (PtrType.raw _) target h = (
  FmtExpr.non_atomic (codes "&raw " ⧺ to_atomic_string target),
  refl,
  λ b. raw-IsBalanced (to_atomic_string target) (to_atomic_string-IsBalanced target b),
)
fmt_addr_of_total (PtrType.ref m _) target h = (
  FmtExpr.non_atomic (codes "&" ⧺ mutbl_prefix m ⧺ to_atomic_string target),
  refl,
  λ b. reference-IsBalanced m (to_atomic_string target) (to_atomic_string-IsBalanced target b),
)
fmt_addr_of_total (PtrType.box _) target h = absurd h
fmt_addr_of_total PtrType.fn_ptr target h = absurd h
fmt_addr_of_total (PtrType.vtable_ptr _) target h = absurd h

-- The texts are balanced.
unfoldable pub AllBalanced : List Text → Type 0
AllBalanced [] = Unit
AllBalanced (s ∷ ts) = IsBalanced s × AllBalanced ts

pub join-IsBalanced :
    (sep : Text) (ts : List Text) → IsBalanced sep → AllBalanced ts → IsBalanced (join sep ts)
unfolding join AllBalanced
join-IsBalanced sep [] h b = is_plain-IsBalanced [] refl
join-IsBalanced sep (s ∷ []) h (b, _) = b
join-IsBalanced sep (s ∷ t ∷ ts) h (b, bs) =
    append-IsBalanced s (sep ⧺ join sep (t ∷ ts)) b
      (append-IsBalanced sep (join sep (t ∷ ts)) h (join-IsBalanced sep (t ∷ ts) h bs))

pub nil-AllBalanced : AllBalanced []
unfolding AllBalanced
nil-AllBalanced = tt

pub cons-AllBalanced :
    (s : Text) (ts : List Text) → IsBalanced s → AllBalanced ts → AllBalanced (s ∷ ts)
unfolding AllBalanced
cons-AllBalanced s ts b bs = (b, bs)
