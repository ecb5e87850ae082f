-- ===== src/Fmt/Functions.antt =====
-- tooling/miniutil/src/fmt/function.rs: statements, terminators, blocks and functions.
use minirust.Prelude.{List, [], ◌∷◌, ◌++◌, Option, none, some, map, ◌>>=◌, if◌then◌else◌, ◌==◌}
use minirust.Prelude.Int.{ℤ}
use minirust.Lang.Types.{Ty}
use minirust.Lang.Syntax.{
  FnName, LocalName, BbName, ValueExpr, PlaceExpr, Statement, ArgumentExpr, by_value, in_place,
  CallingConvention, rust, c, IntrinsicLockOp, IntrinsicOp, IntBinOp, Terminator, return_,
  BasicBlock, Function, Program,
}
use minirust.Fmt.Text.{Text, ◌⧺◌, codes, fmt_nat, fmt_int, fmt_bool, join, sort_by_key}
use minirust.Fmt.Types.{CompTypes, to_string, to_atomic_string, fmt_type}
use minirust.Fmt.Exprs.{fmt_fn_name, fmt_local_name, fmt_place_expr, fmt_value_expr, call}

unfoldable pub fmt_bb_name : BbName → Text
fmt_bb_name id = codes "bb" ⧺ fmt_nat id

unfoldable pub fmt_statement : Statement → CompTypes → Option (Text × CompTypes)
fmt_statement (Statement.assign destination source) cs = do
  (left, cs₁) ← fmt_place_expr destination cs
  (right, cs₂) ← fmt_value_expr source cs₁
  some (codes "    " ⧺ to_string left ⧺ codes " = " ⧺ to_string right ⧺ codes ";", cs₂)
fmt_statement (Statement.place_mention place) cs = do
  (p, cs₁) ← fmt_place_expr place cs
  some (codes "    _ = " ⧺ to_string p ⧺ codes ";", cs₁)
fmt_statement (Statement.set_discriminant destination value) cs = do
  (left, cs₁) ← fmt_place_expr destination cs
  some (codes "    discriminant(" ⧺ to_string left ⧺ codes ") = " ⧺ fmt_int value ⧺ codes ";", cs₁)
fmt_statement (Statement.validate place fn_entry) cs = do
  (p, cs₁) ← fmt_place_expr place cs
  some (codes "    validate(" ⧺ to_string p ⧺ codes ", " ⧺ fmt_bool fn_entry ⧺ codes ");", cs₁)
fmt_statement (Statement.deinit place) cs = do
  (p, cs₁) ← fmt_place_expr place cs
  some (codes "    deinit(" ⧺ to_string p ⧺ codes ");", cs₁)
fmt_statement (Statement.storage_live l) cs =
    some (codes "    storage_live(" ⧺ fmt_local_name l ⧺ codes ");", cs)
fmt_statement (Statement.storage_dead l) cs =
    some (codes "    storage_dead(" ⧺ fmt_local_name l ⧺ codes ");", cs)

abbrev pub fmt_next : Option BbName → Text
fmt_next none = []
fmt_next (some next_block) = codes " -> " ⧺ fmt_bb_name next_block

abbrev pub fmt_conv : CallingConvention → Text
fmt_conv rust = []
fmt_conv c = codes "extern \"C\""

unfoldable pub fmt_call :
    Text
    → CallingConvention
    → Text
    → PlaceExpr
    → Option BbName
    → CompTypes
    → Option (Text × CompTypes)
fmt_call callee conv args ret next_block cs = do
  (r, cs₁) ← fmt_place_expr ret cs
  some (
    codes "    "
        ⧺ to_string r
        ⧺ codes " = "
        ⧺ fmt_conv conv
        ⧺ callee
        ⧺ codes "("
        ⧺ args
        ⧺ codes ")"
        ⧺ fmt_next next_block
        ⧺ codes ";",
    cs₁,
  )

abbrev pub fmt_fetch : IntBinOp → Text
fmt_fetch IntBinOp.add = codes "atomic_fetch_add"
fmt_fetch IntBinOp.sub = codes "atomic_fetch_sub"
fmt_fetch _ = codes "atomic_fetch_ILL_FORMED"

-- The names of the intrinsics in `fmt_terminator`
abbrev pub fmt_intrinsic : IntrinsicOp → Text
fmt_intrinsic IntrinsicOp.assume = codes "assume"
fmt_intrinsic IntrinsicOp.exit = codes "exit"
fmt_intrinsic IntrinsicOp.panic = codes "panic"
fmt_intrinsic IntrinsicOp.print_stdout = codes "print"
fmt_intrinsic IntrinsicOp.print_stderr = codes "eprint"
fmt_intrinsic IntrinsicOp.allocate = codes "allocate"
fmt_intrinsic IntrinsicOp.deallocate = codes "deallocate"
fmt_intrinsic IntrinsicOp.spawn = codes "spawn"
fmt_intrinsic IntrinsicOp.join = codes "join"
fmt_intrinsic IntrinsicOp.raw_eq = codes "raw_eq"
fmt_intrinsic IntrinsicOp.atomic_store = codes "atomic_store"
fmt_intrinsic IntrinsicOp.atomic_load = codes "atomic_load"
fmt_intrinsic IntrinsicOp.atomic_compare_exchange = codes "atomic_compare_exchange"
fmt_intrinsic (IntrinsicOp.atomic_fetch_and_op binop) = fmt_fetch binop
fmt_intrinsic (IntrinsicOp.lock IntrinsicLockOp.acquire) = codes "lock_acquire"
fmt_intrinsic (IntrinsicOp.lock IntrinsicLockOp.create) = codes "lock_create"
fmt_intrinsic (IntrinsicOp.lock IntrinsicLockOp.release) = codes "lock_release"
fmt_intrinsic IntrinsicOp.pointer_expose_provenance = codes "pointer_expose_provenance"
fmt_intrinsic IntrinsicOp.pointer_with_exposed_provenance = codes "pointer_with_exposed_provenance"

unfoldable pub fmt_argument : ArgumentExpr → CompTypes → Option (Text × CompTypes)
fmt_argument (by_value value) cs = do
  (e, cs₁) ← fmt_value_expr value cs
  some (call (codes "by-value") (to_string e), cs₁)
fmt_argument (in_place place) cs = do
  (e, cs₁) ← fmt_place_expr place cs
  some (call (codes "in-place") (to_string e), cs₁)

-- `iter().map(..).collect()` of a printer that meets composite types
unfoldable pub fmt_each {ℓ} :
    {A : Type ℓ}
    → (A → CompTypes → Option (Text × CompTypes))
    → List A
    → CompTypes
    → Option (List Text × CompTypes)
fmt_each f [] cs = some ([], cs)
fmt_each f (x ∷ xs) cs = do
  (s, cs₁) ← f x cs
  (texts, cs₂) ← fmt_each f xs cs₁
  some (s ∷ texts, cs₂)

unfoldable pub fmt_value : ValueExpr → CompTypes → Option (Text × CompTypes)
fmt_value value cs = do (e, cs₁) ← fmt_value_expr value cs; some (to_string e, cs₁)

unfoldable pub fmt_cases : List (ℤ × BbName) → List Text
fmt_cases [] = []
fmt_cases ((constant, successor) ∷ cases) =
    (fmt_int constant ⧺ codes ": " ⧺ fmt_bb_name successor) ∷ fmt_cases cases

unfoldable pub fmt_terminator : Terminator → CompTypes → Option (Text × CompTypes)
fmt_terminator (Terminator.goto bb) cs =
    some (codes "    goto -> " ⧺ fmt_bb_name bb ⧺ codes ";", cs)
fmt_terminator (Terminator.switch value cases fallback) cs = do
  (e, cs₁) ← fmt_value_expr value cs
  let case_strs = fmt_cases cases ++ (codes "otherwise: " ⧺ fmt_bb_name fallback) ∷ []
  some (
    codes "    switch("
        ⧺ to_string e
        ⧺ codes ") -> [\n      "
        ⧺ join (codes ",\n      ") case_strs
        ⧺ codes "\n    ];",
    cs₁,
  )
fmt_terminator Terminator.unreachable cs = some (codes "    unreachable;", cs)
fmt_terminator (Terminator.call callee conv arguments ret next_block) cs = do
  (e, cs₁) ← fmt_value_expr callee cs
  (args, cs₂) ← fmt_each fmt_argument arguments cs₁
  fmt_call (to_atomic_string e) conv (join (codes ", ") args) ret next_block cs₂
fmt_terminator return_ cs = some (codes "    return;", cs)
fmt_terminator (Terminator.intrinsic op arguments ret next_block) cs = do
  (args, cs₁) ← fmt_each fmt_value arguments cs
  fmt_call (fmt_intrinsic op) rust (join (codes ", ") args) ret next_block cs₁

-- A loop that prints each item behind what is printed so far, `out += ..`
unfoldable pub fmt_all {ℓ} :
    {A : Type ℓ}
    → (A → CompTypes → Option (Text × CompTypes))
    → List A
    → CompTypes
    → Option (Text × CompTypes)
fmt_all f [] cs = some ([], cs)
fmt_all f (x ∷ xs) cs = do (s, cs₁) ← f x cs; (out, cs₂) ← fmt_all f xs cs₁; some (s ⧺ out, cs₂)

-- A statement on a line
unfoldable pub fmt_statement_line : Statement → CompTypes → Option (Text × CompTypes)
fmt_statement_line st cs = do (s, cs₁) ← fmt_statement st cs; some (s ⧺ codes "\n", cs₁)

unfoldable pub fmt_bb : BbName → (BbName × BasicBlock) → CompTypes → Option (Text × CompTypes)
fmt_bb start (bb_name, bb) cs = do
  (statements, cs₁) ← fmt_all fmt_statement_line bb.statements cs
  (terminator, cs₂) ← fmt_terminator bb.terminator cs₁
  some (
    (if start == bb_name then codes "  start bb" else codes "  bb")
        ⧺ fmt_nat bb_name
        ⧺ codes ":\n"
        ⧺ statements
        ⧺ terminator
        ⧺ codes "\n",
    cs₂,
  )

-- The line of a local
unfoldable pub fmt_local : (LocalName × Ty) → CompTypes → Option (Text × CompTypes)
fmt_local (l, t) cs =
    let ty = fmt_type t cs in
    some (codes "  let " ⧺ fmt_local_name l ⧺ codes ": " ⧺ to_string ty.0 ⧺ codes ";\n", ty.1)

unfoldable pub fmt_function : FnName → (FnName × Function) → CompTypes → Option (Text × CompTypes)
fmt_function start (fn_name, f) cs = do
  (locals, cs₁) ← fmt_all fmt_local (sort_by_key f.locals) cs
  (blocks, cs₂) ← fmt_all (fmt_bb f.start) (sort_by_key f.blocks) cs₁
  some (
    (if start == fn_name then codes "start fn " else codes "fn ")
        ⧺ fmt_fn_name fn_name
        ⧺ codes "("
        ⧺ join (codes ", ") (map fmt_local_name f.args)
        ⧺ codes ") -> "
        ⧺ fmt_local_name f.ret
        ⧺ codes " {\n"
        ⧺ locals
        ⧺ blocks
        ⧺ codes "}\n\n",
    cs₂,
  )

unfoldable pub fmt_functions : Program → CompTypes → Option (Text × CompTypes)
fmt_functions prog cs = fmt_all (fmt_function prog.start) (sort_by_key prog.functions) cs
