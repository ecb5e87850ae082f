-- ===== src/Fmt/Tests.antt =====
-- A program with a tuple that holds a union, in the printer.
use native.Mathlib.Decide.{dec_lt, ℕ_discrete}
use mathlib.Core.List.{Permᴰ}
use minirust.Prelude.{ℕ, ◌≡◌, refl, List, [], ◌∷◌, none, some, get_elem?}
use minirust.Prelude.Int.{pos, negsuc}
use minirust.Lang.Types.{Ty, signed, Fields, no_fields, no_tail, LayoutStrategy}
use minirust.Lang.Layout.{layout, align_to}
use minirust.Lang.Syntax.{
  Constant, UnOp, bit_not, count_ones, ValueExpr, PlaceExpr, no_exprs, expr, Statement, return_,
  rust, BasicBlock, Function, Global, Program,
}
use minirust.Fmt.Text.{
  Text, codes, fmt_nat, fmt_int, digits, lt_wf, join, sort_by_key, sort_texts, fmt_hex,
}
use minirust.Fmt.Types.{
  Ty-discrete, same_ty, position, get_comptype_index, fmt_comptype_index, fmt_composite, fmt_type,
  fmt_int_type, fmt_layout_strategy, to_string,
}
use minirust.Fmt.CompTypes.{
  fmt_comptype_fields, fmt_comptype_chunks, fmt_tail, keyword, fmt_comptype_body, fmt_comptype,
  fmt_comptypes_from, fmt_comptypes, parts, all_parts,
}
use minirust.Fmt.Exprs.{
  fmt_fn_name, fmt_local_name, fmt_global_name, fmt_constant, fmt_tuple, fmt_un_op, fmt_place_expr,
  fmt_value_expr,
}
use minirust.Fmt.Functions.{
  fmt_statement, fmt_statement_line, fmt_terminator, fmt_all, fmt_bb, fmt_local, fmt_function,
  fmt_functions,
}
use minirust.Fmt.Tables.{
  fmt_entries, fmt_byte, fmt_bytes, fmt_global, fmt_globals, fmt_vtables, fmt_traits,
}
use minirust.Fmt.Program.{fmt_program}
use minirust.Fmt.Meets.{IsUnique, met, All, Meets}
use minirust.Fmt.Universe.{IsComposite, HasLayout, HasLayouts}
use minirust.Fmt.Printable.{
  RootIs, PlaceIsPrintable, ValueIsPrintable, Each, StatementIsPrintable, TerminatorIsPrintable,
  BlockIsPrintable, LocalIsPrintable, FunctionIsPrintable,
}
use minirust.Fmt.Brackets.{IsBalanced, is_plain-IsBalanced}
use minirust.Fmt.Brackets.Operators.{IsTupleType}
use minirust.Fmt.Prints.Loop.{fmt_comptypes-total}
use minirust.Fmt.Laws.{
  IsLaidOut, IsPrintable, ClosesBrackets, fmt_functions-IsUnique, fmt_composite-get,
  fmt_program-total, fmt_un_op-open,
}
use minirust.Fmt.Order.{IsMap, fmt_program_order}

abbrev i32 : Ty
i32 = Ty.int (record { signed = signed; size = 4 })

abbrev number : Ty
number = Ty.union (Fields.field 0 i32 no_fields) ((0, 4) ∷ []) 4 4

abbrev wrapped : Ty
wrapped =
    Ty.tuple (Fields.field 0 number no_fields) (record { end = 4; align = 4; packed_align = none })
      no_tail

abbrev main_block : BasicBlock
main_block = record {
  statements =
      Statement.assign (PlaceExpr.local 1) (
        ValueExpr.tuple
          (expr (ValueExpr.union (pos 0) (ValueExpr.constant (Constant.int (negsuc 6)) i32) number)
            no_exprs)
          wrapped)
      ∷ [];
  terminator = return_;
}

abbrev main : Function
main = record {
  locals = (1, Ty.array wrapped (pos 1)) ∷ (0, Ty.bool) ∷ [];
  args = [];
  ret = 0;
  calling_convention = rust;
  blocks = (0, main_block) ∷ [];
  start = 0;
}

abbrev other : Function
other = record {
  locals = [];
  args = [];
  ret = 0;
  calling_convention = rust;
  blocks = [];
  start = 0;
}

abbrev eleven : Global
eleven = record { bytes = some 11 ∷ none ∷ []; relocations = []; align = 1 }

abbrev prog : Program
prog = record {
  functions = (1, other) ∷ (0, main) ∷ [];
  start = 0;
  globals = (0, eleven) ∷ [];
  traits = [];
  vtables = [];
}

abbrev text : Text
text =
    codes
      "tuple T0 (size=4, align=4) {\n  at byte 0: T1,\n}\n\nunion T1 (size=4, align=4) {\n  at byte 0: i32,\n  chunk(at=0, size=4),\n}\n\n\n\nstart fn f0() -> _0 {\n  let _0: bool;\n  let _1: [T0; 1];\n  start bb0:\n    _1 = (T1 { field0: -7 });\n    return;\n}\n\nfn f1() -> _0 {\n}\n\nglobal(0) {\n  bytes = [0b __],\n  align = 1 bytes,\n}\n\n"

printed : fmt_program prog ≡ some text
unfolding fmt_program fmt_functions fmt_function fmt_all fmt_local fmt_bb fmt_statement_line
    fmt_statement fmt_terminator fmt_place_expr fmt_value_expr fmt_tuple fmt_constant fmt_local_name
    fmt_fn_name fmt_global_name fmt_type fmt_composite fmt_comptype_index get_comptype_index
    position same_ty Ty-discrete ℕ_discrete fmt_int_type fmt_layout_strategy fmt_int fmt_nat digits
    lt_wf dec_lt join sort_by_key sort_texts fmt_comptypes fmt_comptypes_from all_parts parts
    fmt_comptype fmt_comptype_body keyword fmt_comptype_fields fmt_comptype_chunks fmt_tail layout
    align_to fmt_globals fmt_global fmt_bytes fmt_byte fmt_hex fmt_entries fmt_vtables fmt_traits
printed = refl

number-HasLayout : HasLayout number
unfolding HasLayout layout
number-HasLayout = (LayoutStrategy.sized 4 4, refl)

wrapped-HasLayout : HasLayout wrapped
unfolding HasLayout layout align_to
wrapped-HasLayout = (LayoutStrategy.sized 4 4, refl)

prog-IsPrintable : IsPrintable prog
unfolding IsPrintable Each FunctionIsPrintable LocalIsPrintable BlockIsPrintable
    StatementIsPrintable TerminatorIsPrintable PlaceIsPrintable ValueIsPrintable RootIs IsTupleType
    IsLaidOut IsComposite HasLayouts All parts
prog-IsPrintable = (
  (tt, tt),
  (
    (
      ((tt, (wrapped-HasLayout, (number-HasLayout, tt))), (tt, tt)),
      ((((tt, (tt, (((tt, (number-HasLayout, tt)), tt), tt))), tt), tt), tt),
    ),
    tt,
  ),
)

fmt_functions-IsUnique_example :
    (s : Text) × (cs : List Ty) × (fmt_functions prog [] ≡ some (s, cs))
    × IsUnique cs
    × All IsComposite cs
fmt_functions-IsUnique_example = fmt_functions-IsUnique prog prog-IsPrintable

fmt_program-total_example :
    (s : Text) × (fmt_program prog ≡ some s) × (ClosesBrackets prog → IsBalanced s)
fmt_program-total_example = fmt_program-total prog prog-IsPrintable

fmt_composite-get_example :
    (i : ℕ) × (to_string (fmt_composite number (wrapped ∷ [])).0 ≡ fmt_comptype_index i)
    × (get_elem? (get_comptype_index wrapped (fmt_composite number (wrapped ∷ [])).1).1 i
        ≡ some number)
fmt_composite-get_example =
    fmt_composite-get (λ _. Unit) number (wrapped ∷ [])
      (get_comptype_index wrapped (fmt_composite number (wrapped ∷ [])).1).1 (Meets.meet wrapped tt)

wrapped-IsUnique : IsUnique (wrapped ∷ [])
unfolding IsUnique met
wrapped-IsUnique = (refl, tt)

wrapped-IsComposite : All IsComposite (wrapped ∷ [])
unfolding All IsComposite
wrapped-IsComposite = (tt, tt)

wrapped-HasLayouts : All HasLayouts (wrapped ∷ [])
unfolding All HasLayouts parts
wrapped-HasLayouts = ((wrapped-HasLayout, (number-HasLayout, tt)), tt)

fmt_comptypes-total_example : (s : Text) × (fmt_comptypes (wrapped ∷ []) ≡ some s) × IsBalanced s
fmt_comptypes-total_example =
    fmt_comptypes-total (wrapped ∷ []) wrapped-IsUnique wrapped-IsComposite wrapped-HasLayouts

one-IsBalanced : IsBalanced (codes "1")
one-IsBalanced = is_plain-IsBalanced (codes "1") refl

fmt_un_op-open_example :
    ¬ IsBalanced (to_string (fmt_un_op (UnOp.int bit_not) (codes "1") []).0)
    × ¬ IsBalanced (to_string (fmt_un_op (UnOp.int count_ones) (codes "1") []).0)
fmt_un_op-open_example = fmt_un_op-open (codes "1") [] one-IsBalanced

abbrev swapped : Program
swapped = record prog { functions = (0, main) ∷ (1, other) ∷ [] }

prog-IsMap : IsMap prog.functions × IsMap prog.globals × IsMap prog.traits × IsMap prog.vtables
unfolding IsMap
prog-IsMap = ((refl, (refl, tt)), (refl, tt), tt, tt)

fmt_program_order_example : fmt_program prog ≡ fmt_program swapped
fmt_program_order_example =
    fmt_program_order prog swapped refl prog-IsMap (Permᴰ.swap refl refl)
      (Permᴰ.cons refl Permᴰ.nil) Permᴰ.nil Permᴰ.nil
