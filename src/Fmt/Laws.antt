-- ===== src/Fmt/Laws.antt =====
-- mod.rs and ty.rs: what the printer does with a whole program.
use minirust.Prelude.{ℕ, ◌≡◌, refl, [], ◌∷◌, some, get_elem?}
use minirust.Lang.Types.{Ty}
use minirust.Lang.Syntax.{Program, UnOp, bit_not, count_ones}
use minirust.Fmt.Text.{Text, ◌⧺◌, codes, sort_by_key}
use minirust.Fmt.Types.{CompTypes, to_string, get_comptype_index, fmt_comptype_index, fmt_composite}
use minirust.Fmt.Exprs.{fmt_un_op}
use minirust.Fmt.Functions.{fmt_function, fmt_functions}
use minirust.Fmt.Tables.{fmt_globals, fmt_traits, fmt_vtables}
use minirust.Fmt.Program.{fmt_program}
use minirust.Fmt.Meets.{
  IsUnique, All, Meets, Meets-IsUnique, Meets-All, Meets-Extends, Extends, get_comptype_index-get,
  get_elem?-append,
}
use minirust.Fmt.Universe.{IsComposite, HasLayouts, All-map}
use minirust.Fmt.Printable.{Each, FunctionIsPrintable, FunctionCloses}
use minirust.Fmt.Prints.{Prints}
use minirust.Fmt.Prints.Statements.{Closes, fmt_all-Prints}
use minirust.Fmt.Prints.Functions.{fmt_function-Prints, sort_by_key-Each}
use minirust.Fmt.Prints.Loop.{fmt_comptypes-total}
use minirust.Fmt.Brackets.{IsBalanced, scan, scan-append, append-IsBalanced}
use minirust.Fmt.Brackets.Tables.{
  fmt_globals-IsBalanced, fmt_traits-IsBalanced, fmt_vtables-IsBalanced,
}

-- A composite type that has a layout, and so have the composite types in it
unfoldable pub IsLaidOut : Ty → Type 0
IsLaidOut t = IsComposite t × HasLayouts t

-- The tuples of a program have a tuple or an array type, its `AddrOf`s a raw pointer or a reference
-- type, and the composite types that the printer meets have layouts.
unfoldable pub IsPrintable : Program → Type 0
IsPrintable prog = Each (FunctionIsPrintable IsLaidOut) prog.functions

-- No `BitNot` and no `CountOnes` stands in a program.
unfoldable pub ClosesBrackets : Program → Type 0
ClosesBrackets prog = Each FunctionCloses prog.functions

empty-IsUnique : IsUnique []
unfolding IsUnique
empty-IsUnique = tt

empty-All : (P : Ty → Type 0) → All P []
unfolding All
empty-All P = tt

fmt_functions-Prints :
    (prog : Program)
    → IsPrintable prog
    → Prints IsLaidOut
        (Closes (Each FunctionCloses (sort_by_key prog.functions)))
        []
        (fmt_functions prog [])
unfolding fmt_functions IsPrintable
fmt_functions-Prints prog h =
    fmt_all-Prints IsLaidOut (fmt_function prog.start) (FunctionIsPrintable IsLaidOut)
      FunctionCloses (fmt_function-Prints IsLaidOut prog.start) (sort_by_key prog.functions) []
      (sort_by_key-Each (FunctionIsPrintable IsLaidOut) prog.functions h)

-- Printing the functions of a printable program returns, and no type stands twice in the list of
-- the composite types that it has met; only tuples, unions and enums stand in it.
pub fmt_functions-IsUnique :
    (prog : Program)
    → IsPrintable prog
    → (s : Text) × (cs : CompTypes) × (fmt_functions prog [] ≡ some (s, cs))
      × IsUnique cs
      × All IsComposite cs
unfolding Prints IsLaidOut
fmt_functions-IsUnique prog h =
    let (s, cs, e, m, _) = fmt_functions-Prints prog h in
    (
      s,
      cs,
      e,
      Meets-IsUnique m empty-IsUnique,
      All-map IsLaidOut IsComposite (λ t l. l.0) cs (Meets-All IsLaidOut m (empty-All IsLaidOut)),
    )

-- The text of a composite type is the name of an index, and at that index the type stands in every
-- list that the printer goes on to make.
pub fmt_composite-get :
    (P : Ty → Type 0) (t : Ty) (cs ds : CompTypes)
    → Meets P (fmt_composite t cs).1 ds
    → (i : ℕ) × (to_string (fmt_composite t cs).0 ≡ fmt_comptype_index i)
      × (get_elem? ds i ≡ some t)
unfolding fmt_composite Extends
fmt_composite-get P t cs ds m =
    let (more, e) = Meets-Extends m in
    (
      (get_comptype_index t cs).0,
      refl,
      rw e (
          get_elem?-append (get_comptype_index t cs).1 more (get_comptype_index t cs).0 t
            (get_comptype_index-get t cs)),
    )

-- A printable program is printed, whatever composite types its types are made of; its text closes
-- the brackets that it opens, if no `BitNot` and no `CountOnes` stands in it.
pub fmt_program-total :
    (prog : Program)
    → IsPrintable prog
    → (s : Text) × (fmt_program prog ≡ some s) × (ClosesBrackets prog → IsBalanced s)
unfolding fmt_program Prints IsLaidOut ClosesBrackets
fmt_program-total prog h =
    let (s, cs, e, m, closes) = fmt_functions-Prints prog h in
    let laid_out = Meets-All IsLaidOut m (empty-All IsLaidOut) in
    let (defs, printed, balanced) =
      fmt_comptypes-total cs (Meets-IsUnique m empty-IsUnique)
        (All-map IsLaidOut IsComposite (λ t l. l.0) cs laid_out)
        (All-map IsLaidOut HasLayouts (λ t l. l.1) cs laid_out) in
    (
      defs ⧺ fmt_traits prog.traits ⧺ fmt_vtables prog.vtables ⧺ s ⧺ fmt_globals prog.globals,
      rw (e, printed) refl,
      λ c. append-IsBalanced _ _ balanced (
          append-IsBalanced _ _ (fmt_traits-IsBalanced prog.traits) (
            append-IsBalanced _ _ (fmt_vtables-IsBalanced prog.vtables) (
              append-IsBalanced _ _ (closes (sort_by_key-Each FunctionCloses prog.functions c))
                (fmt_globals-IsBalanced prog.globals)))),
    )

-- Of an operand that closes its brackets, the text of its bitwise negation leaves a bracket open,
-- and so does the text of the count of its ones.
pub fmt_un_op-open :
    (s : Text) (cs : CompTypes)
    → IsBalanced s
    → ¬ IsBalanced (to_string (fmt_un_op (UnOp.int bit_not) s cs).0)
      × ¬ IsBalanced (to_string (fmt_un_op (UnOp.int count_ones) s cs).0)
unfolding fmt_un_op IsBalanced scan
fmt_un_op-open s cs h = (
  λ b. (let k = b [] in let r = scan-append (codes "!(") s [] in let q = h (b'(' ∷ []) in cc),
  λ b.
      (let k = b [] in
        let r = scan-append (codes "count_ones(") s [] in let q = h (b'(' ∷ []) in cc),
)
