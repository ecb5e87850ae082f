-- ===== src/Fmt/Printable.antt =====
-- What the printer asks of expressions, so that it does not panic: tuples of a tuple or an array
-- type, and addresses of a raw pointer or a reference type. A predicate `P` stands for what is known
-- of the composite types that are met.
use minirust.Prelude.{List, [], ◌∷◌}
use minirust.Lang.Types.{Ty}
use minirust.Lang.Syntax.{
  CastOp, UnOp, ValueExpr, PlaceExpr, ValueExprs, no_exprs, expr, Statement, ArgumentExpr, by_value,
  in_place, Terminator, BasicBlock, Function, LocalName, BbName, FnName,
}
use minirust.Fmt.Brackets.Operators.{IsTupleType, IsAddrOfType, ClosesBracket}

-- The composite type that the printer meets in a type, if there is one, is `P`.
unfoldable pub RootIs : (Ty → Type 0) → Ty → Type 0
RootIs P (Ty.array elem _) = RootIs P elem
RootIs P (Ty.slice elem) = RootIs P elem
RootIs P (Ty.tuple fields head rest) = P (Ty.tuple fields head rest)
RootIs P (Ty.union fields chunks size align) = P (Ty.union fields chunks size align)
RootIs P (Ty.enum variants ity discriminator size align) =
    P (Ty.enum variants ity discriminator size align)
RootIs P _ = Unit

unfoldable pub OperatorIsPrintable : (Ty → Type 0) → UnOp → Type 0
OperatorIsPrintable P (UnOp.cast (CastOp.transmute ty)) = RootIs P ty
OperatorIsPrintable P (UnOp.compute_size ty) = RootIs P ty
OperatorIsPrintable P (UnOp.compute_align ty) = RootIs P ty
OperatorIsPrintable P _ = Unit

unfoldable mutual
  pub PlaceIsPrintable : (Ty → Type 0) → PlaceExpr → Type 0
  PlaceIsPrintable P (PlaceExpr.local _) = Unit
  PlaceIsPrintable P (PlaceExpr.deref operand ty) = RootIs P ty × ValueIsPrintable P operand
  PlaceIsPrintable P (PlaceExpr.field root _) = PlaceIsPrintable P root
  PlaceIsPrintable P (PlaceExpr.index root index) =
      PlaceIsPrintable P root × ValueIsPrintable P index
  PlaceIsPrintable P (PlaceExpr.downcast root _) = PlaceIsPrintable P root

  pub ValueIsPrintable : (Ty → Type 0) → ValueExpr → Type 0
  ValueIsPrintable P (ValueExpr.constant _ _) = Unit
  ValueIsPrintable P (ValueExpr.tuple es ty) = IsTupleType ty × ValuesArePrintable P es
  ValueIsPrintable P (ValueExpr.union _ e ty) = RootIs P ty × ValueIsPrintable P e
  ValueIsPrintable P (ValueExpr.variant _ e ty) = RootIs P ty × ValueIsPrintable P e
  ValueIsPrintable P (ValueExpr.get_discriminant place) = PlaceIsPrintable P place
  ValueIsPrintable P (ValueExpr.load source) = PlaceIsPrintable P source
  ValueIsPrintable P (ValueExpr.addr_of target ptr_ty) =
      IsAddrOfType ptr_ty × PlaceIsPrintable P target
  ValueIsPrintable P (ValueExpr.un_op op e) = OperatorIsPrintable P op × ValueIsPrintable P e
  ValueIsPrintable P (ValueExpr.bin_op _ l r) = ValueIsPrintable P l × ValueIsPrintable P r

  pub ValuesArePrintable : (Ty → Type 0) → ValueExprs → Type 0
  ValuesArePrintable P no_exprs = Unit
  ValuesArePrintable P (expr e es) = ValueIsPrintable P e × ValuesArePrintable P es

-- No operator in an expression leaves its bracket open.
unfoldable mutual
  pub PlaceCloses : PlaceExpr → Type 0
  PlaceCloses (PlaceExpr.local _) = Unit
  PlaceCloses (PlaceExpr.deref operand _) = ValueCloses operand
  PlaceCloses (PlaceExpr.field root _) = PlaceCloses root
  PlaceCloses (PlaceExpr.index root index) = PlaceCloses root × ValueCloses index
  PlaceCloses (PlaceExpr.downcast root _) = PlaceCloses root

  pub ValueCloses : ValueExpr → Type 0
  ValueCloses (ValueExpr.constant _ _) = Unit
  ValueCloses (ValueExpr.tuple es _) = ValuesClose es
  ValueCloses (ValueExpr.union _ e _) = ValueCloses e
  ValueCloses (ValueExpr.variant _ e _) = ValueCloses e
  ValueCloses (ValueExpr.get_discriminant place) = PlaceCloses place
  ValueCloses (ValueExpr.load source) = PlaceCloses source
  ValueCloses (ValueExpr.addr_of target _) = PlaceCloses target
  ValueCloses (ValueExpr.un_op op e) = ClosesBracket op × ValueCloses e
  ValueCloses (ValueExpr.bin_op _ l r) = ValueCloses l × ValueCloses r

  pub ValuesClose : ValueExprs → Type 0
  ValuesClose no_exprs = Unit
  ValuesClose (expr e es) = ValueCloses e × ValuesClose es

unfoldable pub StatementIsPrintable : (Ty → Type 0) → Statement → Type 0
StatementIsPrintable P (Statement.assign destination source) =
    PlaceIsPrintable P destination × ValueIsPrintable P source
StatementIsPrintable P (Statement.place_mention place) = PlaceIsPrintable P place
StatementIsPrintable P (Statement.set_discriminant place _) = PlaceIsPrintable P place
StatementIsPrintable P (Statement.validate place _) = PlaceIsPrintable P place
StatementIsPrintable P (Statement.deinit place) = PlaceIsPrintable P place
StatementIsPrintable P (Statement.storage_live _) = Unit
StatementIsPrintable P (Statement.storage_dead _) = Unit

unfoldable pub StatementCloses : Statement → Type 0
StatementCloses (Statement.assign destination source) = PlaceCloses destination × ValueCloses source
StatementCloses (Statement.place_mention place) = PlaceCloses place
StatementCloses (Statement.set_discriminant place _) = PlaceCloses place
StatementCloses (Statement.validate place _) = PlaceCloses place
StatementCloses (Statement.deinit place) = PlaceCloses place
StatementCloses (Statement.storage_live _) = Unit
StatementCloses (Statement.storage_dead _) = Unit

unfoldable pub ArgumentIsPrintable : (Ty → Type 0) → ArgumentExpr → Type 0
ArgumentIsPrintable P (by_value value) = ValueIsPrintable P value
ArgumentIsPrintable P (in_place place) = PlaceIsPrintable P place

unfoldable pub ArgumentCloses : ArgumentExpr → Type 0
ArgumentCloses (by_value value) = ValueCloses value
ArgumentCloses (in_place place) = PlaceCloses place

-- A predicate holds of all items of a list.
unfoldable pub Each {ℓ} : {A : Type ℓ} → (A → Type 0) → List A → Type 0
Each Q [] = Unit
Each Q (x ∷ xs) = Q x × Each Q xs

unfoldable pub TerminatorIsPrintable : (Ty → Type 0) → Terminator → Type 0
TerminatorIsPrintable P (Terminator.switch value _ _) = ValueIsPrintable P value
TerminatorIsPrintable P (Terminator.call callee _ arguments ret _) =
    ValueIsPrintable P callee × Each (ArgumentIsPrintable P) arguments × PlaceIsPrintable P ret
TerminatorIsPrintable P (Terminator.intrinsic _ arguments ret _) =
    Each (ValueIsPrintable P) arguments × PlaceIsPrintable P ret
TerminatorIsPrintable P _ = Unit

unfoldable pub TerminatorCloses : Terminator → Type 0
TerminatorCloses (Terminator.switch value _ _) = ValueCloses value
TerminatorCloses (Terminator.call callee _ arguments ret _) =
    ValueCloses callee × Each ArgumentCloses arguments × PlaceCloses ret
TerminatorCloses (Terminator.intrinsic _ arguments ret _) =
    Each ValueCloses arguments × PlaceCloses ret
TerminatorCloses _ = Unit

unfoldable pub BlockIsPrintable : (Ty → Type 0) → (BbName × BasicBlock) → Type 0
BlockIsPrintable P (_, bb) =
    Each (StatementIsPrintable P) bb.statements × TerminatorIsPrintable P bb.terminator

unfoldable pub BlockCloses : (BbName × BasicBlock) → Type 0
BlockCloses (_, bb) = Each StatementCloses bb.statements × TerminatorCloses bb.terminator

unfoldable pub LocalIsPrintable : (Ty → Type 0) → (LocalName × Ty) → Type 0
LocalIsPrintable P (_, ty) = RootIs P ty

unfoldable pub FunctionIsPrintable : (Ty → Type 0) → (FnName × Function) → Type 0
FunctionIsPrintable P (_, f) =
    Each (LocalIsPrintable P) f.locals × Each (BlockIsPrintable P) f.blocks

unfoldable pub FunctionCloses : (FnName × Function) → Type 0
FunctionCloses (_, f) = Each BlockCloses f.blocks
