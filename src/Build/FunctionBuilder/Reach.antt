-- ===== src/Build/FunctionBuilder/Reach.antt =====
-- What clients of the builder can do: the public methods in any order, with closures that do no more.
use minirust.Prelude.{ℕ, ◌≡◌, List, [], ◌∷◌, some, get_elem?}
use minirust.Prelude.Int.{ℤ}
use minirust.Lang.Syntax.{BbName, PlaceExpr, ValueExpr, Statement, Terminator}
use minirust.Build.FunctionBuilder.{
  FunctionBuilder, finish_block, push_statement, declare_local_with_ty, declare_ret,
  declare_arg_with_ty,
}
use minirust.Lang.Types.{Ty}
use minirust.Build.Types.{TypeConv}
use minirust.Build.FunctionBuilder.Terminators.{continue_with}
use minirust.Build.FunctionBuilder.Branches.{Branch, switch_int, while_}
use minirust.Build.FunctionBuilder.Blocks.{successors}

-- A step is a call of a method that returns. A closure may do what a client may.
pub data Reach : FunctionBuilder → FunctionBuilder → Type 0 where
  here : {fb : FunctionBuilder} → Reach fb fb
  next : {a b c : FunctionBuilder} → Reach a b → Reach b c → Reach a c
  statement :
      {fb fb' : FunctionBuilder} (st : Statement) → push_statement st fb ≡ some fb' → Reach fb fb'
  finish :
      {fb fb' : FunctionBuilder} (t : Terminator)
      → successors t ≡ []
      → finish_block t fb ≡ some fb'
      → Reach fb fb'
  continue_at :
      {fb fb' : FunctionBuilder} (t : BbName → Terminator)
      → ((b : BbName) → successors (t b) ≡ b ∷ [])
      → continue_with t fb ≡ some fb'
      → Reach fb fb'
  local :
      {fb fb' : FunctionBuilder} (ty : Ty) (p : PlaceExpr)
      → declare_local_with_ty ty fb ≡ some (p, fb')
      → Reach fb fb'
  ret :
      {fb fb' : FunctionBuilder} (t : TypeConv) (p : PlaceExpr)
      → declare_ret t fb ≡ some (p, fb')
      → Reach fb fb'
  arg :
      {fb fb' : FunctionBuilder} (ty : Ty) (p : PlaceExpr)
      → declare_arg_with_ty ty fb ≡ some (p, fb')
      → Reach fb fb'
  switch :
      {fb fb' : FunctionBuilder} (value : ValueExpr) (cases : List (ℤ × Branch)) (fallback : Branch)
      → ((i : ℕ) (k : ℤ) (branch : Branch)
          → get_elem? cases i ≡ some (k, branch)
          → (a b : FunctionBuilder) → branch a ≡ some b
          → Reach a b)
      → ((a b : FunctionBuilder) → fallback a ≡ some b → Reach a b)
      → switch_int value cases fallback fb ≡ some fb'
      → Reach fb fb'
  while :
      {fb fb' : FunctionBuilder} (condition : ValueExpr) (body : Branch)
      → ((a b : FunctionBuilder) → body a ≡ some b → Reach a b)
      → while_ condition body fb ≡ some fb'
      → Reach fb fb'
