-- ===== src/Build/FunctionBuilder.antt =====
-- build/mod.rs: the builder of a function, its blocks and its locals. `none` is a panic.
-- A method takes the builder and returns the new one, behind its result where it has one. The
-- counters are `u32`, whose overflow panics in the profile that `mini` builds with.
pub mod Statements
pub mod Terminators
pub mod Branches
pub mod Blocks
pub mod BlockSteps
pub mod Reach
pub mod BranchSteps
pub mod SwitchSteps
pub mod Closed
pub mod Methods
mod Tests
use minirust.Prelude.{
  ℕ, ◌+◌, ◌^◌, List, [], ◌∷◌, ◌++◌, Option, none, some, ◌>>=◌, ltb, if◌then◌else◌, contains_key,
  try_insert,
}
use minirust.Lang.Types.{Ty}
use minirust.Lang.Syntax.{
  FnName, LocalName, BbName, PlaceExpr, Statement, Terminator, BasicBlock, Function,
  CallingConvention,
}
use minirust.Build.Types.{TypeConv, unit_conv}
use minirust.Build.Places.{local_by_name}

pub record CurBlock : Type 0 where
  pub statements : List Statement
  pub name : BbName

pub record FunctionBuilder : Type 0 where
  pub name : FnName
  pub locals : List (LocalName × Ty)
  pub args : List LocalName
  pub blocks : List (BbName × BasicBlock)
  pub start : BbName
  pub ret : Option LocalName
  pub cur_block : Option CurBlock
  pub next_block : ℕ
  pub next_local : ℕ

-- `+= 1` on a `u32`
unfoldable pub increment : ℕ → Option ℕ
increment n = if ltb (n + 1) (2 ^ 32) then some (n + 1) else none

-- `CurBlock::new`
abbrev pub empty_block : BbName → CurBlock
empty_block name = record { statements = []; name = name }

unfoldable pub declare_block : FunctionBuilder → Option (BbName × FunctionBuilder)
unfolding increment
declare_block fb = do
  next ← increment fb.next_block
  some (fb.next_block, record fb { next_block = next })

abbrev pub is_none : {A : Type 0} → Option A → minirust.Prelude.Bool
is_none none = minirust.Prelude.true
is_none (some _) = minirust.Prelude.false

unfoldable pub set_cur_block : BbName → FunctionBuilder → Option FunctionBuilder
set_cur_block name fb =
    if contains_key fb.blocks name
    then none
    else if is_none fb.cur_block
    then some (record fb { cur_block = some (empty_block name) })
    else none

unfoldable pub new : FnName → Option FunctionBuilder
unfolding declare_block set_cur_block
new name = do
  (start_block, fb) ← declare_block (record {
    name = name;
    locals = [];
    args = [];
    blocks = [];
    start = 0;
    ret = none;
    cur_block = none;
    next_block = 0;
    next_local = 0;
  })
  set_cur_block start_block fb

-- `self.cur_block().statements.push(..)`
unfoldable pub push_statement : Statement → FunctionBuilder → Option FunctionBuilder
push_statement st fb = do
  b ← fb.cur_block
  some (record fb { cur_block = some (record b { statements = b.statements ++ st ∷ [] }) })

unfoldable pub finish_block : Terminator → FunctionBuilder → Option FunctionBuilder
finish_block terminator fb = do
  b ← fb.cur_block
  blocks ←
      try_insert fb.blocks b.name (record { statements = b.statements; terminator = terminator })
  some (record fb { blocks = blocks; cur_block = none })

unfoldable pub fresh_local_name : FunctionBuilder → Option (LocalName × FunctionBuilder)
unfolding increment
fresh_local_name fb = do
  next ← increment fb.next_local
  some (fb.next_local, record fb { next_local = next })

unfoldable pub declare_local_with_ty : Ty → FunctionBuilder → Option (PlaceExpr × FunctionBuilder)
unfolding fresh_local_name local_by_name
declare_local_with_ty t fb = do
  (name, fb₁) ← fresh_local_name fb
  locals ← try_insert fb₁.locals name t
  some (local_by_name name, record fb₁ { locals = locals })

unfoldable pub declare_local : TypeConv → FunctionBuilder → Option (PlaceExpr × FunctionBuilder)
unfolding fresh_local_name local_by_name
declare_local t fb = do
  (name, fb₁) ← fresh_local_name fb
  locals ← try_insert fb₁.locals name t.get_type
  some (local_by_name name, record fb₁ { locals = locals })

unfoldable pub declare_ret : TypeConv → FunctionBuilder → Option (PlaceExpr × FunctionBuilder)
unfolding fresh_local_name local_by_name
declare_ret t fb =
    if is_none fb.ret
    then (do
      (name, fb₁) ← fresh_local_name fb
      locals ← try_insert fb₁.locals name t.get_type
      some (local_by_name name, record fb₁ { locals = locals; ret = some name }))
    else none

unfoldable pub declare_arg_with_ty : Ty → FunctionBuilder → Option (PlaceExpr × FunctionBuilder)
unfolding fresh_local_name local_by_name
declare_arg_with_ty ty fb = do
  (name, fb₁) ← fresh_local_name fb
  locals ← try_insert fb₁.locals name ty
  some (local_by_name name, record fb₁ { locals = locals; args = fb₁.args ++ name ∷ [] })

unfoldable pub declare_arg : TypeConv → FunctionBuilder → Option (PlaceExpr × FunctionBuilder)
unfolding declare_arg_with_ty
declare_arg t = declare_arg_with_ty t.get_type

-- A function with no return local gets one of type `()`.
unfoldable pub default_ret : FunctionBuilder → Option FunctionBuilder
unfolding declare_ret unit_conv
default_ret fb =
    if is_none fb.ret then (do (_, fb₁) ← declare_ret unit_conv fb; some fb₁) else some fb

unfoldable pub finish_function : FunctionBuilder → Option Function
unfolding default_ret
finish_function fb =
    if is_none fb.cur_block
    then (do
      fb₁ ← default_ret fb
      ret ← fb₁.ret
      some (record {
        locals = fb₁.locals;
        args = fb₁.args;
        ret = ret;
        calling_convention = CallingConvention.c;
        blocks = fb₁.blocks;
        start = fb₁.start;
      }))
    else none
