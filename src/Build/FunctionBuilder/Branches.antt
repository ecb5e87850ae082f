-- ===== src/Build/FunctionBuilder/Branches.antt =====
-- build/terminator.rs: `if_`, `switch_int` and `while_`, which run closures on the builder.
use minirust.Prelude.{
  Bool, false, List, [], ◌∷◌, ◌++◌, Option, none, some, ◌>>=◌, ◌||◌, if◌then◌else◌,
}
use minirust.Prelude.Int.{ℤ, pos, ◌==ℤ◌}
use minirust.Lang.Syntax.{BbName, ValueExpr, Terminator}
use minirust.Build.Types.{u8}
use minirust.Build.Exprs.{bool_to_int}
use minirust.Build.FunctionBuilder.{
  FunctionBuilder, is_none, declare_block, set_cur_block, finish_block,
}
use minirust.Build.FunctionBuilder.Terminators.{goto}

-- A closure `Fn(&mut Self)`
abbrev pub Branch : Type 0
Branch = FunctionBuilder → Option FunctionBuilder

abbrev pub has_case : List (ℤ × BbName) → ℤ → Bool
has_case [] k = false
has_case ((j, _) ∷ m) k = j ==ℤ k || has_case m k

-- The first loop of `switch_int`: a block for each case.
unfoldable pub declare_cases :
    List (ℤ × Branch)
    → List (ℤ × BbName)
    → List (Branch × BbName)
    → FunctionBuilder
    → Option (List (ℤ × BbName) × List (Branch × BbName) × FunctionBuilder)
declare_cases [] branch_map branches fb = some (branch_map, branches, fb)
declare_cases ((case, branch) ∷ cases) branch_map branches fb = do
  (new_block, fb₁) ← declare_block fb
  if has_case branch_map case
      then none
      else declare_cases cases ((case, new_block) ∷ branch_map)
          (branches ++ (branch, new_block) ∷ []) fb₁

-- `after_switch_block.get_or_insert_with(|| self.declare_block())`
unfoldable pub get_or_declare : Option BbName → FunctionBuilder → Option (BbName × FunctionBuilder)
get_or_declare (some block) fb = some (block, fb)
get_or_declare none fb = declare_block fb

-- What follows a branch in the second loop: a branch that has not finished jumps behind the switch.
unfoldable pub join_branch :
    Option BbName → FunctionBuilder → Option (Option BbName × FunctionBuilder)
unfolding get_or_declare
join_branch after fb = if is_none fb.cur_block then some (after, fb) else (do
  (jump_to_block, fb₁) ← get_or_declare after fb
  fb₂ ← goto jump_to_block fb₁
  some (some jump_to_block, fb₂))

-- The second loop of `switch_int`: run each branch on its block.
unfoldable pub build_branches :
    List (Branch × BbName)
    → Option BbName
    → FunctionBuilder
    → Option (Option BbName × FunctionBuilder)
unfolding join_branch
build_branches [] after fb = some (after, fb)
build_branches ((branch, block) ∷ branches) after fb = do
  fb₁ ← set_cur_block block fb
  fb₂ ← branch fb₁
  (after₁, fb₃) ← join_branch after fb₂
  build_branches branches after₁ fb₃

unfoldable pub set_after : Option BbName → FunctionBuilder → Option FunctionBuilder
set_after none fb = some fb
set_after (some block) fb = set_cur_block block fb

unfoldable pub switch_int : ValueExpr → List (ℤ × Branch) → Branch → Branch
unfolding declare_cases build_branches set_after
switch_int value cases fallback fb = do
  (branch_map, branches, fb₁) ← declare_cases cases [] [] fb
  (fallback_block, fb₂) ← declare_block fb₁
  fb₃ ← finish_block (Terminator.switch value branch_map fallback_block) fb₂
  (after, fb₄) ← build_branches (branches ++ (fallback, fallback_block) ∷ []) none fb₃
  set_after after fb₄

unfoldable pub if_ : ValueExpr → Branch → Branch → Branch
unfolding switch_int bool_to_int
if_ condition then_branch else_branch fb = do
  value ← bool_to_int u8 condition
  switch_int value ((pos 1, then_branch) ∷ []) else_branch fb

-- The closure that `while_` gives to `if_`: the body, and a jump back if it has not finished.
unfoldable pub loop_body : BbName → Branch → Branch
loop_body cond body fb = do fb₁ ← body fb; if is_none fb₁.cur_block then some fb₁ else goto cond fb₁

unfoldable pub while_ : ValueExpr → Branch → Branch
unfolding if_ loop_body
while_ condition body fb = do
  (cond, fb₁) ← declare_block fb
  fb₂ ← goto cond fb₁
  fb₃ ← set_cur_block cond fb₂
  if_ condition (loop_body cond body) some fb₃
