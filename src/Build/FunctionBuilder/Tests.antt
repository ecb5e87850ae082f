-- ===== src/Build/FunctionBuilder/Tests.antt =====
-- A small function, built by the methods, and the theorems at it.
use minirust.Prelude.{◌≡◌, refl, true, Option, none, some, length}
use minirust.Lang.Syntax.{ValueExpr, Function}
use minirust.Build.Exprs.{const_bool}
use minirust.Build.FunctionBuilder.{FunctionBuilder, new, finish_function, finish_block}
use minirust.Build.FunctionBuilder.Terminators as M
use minirust.Build.FunctionBuilder.Branches.{Branch, if_, while_}
use minirust.Build.FunctionBuilder.Reach.{next, while}
use minirust.Build.FunctionBuilder.Methods.{Does, return_-Does, if_-Does, assume-Does}
use minirust.Build.FunctionBuilder.Closed.{IsClosed, finish_function-IsClosed}

abbrev yes_expr : ValueExpr
yes_expr = const_bool true

-- while true { if true { return } else { assume(true) } }; return
body : Branch
body = if_ yes_expr M.return_ (M.assume yes_expr)

body-Does : Does body
unfolding body
body-Does = if_-Does yes_expr M.return_ (M.assume yes_expr) return_-Does (assume-Does yes_expr)

-- A value that must be there
abbrev IsSome : {A : Type 0} → Option A → Type 0
IsSome none = ⊥
IsSome (some _) = Unit

abbrev the : {A : Type 0} (o : Option A) → IsSome o → A
the none h = absurd h
the (some a) h = a

started : FunctionBuilder
unfolding new
started = the (new 7) tt

looped : FunctionBuilder
unfolding started while_ body M.return_ M.assume M.continue_with M.goto finish_block
looped = the (while_ yes_expr body started) tt

returned : FunctionBuilder
unfolding looped
returned = the (M.return_ looped) tt

built : Function
unfolding returned finish_function
built = the (finish_function returned) tt

-- All of the nine blocks that the methods declared are there.
built_blocks : length built.blocks ≡ 9
unfolding built
built_blocks = refl

new-started : new 7 ≡ some started
unfolding started
new-started = refl

while_-looped : while_ yes_expr body started ≡ some looped
unfolding looped
while_-looped = refl

return_-returned : M.return_ looped ≡ some returned
unfolding returned
return_-returned = refl

finish_function-built : finish_function returned ≡ some built
unfolding built
finish_function-built = refl

finish_function-IsClosed_example : IsClosed built
finish_function-IsClosed_example =
    finish_function-IsClosed 7 started returned built new-started
      (next (while yes_expr body body-Does while_-looped)
        (return_-Does looped returned return_-returned))
      finish_function-built
