-- ===== src/Build/Functions/Tests.antt =====
-- The functions of `function` at small lists, and the theorems at them.
use minirust.Prelude.{◌≡◌, ◌↔◌, ◌<◌, refl, [], ◌∷◌, some, none, length}
use minirust.Lang.Types.{Ty}
use minirust.Lang.Syntax.{BasicBlock, Function}
use minirust.Build.Types.{u8, unit_conv}
use minirust.Build.Terminators as T
use minirust.Build.Functions.{returns, diverges, block, ret_local, function}
use minirust.Build.Functions.Laws.{IsNamed, function-total, function-IsNamed}

built : Function
unfolding function ret_local unit_conv block
built = elim (function diverges 1 (u8.get_type ∷ Ty.bool ∷ []) (block [] T.return_ ∷ [])) [
  | some f ↦ f
  | none ↦ record {
    locals = [];
    args = [];
    ret = 0;
    calling_convention = minirust.Lang.Syntax.CallingConvention.c;
    blocks = [];
    start = 0;
  }
]

function-built :
    function diverges 1 (u8.get_type ∷ Ty.bool ∷ []) (block [] T.return_ ∷ []) ≡ some built
unfolding built
function-built = refl

function-IsNamed_example :
    IsNamed diverges 1 (u8.get_type ∷ Ty.bool ∷ []) (block [] T.return_ ∷ []) built
function-IsNamed_example =
    function-IsNamed diverges 1 (u8.get_type ∷ Ty.bool ∷ []) (block [] T.return_ ∷ []) built
      function-built

function-total_example :
    ((f : Function) × (function returns 2 (Ty.bool ∷ []) [] ≡ some f))
    ↔ (returns ≡ returns → 0 < length (Ty.bool ∷ []))
function-total_example = function-total returns 2 (Ty.bool ∷ []) []
