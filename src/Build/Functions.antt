-- ===== src/Build/Functions.antt =====
-- build/function.rs, build/mod.rs, build/global.rs: functions and programs from lists of their parts.
-- The index of a part is its name. An index is taken to fit `u32`, as it is cast to it.
pub mod Laws
mod Tests
use minirust.Prelude.{
  ℕ, zero, suc, ◌+◌, ◌<◌, ◌≤◌, ◌≡◌, refl, ap, Bool, true, false, List, [], ◌∷◌, ◌++◌, map, Option,
  none, some, ◌>>=◌, length, replicate, ltb, if◌then◌else◌, try_insert,
}
use minirust.Lang.Types.{Ty}
use minirust.Lang.Layout.{expect_size}
use minirust.Lang.Syntax.{
  LocalName, BbName, Statement, Terminator, BasicBlock, Function, CallingConvention, Global,
  Program,
}
use minirust.Build.Types.{TypeConv, unit_conv, raw_ptr, get_size, get_align, get_layout}
use minirust.Build.Terminators as T

pub data Ret : Type 0 where
  returns diverges : Ret

-- `iter().enumerate()`, from index `i` on
abbrev pub enumerate_from {ℓ} : {A : Type ℓ} → ℕ → List A → List (ℕ × A)
enumerate_from i [] = []
enumerate_from i (x ∷ xs) = (i, x) ∷ enumerate_from (suc i) xs

-- The first argument's index
abbrev pub first_arg : Ret → ℕ
first_arg returns = 1
first_arg diverges = 0

abbrev pub range_from : ℕ → ℕ → List ℕ
range_from i zero = []
range_from i (suc n) = i ∷ range_from (suc i) n

-- The return local and all the locals: with no return local one of type `()` is added.
abbrev pub ret_local : Ret → List (LocalName × Ty) → Option (LocalName × List (LocalName × Ty))
unfolding unit_conv
ret_local returns locals = if ltb 0 (length locals) then some (0, locals) else none
ret_local diverges locals = do
  added ← try_insert locals (length locals) unit_conv.get_type
  some (length locals, added)

unfoldable pub function : Ret → ℕ → List Ty → List BasicBlock → Option Function
unfolding ret_local
function ret num_args locals bbs = do
  (ret_name, all_locals) ← ret_local ret (enumerate_from 0 locals)
  some (record {
    locals = all_locals;
    args = range_from (first_arg ret) num_args;
    ret = ret_name;
    calling_convention = CallingConvention.c;
    blocks = enumerate_from 0 bbs;
    start = 0;
  })

unfoldable pub block : List Statement → Terminator → BasicBlock
block statements terminator = record { statements = statements; terminator = terminator }

unfoldable pub program_with_globals : List Function → List Global → Program
program_with_globals fns globals = record {
  functions = enumerate_from 0 fns;
  start = 0;
  globals = enumerate_from 0 globals;
  traits = [];
  vtables = [];
}

unfoldable pub program : List Function → Program
unfolding program_with_globals
program fns = program_with_globals fns []

-- One block that ends the program
unfoldable pub small_program : List Ty → List Statement → Option Program
unfolding function block program T.exit
small_program locals statements = do
  f ← function diverges 0 locals (block statements T.exit ∷ [])
  some (program (f ∷ []))

unfoldable pub global_int : TypeConv → Option Global
unfolding get_size get_align
global_int t = do
  size ← get_size t
  align ← get_align t
  some (record { bytes = replicate size (some 0); relocations = []; align = align })

-- The argument is any type, also an unsized one.
unfoldable pub global_ptr : TypeConv → Option Global
unfolding get_layout get_align raw_ptr
global_ptr t = do
  layout ← get_layout (raw_ptr t)
  size ← expect_size layout
  align ← get_align (raw_ptr t)
  some (record { bytes = replicate size (some 0); relocations = []; align = align })
