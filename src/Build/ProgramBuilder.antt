-- ===== src/Build/ProgramBuilder.antt =====
-- build/mod.rs, build/global.rs: the builders of programs, vtables and traits. `none` is a panic.
pub mod Laws
mod Tests
use minirust.Prelude.{
  ℕ, ◌+◌, List, [], ◌∷◌, Option, none, some, ◌>>=◌, replicate, if◌then◌else◌, get, insert, keys,
  contains, try_insert, same_set,
}
use minirust.Lang.Types.{TraitName, Ty}
use minirust.Lang.Layout.{x86_64, layout, expect_size, expect_align}
use minirust.Lang.Syntax.{
  FnName, GlobalName, VTableName, TraitMethodName, PlaceExpr, Function, Global, VTable, Program,
}
use minirust.Build.Types.{TypeConv, get_size, get_align}
use minirust.Build.Places.{global_by_name}
use minirust.Build.FunctionBuilder as F
use minirust.Build.FunctionBuilder.{FunctionBuilder, increment}

pub record ProgramBuilder : Type 0 where
  pub functions : List (FnName × Function)
  pub globals : List (GlobalName × Global)
  pub vtables : List (VTableName × VTable)
  pub traits : List (TraitName × List TraitMethodName)
  pub next_fn : ℕ
  pub next_global : ℕ
  pub next_vtable : ℕ
  pub next_trait : ℕ

pub record VTableBuilder : Type 0 where
  pub trait_name : TraitName
  pub name : VTableName
  pub size : ℕ
  pub align : ℕ
  pub methods : List (TraitMethodName × FnName)

pub record TraitBuilder : Type 0 where
  pub name : TraitName
  pub next_method : ℕ
  pub method_names : List TraitMethodName

abbrev pub new : ProgramBuilder
new = record {
  functions = [];
  globals = [];
  vtables = [];
  traits = [];
  next_fn = 0;
  next_global = 0;
  next_vtable = 0;
  next_trait = 0;
}

unfoldable pub finish_program : ProgramBuilder → FnName → Program
finish_program pb start_function = record {
  functions = pb.functions;
  start = start_function;
  globals = pb.globals;
  traits = pb.traits;
  vtables = pb.vtables;
}

unfoldable pub declare_function : ProgramBuilder → Option (FunctionBuilder × ProgramBuilder)
unfolding increment
declare_function pb = do
  next ← increment pb.next_fn
  fb ← F.new pb.next_fn
  some (fb, record pb { next_fn = next })

unfoldable pub finish_function : FunctionBuilder → ProgramBuilder → Option (FnName × ProgramBuilder)
finish_function f pb = do
  built ← F.finish_function f
  functions ← try_insert pb.functions f.name built
  some (f.name, record pb { functions = functions })

unfoldable pub declare_vtable :
    TraitName → ℕ → ℕ → ProgramBuilder → Option (VTableBuilder × ProgramBuilder)
unfolding increment
declare_vtable trait_name size align pb = do
  next ← increment pb.next_vtable
  some (
    record {
      trait_name = trait_name;
      name = pb.next_vtable;
      size = size;
      align = align;
      methods = [];
    },
    record pb { next_vtable = next },
  )

unfoldable pub declare_vtable_for_ty :
    TraitName → Ty → ProgramBuilder → Option (VTableBuilder × ProgramBuilder)
unfolding declare_vtable
declare_vtable_for_ty trait_name ty pb = do
  strategy ← layout x86_64 ty
  size ← expect_size strategy
  align ← expect_align strategy
  declare_vtable trait_name size align pb

-- `VTableBuilder::add_method`
unfoldable pub add_method : TraitMethodName → FnName → VTableBuilder → VTableBuilder
add_method index func v = record v { methods = insert v.methods index func }

-- `VTableBuilder::finish_vtable`
abbrev pub to_vtable : VTableBuilder → VTable
to_vtable v = record {
  trait_name = v.trait_name;
  size = v.size;
  align = v.align;
  methods = v.methods;
}

unfoldable pub finish_vtable : VTableBuilder → ProgramBuilder → Option (VTableName × ProgramBuilder)
finish_vtable v pb = do
  declared ← get pb.traits v.trait_name
  if same_set declared (keys v.methods)
      then (do
        vtables ← try_insert pb.vtables v.name (to_vtable v)
        some (v.name, record pb { vtables = vtables }))
      else none

unfoldable pub declare_trait : ProgramBuilder → Option (TraitBuilder × ProgramBuilder)
unfolding increment
declare_trait pb = do
  next ← increment pb.next_trait
  some (
    record { name = pb.next_trait; next_method = 0; method_names = [] },
    record pb { next_trait = next },
  )

-- `TraitBuilder::declare_method`; the names are a set.
unfoldable pub declare_method : TraitBuilder → Option (TraitMethodName × TraitBuilder)
unfolding increment
declare_method t = do
  next ← increment t.next_method
  let names =
      if contains t.method_names t.next_method
      then t.method_names
      else t.next_method ∷ t.method_names
  some (t.next_method, record t { next_method = next; method_names = names })

unfoldable pub finish_trait : TraitBuilder → ProgramBuilder → Option (TraitName × ProgramBuilder)
finish_trait t pb = do
  traits ← try_insert pb.traits t.name t.method_names
  some (t.name, record pb { traits = traits })

unfoldable pub declare_global_zero_initialized :
    TypeConv → ProgramBuilder → Option (PlaceExpr × ProgramBuilder)
unfolding get_size get_align increment global_by_name
declare_global_zero_initialized t pb = do
  size ← get_size t
  align ← get_align t
  next ← increment pb.next_global
  globals ←
      try_insert pb.globals pb.next_global
        (record { bytes = replicate size (some 0); relocations = []; align = align })
  some (global_by_name t pb.next_global, record pb { globals = globals; next_global = next })
