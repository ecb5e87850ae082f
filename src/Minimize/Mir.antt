-- ===== src/Minimize/Mir.antt =====
-- What the translator of function bodies (tooling/minimize/src/bb.rs and function.rs) reads of a body
-- of rustc and asks rustc. A place, a constant, an rvalue that is no cast of provenance, a type and
-- an instance are numbers; `none` is a panic.
use minirust.Prelude.{ℕ, Bool, List, Option}
use minirust.Lang.Syntax.{LocalName, ValueExpr, PlaceExpr}
use minirust.Fmt.Text.{Text}
use minirust.Minimize.Program.{Rustc, Ctxt}
use minirust.Minimize.Rust.{RsTypes}
use minirust.Minimize.Enums.{Translator}
use minirust.Minimize.Types.{Conv, translate_ty}

-- `rs::Operand`
pub data Operand : Type 0 where
  copy move constant : ℕ → Operand

-- `rs::Rvalue`
pub data Rvalue : Type 0 where
  expose_provenance with_exposed_provenance : Operand → Rvalue
  other : ℕ → Rvalue

-- `rs::StatementKind`; `retag` says whether its kind is `FnEntry`.
pub data StatementKind : Type 0 where
  assign : ℕ → Rvalue → StatementKind
  storage_live storage_dead : ℕ → StatementKind
  retag : Bool → ℕ → StatementKind
  deinit : ℕ → StatementKind
  set_discriminant : ℕ → ℕ → StatementKind
  assume : Operand → StatementKind
  place_mention : ℕ → StatementKind
  other : StatementKind

-- `rs::TerminatorKind`
pub data TerminatorKind : Type 0 where
  return_ : TerminatorKind
  goto : ℕ → TerminatorKind
  call : Operand → List Operand → ℕ → Option ℕ → TerminatorKind
  switch_int : Operand → List (ℕ × ℕ) → ℕ → TerminatorKind
  unreachable : TerminatorKind
  assert : Operand → Bool → ℕ → TerminatorKind
  drop : ℕ → ℕ → TerminatorKind
  other : TerminatorKind

-- `rs::BasicBlockData`
pub record BasicBlockData : Type 0 where
  pub statements : List StatementKind
  pub terminator : TerminatorKind
  pub is_cleanup : Bool

-- `rs::Body`; the locals are their types.
pub record Body : Type 0 where
  pub basic_blocks : List BasicBlockData
  pub local_decls : List ℕ
  pub arg_count : ℕ
  pub always_storage_live : List ℕ
  pub conv : Conv

-- `rs::InstanceKind`
pub data InstanceKind : Type 0 where
  intrinsic item : InstanceKind
  virtual : ℕ → InstanceKind

-- rustc, and the translator of places, operands and rvalues (rvalue.rs), which reads the names of the
-- locals and uses the context
pub record Env : Type 0 where
  pub rustc : Rustc
  pub types : RsTypes
  -- The rounds of `translate_ty`
  pub fuel : ℕ
  pub place_ty : ℕ → ℕ
  pub operand_ty : Operand → ℕ
  pub builtin_deref : ℕ → Option ℕ
  -- The instance of the function that an operand is
  pub resolve : Operand → Option ℕ
  pub instance_kind : ℕ → InstanceKind
  pub crate_name : ℕ → Text
  pub item_name : ℕ → Text
  pub to_string : ℕ → Text
  -- `args.type_at(0)`
  pub type_arg : ℕ → ℕ
  pub check_validity_requirement : Text → ℕ → Bool
  pub abi_conv : ℕ → Conv
  pub translate_place : List (ℕ × LocalName) → ℕ → Ctxt → Option (PlaceExpr × Ctxt)
  pub translate_operand : List (ℕ × LocalName) → Operand → Ctxt → Option (ValueExpr × Ctxt)
  pub translate_rvalue : List (ℕ × LocalName) → ℕ → Ctxt → Option (ValueExpr × Ctxt)

abbrev pub type_translator : Env → Translator
type_translator v = translate_ty v.rustc v.types v.fuel
