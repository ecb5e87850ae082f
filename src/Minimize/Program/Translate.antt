-- ===== src/Minimize/Program/Translate.antt =====
-- tooling/minimize/src/program.rs: the context at the start, the loop that translates every function
-- that has a name, and the start function.
use minirust.Prelude.{
  ℕ, zero, suc, Bool, true, false, ◌&&◌, List, [], ◌∷◌, Option, none, some, ◌>>=◌, length, insert,
  contains_key, if◌then◌else◌, ◌==◌,
}
use minirust.Lang.Types.{unsigned}
use minirust.Lang.Layout.{x86_64, int_align}
use minirust.Lang.Syntax.{FnName, Function, CallingConvention, Terminator, IntrinsicOp, Program}
use minirust.Build.Types.{unit_conv}
use minirust.Build.Places.{unit_place, fn_ptr_internal}
use minirust.Minimize.Program.{Rustc, Ctxt, as_u32}

-- What `Ctxt::new` reads of rustc's data layout: size and alignment of pointers, whether the order of
-- bytes is little-endian, and size and alignment of i8, i16, i32, i64 and i128.
pub record DataLayout : Type 0 where
  pub pointer_size : ℕ
  pub pointer_align : ℕ
  pub little_endian : Bool
  pub ints : List (ℕ × ℕ)

-- Whether the alignments of the integers are those of MiniRust.
abbrev pub same_aligns : List (ℕ × ℕ) → Bool
same_aligns [] = true
same_aligns ((size, align) ∷ ints) =
    elim (int_align x86_64 (record { signed = unsigned; size = size })) [
      | some a ↦ a == align && same_aligns ints
      | none ↦ false
    ]

abbrev pub empty_ctxt : Ctxt
empty_ctxt = record {
  fn_name_map = [];
  trait_map = [];
  traits = [];
  vtable_map = [];
  vtables = [];
  alloc_map = [];
  globals = [];
  functions = [];
  ty_cache = [];
}

-- `Ctxt::new`
unfoldable pub new_ctxt : DataLayout → Option Ctxt
unfolding int_align
new_ctxt dl =
    if x86_64.ptr_size == dl.pointer_size
      && x86_64.ptr_align == dl.pointer_align
      && dl.little_endian
      && same_aligns dl.ints
    then some empty_ctxt
    else none

unfoldable pub mk_start_fn : ℕ → Function
unfolding unit_place fn_ptr_internal unit_conv
mk_start_fn entry = record {
  locals = (0, unit_conv.get_type) ∷ [];
  args = [];
  ret = 0;
  calling_convention = CallingConvention.c;
  blocks =
      (
        0,
        record {
          statements = [];
          terminator =
              Terminator.call (fn_ptr_internal entry) CallingConvention.rust [] unit_place (some 1);
        },
      )
      ∷ (
        1,
        record {
          statements = [];
          terminator = Terminator.intrinsic IntrinsicOp.exit [] unit_place none;
        },
      )
      ∷ [];
  start = 0;
}

-- `values().find(|k| !self.functions.contains_key(**k))`
abbrev pub find_unimplemented : List (ℕ × FnName) → List (FnName × Function) → Option FnName
find_unimplemented [] functions = none
find_unimplemented ((_, name) ∷ m) functions =
    if contains_key functions name then find_unimplemented m functions else some name

-- `iter().find(|(_, f)| **f == fn_name)`
abbrev pub find_instance : List (ℕ × FnName) → FnName → Option ℕ
find_instance [] fn_name = none
find_instance ((instance_, name) ∷ m) fn_name =
    if name == fn_name then some instance_ else find_instance m fn_name

abbrev pub add_function : FnName → Function → Ctxt → Ctxt
add_function fn_name f c = record c { functions = insert c.functions fn_name f }

abbrev pub start_name : Ctxt → FnName
start_name c = as_u32 (length c.fn_name_map)

abbrev pub to_program : Ctxt → Program
to_program c = record {
  start = start_name c;
  functions = insert c.functions (start_name c) (mk_start_fn 0);
  globals = c.globals;
  vtables = c.vtables;
  traits = c.traits;
}

abbrev pub with_entry : Rustc → Ctxt → Ctxt
with_entry q c = record c { fn_name_map = insert c.fn_name_map q.entry 0 }

-- `iter` is the order in which the `HashMap` of names is read, and `translate_fn` is the translation
-- of one function, `FnCtxt::new(*instance, &mut self).translate()`.
module _ (iter : List (ℕ × FnName) → List (ℕ × FnName))
    (translate_fn : ℕ → Ctxt → Option (Function × Ctxt)) where
  -- The main monomorphization loop, with fuel for its rounds
  unfoldable pub translate_loop : ℕ → Ctxt → Option Ctxt
  translate_loop zero c = none
  translate_loop (suc fuel) c = elim (find_unimplemented (iter c.fn_name_map) c.functions) [
    | none ↦ some c
    | some fn_name ↦ (do
      instance_ ← find_instance (iter c.fn_name_map) fn_name
      (f, c₁) ← translate_fn instance_ c
      translate_loop fuel (add_function fn_name f c₁))
  ]

  unfoldable pub translate : ℕ → Rustc → Ctxt → Option Program
  unfolding translate_loop
  translate fuel q c = do done ← translate_loop fuel (with_entry q c); some (to_program done)
