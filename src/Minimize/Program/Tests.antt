-- ===== src/Minimize/Program/Tests.antt =====
-- A program of two functions, one of which needs a vtable, and the theorems at it.
use minirust.Prelude.{
  ℕ, ◌≡◌, refl, ◌↔◌, true, List, [], ◌∷◌, Option, none, some, ◌>>=◌, length, ◌==◌, if◌then◌else◌,
  arith,
}
use mathlib.Core.List.{Permᴰ}
use minirust.Lang.Syntax.{FnName, Function, Program}
use minirust.Minimize.Program.{Ctxt, Rustc, VtblEntry, get_fn_name, get_vtable}
use minirust.Minimize.Program.Translate.{
  DataLayout, empty_ctxt, new_ctxt, with_entry, mk_start_fn, translate,
}
use minirust.Minimize.Program.Uses.{Uses}
use minirust.Minimize.Program.Names.{get_fn_name_unique}
use minirust.Minimize.Program.Inv.{Inv}

abbrev pub layout : DataLayout
layout = record {
  pointer_size = 8;
  pointer_align = 8;
  little_endian = true;
  ints = (1, 1) ∷ (2, 2) ∷ (4, 4) ∷ (8, 8) ∷ (16, 16) ∷ [];
}

pub new_ctxt-layout : new_ctxt layout ≡ some empty_ctxt
unfolding new_ctxt
new_ctxt-layout = refl

-- The only trait object type is 2. The vtable of each type has its drop glue, 7, and the method 9.
abbrev pub rustc : Rustc
rustc = record {
  dynamic = λ ty. if ty == 2 then some (3, true) else none;
  has_principal = λ t. true;
  size_and_align = λ ty. some (4, 4);
  vtable_entries = λ ty t.
      VtblEntry.metadata_drop_in_place
      ∷ VtblEntry.other
      ∷ VtblEntry.other
      ∷ VtblEntry.method 9
      ∷ [];
  resolve_drop_in_place = λ ty. 7;
  first_method_vtable_slot = λ ty t. 3;
  own_entries = λ t. 1;
  drop_in_place_slot = 0;
  entry = 5;
}

abbrev some_fn : Function
some_fn = mk_start_fn 0

abbrev pub in_order : List (ℕ × FnName) → List (ℕ × FnName)
in_order m = m

pub in_order-Perm : (m : List (ℕ × FnName)) → Permᴰ (in_order m) m
in_order-Perm [] = Permᴰ.nil
in_order-Perm (x ∷ m) = Permᴰ.cons refl (in_order-Perm m)

-- The entry makes a trait object.
abbrev with_vtable : ℕ → Ctxt → Option (Function × Ctxt)
with_vtable i c =
    if i == 5 then (do (_, c₁) ← get_vtable rustc 1 2 c; some (some_fn, c₁)) else some (some_fn, c)

unfoldable program : Program
unfolding translate get_vtable get_fn_name
program = elim (translate in_order with_vtable 4 rustc empty_ctxt) [
  | some p ↦ p
  | none ↦ record { start = 0; functions = []; globals = []; vtables = []; traits = [] }
]

-- Three functions and the start function
length-program : length program.functions ≡ 4
unfolding program
length-program = refl

-- Instance 9 is named after the entry, and 7 after it.
get_fn_name_unique_example :
    ((get_fn_name 7 (get_fn_name 9 (with_entry rustc empty_ctxt)).1).0
      ≡ (get_fn_name 9 (with_entry rustc empty_ctxt)).0)
    ↔ ◌≡◌ {A = ℕ} 7 9
unfolding get_fn_name
get_fn_name_unique_example =
    get_fn_name_unique rustc (with_entry rustc empty_ctxt)
      (get_fn_name 9 (with_entry rustc empty_ctxt)).1 9 7 Uses.nothing Uses.nothing (omega arith)

-- With the instances that the vtable names
abbrev instances : List ℕ
instances = 5 ∷ 7 ∷ 9 ∷ []
