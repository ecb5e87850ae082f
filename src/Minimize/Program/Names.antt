-- ===== src/Minimize/Program/Names.antt =====
-- program.rs: the names of functions.
use minirust.Prelude.{
  ℕ, ◌≤◌, ◌^◌, ◌≡◌, sym, ◌∙◌, ap, ◌↔◌, List, [], ◌∷◌, some, some_inj, length, get, arith,
}
use minirust.Lang.Syntax.{FnName}
use minirust.Minimize.Program.{Ctxt, Rustc, as_u32, get_fn_name}
use minirust.Minimize.Program.Translate.{empty_ctxt, with_entry}
use minirust.Minimize.Program.Inv.{
  has_value-get, IsNamed, get_fn_name-Later, get_fn_name-Inv, get_fn_name-get,
}
use minirust.Minimize.Program.Uses.{Uses, Uses-Inv, IsNamed-below}
use minirust.Minimize.Program.Complete.{with_entry-Inv}

-- Two keys with one name are the same.
pub IsNamed-injective :
    (m : List (ℕ × FnName)) (j k : ℕ) (n : FnName)
    → IsNamed m
    → length m ≤ 2 ^ 32
    → get m j ≡ some n
    → get m k ≡ some n
    → j ≡ k
IsNamed-injective [] j k n named fits hj hk = cc
IsNamed-injective ((i, name) ∷ m) j k n (e, _, named) fits hj hk =
    let below = λ (l : ℕ) (h : get m l ≡ some n).
      IsNamed-below m n named (omega arith) (has_value-get m l n h) in
    let small : as_u32 (length m) ≡ length m = omega arith in
    let rest = IsNamed-injective m j k n named (omega arith) in ground (arith, below j, below k)

module _ (q : Rustc) where
  -- After a new context has been used in any way, `get_fn_name` gives an instance a name, and after
  -- any more uses it gives the same name to the same instance and, while there are at most 2 ^ 32
  -- names, to no other.
  pub get_fn_name_unique :
      (c c' : Ctxt) (j k : ℕ)
      → Uses q (with_entry q empty_ctxt) c
      → Uses q (get_fn_name j c).1 c'
      → length (get_fn_name k c').1.fn_name_map ≤ 2 ^ 32
      → ((get_fn_name k c').0 ≡ (get_fn_name j c).0) ↔ (k ≡ j)
  get_fn_name_unique c c' j k u v fits =
      let inv = (Uses-Inv u (with_entry-Inv q)).1 in
      let (later, inv') = Uses-Inv v (get_fn_name-Inv j c inv) in
      let d = (get_fn_name k c').1 in
      let gj = (get_fn_name-Later k c').keys j _ (later.keys j _ (get_fn_name-get j c)) in
      let gk = get_fn_name-get k c' in
      (
        λ e.
            IsNamed-injective d.fn_name_map k j _ (get_fn_name-Inv k c' inv').names fits gk
              (gj ∙ ap some (sym e)),
        λ e. some_inj (sym gk ∙ ap (get d.fn_name_map) e ∙ gj),
      )
