-- ===== src/Minimize/Program/Inv.antt =====
-- Contexts of program.rs: which ones come later, what holds of each, and names of functions.
use minirust.Prelude.{
  ℕ, ◌≡◌, refl, ap, sym, ◌∙◌, Bool, true, false, ◌||◌, List, [], ◌∷◌, ◌++◌, append_assoc, none,
  some, length, get, contains_key, ◌==◌, arith, ◌⊎◌, inl, inr, Option-cases,
}
use minirust.Lang.Types.{TraitName}
use minirust.Lang.Syntax.{FnName, VTableName, TraitMethodName, VTable}
use minirust.Minimize.Program.{Ctxt, as_u32, get_fn_name, get_pair}

-- Whether a name is given out.
abbrev pub has_value : List (ℕ × FnName) → FnName → Bool
has_value [] n = false
has_value ((_, name) ∷ m) n = name == n || has_value m n

-- The names are 0, 1, 2, ..., in the order in which they were given out, each to a new key.
abbrev pub IsNamed : List (ℕ × FnName) → Type 0
IsNamed [] = Unit
IsNamed ((key, name) ∷ m) = (name ≡ as_u32 (length m)) × (get m key ≡ none) × IsNamed m

-- The trait of a vtable is declared, and its functions have names.
pub record IsComplete (c : Ctxt) (v : VTable) : Type 0 where
  pub trait_ : contains_key c.traits v.trait_name ≡ true
  pub methods :
      (m : TraitMethodName) (f : FnName)
      → get v.methods m ≡ some f
      → has_value c.fn_name_map f ≡ true

pub record Inv (c : Ctxt) : Type 0 where
  pub names : IsNamed c.fn_name_map
  pub functions :
      (n : FnName) → contains_key c.functions n ≡ true → has_value c.fn_name_map n ≡ true
  pub vtables : (n : VTableName) (v : VTable) → get c.vtables n ≡ some v → IsComplete c v
  pub trait_names :
      (t : ℕ) (n : TraitName) → get c.trait_map t ≡ some n → contains_key c.traits n ≡ true
  pub vtable_names :
      (ty t : ℕ) (n : VTableName)
      → get_pair c.vtable_map ty t ≡ some n
      → contains_key c.vtables n ≡ true

-- What is named or declared stays so.
pub record Later (c c' : Ctxt) : Type 0 where
  pub names : (n : FnName) → has_value c.fn_name_map n ≡ true → has_value c'.fn_name_map n ≡ true
  pub keys : (k : ℕ) (n : FnName) → get c.fn_name_map k ≡ some n → get c'.fn_name_map k ≡ some n
  pub traits : (n : TraitName) → contains_key c.traits n ≡ true → contains_key c'.traits n ≡ true
  pub functions :
      (n : FnName) → contains_key c.functions n ≡ true → contains_key c'.functions n ≡ true
  pub new_names : List (ℕ × FnName)
  pub extends : c'.fn_name_map ≡ new_names ++ c.fn_name_map

pub Later-refl : (c : Ctxt) → Later c c
Later-refl c = record {
  names = λ n h. h;
  keys = λ k n h. h;
  traits = λ n h. h;
  functions = λ n h. h;
  new_names = [];
  extends = refl;
}

pub Later-trans : (a b c : Ctxt) → Later a b → Later b c → Later a c
Later-trans a b c l k = record {
  names = λ n h. k.names n (l.names n h);
  keys = λ key n h. k.keys key n (l.keys key n h);
  traits = λ n h. k.traits n (l.traits n h);
  functions = λ n h. k.functions n (l.functions n h);
  new_names = k.new_names ++ l.new_names;
  extends =
      k.extends
      ∙ ap (λ m. k.new_names ++ m) l.extends
      ∙ sym (append_assoc k.new_names l.new_names a.fn_name_map);
}

pub IsComplete-Later : (a b : Ctxt) (v : VTable) → Later a b → IsComplete a v → IsComplete b v
IsComplete-Later a b v l k = record {
  trait_ = l.traits v.trait_name k.trait_;
  methods = λ m f h. l.names f (k.methods m f h);
}

pub has_value-get :
    (m : List (ℕ × FnName)) (k : ℕ) (n : FnName) → get m k ≡ some n → has_value m n ≡ true
has_value-get [] k n h = cc
has_value-get ((j, name) ∷ m) k n h = ground (arith, has_value-get m k n)

-- A key that has no name differs from one that has.
pub get-cons :
    (m : List (ℕ × FnName)) (j k : ℕ) (a b : FnName)
    → get m j ≡ none
    → get m k ≡ some b
    → get ((j, a) ∷ m) k ≡ some b
get-cons m j k a b e h = ground arith

-- The context once a new key has its name
abbrev with_name : ℕ → Ctxt → Ctxt
with_name key c = record c { fn_name_map = (key, as_u32 (length c.fn_name_map)) ∷ c.fn_name_map }

-- With the key new or not
get_fn_name-cases :
    (key : ℕ) (c : Ctxt)
    → ((n : FnName) × (get c.fn_name_map key ≡ some n) × (get_fn_name key c ≡ (n, c)))
      ⊎ ((get c.fn_name_map key ≡ none)
          × (get_fn_name key c ≡ (as_u32 (length c.fn_name_map), with_name key c)))
unfolding get_fn_name
get_fn_name-cases key c = elim (Option-cases (get c.fn_name_map key)) [
  | inl e ↦ inr (e, rw (get_fn_name, e) refl)
  | inr (n, e) ↦ inl (n, e, rw (get_fn_name, e) refl)
]

with_name-Later : (key : ℕ) (c : Ctxt) → get c.fn_name_map key ≡ none → Later c (with_name key c)
with_name-Later key c e = record {
  names = λ n k. ground arith;
  keys = λ k n g. get-cons c.fn_name_map key k (as_u32 (length c.fn_name_map)) n e g;
  traits = λ n k. k;
  functions = λ n k. k;
  new_names = (key, as_u32 (length c.fn_name_map)) ∷ [];
  extends = refl;
}

with_name-Inv : (key : ℕ) (c : Ctxt) → get c.fn_name_map key ≡ none → Inv c → Inv (with_name key c)
with_name-Inv key c e inv =
    let later = with_name-Later key c e in
    record {
      names = (refl, e, inv.names);
      functions = λ n k. later.names n (inv.functions n k);
      vtables = λ n v k. IsComplete-Later c (with_name key c) v later (inv.vtables n v k);
      trait_names = inv.trait_names;
      vtable_names = inv.vtable_names;
    }

pub get_fn_name-Later : (key : ℕ) (c : Ctxt) → Later c (get_fn_name key c).1
get_fn_name-Later key c = elim (get_fn_name-cases key c) [
  | inl (n, e, h) ↦ rw h (Later-refl c)
  | inr (e, h) ↦ rw h (with_name-Later key c e)
]

pub get_fn_name-get :
    (key : ℕ) (c : Ctxt) → get (get_fn_name key c).1.fn_name_map key ≡ some (get_fn_name key c).0
get_fn_name-get key c = elim (get_fn_name-cases key c) [
  | inl (n, e, h) ↦ rw h e
  | inr (e, h) ↦ rw h (ground arith)
]

pub get_fn_name-Inv : (key : ℕ) (c : Ctxt) → Inv c → Inv (get_fn_name key c).1
get_fn_name-Inv key c inv = elim (get_fn_name-cases key c) [
  | inl (n, e, h) ↦ rw h inv
  | inr (e, h) ↦ rw h (with_name-Inv key c e inv)
]
