-- ===== src/Minimize/Program/Uses.antt =====
-- program.rs: what the translation of a function does to the context, and how functions are found.
use minirust.Prelude.{
  ℕ, ◌<◌, ◌≤◌, ◌^◌, ◌≡◌, length, ◌==◌, ==_iff, Bool-cases, inl, inr, refl, ◌∙◌, true, false, List,
  [], ◌∷◌, none, some, contains_key, contains_key-insert, arith, some_inj, if-eq-some,
}
use mathlib.Core.List.{Permᴰ}
use minirust.Lang.Types.{Ty, TraitName}
use minirust.Lang.Syntax.{FnName, GlobalName, VTableName, Function, Global}
use minirust.Minimize.Program.{Ctxt, Rustc, as_u32, get_fn_name, get_trait_name, get_vtable}
use minirust.Minimize.Program.Translate.{
  DataLayout, empty_ctxt, new_ctxt, find_unimplemented, add_function,
}
use minirust.Minimize.Program.Inv.{
  has_value, IsNamed, Inv, Later, Later-refl, Later-trans, get_fn_name-Later, get_fn_name-Inv,
}
use minirust.Minimize.Program.Traits.{get_trait_name-Advances}
use minirust.Minimize.Program.VTables.{get_vtable-Advances}

-- What the translation of a function does to the context: it asks for names, and keeps its own caches.
pub data Uses (q : Rustc) : Ctxt → Ctxt → Type 0 where
  nothing : {c : Ctxt} → Uses q c c
  fn_name : {c : Ctxt} (key : ℕ) → Uses q c (get_fn_name key c).1
  trait_name :
      {c : Ctxt} (obj : ℕ) (r : TraitName × Ctxt) → get_trait_name q obj c ≡ some r → Uses q c r.1
  vtable :
      {c : Ctxt} (ty obj : ℕ) (r : VTableName × Ctxt)
      → get_vtable q ty obj c ≡ some r
      → Uses q c r.1
  caches :
      {c : Ctxt} (allocs : List (ℕ × GlobalName)) (globals : List (GlobalName × Global))
      (tys : List (ℕ × Ty))
      → Uses q c (record c { alloc_map = allocs; globals = globals; ty_cache = tys })
  both : {a b c : Ctxt} → Uses q a b → Uses q b c → Uses q a c

pub Uses-Inv : {q : Rustc} {a b : Ctxt} → Uses q a b → Inv a → Later a b × Inv b
Uses-Inv {a = a} nothing inv = (Later-refl a, inv)
Uses-Inv {a = a} (fn_name key) inv = (get_fn_name-Later key a, get_fn_name-Inv key a inv)
Uses-Inv {q} {a} (trait_name obj r h) inv =
    let step = get_trait_name-Advances q obj a r h inv in (step.later, step.inv)
Uses-Inv {q} {a} (vtable ty obj r h) inv =
    let step = get_vtable-Advances q ty obj a r h inv in (step.later, step.inv)
Uses-Inv {q} {a} (caches allocs globals tys) inv = (
  record {
    names = λ n h. h;
    keys = λ k n h. h;
    traits = λ n h. h;
    functions = λ n h. h;
    new_names = [];
    extends = refl;
  },
  record {
    names = inv.names;
    functions = inv.functions;
    vtables =
        λ n v h. let k = inv.vtables n v h in record { trait_ = k.trait_; methods = k.methods };
    trait_names = inv.trait_names;
    vtable_names = inv.vtable_names;
  },
)
Uses-Inv {q} {a} {b} (both {b = m} u v) inv =
    let s = Uses-Inv u inv in let t = Uses-Inv v s.1 in (Later-trans a m b s.0 t.0, t.1)

pub has_value-Perm :
    (l m : List (ℕ × FnName)) (n : FnName) → Permᴰ l m → has_value l n ≡ has_value m n
has_value-Perm l m n Permᴰ.nil = refl
has_value-Perm (a ∷ l) (b ∷ m) n (Permᴰ.cons e p) = rw (e, has_value-Perm l m n p) refl
has_value-Perm (a ∷ b ∷ l) (a' ∷ b' ∷ m) n (Permᴰ.swap e f) = rw (e, f) (ground arith)
has_value-Perm l m n (Permᴰ.trans {l₂ = k} p r) = has_value-Perm l k n p ∙ has_value-Perm k m n r

pub find_unimplemented-none :
    (m : List (ℕ × FnName)) (functions : List (FnName × Function)) (n : FnName)
    → find_unimplemented m functions ≡ none
    → has_value m n ≡ true
    → contains_key functions n ≡ true
find_unimplemented-none [] functions n h k = cc
find_unimplemented-none ((_, name) ∷ m) functions n h k =
    ground (arith, find_unimplemented-none m functions n)

pub find_unimplemented-some :
    (m : List (ℕ × FnName)) (functions : List (FnName × Function)) (n : FnName)
    → find_unimplemented m functions ≡ some n
    → (has_value m n ≡ true) × (contains_key functions n ≡ false)
find_unimplemented-some [] functions n h = cc
find_unimplemented-some ((_, name) ∷ m) functions n h =
    ground (arith, find_unimplemented-some m functions n)

pub add_function-Inv :
    (n : FnName) (f : Function) (c : Ctxt)
    → has_value c.fn_name_map n ≡ true
    → Inv c
    → Inv (add_function n f c)
add_function-Inv n f c has inv = record {
  names = inv.names;
  functions = λ j h. ground (arith, inv.functions j, contains_key-insert c.functions n j f);
  vtables = λ j v h. let k = inv.vtables j v h in record { trait_ = k.trait_; methods = k.methods };
  trait_names = inv.trait_names;
  vtable_names = inv.vtable_names;
}

pub add_function-Later : (n : FnName) (f : Function) (c : Ctxt) → Later c (add_function n f c)
add_function-Later n f c = record {
  names = λ n h. h;
  keys = λ k n h. h;
  traits = λ n h. h;
  functions = λ j h. ground (arith, contains_key-insert c.functions n j f);
  new_names = [];
  extends = refl;
}

-- While all names fit into 32 bits they are below the number of keys.
pub IsNamed-below :
    (m : List (ℕ × FnName)) (n : FnName)
    → IsNamed m
    → length m ≤ 2 ^ 32
    → has_value m n ≡ true
    → n < length m
IsNamed-below [] n named fits h = cc
IsNamed-below ((k, name) ∷ m) n (e, _, named) fits h = elim (Bool-cases (name == n)) [
  | inl same ↦
      let eq = (==_iff name n).0 same in
      let small : as_u32 (length m) ≡ length m = omega arith in omega arith
  | inr other ↦ let rest = IsNamed-below m n named (omega arith) (ground arith) in omega arith
]

pub new_ctxt-eq : (dl : DataLayout) (c : Ctxt) → new_ctxt dl ≡ some c → empty_ctxt ≡ c
unfolding new_ctxt
new_ctxt-eq dl c h = some_inj (if-eq-some _ h).1
