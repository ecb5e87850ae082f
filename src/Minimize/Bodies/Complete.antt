-- ===== src/Minimize/Bodies/Complete.antt =====
-- program.rs, function.rs: the program that is made of translated bodies.
use minirust.Prelude.{ℕ, ◌<◌, ◌^◌, ◌≡◌, length, List, Option, some, subst}
use mathlib.Core.List.{Permᴰ}
use minirust.Lang.Syntax.{FnName, LocalName, BbName, Function, Program}
use minirust.Minimize.Program.{Ctxt, Rustc}
use minirust.Minimize.Program.Translate.{DataLayout, new_ctxt, translate_loop, with_entry}
use minirust.Minimize.Program.Uses.{Uses}
use minirust.Minimize.Program.Complete.{IsWhole, translate-IsWhole}
use minirust.Minimize.Mir.{Body, Env}
use minirust.Minimize.Bodies.Kept.{EnvKeeps}
use minirust.Minimize.Bodies.Uses.{translate-Kept}
use minirust.Minimize.Bodies.Blocks.{translate}

-- The orders in which the maps are read, and for each instance its body and what rustc says of it
module _ (q : Rustc) (iter : List (ℕ × FnName) → List (ℕ × FnName))
    (iter-Perm : (m : List (ℕ × FnName)) → Permᴰ (iter m) m)
    (iter_bbs : List (ℕ × BbName) → List (ℕ × BbName))
    (iter_locals : List (ℕ × LocalName) → List (ℕ × LocalName)) (env : ℕ → Env) (body : ℕ → Body)
    (env-rustc : (i : ℕ) → (env i).rustc ≡ q) (env-Keeps : (i : ℕ) → EnvKeeps (env i)) where
  -- `FnCtxt::new` and `FnCtxt::translate`, of an instance
  abbrev pub translate_fn : ℕ → Ctxt → Option (Function × Ctxt)
  translate_fn i cx = translate (env i) iter_bbs iter_locals (body i) cx

  translate_fn-Uses :
      (i : ℕ) (c : Ctxt) (r : Function × Ctxt) → translate_fn i c ≡ some r → Uses q c r.1
  translate_fn-Uses i c r h =
      subst (λ rustc. Uses rustc c r.1) (env-rustc i)
        ((translate-Kept (env i) iter_bbs iter_locals (body i) c (env-Keeps i)).keeps r h)

  -- If the translation of places, operands and rvalues changes the context only by asking for names
  -- and in its caches, and fewer than 2 ^ 32 names are asked for, then of each program that the loop
  -- over functions and the translation of their bodies return, from a new context, the start function
  -- is the one that calls function 0, function 0 and all functions of each vtable are there, as the
  -- loop has made them, and the trait of each vtable is there.
  pub translate_bodies-IsWhole :
      (fuel : ℕ) (dl : DataLayout) (c d : Ctxt) (p : Program)
      → new_ctxt dl ≡ some c
      → translate_loop iter translate_fn fuel (with_entry q c) ≡ some d
      → length d.fn_name_map < 2 ^ 32
      → minirust.Minimize.Program.Translate.translate iter translate_fn fuel q c ≡ some p
      → IsWhole d.functions p
  translate_bodies-IsWhole fuel dl c d p new looped few h =
      translate-IsWhole q iter iter-Perm translate_fn translate_fn-Uses fuel dl c d p new looped few
        h
