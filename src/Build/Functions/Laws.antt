-- ===== src/Build/Functions/Laws.antt =====
-- build/function.rs: names and panics of `function`.
use minirust.Prelude.{
  ℕ, zero, suc, ◌+◌, ◌<◌, ◌≤◌, ◌≡◌, ◌↔◌, refl, ap, subst, true, false, List, [], ◌∷◌, some,
  some_inj, length, get_elem?, ltb, leb, if◌then◌else◌, get, contains_key, lt→ltb, arith,
}
use minirust.Lang.Types.{Ty}
use minirust.Lang.Syntax.{LocalName, BasicBlock, Function, CallingConvention}
use minirust.Build.Types.{unit_conv}
use minirust.Build.Functions.{
  Ret, returns, diverges, enumerate_from, first_arg, range_from, ret_local, function,
}

module _ {ℓ} {A : Type ℓ} where
  -- The items of an enumeration have the indices from `i` on as names.
  get-enumerate_from : (i j : ℕ) (xs : List A) → get (enumerate_from i xs) (i + j) ≡ get_elem? xs j
  get-enumerate_from i j [] = refl
  get-enumerate_from i zero (x ∷ xs) = ground arith
  get-enumerate_from i (suc j) (x ∷ xs) =
      let e : i + suc j ≡ suc i + j = omega arith in
      rw e (ground (arith, get-enumerate_from (suc i) j xs))

  contains_key-enumerate_from :
      (i j : ℕ) (xs : List A)
      → contains_key (enumerate_from i xs) j ≡ (if leb i j then ltb j (i + length xs) else false)
  contains_key-enumerate_from i j [] = ground arith
  contains_key-enumerate_from i j (x ∷ xs) =
      ground (arith, contains_key-enumerate_from (suc i) j xs)

  get-enumerate : (j : ℕ) (xs : List A) → get (enumerate_from 0 xs) j ≡ get_elem? xs j
  get-enumerate j xs =
      let e : 0 + j ≡ j = omega arith in
      subst (λ n. get (enumerate_from 0 xs) n ≡ get_elem? xs j) e (get-enumerate_from 0 j xs)

length-enumerate_from {ℓ} :
    {A : Type ℓ} (i : ℕ) (xs : List A) → length (enumerate_from i xs) ≡ length xs
length-enumerate_from i [] = refl
length-enumerate_from i (x ∷ xs) = ap suc (length-enumerate_from (suc i) xs)

-- What the return local is, and the locals with it
ret_local-returns :
    (ty : Ty) (locals : List Ty)
    → ret_local returns (enumerate_from 0 (ty ∷ locals)) ≡ some (0, enumerate_from 0 (ty ∷ locals))
unfolding ret_local unit_conv
ret_local-returns ty locals = rw (lt→ltb 0 (suc (length (enumerate_from 1 locals))) (omega arith))

ret_local-diverges :
    (locals : List Ty)
    → ret_local diverges (enumerate_from 0 locals)
      ≡ some (length locals, (length locals, unit_conv.get_type) ∷ enumerate_from 0 locals)
unfolding ret_local unit_conv
ret_local-diverges locals =
    let absent : contains_key (enumerate_from 0 locals) (length locals) ≡ false =
      ground (arith, contains_key-enumerate_from 0 (length locals) locals) in
    rw (length-enumerate_from 0 locals, absent)

-- The functions that `function` returns
abbrev named_returns : ℕ → Ty → List Ty → List BasicBlock → Function
named_returns num_args ty locals bbs = record {
  locals = enumerate_from 0 (ty ∷ locals);
  args = range_from 1 num_args;
  ret = 0;
  calling_convention = CallingConvention.c;
  blocks = enumerate_from 0 bbs;
  start = 0;
}

abbrev named_diverges : ℕ → List Ty → List BasicBlock → Function
named_diverges num_args locals bbs = record {
  locals = (length locals, unit_conv.get_type) ∷ enumerate_from 0 locals;
  args = range_from 0 num_args;
  ret = length locals;
  calling_convention = CallingConvention.c;
  blocks = enumerate_from 0 bbs;
  start = 0;
}

-- `function` panics exactly if it shall return and has no local to return.
pub function-total :
    (ret : Ret) (num_args : ℕ) (locals : List Ty) (bbs : List BasicBlock)
    → ((f : Function) × (function ret num_args locals bbs ≡ some f))
      ↔ (ret ≡ returns → 0 < length locals)
unfolding function
function-total returns num_args [] bbs = (λ (f, e). cc, λ h. absurd (omega (arith, h refl)))
function-total returns num_args (ty ∷ locals) bbs = (
  λ _ _. omega arith,
  λ _. (named_returns num_args ty locals bbs, rw (ret_local-returns ty locals)),
)
function-total diverges num_args locals bbs =
    (λ _ e. cc, λ _. (named_diverges num_args locals bbs, rw (ret_local-diverges locals)))

-- Each name of the list is a local.
abbrev pub AllLocals : List (LocalName × Ty) → List LocalName → Type 0
AllLocals locals [] = Unit
AllLocals locals (a ∷ l) = (contains_key locals a ≡ true) × AllLocals locals l

AllLocals-range_from :
    (locals : List (LocalName × Ty)) (k i n : ℕ)
    → ((j : ℕ) → j < k → contains_key locals j ≡ true)
    → i + n ≤ k
    → AllLocals locals (range_from i n)
AllLocals-range_from locals k i zero all h = tt
AllLocals-range_from locals k i (suc n) all h =
    (all i (omega arith), AllLocals-range_from locals k (suc i) n all (omega arith))

contains_key-enumerate :
    {A : Type 0} (xs : List A) (j : ℕ) → j < length xs → contains_key (enumerate_from 0 xs) j ≡ true
contains_key-enumerate xs j h = ground (arith, contains_key-enumerate_from 0 j xs)

-- What `function` promises of its result
pub record IsNamed (ret : Ret) (num_args : ℕ) (locals : List Ty) (bbs : List BasicBlock)
    (f : Function) : Type 0 where
  pub blocks : (j : ℕ) → get f.blocks j ≡ get_elem? bbs j
  pub locals_named : (j : ℕ) → j < length locals → get f.locals j ≡ get_elem? locals j
  pub ret_declared : contains_key f.locals f.ret ≡ true
  pub args_declared : first_arg ret + num_args ≤ length locals → AllLocals f.locals f.args

-- The i-th block and the i-th local of a function have the name i, its return local is one of its
-- locals, and so are its arguments if there are enough locals for them.
pub function-IsNamed :
    (ret : Ret) (num_args : ℕ) (locals : List Ty) (bbs : List BasicBlock) (f : Function)
    → function ret num_args locals bbs ≡ some f
    → IsNamed ret num_args locals bbs f
unfolding function
function-IsNamed returns num_args [] bbs f h = cc
function-IsNamed returns num_args (ty ∷ locals) bbs f h =
    subst (IsNamed returns num_args (ty ∷ locals) bbs)
      (some_inj (rw (ret_local-returns ty locals) at h))
      (let all = enumerate_from 0 (ty ∷ locals) in
        record {
          blocks = λ j. get-enumerate j bbs;
          locals_named = λ j _. get-enumerate j (ty ∷ locals);
          ret_declared = contains_key-enumerate (ty ∷ locals) 0 (omega arith);
          args_declared =
              AllLocals-range_from all (length (ty ∷ locals)) 1 num_args
                (contains_key-enumerate (ty ∷ locals));
        })
function-IsNamed diverges num_args locals bbs f h =
    subst (IsNamed diverges num_args locals bbs) (some_inj (rw (ret_local-diverges locals) at h)) (
      let all = (length locals, unit_conv.get_type) ∷ enumerate_from 0 locals in
      record {
        blocks = λ j. get-enumerate j bbs;
        locals_named = λ j lt. ground (arith, get-enumerate j locals);
        ret_declared = ground arith;
        args_declared =
            AllLocals-range_from all (length locals) 0 num_args
              (λ j lt. ground (arith, contains_key-enumerate locals j lt));
      })
