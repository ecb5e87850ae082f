-- ===== src/Build/FunctionBuilder/Closed.antt =====
-- The blocks of the functions that the builder of build/mod.rs returns.
use minirust.Prelude.{
  ℕ, suc, ◌<◌, ◌≤◌, ◌≡◌, refl, sym, subst, true, List, [], ◌∷◌, none, some, some_inj, get_elem?,
  contains_key, keys, arith,
}
use minirust.Prelude.Int.{ℤ}
use minirust.Lang.Types.{Ty}
use minirust.Lang.Syntax.{BbName, PlaceExpr, Statement, BasicBlock, Function}
use minirust.Build.Types.{TypeConv}
use minirust.Build.FunctionBuilder.{
  FunctionBuilder, new, push_statement, declare_local_with_ty, declare_ret, declare_arg_with_ty,
  finish_function,
}
use minirust.Build.FunctionBuilder.Branches.{Branch}
use minirust.Build.FunctionBuilder.Blocks.{count, successors, AllBelow, TargetsBelow, Inv}
use minirust.Build.FunctionBuilder.BlockSteps.{Inv-push_statement, Inv-finish_block}
use minirust.Build.FunctionBuilder.BranchSteps.{Keeps, CasesKeep, continue_with-Keeps}
use minirust.Build.FunctionBuilder.SwitchSteps.{switch_int-Keeps, while_-Keeps}
use minirust.Build.FunctionBuilder.Reach.{
  Reach, here, next, statement, finish, continue_at, local, ret, arg, switch, while,
}

-- The block fields of two builders are the same.
abbrev SameBlocks : FunctionBuilder → FunctionBuilder → Type 0
SameBlocks a b =
    (a.blocks ≡ b.blocks)
    × (a.cur_block ≡ b.cur_block)
    × (a.next_block ≡ b.next_block)
    × (a.start ≡ b.start)

Inv-SameBlocks :
    {q : ℕ → ℕ} (a b : FunctionBuilder)
    → SameBlocks a b
    → Inv q a
    → Inv q b × (a.next_block ≤ b.next_block)
Inv-SameBlocks a b (eb, ec, en, es) inv = (
  record {
    partition = λ n. ground (arith, inv.partition n);
    targets = rw (← eb, ← en) inv.targets;
    start = rw (← es) inv.start;
    begun = rw (← en) inv.begun;
  },
  omega arith,
)

declare_local-SameBlocks :
    (ty : Ty) (p : PlaceExpr) (fb fb' : FunctionBuilder)
    → declare_local_with_ty ty fb ≡ some (p, fb')
    → SameBlocks fb fb'
unfolding declare_local_with_ty
declare_local-SameBlocks ty p fb fb' h = ground arith

declare_ret-SameBlocks :
    (t : TypeConv) (p : PlaceExpr) (fb fb' : FunctionBuilder)
    → declare_ret t fb ≡ some (p, fb')
    → SameBlocks fb fb'
unfolding declare_ret
declare_ret-SameBlocks t p fb fb' h = ground arith

declare_arg-SameBlocks :
    (ty : Ty) (p : PlaceExpr) (fb fb' : FunctionBuilder)
    → declare_arg_with_ty ty fb ≡ some (p, fb')
    → SameBlocks fb fb'
unfolding declare_arg_with_ty
declare_arg-SameBlocks ty p fb fb' h = ground arith

CasesKeep-index :
    (cases : List (ℤ × Branch))
    → ((i : ℕ) (k : ℤ) (branch : Branch) → get_elem? cases i ≡ some (k, branch) → Keeps 0 branch)
    → CasesKeep 0 cases
CasesKeep-index [] h = tt
CasesKeep-index ((k, branch) ∷ cases) h =
    (h 0 k branch refl, CasesKeep-index cases (λ i. h (suc i)))

next_block-push_statement :
    (st : Statement) (fb fb' : FunctionBuilder)
    → push_statement st fb ≡ some fb'
    → fb'.next_block ≡ fb.next_block
unfolding push_statement
next_block-push_statement st fb fb' h = ground arith

-- Whatever a client does keeps the invariant, with any blocks pending.
Reach-Inv :
    {fb fb' : FunctionBuilder}
    → Reach fb fb'
    → (q : ℕ → ℕ) → Inv q fb
    → Inv q fb' × (fb.next_block ≤ fb'.next_block)
Reach-Inv here q inv = (inv, omega arith)
Reach-Inv (next r s) q inv =
    let (inv₁, le) = Reach-Inv r q inv in
    let (inv₂, le') = Reach-Inv s q inv₁ in (inv₂, omega arith)
Reach-Inv {fb} {fb'} (statement st h) q inv =
    (Inv-push_statement st h inv, omega (arith, next_block-push_statement st fb fb' h))
Reach-Inv {fb} (finish t none_left h) q inv =
    let (inv', _, same) =
      Inv-finish_block t h (subst (AllBelow fb.next_block) (sym none_left) tt) inv in
    (inv', omega arith)
Reach-Inv {fb} {fb'} (continue_at t to_next h) q inv =
    continue_with-Keeps 0 t to_next q fb fb' h (omega arith) inv
Reach-Inv {fb} {fb'} (local ty p h) q inv =
    Inv-SameBlocks fb fb' (declare_local-SameBlocks ty p fb fb' h) inv
Reach-Inv {fb} {fb'} (ret t p h) q inv =
    Inv-SameBlocks fb fb' (declare_ret-SameBlocks t p fb fb' h) inv
Reach-Inv {fb} {fb'} (arg ty p h) q inv =
    Inv-SameBlocks fb fb' (declare_arg-SameBlocks ty p fb fb' h) inv
Reach-Inv {fb} {fb'} (switch value cases fallback hc hf h) q inv =
    switch_int-Keeps 0 value cases fallback
      (CasesKeep-index cases λ i k branch e q a b eq _. Reach-Inv (hc i k branch e a b eq) q)
      (λ q a b eq _. Reach-Inv (hf a b eq) q) q fb fb' h (omega arith) inv
Reach-Inv {fb} {fb'} (while condition body hb h) q inv =
    while_-Keeps 0 condition body (λ q a b eq _. Reach-Inv (hb a b eq) q) q fb fb' h (omega arith)
      inv

no_blocks : ℕ → ℕ
no_blocks n = 0

-- A new builder has one block, the current one.
new-Inv : (name : ℕ) (fb : FunctionBuilder) → new name ≡ some fb → Inv no_blocks fb
unfolding new no_blocks
new-Inv name fb h =
    subst (λ x. Inv (λ n. 0) x) (some_inj h)
      (record { partition = λ n. ground arith; targets = tt; start = refl; begun = omega arith })

contains_of_count :
    (m : List (BbName × BasicBlock)) (n : ℕ) → 0 < count (keys m) n → contains_key m n ≡ true
contains_of_count [] n h = absurd (omega arith)
contains_of_count ((j, b) ∷ m) n h = ground (arith, contains_of_count m n)

-- All of the names are blocks.
abbrev pub AllIn : List (BbName × BasicBlock) → List BbName → Type 0
AllIn blocks [] = Unit
AllIn blocks (b ∷ l) = (contains_key blocks b ≡ true) × AllIn blocks l

abbrev pub TargetsIn : List (BbName × BasicBlock) → List (BbName × BasicBlock) → Type 0
TargetsIn blocks [] = Unit
TargetsIn blocks ((_, b) ∷ rest) = AllIn blocks (successors b.terminator) × TargetsIn blocks rest

-- The start block exists, and each block that a terminator names.
abbrev pub IsClosed : Function → Type 0
IsClosed f = (contains_key f.blocks f.start ≡ true) × TargetsIn f.blocks f.blocks

module _ (blocks : List (BbName × BasicBlock)) (k : ℕ)
    (all : (n : ℕ) → n < k → contains_key blocks n ≡ true) where
  AllIn-of_below : (l : List BbName) → AllBelow k l → AllIn blocks l
  AllIn-of_below [] h = tt
  AllIn-of_below (b ∷ l) h = (all b h.0, AllIn-of_below l h.1)

  TargetsIn-of_below :
      (rest : List (BbName × BasicBlock)) → TargetsBelow k rest → TargetsIn blocks rest
  TargetsIn-of_below [] h = tt
  TargetsIn-of_below ((_, b) ∷ rest) h =
      (AllIn-of_below (successors b.terminator) h.0, TargetsIn-of_below rest h.1)

finish_function-blocks :
    (fb : FunctionBuilder) (f : Function)
    → finish_function fb ≡ some f
    → (fb.cur_block ≡ none) × (fb.blocks ≡ f.blocks) × (fb.start ≡ f.start)
unfolding finish_function declare_ret
finish_function-blocks fb f h = ground arith

IsClosed-finish_function :
    (fb : FunctionBuilder) (f : Function)
    → finish_function fb ≡ some f
    → Inv no_blocks fb
    → IsClosed f
unfolding no_blocks
IsClosed-finish_function fb f h inv =
    let (e, eb, es) = finish_function-blocks fb f h in
    let all : (n : ℕ) → n < fb.next_block → contains_key fb.blocks n ≡ true =
      λ n lt. contains_of_count fb.blocks n (ground (arith, inv.partition n)) in
    rw (← eb, ← es, inv.start)
      (all 0 inv.begun, TargetsIn-of_below fb.blocks fb.next_block all fb.blocks inv.targets)

-- A function that a client builds from a new builder on, by any methods with any closures of such
-- methods, has its start block and all blocks that its terminators jump to.
pub finish_function-IsClosed :
    (name : ℕ) (fb₀ fb : FunctionBuilder) (f : Function)
    → new name ≡ some fb₀
    → Reach fb₀ fb
    → finish_function fb ≡ some f
    → IsClosed f
finish_function-IsClosed name fb₀ fb f h r e =
    IsClosed-finish_function fb f e (Reach-Inv r no_blocks (new-Inv name fb₀ h)).0
