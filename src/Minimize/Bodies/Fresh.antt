-- ===== src/Minimize/Bodies/Fresh.antt =====
-- bb.rs: no block is built twice, so the checks that no block is overwritten do not fail.
use minirust.Prelude.{
  ℕ, ◌+◌, ◌^◌, ◌<◌, ◌≤◌, ◌≡◌, refl, Bool, true, false, List, [], ◌∷◌, some, contains_key, keys, ltb,
  lt→ltb, if◌then◌else◌, arith,
}
use minirust.Lang.Syntax.{BbName, Statement, ValueExpr, Terminator, BasicBlock}
use minirust.Build.Types.{u8}
use minirust.Build.Exprs.{bool_to_int}
use minirust.Build.Operators.{not}
use minirust.Build.FunctionBuilder.Blocks.{count}
use minirust.Minimize.Bodies.{FnCtxt, fresh_bb_name, add_block}
use minirust.Minimize.Bodies.Blocks.{assert_condition}

-- The names of the blocks that are to come
abbrev pub names_of : List (ℕ × BbName) → List BbName
names_of [] = []
names_of ((_, name) ∷ rest) = name ∷ names_of rest

-- Each name below the next one is that of at most one block that is there or to come, and no other
-- name is.
abbrev pub Fresh : List (BbName × BasicBlock) → ℕ → List (ℕ × BbName) → Type 0
Fresh blocks next to_come =
    (n : ℕ) → count (keys blocks) n + count (names_of to_come) n ≤ (if ltb n next then 1 else 0)

contains_key-count :
    (m : List (BbName × BasicBlock)) (n : ℕ) → count (keys m) n ≡ 0 → contains_key m n ≡ false
contains_key-count [] n h = refl
contains_key-count ((k, b) ∷ m) n h = ground (arith, contains_key-count m n)

Fresh-there :
    (blocks : List (BbName × BasicBlock)) (next : ℕ) (to_come : List (ℕ × BbName)) (id name : ℕ)
    → Fresh blocks next ((id, name) ∷ to_come)
    → contains_key blocks name ≡ false
Fresh-there blocks next to_come id name fresh =
    contains_key-count blocks name (ground (arith, fresh name))

pub Fresh-built :
    (blocks : List (BbName × BasicBlock)) (next : ℕ) (to_come : List (ℕ × BbName)) (id name : ℕ)
    (b : BasicBlock)
    → Fresh blocks next ((id, name) ∷ to_come)
    → Fresh ((name, b) ∷ blocks) next to_come
Fresh-built blocks next to_come id name b fresh n = omega (arith, fresh n)

pub Fresh-next :
    (blocks : List (BbName × BasicBlock)) (next : ℕ) (to_come : List (ℕ × BbName)) (id : ℕ)
    → Fresh blocks next to_come
    → Fresh blocks (next + 1) ((id, next) ∷ to_come)
Fresh-next blocks next to_come id fresh n = ground (arith, fresh n)

pub fresh_bb_name-total :
    (c : FnCtxt)
    → c.next_bb + 1 < 2 ^ 32
    → fresh_bb_name c ≡ some (c.next_bb, record c { next_bb = c.next_bb + 1 })
unfolding fresh_bb_name
fresh_bb_name-total c h = rw (fresh_bb_name, lt→ltb (c.next_bb + 1) (2 ^ 32) h) refl

abbrev pub with_block : BbName → BasicBlock → FnCtxt → FnCtxt
with_block name b c = record c { blocks = (name, b) ∷ c.blocks }

pub add_block-total :
    (name : BbName) (stmts : List Statement) (end : Terminator) (c : FnCtxt)
    (to_come : List (ℕ × BbName)) (id : ℕ)
    → Fresh c.blocks c.next_bb ((id, name) ∷ to_come)
    → add_block name stmts end c
      ≡ some (with_block name (record { statements = stmts; terminator = end }) c)
unfolding add_block
add_block-total name stmts end c to_come id fresh =
    rw (add_block, Fresh-there c.blocks c.next_bb to_come id name fresh) refl

pub bool_to_int-total : (x : ValueExpr) → (y : ValueExpr) × (bool_to_int u8 x ≡ some y)
unfolding bool_to_int
bool_to_int-total x = (_, refl)

pub assert_condition-total :
    (expected : Bool) (x : ValueExpr) → (y : ValueExpr) × (assert_condition expected x ≡ some y)
unfolding assert_condition not bool_to_int
assert_condition-total true x = (x, refl)
assert_condition-total false x = (_, refl)
