-- ===== src/Build/FunctionBuilder/Blocks.antt =====
-- The invariant of a function's blocks: each declared block is finished, the current one, or pending
-- (to be built later), and just one of these; terminators jump to declared blocks.
use minirust.Prelude.{
  ℕ, ◌+◌, ◌<◌, ◌≤◌, ◌≡◌, List, [], ◌∷◌, Option, none, some, ◌==◌, ltb, if◌then◌else◌, keys, arith,
}
use minirust.Prelude.Int.{ℤ}
use minirust.Lang.Syntax.{
  BbName, BasicBlock, Terminator, goto, switch, unreachable, intrinsic, call, return_,
}
use minirust.Build.FunctionBuilder.{CurBlock, FunctionBuilder}

-- 1 at `a`, and 0 elsewhere
abbrev pub one : ℕ → ℕ → ℕ
one a n = if a == n then 1 else 0

abbrev pub one? : Option ℕ → ℕ → ℕ
one? none n = 0
one? (some a) n = one a n

abbrev pub count : List ℕ → ℕ → ℕ
count [] n = 0
count (a ∷ l) n = one a n + count l n

abbrev pub is_current : Option CurBlock → ℕ → ℕ
is_current none n = 0
is_current (some b) n = one b.name n

-- The blocks that a terminator may jump to
abbrev pub case_blocks : List (ℤ × BbName) → List BbName
case_blocks [] = []
case_blocks ((_, b) ∷ cases) = b ∷ case_blocks cases

abbrev pub next_blocks : Option BbName → List BbName
next_blocks none = []
next_blocks (some b) = b ∷ []

abbrev pub successors : Terminator → List BbName
successors (goto b) = b ∷ []
successors (switch _ cases fallback) = fallback ∷ case_blocks cases
successors unreachable = []
successors (intrinsic _ _ _ next) = next_blocks next
successors (call _ _ _ _ next) = next_blocks next
successors return_ = []

abbrev pub AllBelow : ℕ → List ℕ → Type 0
AllBelow k [] = Unit
AllBelow k (a ∷ l) = (a < k) × AllBelow k l

abbrev pub TargetsBelow : ℕ → List (BbName × BasicBlock) → Type 0
TargetsBelow k [] = Unit
TargetsBelow k ((_, b) ∷ blocks) = AllBelow k (successors b.terminator) × TargetsBelow k blocks

-- `pending n` says how often block `n` is still to be built.
pub record Inv (pending : ℕ → ℕ) (fb : FunctionBuilder) : Type 0 where
  pub partition :
      (n : ℕ)
      → count (keys fb.blocks) n + is_current fb.cur_block n + pending n
        ≡ (if ltb n fb.next_block then 1 else 0)
  pub targets : TargetsBelow fb.next_block fb.blocks
  pub start : fb.start ≡ 0
  pub begun : 0 < fb.next_block

pub AllBelow-mono : (k k' : ℕ) (l : List ℕ) → k ≤ k' → AllBelow k l → AllBelow k' l
AllBelow-mono k k' [] h a = tt
AllBelow-mono k k' (x ∷ l) h a = (omega arith, AllBelow-mono k k' l h a.1)

pub TargetsBelow-mono :
    (k k' : ℕ) (blocks : List (BbName × BasicBlock))
    → k ≤ k'
    → TargetsBelow k blocks
    → TargetsBelow k' blocks
TargetsBelow-mono k k' [] h a = tt
TargetsBelow-mono k k' ((_, b) ∷ blocks) h a =
    (AllBelow-mono k k' (successors b.terminator) h a.0, TargetsBelow-mono k k' blocks h a.1)

-- A pending block is declared.
pub below_of_pending :
    {q : ℕ → ℕ} {fb : FunctionBuilder} (a : ℕ) → Inv q fb → 0 < q a → a < fb.next_block
below_of_pending a inv h = ground (arith, inv.partition a)

-- The invariant depends on how often a block is pending, and on nothing else of the list.
pub Inv-congr :
    {q q' : ℕ → ℕ} {fb : FunctionBuilder} → ((n : ℕ) → q n ≡ q' n) → Inv q fb → Inv q' fb
Inv-congr same inv = record {
  partition = λ n. ground (arith, inv.partition n, same n);
  targets = inv.targets;
  start = inv.start;
  begun = inv.begun;
}
