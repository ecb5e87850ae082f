-- ===== src/Build/FunctionBuilder/BlockSteps.antt =====
-- The block operations of build/mod.rs and build/terminator.rs on the invariant of Blocks.
use minirust.Prelude.{
  ℕ, ◌+◌, ◌<◌, ◌≤◌, ◌≡◌, subst, [], ◌∷◌, none, some, ◌>>=◌, >>=-eq-some, some_inj, ◌++◌, try_insert,
  arith,
}
use minirust.Lang.Syntax.{Statement, Terminator}
use minirust.Build.FunctionBuilder.{
  CurBlock, FunctionBuilder, declare_block, empty_block, set_cur_block, finish_block,
  push_statement,
}
use minirust.Build.FunctionBuilder.Blocks.{one, successors, AllBelow, TargetsBelow-mono, Inv}

-- What a successful call of each block operation returns
pub declare_block_lem :
    (fb fb' : FunctionBuilder) (b : ℕ)
    → declare_block fb ≡ some (b, fb')
    → (fb.next_block ≡ b) × (record fb { next_block = fb.next_block + 1 } ≡ fb')
unfolding declare_block
declare_block_lem fb fb' b h = ground arith

pub set_cur_block_lem :
    (fb fb' : FunctionBuilder) (b : ℕ)
    → set_cur_block b fb ≡ some fb'
    → (record fb { cur_block = some (empty_block b) } ≡ fb') × (fb.cur_block ≡ none)
unfolding set_cur_block
set_cur_block_lem fb fb' b h = ground arith

pub finish_block_lem :
    (t : Terminator) (fb fb' : FunctionBuilder)
    → finish_block t fb ≡ some fb'
    → (c : CurBlock) × (fb.cur_block ≡ some c)
      × (record fb {
        blocks = (c.name, record { statements = c.statements; terminator = t }) ∷ fb.blocks;
        cur_block = none;
      }
          ≡ fb')
unfolding finish_block
finish_block_lem t fb fb' h =
    let (c, e, e') =
      >>=-eq-some fb.cur_block
        (λ b.
          try_insert fb.blocks b.name (record { statements = b.statements; terminator = t })
          >>= λ blocks. some (record fb { blocks = blocks; cur_block = none }))
        h in
    (c, e, ground arith)

module _ {q : ℕ → ℕ} {fb : FunctionBuilder} where
  -- A declared block is pending.
  Inv-declare :
      Inv q fb → Inv (λ n. one fb.next_block n + q n) (record fb { next_block = fb.next_block + 1 })
  Inv-declare inv = record {
    partition = λ n. ground (arith, inv.partition n);
    targets =
        TargetsBelow-mono fb.next_block (fb.next_block + 1) fb.blocks (omega arith) inv.targets;
    start = inv.start;
    begun = omega (arith, inv.begun);
  }

  -- A pending block becomes the current one.
  Inv-set :
      (b : ℕ)
      → fb.cur_block ≡ none
      → Inv (λ n. one b n + q n) fb
      → Inv q (record fb { cur_block = some (empty_block b) })
  Inv-set b e inv = record {
    partition = λ n. ground (arith, inv.partition n);
    targets = inv.targets;
    start = inv.start;
    begun = inv.begun;
  }

  -- The current block is finished.
  Inv-finish :
      (t : Terminator) (c : CurBlock)
      → fb.cur_block ≡ some c
      → AllBelow fb.next_block (successors t)
      → Inv q fb
      → Inv q (record fb {
        blocks = (c.name, record { statements = c.statements; terminator = t }) ∷ fb.blocks;
        cur_block = none;
      })
  Inv-finish t c e below inv = record {
    partition = λ n. ground (arith, inv.partition n);
    targets = (below, inv.targets);
    start = inv.start;
    begun = inv.begun;
  }

module _ {q : ℕ → ℕ} {fb fb' : FunctionBuilder} where
  pub Inv-declare_block :
      (b : ℕ)
      → declare_block fb ≡ some (b, fb')
      → Inv q fb
      → Inv (λ n. one b n + q n) fb'
        × (fb'.cur_block ≡ fb.cur_block)
        × (fb.next_block ≤ fb'.next_block)
        × (b < fb'.next_block)
  Inv-declare_block b h inv =
      let (eb, ef) = declare_block_lem fb fb' b h in
      (
        subst (λ x. Inv (λ n. one b n + q n) x) ef
            (subst (λ x. Inv (λ n. one x n + q n) (record fb { next_block = fb.next_block + 1 })) eb
              (Inv-declare inv)),
        cc,
        ground arith,
        ground arith,
      )

  pub Inv-set_cur_block :
      (b : ℕ)
      → set_cur_block b fb ≡ some fb'
      → Inv (λ n. one b n + q n) fb
      → Inv q fb' × (fb'.next_block ≡ fb.next_block)
  Inv-set_cur_block b h inv =
      let (ef, e) = set_cur_block_lem fb fb' b h in
      (subst (λ x. Inv q x) ef (Inv-set b e inv), ground arith)

  pub Inv-finish_block :
      (t : Terminator)
      → finish_block t fb ≡ some fb'
      → AllBelow fb.next_block (successors t)
      → Inv q fb
      → Inv q fb' × (fb'.cur_block ≡ none) × (fb'.next_block ≡ fb.next_block)
  Inv-finish_block t h below inv =
      let (c, e, ef) = finish_block_lem t fb fb' h in
      (subst (λ x. Inv q x) ef (Inv-finish t c e below inv), ground arith, ground arith)

-- A statement leaves the blocks as they are.
pub Inv-push_statement :
    {q : ℕ → ℕ} {fb fb' : FunctionBuilder} (st : Statement)
    → push_statement st fb ≡ some fb'
    → Inv q fb
    → Inv q fb'
unfolding push_statement
Inv-push_statement {q} {fb} {fb'} st h inv =
    let (c, e, e') =
      >>=-eq-some fb.cur_block
        (λ b.
          some (record fb { cur_block = some (record b { statements = b.statements ++ st ∷ [] }) }))
        h in
    subst (λ x. Inv q x) (some_inj e')
      (record {
        partition = λ n. ground (arith, inv.partition n);
        targets = inv.targets;
        start = inv.start;
        begun = inv.begun;
      })
