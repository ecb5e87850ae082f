-- ===== src/Minimize/Bodies/Closed.antt =====
-- bb.rs, function.rs: the blocks of a translated function.
use minirust.Prelude.{
  ℕ, ◌≡◌, refl, ◌||◌, Bool, true, List, [], ◌∷◌, ◌++◌, some, ◌>>=◌, get, contains_key, arith, ◌⊎◌,
  inl, inr,
}
use minirust.Lang.Syntax.{
  LocalName, BbName, Statement, ValueExpr, PlaceExpr, IntrinsicOp, Terminator, BasicBlock,
}
use minirust.Build.Types.{u8}
use minirust.Build.Exprs.{bool_to_int}
use minirust.Build.Terminators.{panic}
use minirust.Build.FunctionBuilder.Blocks.{successors}
use minirust.Minimize.Program.Inv.{has_value}
use minirust.Minimize.Mir.{Operand, StatementKind, TerminatorKind, Env}
use minirust.Minimize.Bodies.{
  StatementResult, statement, intrinsic, TerminatorResult, translate_stmt, FnCtxt, fresh_bb_name,
  add_block,
}
use minirust.Minimize.Bodies.Terminators.{plain_terminator}
use minirust.Minimize.Bodies.Blocks.{
  assert_condition, translate_assert, translate_terminator, end_bb, translate_stmts,
}
use minirust.Minimize.Bodies.Targets.{
  Holds, Holds-bind, Holds-some, AllOf, Jumps, plain_terminator-Leads,
}

-- A block is there, or its name is among those that are to come.
abbrev pub Covered : List (BbName × BasicBlock) → List (ℕ × BbName) → BbName → Type 0
Covered blocks to_come n = (contains_key blocks n || has_value to_come n) ≡ true

Covered-cons :
    (blocks : List (BbName × BasicBlock)) (to_come : List (ℕ × BbName)) (name : BbName)
    (b : BasicBlock) (n : BbName)
    → Covered blocks to_come n
    → Covered ((name, b) ∷ blocks) to_come n
Covered-cons blocks to_come name b n h = ground arith

-- The first block to come is built.
Covered-built :
    (blocks : List (BbName × BasicBlock)) (to_come : List (ℕ × BbName)) (id : ℕ) (name : BbName)
    (b : BasicBlock) (n : BbName)
    → Covered blocks ((id, name) ∷ to_come) n
    → Covered ((name, b) ∷ blocks) to_come n
Covered-built blocks to_come id name b n h = ground arith

pub StatementResult-cases :
    (r : StatementResult)
    → ((stmt : Statement) × (r ≡ statement stmt))
      ⊎ ((op : IntrinsicOp) × (destination : PlaceExpr) × (arguments : List ValueExpr) × (r
            ≡ intrinsic op destination arguments))
StatementResult-cases (statement stmt) = inl (stmt, refl)
StatementResult-cases (intrinsic op destination arguments) = inr (op, destination, arguments, refl)

-- And another one is to come.
Covered-next :
    (blocks : List (BbName × BasicBlock)) (to_come : List (ℕ × BbName)) (id : ℕ)
    (name next : BbName) (b : BasicBlock) (n : BbName)
    → Covered blocks ((id, name) ∷ to_come) n
    → Covered ((name, b) ∷ blocks) ((id, next) ∷ to_come) n
Covered-next blocks to_come id name next b n h = ground arith

pub fresh_bb_name-blocks : (c : FnCtxt) → Holds (λ r. r.1.blocks ≡ c.blocks) (fresh_bb_name c)
unfolding fresh_bb_name
fresh_bb_name-blocks c r e = ground arith

module _ (Q : BbName → Type 0) where
  -- What holds of all blocks that are jumped to
  abbrev pub AllJump : List (BbName × BasicBlock) → Type 0
  AllJump [] = Unit
  AllJump ((_, b) ∷ blocks) = AllOf Q (successors b.terminator) × AllJump blocks

module _ (Q R : BbName → Type 0) (mono : (n : BbName) → Q n → R n) where
  pub AllOf-mono : (l : List BbName) → AllOf Q l → AllOf R l
  AllOf-mono [] h = tt
  AllOf-mono (b ∷ l) (q, h) = (mono b q, AllOf-mono l h)

  AllJump-mono : (blocks : List (BbName × BasicBlock)) → AllJump Q blocks → AllJump R blocks
  AllJump-mono [] h = tt
  AllJump-mono ((_, b) ∷ blocks) (q, h) =
      (AllOf-mono (successors b.terminator) q, AllJump-mono blocks h)

module _ (bbs : List (ℕ × BbName)) (start : BbName) where
  -- The start block is there, and all blocks that have names, or are jumped to, are there or to come.
  pub record Inv (blocks : List (BbName × BasicBlock)) (to_come : List (ℕ × BbName)) : Type 0 where
    pub has_start : contains_key blocks start ≡ true
    pub named : (id : ℕ) → Holds (Covered blocks to_come) (get bbs id)
    pub jumps : AllJump (Covered blocks to_come) blocks

  Inv-add :
      (blocks : List (BbName × BasicBlock)) (to_come later : List (ℕ × BbName)) (name : BbName)
      (b : BasicBlock)
      → ((n : BbName) → Covered blocks to_come n → Covered ((name, b) ∷ blocks) later n)
      → AllOf (Covered ((name, b) ∷ blocks) later) (successors b.terminator)
      → Inv blocks to_come
      → Inv ((name, b) ∷ blocks) later
  Inv-add blocks to_come later name b mono h inv = record {
    has_start = ground (arith, inv.has_start);
    named = λ id n e. mono n (inv.named id n e);
    jumps = (
      h,
      AllJump-mono (Covered blocks to_come) (Covered ((name, b) ∷ blocks) later) mono blocks
          inv.jumps,
    );
  }

  add_block-blocks :
      (name : BbName) (stmts : List Statement) (end : Terminator) (c : FnCtxt)
      → Holds
          (λ c'. c'.blocks ≡ (name, record { statements = stmts; terminator = end }) ∷ c.blocks)
          (add_block name stmts end c)
  unfolding add_block
  add_block-blocks name stmts end c c' e = ground arith

  module _ (v : Env) (names : List (ℕ × LocalName)) where
    -- What a step that makes a terminator keeps
    abbrev Ends : List (ℕ × BbName) → TerminatorResult × FnCtxt → Type 0
    Ends to_come r = Inv r.1.blocks to_come × Jumps (Covered r.1.blocks to_come) r.0

    translate_assert-Ends :
        (cond : Operand) (expected : Bool) (target : ℕ) (to_come : List (ℕ × BbName)) (c : FnCtxt)
        → Inv c.blocks to_come
        → Holds (Ends to_come) (translate_assert v names bbs cond expected target c)
    unfolding translate_assert panic
    translate_assert-Ends cond expected target to_come c inv =
        let P = Ends to_come in
        Holds-bind P (v.translate_operand names cond c.cx) _ λ op e₀.
          Holds-bind P (assert_condition expected op.0) _ λ condition e₁.
            Holds-bind P (fresh_bb_name (record c { cx = op.1 })) _ λ fresh ef.
              Holds-bind P (add_block fresh.0 [] panic fresh.1) _ λ c₂ ea.
                let blocks = add_block-blocks fresh.0 [] panic fresh.1 c₂ ea in
                let same = fresh_bb_name-blocks (record c { cx = op.1 }) fresh ef in
                let there : Covered c₂.blocks to_come fresh.0 = ground (arith, blocks) in
                let panic_block : BasicBlock = record { statements = []; terminator = panic } in
                let added : Inv c₂.blocks to_come =
                  rw (blocks, same)
                    (Inv-add c.blocks to_come to_come fresh.0 panic_block
                      (Covered-cons c.blocks to_come fresh.0 panic_block) tt inv) in
                Holds-bind P (get bbs target) _ λ n en.
                  Holds-bind P (bool_to_int u8 condition) _
                    λ value ev. Holds-some P _ (added, (there, (added.named target n en, tt)))

    plain-Ends :
        (kind : TerminatorKind) (to_come : List (ℕ × BbName)) (c : FnCtxt)
        → Inv c.blocks to_come
        → Holds
            (Ends to_come)
            (plain_terminator v names bbs kind c.cx >>= λ r. some (r.0, record c { cx = r.1 }))
    plain-Ends kind to_come c inv =
        Holds-bind (Ends to_come) (plain_terminator v names bbs kind c.cx) _ λ r e.
          Holds-some (Ends to_come) _ (
            inv,
            plain_terminator-Leads (Covered c.blocks to_come) bbs inv.named v names kind c.cx r e,
          )

    translate_terminator-Ends :
        (kind : TerminatorKind) (to_come : List (ℕ × BbName)) (c : FnCtxt)
        → Inv c.blocks to_come
        → Holds (Ends to_come) (translate_terminator v names bbs kind c)
    unfolding translate_terminator
    translate_terminator-Ends (TerminatorKind.assert cond expected target) to_come c inv =
        translate_assert-Ends cond expected target to_come c inv
    translate_terminator-Ends TerminatorKind.return_ to_come c inv = plain-Ends _ to_come c inv
    translate_terminator-Ends (TerminatorKind.goto t) to_come c inv = plain-Ends _ to_come c inv
    translate_terminator-Ends (TerminatorKind.call f a p t) to_come c inv =
        plain-Ends _ to_come c inv
    translate_terminator-Ends (TerminatorKind.switch_int d t o) to_come c inv =
        plain-Ends _ to_come c inv
    translate_terminator-Ends TerminatorKind.unreachable to_come c inv = plain-Ends _ to_come c inv
    translate_terminator-Ends (TerminatorKind.drop p t) to_come c inv = plain-Ends _ to_come c inv
    translate_terminator-Ends TerminatorKind.other to_come c inv = plain-Ends _ to_come c inv

    end_bb-Inv :
        (id : ℕ) (name : BbName) (stmts : List Statement) (kind : TerminatorKind)
        (to_come : List (ℕ × BbName)) (c : FnCtxt)
        → Inv c.blocks ((id, name) ∷ to_come)
        → Holds (λ c'. Inv c'.blocks to_come) (end_bb v names bbs name stmts kind c)
    unfolding end_bb
    end_bb-Inv id name stmts kind to_come c inv =
        let P : FnCtxt → Type 0 = λ c'. Inv c'.blocks to_come in
        Holds-bind P (translate_terminator v names bbs kind c) _ λ r er c' e.
          let (inv₁, jumps) = translate_terminator-Ends kind ((id, name) ∷ to_come) c inv r er in
          let b : BasicBlock = record {
            statements = stmts ++ r.0.stmts;
            terminator = r.0.terminator;
          } in
          let mono = Covered-built r.1.blocks to_come id name b in
          rw (add_block-blocks name (stmts ++ r.0.stmts) r.0.terminator r.1 c' e) (
            Inv-add r.1.blocks ((id, name) ∷ to_come) to_come name b mono
              (AllOf-mono _ _ mono (successors r.0.terminator) jumps) inv₁)

    pub translate_stmts-Inv :
        (id : ℕ) (name : BbName) (stmts : List Statement) (rest : List StatementKind)
        (kind : TerminatorKind) (to_come : List (ℕ × BbName)) (c : FnCtxt)
        → Inv c.blocks ((id, name) ∷ to_come)
        → Holds (λ c'. Inv c'.blocks to_come) (translate_stmts v names bbs name stmts rest kind c)
    unfolding translate_stmts
    translate_stmts-Inv id name stmts [] kind to_come c inv =
        end_bb-Inv id name stmts kind to_come c inv
    translate_stmts-Inv id name stmts (s ∷ rest) kind to_come c inv =
        let P : FnCtxt → Type 0 = λ c'. Inv c'.blocks to_come in
        Holds-bind P (translate_stmt v names s c.cx) _ λ r e.
          let cx₁ = r.1 in
          elim (StatementResult-cases r.0) [
            | inl (stmt, es) ↦ rw es (
                translate_stmts-Inv id name (stmts ++ (stmt ∷ [])) rest kind to_come
                  (record c { cx = cx₁ }) inv)
            | inr (op, destination, arguments, es) ↦ rw es (
                Holds-bind P (fresh_bb_name (record c { cx = cx₁ })) _ λ fresh ef.
                  let end = Terminator.intrinsic op arguments destination (some fresh.0) in
                  let b : BasicBlock = record { statements = stmts; terminator = end } in
                  Holds-bind P (add_block name stmts end fresh.1) _ λ c₂ ea.
                    translate_stmts-Inv id fresh.0 [] rest kind to_come c₂ (
                      rw
                        (
                          add_block-blocks name stmts end fresh.1 c₂ ea,
                          fresh_bb_name-blocks (record c { cx = cx₁ }) fresh ef,
                        )
                        (Inv-add c.blocks ((id, name) ∷ to_come) ((id, fresh.0) ∷ to_come) name b
                          (Covered-next c.blocks to_come id name fresh.0 b) (ground arith, tt)
                          inv)))
          ]
