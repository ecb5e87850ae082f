-- ===== src/Minimize/Bodies/Total.antt =====
-- bb.rs: blocks are translated if their statements and terminators are.
use minirust.Prelude.{
  ℕ, ◌+◌, ◌^◌, ◌<◌, ◌≤◌, ◌≡◌, refl, Bool, List, [], ◌∷◌, ◌++◌, Option, none, some, ◌>>=◌, get,
  get_elem?, length, arith, inl, inr,
}
use minirust.Prelude.Int.{pos}
use minirust.Lang.Syntax.{LocalName, BbName, Statement, Terminator, BasicBlock}
use minirust.Build.Terminators.{panic}
use minirust.Minimize.Program.{Ctxt}
use minirust.Minimize.Mir.{Operand, StatementKind, TerminatorKind, BasicBlockData, Env}
use minirust.Minimize.Bodies.{TerminatorResult, translate_stmt, FnCtxt}
use minirust.Minimize.Bodies.Terminators.{plain_terminator}
use minirust.Minimize.Bodies.Blocks.{
  translate_assert, translate_terminator, end_bb, translate_stmts, translate_bb, translate_blocks,
}
use minirust.Minimize.Bodies.Closed.{StatementResult-cases}
use minirust.Minimize.Bodies.Fresh.{
  Fresh, Fresh-built, Fresh-next, fresh_bb_name-total, with_block, add_block-total,
  bool_to_int-total, assert_condition-total,
}

-- A step returns.
abbrev pub Returns {ℓ} : {A : Type ℓ} → Option A → Type ℓ
Returns {A = A} o = (a : A) × (o ≡ some a)

-- A step returns, from any context that is good, with one that is good.
abbrev pub Works {ℓ} : {A : Type ℓ} → (Ctxt → Type 0) → (Ctxt → Option (A × Ctxt)) → Type ℓ
Works {A = A} Good step = (cx : Ctxt) → Good cx → (r : A × Ctxt) × (step cx ≡ some r) × Good r.1

-- `Good` says of a context what the translators need, as that its caches are right.
module _ (v : Env) (names : List (ℕ × LocalName)) (bbs : List (ℕ × BbName))
    (Good : Ctxt → Type 0) where
  -- A step returns, with a good context and names below the limit that are fresh.
  abbrev pub Goes : Option FnCtxt → List (ℕ × BbName) → ℕ → Type 0
  Goes o to_come limit =
      (c : FnCtxt) × (o ≡ some c)
      × Good c.cx
      × Fresh c.blocks c.next_bb to_come
      × (c.next_bb ≤ limit)

  -- A step that makes a terminator does.
  abbrev pub Makes : Option (TerminatorResult × FnCtxt) → List (ℕ × BbName) → ℕ → Type 0
  Makes o to_come limit =
      (r : TerminatorResult × FnCtxt) × (o ≡ some r)
      × Good r.1.cx
      × Fresh r.1.blocks r.1.next_bb to_come
      × (r.1.next_bb ≤ limit)

  abbrev pub AllReturn : List StatementKind → Type 0
  AllReturn [] = Unit
  AllReturn (s ∷ rest) = Works Good (translate_stmt v names s) × AllReturn rest

  -- The translation of a terminator returns; for an assertion: the translation of its
  -- condition, and its target has a name.
  abbrev pub TerminatorReturns : TerminatorKind → Type 0
  TerminatorReturns (TerminatorKind.assert cond expected target) =
      Works Good (v.translate_operand names cond) × Returns (get bbs target)
  TerminatorReturns kind = Works Good (plain_terminator v names bbs kind)

  translate_assert-Makes :
      (cond : Operand) (expected : Bool) (target : ℕ) (to_come : List (ℕ × BbName)) (c : FnCtxt)
      → TerminatorReturns (TerminatorKind.assert cond expected target)
      → Good c.cx
      → Fresh c.blocks c.next_bb to_come
      → c.next_bb + 1 < 2 ^ 32
      → Makes (translate_assert v names bbs cond expected target c) to_come (c.next_bb + 1)
  unfolding translate_assert
  translate_assert-Makes cond expected target to_come c (operand, (n, en)) good fresh lt =
      let ((op, cx₁), e₁, good₁) = operand c.cx good in
      let (condition, e₂) = assert_condition-total expected op in
      let c₁ : FnCtxt = record c { cx = cx₁ } in
      let c₂ : FnCtxt = record c₁ { next_bb = c.next_bb + 1 } in
      let fresh₂ = Fresh-next c.blocks c.next_bb to_come 0 fresh in
      let e₃ = fresh_bb_name-total c₁ lt in
      let e₄ = add_block-total c.next_bb [] panic c₂ to_come 0 fresh₂ in
      let (value, e₅) = bool_to_int-total condition in
      let panic_block : BasicBlock = record { statements = []; terminator = panic } in
      let end = Terminator.switch value ((pos 1, n) ∷ []) c.next_bb in
      (
        (record { stmts = []; terminator = end }, with_block c.next_bb panic_block c₂),
        rw (translate_assert, e₁, e₂, e₃, e₄, en, e₅) refl,
        good₁,
        Fresh-built c.blocks (c.next_bb + 1) to_come 0 c.next_bb panic_block fresh₂,
        omega arith,
      )

  plain-Makes :
      (kind : TerminatorKind) (to_come : List (ℕ × BbName)) (c : FnCtxt)
      → Works Good (plain_terminator v names bbs kind)
      → Good c.cx
      → Fresh c.blocks c.next_bb to_come
      → Makes
          (plain_terminator v names bbs kind c.cx >>= λ r. some (r.0, record c { cx = r.1 }))
          to_come
          (c.next_bb + 1)
  plain-Makes kind to_come c h good fresh =
      let (r, e, good₁) = h c.cx good in
      ((r.0, record c { cx = r.1 }), rw e refl, good₁, fresh, omega arith)

  translate_terminator-Makes :
      (kind : TerminatorKind) (to_come : List (ℕ × BbName)) (c : FnCtxt)
      → TerminatorReturns kind
      → Good c.cx
      → Fresh c.blocks c.next_bb to_come
      → c.next_bb + 1 < 2 ^ 32
      → Makes (translate_terminator v names bbs kind c) to_come (c.next_bb + 1)
  unfolding translate_terminator
  translate_terminator-Makes (TerminatorKind.assert cond expected target) to_come c h good fresh
        lt =
      translate_assert-Makes cond expected target to_come c h good fresh lt
  translate_terminator-Makes TerminatorKind.return_ to_come c h good fresh lt =
      plain-Makes _ to_come c h good fresh
  translate_terminator-Makes (TerminatorKind.goto t) to_come c h good fresh lt =
      plain-Makes _ to_come c h good fresh
  translate_terminator-Makes (TerminatorKind.call f a p t) to_come c h good fresh lt =
      plain-Makes _ to_come c h good fresh
  translate_terminator-Makes (TerminatorKind.switch_int d t o) to_come c h good fresh lt =
      plain-Makes _ to_come c h good fresh
  translate_terminator-Makes TerminatorKind.unreachable to_come c h good fresh lt =
      plain-Makes _ to_come c h good fresh
  translate_terminator-Makes (TerminatorKind.drop p t) to_come c h good fresh lt =
      plain-Makes _ to_come c h good fresh
  translate_terminator-Makes TerminatorKind.other to_come c h good fresh lt =
      plain-Makes _ to_come c h good fresh

  end_bb-Goes :
      (id : ℕ) (name : BbName) (stmts : List Statement) (kind : TerminatorKind)
      (to_come : List (ℕ × BbName)) (c : FnCtxt)
      → TerminatorReturns kind
      → Good c.cx
      → Fresh c.blocks c.next_bb ((id, name) ∷ to_come)
      → c.next_bb + 1 < 2 ^ 32
      → Goes (end_bb v names bbs name stmts kind c) to_come (c.next_bb + 1)
  unfolding end_bb
  end_bb-Goes id name stmts kind to_come c h good fresh lt =
      let (r, e, good₁, fresh₁, le) =
        translate_terminator-Makes kind ((id, name) ∷ to_come) c h good fresh lt in
      let added = add_block-total name (stmts ++ r.0.stmts) r.0.terminator r.1 to_come id fresh₁ in
      let b : BasicBlock = record {
        statements = stmts ++ r.0.stmts;
        terminator = r.0.terminator;
      } in
      (
        with_block name b r.1,
        rw (end_bb, e) added,
        good₁,
        Fresh-built r.1.blocks r.1.next_bb to_come id name b fresh₁,
        le,
      )

  translate_stmts-Goes :
      (id : ℕ) (name : BbName) (stmts : List Statement) (rest : List StatementKind)
      (kind : TerminatorKind) (to_come : List (ℕ × BbName)) (c : FnCtxt)
      → AllReturn rest
      → TerminatorReturns kind
      → Good c.cx
      → Fresh c.blocks c.next_bb ((id, name) ∷ to_come)
      → c.next_bb + (length rest + 1) < 2 ^ 32
      → Goes
          (translate_stmts v names bbs name stmts rest kind c)
          to_come
          (c.next_bb + (length rest + 1))
  unfolding translate_stmts
  translate_stmts-Goes id name stmts [] kind to_come c hs h good fresh lt =
      end_bb-Goes id name stmts kind to_come c h good fresh lt
  translate_stmts-Goes id name stmts (s ∷ rest) kind to_come c (hs, all) h good fresh lt =
      let (r, e, good₁) = hs c.cx good in
      let c₁ : FnCtxt = record c { cx = r.1 } in
      elim (StatementResult-cases r.0) [
        | inl (stmt, es) ↦
            let (c', e', g, f, le) =
              translate_stmts-Goes id name (stmts ++ (stmt ∷ [])) rest kind to_come c₁ all h good₁
                fresh (omega arith) in
            (c', rw (translate_stmts, e, es) e', g, f, omega arith)
        | inr (op, destination, arguments, es) ↦
            let next = c.next_bb in
            let end = Terminator.intrinsic op arguments destination (some next) in
            let b : BasicBlock = record { statements = stmts; terminator = end } in
            let c₂ : FnCtxt = record c₁ { next_bb = next + 1 } in
            let fresh₂ : Fresh c.blocks (next + 1) ((id, name) ∷ ((id, next) ∷ to_come)) =
              λ n. omega (arith, Fresh-next c.blocks next ((id, name) ∷ to_come) id fresh n) in
            let e₁ = fresh_bb_name-total c₁ (omega arith) in
            let e₂ = add_block-total name stmts end c₂ ((id, next) ∷ to_come) id fresh₂ in
            let (c', e', g, f, le) =
              translate_stmts-Goes id next [] rest kind to_come (with_block name b c₂) all h good₁
                (Fresh-built c.blocks (next + 1) ((id, next) ∷ to_come) id name b fresh₂)
                (omega arith) in
            (c', rw (translate_stmts, e, es, e₁, e₂) e', g, f, omega arith)
      ]

  module _ (basic_blocks : List BasicBlockData) where
    -- Each of the blocks is there, and its statements and its terminator are translated.
    abbrev pub EachReturns : List (ℕ × BbName) → Type 0
    EachReturns [] = Unit
    EachReturns ((id, _) ∷ rest) =
        ((bb : BasicBlockData) × (get_elem? basic_blocks id ≡ some bb)
          × AllReturn bb.statements
          × TerminatorReturns bb.terminator)
        × EachReturns rest

    -- A name for each statement and one for the terminator: as many as a block may use
    abbrev pub names_used : List (ℕ × BbName) → ℕ
    names_used [] = 0
    names_used ((id, _) ∷ rest) =
        elim (get_elem? basic_blocks id) [ some bb ↦ length bb.statements + 1 | none ↦ 0 ]
        + names_used rest

    translate_blocks-step :
        (id : ℕ) (name : BbName) (rest : List (ℕ × BbName)) (bb : BasicBlockData) (c c₁ c₂ : FnCtxt)
        → get_elem? basic_blocks id ≡ some bb
        → translate_stmts v names bbs name [] bb.statements bb.terminator c ≡ some c₁
        → translate_blocks v names bbs basic_blocks rest c₁ ≡ some c₂
        → translate_blocks v names bbs basic_blocks ((id, name) ∷ rest) c ≡ some c₂
    unfolding translate_blocks translate_bb
    translate_blocks-step id name rest bb c c₁ c₂ eb e₁ e₂ =
        rw (translate_blocks, eb, translate_bb, e₁) e₂

    -- The loop over blocks whose names are fresh returns from a good context, if there are names
    -- enough, and if from good contexts the statements and the terminators are translated, to good
    -- contexts, and so are the conditions of assertions, whose targets have names: neither a check
    -- that no block is overwritten fails, nor one for a free name.
    pub translate_blocks-total :
        (rest : List (ℕ × BbName)) (c : FnCtxt)
        → EachReturns rest
        → Good c.cx
        → Fresh c.blocks c.next_bb rest
        → c.next_bb + names_used rest < 2 ^ 32
        → Returns (translate_blocks v names bbs basic_blocks rest c)
    unfolding translate_blocks translate_bb
    translate_blocks-total [] c h good fresh lt = (c, refl)
    translate_blocks-total ((id, name) ∷ rest) c ((bb, eb, hs, h), all) good fresh lt =
        let used : c.next_bb + (length bb.statements + 1 + names_used rest) < 2 ^ 32 =
          rw eb at lt in
        let (c₁, e₁, good₁, fresh₁, le) =
          translate_stmts-Goes id name [] bb.statements bb.terminator rest c hs h good fresh
            (omega arith) in
        let (c₂, e₂) = translate_blocks-total rest c₁ all good₁ fresh₁ (omega arith) in
        (c₂, translate_blocks-step id name rest bb c c₁ c₂ eb e₁ e₂)
