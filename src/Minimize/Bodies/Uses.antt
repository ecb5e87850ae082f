-- ===== src/Minimize/Bodies/Uses.antt =====
-- bb.rs, function.rs: what the translation of blocks and of a function does to the context.
use minirust.Prelude.{
  ℕ, ◌+◌, List, [], ◌∷◌, ◌++◌, some, ◌>>=◌, get, get_elem?, insert, Bool, inl, inr,
}
use minirust.Lang.Types.{Ty}
use minirust.Lang.Syntax.{LocalName, BbName, Statement, Terminator}
use minirust.Build.Types.{u8}
use minirust.Build.Exprs.{bool_to_int}
use minirust.Build.Terminators.{panic}
use minirust.Minimize.Program.{Rustc, Ctxt}
use minirust.Minimize.Program.Kept.{
  ctxt_of, Kept, done-Kept, none-Kept, bind-Kept, pure-Kept, if-Kept,
}
use minirust.Minimize.Mir.{Operand, StatementKind, TerminatorKind, BasicBlockData, Body, Env}
use minirust.Minimize.Bodies.{FnCtxt, fresh_bb_name, add_block}
use minirust.Minimize.Bodies.Closed.{StatementResult-cases}
use minirust.Minimize.Bodies.Terminators.{plain_terminator}
use minirust.Minimize.Bodies.Kept.{EnvKeeps, types-Kept, translate_stmt-Kept, plain_terminator-Kept}
use minirust.Minimize.Bodies.Blocks.{
  assert_condition, translate_assert, translate_terminator, end_bb, translate_stmts, translate_bb,
  translate_blocks, name_blocks, name_locals, init_stmts, translate_locals, translate_body,
  translate,
}

abbrev whole_of : FnCtxt → Ctxt
whole_of c = c.cx

abbrev fn_of : {A : Type 0} → A × FnCtxt → Ctxt
fn_of r = r.1.cx

module _ {q : Rustc} where
  fresh_bb_name-Kept : (c : FnCtxt) → Kept q fn_of c.cx (fresh_bb_name c)
  unfolding fresh_bb_name
  fresh_bb_name-Kept c = if-Kept _ (done-Kept fn_of _) none-Kept

  add_block-Kept :
      (name : BbName) (stmts : List Statement) (end : Terminator) (c : FnCtxt)
      → Kept q whole_of c.cx (add_block name stmts end c)
  unfolding add_block
  add_block-Kept name stmts end c = pure-Kept _ λ blocks. done-Kept whole_of _

  name_blocks-Kept :
      (id : ℕ) (blocks : List BasicBlockData) (bbs : List (ℕ × BbName)) (c : FnCtxt)
      → Kept q fn_of c.cx (name_blocks id blocks bbs c)
  unfolding name_blocks
  name_blocks-Kept id [] bbs c = done-Kept fn_of _
  name_blocks-Kept id (bb ∷ rest) bbs c =
      if-Kept bb.is_cleanup (name_blocks-Kept (id + 1) rest bbs c) (
        bind-Kept (fresh_bb_name-Kept c)
          λ p. name_blocks-Kept (id + 1) rest (insert bbs id p.0) p.1)

module _ (v : Env) (keeps : EnvKeeps v) (names : List (ℕ × LocalName)) where
  translate_locals-Kept :
      (rest : List (ℕ × LocalName)) (decls : List ℕ) (locals : List (LocalName × Ty)) (cx : Ctxt)
      → Kept v.rustc ctxt_of cx (translate_locals v rest decls locals cx)
  unfolding translate_locals
  translate_locals-Kept [] decls locals cx = done-Kept ctxt_of _
  translate_locals-Kept ((id, name) ∷ rest) decls locals cx = pure-Kept (get_elem? decls id) λ decl.
      bind-Kept (types-Kept v keeps names decl cx)
        λ p. translate_locals-Kept rest decls (insert locals name p.0) p.1

  module _ (bbs : List (ℕ × BbName)) where
    translate_assert-Kept :
        (cond : Operand) (expected : Bool) (target : ℕ) (c : FnCtxt)
        → Kept v.rustc fn_of c.cx (translate_assert v names bbs cond expected target c)
    unfolding translate_assert
    translate_assert-Kept cond expected target c = bind-Kept (keeps.operands names cond c.cx) λ p.
        pure-Kept (assert_condition expected p.0) λ condition.
          bind-Kept (fresh_bb_name-Kept (record c { cx = p.1 })) λ p₁.
            bind-Kept (add_block-Kept p₁.0 [] panic p₁.1) λ c₂.
              pure-Kept (get bbs target)
                λ next. pure-Kept (bool_to_int u8 condition) λ value. done-Kept fn_of _

    plain-Kept :
        (kind : TerminatorKind) (c : FnCtxt)
        → Kept v.rustc fn_of c.cx
            (plain_terminator v names bbs kind c.cx >>= λ r. some (r.0, record c { cx = r.1 }))
    plain-Kept kind c =
        bind-Kept (plain_terminator-Kept v keeps names bbs kind c.cx) λ p. done-Kept fn_of _

    translate_terminator-Kept :
        (kind : TerminatorKind) (c : FnCtxt)
        → Kept v.rustc fn_of c.cx (translate_terminator v names bbs kind c)
    unfolding translate_terminator
    translate_terminator-Kept (TerminatorKind.assert cond expected target) c =
        translate_assert-Kept cond expected target c
    translate_terminator-Kept TerminatorKind.return_ c = plain-Kept _ c
    translate_terminator-Kept (TerminatorKind.goto t) c = plain-Kept _ c
    translate_terminator-Kept (TerminatorKind.call f a p t) c = plain-Kept _ c
    translate_terminator-Kept (TerminatorKind.switch_int d t o) c = plain-Kept _ c
    translate_terminator-Kept TerminatorKind.unreachable c = plain-Kept _ c
    translate_terminator-Kept (TerminatorKind.drop p t) c = plain-Kept _ c
    translate_terminator-Kept TerminatorKind.other c = plain-Kept _ c

    end_bb-Kept :
        (name : BbName) (stmts : List Statement) (kind : TerminatorKind) (c : FnCtxt)
        → Kept v.rustc whole_of c.cx (end_bb v names bbs name stmts kind c)
    unfolding end_bb
    end_bb-Kept name stmts kind c =
        bind-Kept (translate_terminator-Kept kind c)
          λ p. add_block-Kept name (stmts ++ p.0.stmts) p.0.terminator p.1

    translate_stmts-Kept :
        (name : BbName) (stmts : List Statement) (rest : List StatementKind) (kind : TerminatorKind)
        (c : FnCtxt)
        → Kept v.rustc whole_of c.cx (translate_stmts v names bbs name stmts rest kind c)
    unfolding translate_stmts
    translate_stmts-Kept name stmts [] kind c = end_bb-Kept name stmts kind c
    translate_stmts-Kept name stmts (s ∷ rest) kind c =
        bind-Kept (translate_stmt-Kept v keeps names s c.cx) λ p. elim (StatementResult-cases p.0) [
          | inl (stmt, es) ↦
              rw es
                (translate_stmts-Kept name (stmts ++ (stmt ∷ [])) rest kind (record c { cx = p.1 }))
          | inr (op, destination, arguments, es) ↦ rw es (
              bind-Kept (fresh_bb_name-Kept (record c { cx = p.1 })) λ p₁.
                bind-Kept
                  (add_block-Kept name stmts
                    (Terminator.intrinsic op arguments destination (some p₁.0)) p₁.1)
                  λ c₂. translate_stmts-Kept p₁.0 [] rest kind c₂)
        ]

    translate_blocks-Kept :
        (blocks : List BasicBlockData) (rest : List (ℕ × BbName)) (c : FnCtxt)
        → Kept v.rustc whole_of c.cx (translate_blocks v names bbs blocks rest c)
    unfolding translate_blocks translate_bb
    translate_blocks-Kept blocks [] c = done-Kept whole_of _
    translate_blocks-Kept blocks ((id, name) ∷ rest) c =
        pure-Kept (get_elem? blocks id) λ (bb : BasicBlockData).
          bind-Kept (translate_stmts-Kept name [] bb.statements bb.terminator c)
            λ c₁. translate_blocks-Kept blocks rest c₁

    translate_body-Kept :
        (iter : List (ℕ × BbName) → List (ℕ × BbName)) (body : Body) (c : FnCtxt)
        → Kept v.rustc fn_of c.cx (translate_body v iter body names bbs c)
    unfolding translate_body
    translate_body-Kept iter body c = bind-Kept (fresh_bb_name-Kept c) λ p.
        pure-Kept (init_stmts names (body.arg_count + 1) body.always_storage_live) λ stmts.
          pure-Kept (get bbs 0) λ start.
            bind-Kept (translate_blocks-Kept body.basic_blocks (iter bbs) _) λ c₂. done-Kept fn_of _

pub translate-Kept :
    (v : Env) (iter : List (ℕ × BbName) → List (ℕ × BbName))
    (iter_locals : List (ℕ × LocalName) → List (ℕ × LocalName)) (body : Body) (cx : Ctxt)
    → EnvKeeps v
    → Kept v.rustc ctxt_of cx (translate v iter iter_locals body cx)
unfolding translate
translate-Kept v iter iter_locals body cx keeps =
    bind-Kept (name_blocks-Kept 0 body.basic_blocks [] _) λ p.
      bind-Kept
        (translate_locals-Kept v keeps [] (iter_locals (name_locals 0 body.local_decls))
          body.local_decls [] p.1.cx)
        λ p₁.
          bind-Kept
            (translate_body-Kept v keeps (name_locals 0 body.local_decls) p.0 iter body
              (record p.1 { cx = p₁.1 }))
            λ p₂. pure-Kept _ λ conv. done-Kept ctxt_of _
