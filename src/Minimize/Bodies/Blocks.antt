-- ===== src/Minimize/Bodies/Blocks.antt =====
-- tooling/minimize/src/bb.rs, function.rs: blocks, and the function that they make up.
use minirust.Prelude.{
  ℕ, zero, suc, ◌+◌, Bool, true, false, List, [], ◌∷◌, ◌++◌, Option, some, ◌>>=◌, get, get_elem?,
  insert, if◌then◌else◌, leb,
}
use minirust.Prelude.Int.{pos}
use minirust.Lang.Types.{Ty}
use minirust.Lang.Syntax.{LocalName, BbName, ValueExpr, Statement, Terminator, BasicBlock, Function}
use minirust.Build.Types.{u8}
use minirust.Build.Exprs.{bool_to_int}
use minirust.Build.Operators.{not}
use minirust.Build.Terminators.{panic}
use minirust.Minimize.Program.{Ctxt, as_u32}
use minirust.Minimize.Types.{translate_calling_convention}
use minirust.Minimize.Mir.{
  Operand, StatementKind, TerminatorKind, BasicBlockData, Body, Env, type_translator,
}
use minirust.Minimize.Bodies.{
  statement, intrinsic, TerminatorResult, translate_stmt, FnCtxt, fresh_bb_name, add_block,
}
use minirust.Minimize.Bodies.Terminators.{plain_terminator}

-- The condition of an assertion, that has to be true
unfoldable pub assert_condition : Bool → ValueExpr → Option ValueExpr
assert_condition true condition = some condition
assert_condition false condition = not condition

module _ (v : Env) (local_names : List (ℕ × LocalName)) (bbs : List (ℕ × BbName)) where
  -- An assertion, which adds the block for its failure
  unfoldable pub translate_assert : Operand → Bool → ℕ → FnCtxt → Option (TerminatorResult × FnCtxt)
  translate_assert cond expected target c = do
    (operand, cx₁) ← v.translate_operand local_names cond c.cx
    condition ← assert_condition expected operand
    (panic_bb, c₁) ← fresh_bb_name (record c { cx = cx₁ })
    c₂ ← add_block panic_bb [] panic c₁
    next_block ← get bbs target
    value ← bool_to_int u8 condition
    some (
      record {
        stmts = [];
        terminator = Terminator.switch value ((pos 1, next_block) ∷ []) panic_bb;
      },
      c₂,
    )

  unfoldable pub translate_terminator : TerminatorKind → FnCtxt → Option (TerminatorResult × FnCtxt)
  translate_terminator (TerminatorKind.assert cond expected target) c =
      translate_assert cond expected target c
  translate_terminator kind c = do
    (result, cx₁) ← plain_terminator v local_names bbs kind c.cx
    some (result, record c { cx = cx₁ })

  -- The end of `translate_bb`
  unfoldable pub end_bb : BbName → List Statement → TerminatorKind → FnCtxt → Option FnCtxt
  end_bb cur_block_name stmts kind c = do
    (result, c₁) ← translate_terminator kind c
    add_block cur_block_name (stmts ++ result.stmts) result.terminator c₁

  -- The loop of `translate_bb` over the statements that are left, and its end
  unfoldable pub translate_stmts :
      BbName → List Statement → List StatementKind → TerminatorKind → FnCtxt → Option FnCtxt
  translate_stmts cur_block_name stmts [] kind c = end_bb cur_block_name stmts kind c
  translate_stmts cur_block_name stmts (s ∷ rest) kind c = do
    (result, cx₁) ← translate_stmt v local_names s c.cx
    elim result [
      | statement stmt ↦
          translate_stmts cur_block_name (stmts ++ (stmt ∷ [])) rest kind (record c { cx = cx₁ })
      | intrinsic op destination arguments ↦ (do
        (next_bb, c₁) ← fresh_bb_name (record c { cx = cx₁ })
        c₂ ←
            add_block cur_block_name stmts
              (Terminator.intrinsic op arguments destination (some next_bb)) c₁
        translate_stmts next_bb [] rest kind c₂)
    ]

  unfoldable pub translate_bb : BbName → BasicBlockData → FnCtxt → Option FnCtxt
  translate_bb name bb c = translate_stmts name [] bb.statements bb.terminator c

-- The loop over the names of the blocks that are left
unfoldable pub translate_blocks :
    Env
    → List (ℕ × LocalName)
    → List (ℕ × BbName)
    → List BasicBlockData
    → List (ℕ × BbName)
    → FnCtxt
    → Option FnCtxt
translate_blocks v local_names bbs basic_blocks [] c = some c
translate_blocks v local_names bbs basic_blocks ((id, name) ∷ rest) c = do
  bb ← get_elem? basic_blocks id
  c₁ ← translate_bb v local_names bbs name bb c
  translate_blocks v local_names bbs basic_blocks rest c₁

-- Names for the blocks from the index `id` on; those that clean up get none.
unfoldable pub name_blocks :
    ℕ → List BasicBlockData → List (ℕ × BbName) → FnCtxt → Option (List (ℕ × BbName) × FnCtxt)
name_blocks id [] bbs c = some (bbs, c)
name_blocks id (bb ∷ rest) bbs c =
    if bb.is_cleanup
    then name_blocks (id + 1) rest bbs c
    else (do (name, c₁) ← fresh_bb_name c; name_blocks (id + 1) rest (insert bbs id name) c₁)

-- Names for the locals from the index `id` on: their indices
unfoldable pub name_locals : ℕ → List ℕ → List (ℕ × LocalName)
name_locals id [] = []
name_locals id (ty ∷ rest) = (id, as_u32 id) ∷ name_locals (id + 1) rest

-- The block that is run first: it allocates the locals that are always live, save for the return
-- local and the arguments.
unfoldable pub init_stmts : List (ℕ × LocalName) → ℕ → List ℕ → Option (List Statement)
init_stmts local_names free_argc [] = some []
init_stmts local_names free_argc (loc ∷ rest) = do
  name ← get local_names loc
  stmts ← init_stmts local_names free_argc rest
  some (if leb free_argc name then Statement.storage_live name ∷ stmts else stmts)

-- The types of the locals, by their names
unfoldable pub translate_locals :
    Env
    → List (ℕ × LocalName)
    → List ℕ
    → List (LocalName × Ty)
    → Ctxt
    → Option (List (LocalName × Ty) × Ctxt)
translate_locals v [] local_decls locals cx = some (locals, cx)
translate_locals v ((id, name) ∷ rest) local_decls locals cx = do
  decl ← get_elem? local_decls id
  (ty, cx₁) ← type_translator v decl cx
  translate_locals v rest local_decls (insert locals name ty) cx₁

-- The names of the arguments, `count` of them from the number `i` on
unfoldable pub arg_names : ℕ → ℕ → List LocalName
arg_names zero i = []
arg_names (suc count) i = as_u32 i ∷ arg_names count (i + 1)

-- The blocks: the one that is run first, and the translated ones
unfoldable pub translate_body :
    Env
    → (List (ℕ × BbName) → List (ℕ × BbName))
    → Body
    → List (ℕ × LocalName)
    → List (ℕ × BbName)
    → FnCtxt
    → Option (BbName × FnCtxt)
translate_body v iter body local_names bbs c = do
  (init_bb, c₁) ← fresh_bb_name c
  stmts ← init_stmts local_names (body.arg_count + 1) body.always_storage_live
  start ← get bbs 0
  let init_blk : BasicBlock = record { statements = stmts; terminator = Terminator.goto start }
  c₂ ←
      translate_blocks v local_names bbs body.basic_blocks (iter bbs)
        (record c₁ { blocks = insert c₁.blocks init_bb init_blk })
  some (init_bb, c₂)

-- `FnCtxt::translate`. `iter` and `iter_locals` are the orders in which the `HashMap`s are read.
unfoldable pub translate :
    Env
    → (List (ℕ × BbName) → List (ℕ × BbName))
    → (List (ℕ × LocalName) → List (ℕ × LocalName))
    → Body
    → Ctxt
    → Option (Function × Ctxt)
translate v iter iter_locals body cx = do
  (bbs, c₁) ← name_blocks 0 body.basic_blocks [] (record { cx = cx; next_bb = 0; blocks = [] })
  let local_names = name_locals 0 body.local_decls
  (locals, cx₁) ← translate_locals v (iter_locals local_names) body.local_decls [] c₁.cx
  (init_bb, c₂) ← translate_body v iter body local_names bbs (record c₁ { cx = cx₁ })
  conv ← translate_calling_convention body.conv
  some (
    record {
      locals = locals;
      args = arg_names body.arg_count 1;
      ret = 0;
      calling_convention = conv;
      blocks = c₂.blocks;
      start = init_bb;
    },
    c₂.cx,
  )
