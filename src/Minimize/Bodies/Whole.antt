-- ===== src/Minimize/Bodies/Whole.antt =====
-- function.rs: a translated function has its start block and all blocks that it jumps to.
use minirust.Prelude.{
  ℕ, ◌≡◌, refl, true, List, [], ◌∷◌, some, get, get_elem?, contains_key, insert, arith, Bool-cases,
  inl, inr, ◌+◌, ◌∙◌, subst, some_inj, >>=-eq-some,
}
use minirust.Lang.Syntax.{LocalName, BbName, Terminator, BasicBlock, Function}
use minirust.Build.FunctionBuilder.Blocks.{successors}
use minirust.Build.FunctionBuilder.Closed.{IsClosed, AllIn, TargetsIn}
use minirust.Minimize.Program.{Ctxt}
use minirust.Minimize.Program.Inv.{has_value}
use minirust.Minimize.Types.{translate_calling_convention}
use minirust.Minimize.Mir.{BasicBlockData, Body, Env}
use minirust.Minimize.Bodies.{FnCtxt, fresh_bb_name}
use minirust.Minimize.Bodies.Blocks.{
  translate_bb, translate_blocks, name_blocks, name_locals, init_stmts, translate_locals,
  translate_body, translate,
}
use minirust.Minimize.Bodies.Targets.{Holds, Holds-bind, Holds-some, AllOf}
use minirust.Minimize.Bodies.Closed.{
  Covered, AllJump, Inv, fresh_bb_name-blocks, translate_stmts-Inv,
}

module _ (v : Env) (names : List (ℕ × LocalName)) (bbs : List (ℕ × BbName)) (start : BbName)
    (basic_blocks : List BasicBlockData) where
  translate_blocks-Inv :
      (rest : List (ℕ × BbName)) (c : FnCtxt)
      → Inv bbs start c.blocks rest
      → Holds (λ c'. Inv bbs start c'.blocks []) (translate_blocks v names bbs basic_blocks rest c)
  unfolding translate_blocks translate_bb
  translate_blocks-Inv [] c inv = Holds-some (λ c'. Inv bbs start c'.blocks []) c inv
  translate_blocks-Inv ((id, name) ∷ rest) c inv =
      let P : FnCtxt → Type 0 = λ c'. Inv bbs start c'.blocks [] in
      Holds-bind P (get_elem? basic_blocks id) _ λ bb e.
        Holds-bind P (translate_bb v names bbs name bb c) _ λ c₁ e₁. translate_blocks-Inv rest c₁ (
          translate_stmts-Inv bbs start v names id name [] bb.statements bb.terminator rest c inv c₁
            e₁)

-- With no block to come, what is covered is there.
AllIn-Covered :
    (blocks : List (BbName × BasicBlock)) (l : List BbName)
    → AllOf (Covered blocks []) l
    → AllIn blocks l
AllIn-Covered blocks [] h = tt
AllIn-Covered blocks (b ∷ l) (q, h) = (ground arith, AllIn-Covered blocks l h)

TargetsIn-Covered :
    (all blocks : List (BbName × BasicBlock))
    → AllJump (Covered all []) blocks
    → TargetsIn all blocks
TargetsIn-Covered all [] h = tt
TargetsIn-Covered all ((_, b) ∷ blocks) (q, h) =
    (AllIn-Covered all (successors b.terminator) q, TargetsIn-Covered all blocks h)

name_blocks-blocks :
    (id : ℕ) (basic_blocks : List BasicBlockData) (bbs : List (ℕ × BbName)) (c : FnCtxt)
    → Holds (λ r. r.1.blocks ≡ c.blocks) (name_blocks id basic_blocks bbs c)
unfolding name_blocks
name_blocks-blocks id [] bbs c = Holds-some (λ r. r.1.blocks ≡ c.blocks) (bbs, c) refl
name_blocks-blocks id (bb ∷ rest) bbs c = elim (Bool-cases bb.is_cleanup) [
  | inl e ↦ rw e (name_blocks-blocks (id + 1) rest bbs c)
  | inr e ↦
      let P : List (ℕ × BbName) × FnCtxt → Type 0 = λ r. r.1.blocks ≡ c.blocks in
      rw e (
        Holds-bind P (fresh_bb_name c) _ λ fresh ef r er.
          name_blocks-blocks (id + 1) rest (insert bbs id fresh.0) fresh.1 r er
          ∙ fresh_bb_name-blocks c fresh ef)
]

-- Each entry of a map is read, in whatever order.
abbrev pub ReadsAll : (List (ℕ × BbName) → List (ℕ × BbName)) → Type 0
ReadsAll iter = (m : List (ℕ × BbName)) (id n : ℕ) → get m id ≡ some n → has_value (iter m) n ≡ true

-- The blocks of a function, with the block that is run first
abbrev ClosedBlocks : BbName × FnCtxt → Type 0
ClosedBlocks r = (contains_key r.1.blocks r.0 ≡ true) × TargetsIn r.1.blocks r.1.blocks

translate_body-ClosedBlocks :
    (v : Env) (iter : List (ℕ × BbName) → List (ℕ × BbName)) (body : Body)
    (names : List (ℕ × LocalName)) (bbs : List (ℕ × BbName)) (c : FnCtxt)
    → ReadsAll iter
    → c.blocks ≡ []
    → Holds ClosedBlocks (translate_body v iter body names bbs c)
unfolding translate_body
translate_body-ClosedBlocks v iter body names bbs c reads empty =
    let P = ClosedBlocks in
    Holds-bind P (fresh_bb_name c) _ λ init ei.
      Holds-bind P (init_stmts names (body.arg_count + 1) body.always_storage_live) _ λ stmts es.
        Holds-bind P (get bbs 0) _ λ start e₀.
          let blk : BasicBlock = record {
            statements = stmts;
            terminator = Terminator.goto start;
          } in
          let c₁ : FnCtxt = record init.1 { blocks = insert init.1.blocks init.0 blk } in
          Holds-bind P (translate_blocks v names bbs body.basic_blocks (iter bbs) c₁) _ λ c₂ e₂.
            let first : c₁.blocks ≡ (init.0, blk) ∷ [] =
              rw (fresh_bb_name-blocks c init ei, empty) refl in
            let inv : Inv bbs init.0 c₁.blocks (iter bbs) = rw first (record {
              has_start = ground arith;
              named = λ id n e. ground (arith, reads bbs id n e);
              jumps = ((ground (arith, reads bbs 0 start e₀), tt), tt);
            }) in
            let done =
              translate_blocks-Inv v names bbs init.0 body.basic_blocks (iter bbs) c₁ inv c₂ e₂ in
            Holds-some P (init.0, c₂)
              (done.has_start, TargetsIn-Covered c₂.blocks c₂.blocks done.jumps)

-- A function that translate returns has its start block and all blocks that its terminators jump to,
-- if the names of all blocks are read from their map.
pub translate-IsClosed :
    (v : Env) (iter : List (ℕ × BbName) → List (ℕ × BbName))
    (iter_locals : List (ℕ × LocalName) → List (ℕ × LocalName)) (body : Body) (cx cx' : Ctxt)
    (f : Function)
    → ReadsAll iter
    → translate v iter iter_locals body cx ≡ some (f, cx')
    → IsClosed f
unfolding translate
translate-IsClosed v iter iter_locals body cx cx' f reads e =
    let c : FnCtxt = record { cx = cx; next_bb = 0; blocks = [] } in
    let names = name_locals 0 body.local_decls in
    let ((bbs, c₁), e₁, k₁) = >>=-eq-some (name_blocks 0 body.basic_blocks [] c) _ e in
    let ((locals, cx₁), e₂, k₂) =
      >>=-eq-some (translate_locals v (iter_locals names) body.local_decls [] c₁.cx) _ k₁ in
    let ((init_bb, c₂), e₃, k₃) =
      >>=-eq-some (translate_body v iter body names bbs (record c₁ { cx = cx₁ })) _ k₂ in
    let (conv, e₄, k₄) = >>=-eq-some (translate_calling_convention body.conv) _ k₃ in
    let closed =
      translate_body-ClosedBlocks v iter body names bbs (record c₁ { cx = cx₁ }) reads
        (name_blocks-blocks 0 body.basic_blocks [] c (bbs, c₁) e₁) (init_bb, c₂) e₃ in
    subst (λ p. IsClosed p.0) (some_inj k₄) closed
