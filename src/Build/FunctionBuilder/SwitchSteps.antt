-- ===== src/Build/FunctionBuilder/SwitchSteps.antt =====
-- build/terminator.rs: `switch_int`, `if_` and `while_` on the invariant of Blocks.
use minirust.Prelude.{
  ℕ, ◌+◌, ◌<◌, ◌≤◌, ◌≡◌, subst, List, [], ◌∷◌, ◌++◌, Option, none, some, >>=-eq-some, some_inj,
  Bool-cases, inl, inr, arith,
}
use minirust.Prelude.Int.{ℤ, pos}
use minirust.Lang.Syntax.{BbName, ValueExpr, Terminator}
use minirust.Build.Types.{u8}
use minirust.Build.Exprs.{transmute}
use minirust.Build.FunctionBuilder.{
  FunctionBuilder, is_none, declare_block, set_cur_block, finish_block,
}
use minirust.Build.FunctionBuilder.Terminators as M
use minirust.Build.FunctionBuilder.Terminators.{continue_with}
use minirust.Build.FunctionBuilder.Branches.{
  Branch, declare_cases, join_branch, build_branches, set_after, switch_int, if_, loop_body, while_,
}
use minirust.Build.FunctionBuilder.Blocks.{one?, count, case_blocks, AllBelow-mono, Inv, Inv-congr}
use minirust.Build.FunctionBuilder.BlockSteps.{
  Inv-declare_block, Inv-set_cur_block, Inv-finish_block,
}
use minirust.Build.FunctionBuilder.BranchSteps.{
  Keeps, Keeps-mono, AllKeep, CasesKeep, blocks_of, AllKeep-append, count-snoc, Declared,
  declare_cases-Declared, Joined, join_branch-Joined,
}

build_branches-Joined :
    (k : ℕ) (q : ℕ → ℕ) (branches : List (Branch × BbName)) (after : Option BbName)
    (fb : FunctionBuilder) {r : Option BbName × FunctionBuilder}
    → build_branches branches after fb ≡ some r
    → AllKeep k branches
    → Joined (λ n. count (blocks_of branches) n + q n) k (after, fb)
    → Joined q k r
unfolding build_branches
build_branches-Joined k q [] after fb h hb (inv, le) =
    subst (Joined q k) (some_inj h) (Inv-congr (λ n. omega arith) inv, le)
build_branches-Joined k q ((branch, block) ∷ branches) after fb h hb (inv, le) =
    let (fb₁, e₁, h₁) = >>=-eq-some (set_cur_block block fb) _ h in
    let (fb₂, e₂, h₂) = >>=-eq-some (branch fb₁) _ h₁ in
    let ((after₁, fb₃), e₃, h₃) = >>=-eq-some (join_branch after fb₂) _ h₂ in
    let rest : ℕ → ℕ = λ n. count (blocks_of branches) n + q n in
    let (inv₁, same) =
      Inv-set_cur_block {q = λ n. one? after n + rest n} block e₁
        (Inv-congr (λ n. omega arith) inv) in
    let le₁ : k ≤ fb₁.next_block = omega arith in
    let (inv₂, le₂) = hb.0 (λ n. one? after n + rest n) fb₁ fb₂ e₂ le₁ inv₁ in
    let joined = join_branch-Joined rest k after fb₂ e₃ (inv₂, omega (arith, le₁, le₂)) in
    build_branches-Joined k q branches after₁ fb₃ h₃ hb.1 joined

CasesKeep-mono :
    (j k : ℕ) (cases : List (ℤ × Branch)) → j ≤ k → CasesKeep j cases → CasesKeep k cases
CasesKeep-mono j k [] le keep = tt
CasesKeep-mono j k ((_, branch) ∷ cases) le keep =
    (Keeps-mono j k branch le keep.0, CasesKeep-mono j k cases le keep.1)

set_after-Joined :
    (q : ℕ → ℕ) (low : ℕ) (after : Option BbName) (fb fb' : FunctionBuilder)
    → set_after after fb ≡ some fb'
    → Joined q low (after, fb)
    → Inv q fb' × (low ≤ fb'.next_block)
unfolding set_after
set_after-Joined q low none fb fb' h (inv, le) =
    subst (λ (x : FunctionBuilder). Inv q x × (low ≤ x.next_block)) (some_inj h)
      (Inv-congr (λ n. omega arith) inv, le)
set_after-Joined q low (some a) fb fb' h (inv, le) =
    let (inv', same) = Inv-set_cur_block a h inv in (inv', omega arith)

pub switch_int-Keeps :
    (k : ℕ) (value : ValueExpr) (cases : List (ℤ × Branch)) (fallback : Branch)
    → CasesKeep k cases
    → Keeps k fallback
    → Keeps k (switch_int value cases fallback)
unfolding switch_int
switch_int-Keeps k value cases fallback hc hf q fb fb' h le inv =
    let low = fb.next_block in
    let ((m, branches, fb₁), e₁, h₁) = >>=-eq-some (declare_cases cases [] [] fb) _ h in
    let ((b, fb₂), e₂, h₂) = >>=-eq-some (declare_block fb₁) _ h₁ in
    let switch = Terminator.switch value m b in
    let (fb₃, e₃, h₃) = >>=-eq-some (finish_block switch fb₂) _ h₂ in
    let blocks = branches ++ (fallback, b) ∷ [] in
    let ((after, fb₄), e₄, h₄) = >>=-eq-some (build_branches blocks none fb₃) _ h₃ in
    let start : Declared low q low ([], [], fb) =
      (Inv-congr (λ n. omega arith) inv, tt, tt, omega arith) in
    let (inv₁, kept, below, le₁) =
      declare_cases-Declared low q cases [] [] fb low e₁ (CasesKeep-mono k low cases le hc) start in
    let (inv₂, _, le₂, lt) = Inv-declare_block b e₂ inv₁ in
    let below₂ = AllBelow-mono fb₁.next_block fb₂.next_block (case_blocks m) le₂ below in
    let (inv₃, _, same) = Inv-finish_block switch e₃ (lt, below₂) inv₂ in
    let le₃ : low ≤ fb₃.next_block = omega arith in
    let all =
      AllKeep-append low branches ((fallback, b) ∷ []) kept (Keeps-mono k low fallback le hf, tt) in
    let inv₄ = Inv-congr (λ n. omega (arith, count-snoc branches fallback b n)) inv₃ in
    let joined = build_branches-Joined low q blocks none fb₃ e₄ all (inv₄, le₃) in
    set_after-Joined q low after fb₄ fb' h₄ joined

pub if_-Keeps :
    (k : ℕ) (condition : ValueExpr) (then_branch else_branch : Branch)
    → Keeps k then_branch
    → Keeps k else_branch
    → Keeps k (if_ condition then_branch else_branch)
unfolding if_
if_-Keeps k condition then_branch else_branch ht he =
    switch_int-Keeps k (transmute condition u8.get_type) ((pos 1, then_branch) ∷ []) else_branch
      (ht, tt) he

-- The jump back is to a block that is declared, by then.
loop_body-Keeps :
    (k cond : ℕ) (body : Branch) → cond < k → Keeps k body → Keeps k (loop_body cond body)
unfolding loop_body M.goto
loop_body-Keeps k cond body lt hb q fb fb' h le inv =
    let (fb₁, e₁, h₁) = >>=-eq-some (body fb) _ h in
    let (inv₁, le₁) = hb q fb fb₁ e₁ le inv in
    elim (Bool-cases (is_none fb₁.cur_block)) [
      | inl done ↦
          subst (λ (x : FunctionBuilder). Inv q x × (fb.next_block ≤ x.next_block))
            (some_inj (rw done at h₁)) (inv₁, le₁)
      | inr more ↦
          let (inv₂, _, same) =
            Inv-finish_block (Terminator.goto cond) (rw more at h₁) (omega arith, tt) inv₁ in
          (inv₂, omega arith)
    ]

some-Keeps : (k : ℕ) → Keeps k some
some-Keeps k q fb fb' h le inv =
    subst (λ (x : FunctionBuilder). Inv q x × (fb.next_block ≤ x.next_block)) (some_inj h)
      (inv, omega arith)

pub while_-Keeps :
    (k : ℕ) (condition : ValueExpr) (body : Branch) → Keeps k body → Keeps k (while_ condition body)
unfolding while_ M.goto
while_-Keeps k condition body hb q fb fb' h le inv =
    let ((cond, fb₁), e₁, h₁) = >>=-eq-some (declare_block fb) _ h in
    let (fb₂, e₂, h₂) = >>=-eq-some (M.goto cond fb₁) _ h₁ in
    let (fb₃, e₃, h₃) = >>=-eq-some (set_cur_block cond fb₂) _ h₂ in
    let (inv₁, _, le₁, lt) = Inv-declare_block cond e₁ inv in
    let (inv₂, _, same) = Inv-finish_block (Terminator.goto cond) e₂ (lt, tt) inv₁ in
    let (inv₃, same') = Inv-set_cur_block cond e₃ inv₂ in
    let from = fb₃.next_block in
    let lt₃ : cond < from = omega arith in
    let le₃ : k ≤ from = omega arith in
    let (inv₄, le₄) =
      if_-Keeps from condition (loop_body cond body) some
        (loop_body-Keeps from cond body lt₃ (Keeps-mono k from body le₃ hb)) (some-Keeps from) q fb₃
        fb' h₃ (omega arith) inv₃ in
    (inv₄, omega arith)
