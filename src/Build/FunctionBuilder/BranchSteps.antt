-- ===== src/Build/FunctionBuilder/BranchSteps.antt =====
-- build/terminator.rs: the parts of `switch_int` and `while_` on the invariant of Blocks.
use minirust.Prelude.{
  ℕ, ◌+◌, ◌<◌, ◌≤◌, ◌≡◌, refl, sym, subst, List, [], ◌∷◌, ◌++◌, Option, none, some, >>=-eq-some,
  some_inj, unless-eq-some, Bool-cases, inl, inr, arith,
}
use minirust.Prelude.Int.{ℤ}
use minirust.Lang.Syntax.{BbName, Terminator}
use minirust.Build.FunctionBuilder.{FunctionBuilder, is_none, declare_block, finish_block}
use minirust.Build.FunctionBuilder.Terminators as M
use minirust.Build.FunctionBuilder.Terminators.{continue_with}
use minirust.Build.FunctionBuilder.Branches.{
  Branch, has_case, declare_cases, get_or_declare, join_branch,
}
use minirust.Build.FunctionBuilder.Blocks.{
  one, one?, count, case_blocks, successors, AllBelow, AllBelow-mono, Inv, Inv-congr,
  below_of_pending,
}
use minirust.Build.FunctionBuilder.BlockSteps.{
  Inv-declare_block, Inv-set_cur_block, Inv-finish_block,
}

-- From builders with `k` blocks on, a closure keeps the invariant and declares more blocks at most.
abbrev pub Keeps : ℕ → Branch → Type 0
Keeps k branch =
    (q : ℕ → ℕ) (fb fb' : FunctionBuilder)
    → branch fb ≡ some fb'
    → k ≤ fb.next_block
    → Inv q fb
    → Inv q fb' × (fb.next_block ≤ fb'.next_block)

pub Keeps-mono : (j k : ℕ) (branch : Branch) → j ≤ k → Keeps j branch → Keeps k branch
Keeps-mono j k branch le keeps q fb fb' h h' inv = keeps q fb fb' h (omega arith) inv

abbrev pub AllKeep : ℕ → List (Branch × BbName) → Type 0
AllKeep k [] = Unit
AllKeep k ((branch, _) ∷ branches) = Keeps k branch × AllKeep k branches

abbrev pub CasesKeep : ℕ → List (ℤ × Branch) → Type 0
CasesKeep k [] = Unit
CasesKeep k ((_, branch) ∷ cases) = Keeps k branch × CasesKeep k cases

abbrev pub blocks_of : List (Branch × BbName) → List BbName
blocks_of [] = []
blocks_of ((_, b) ∷ branches) = b ∷ blocks_of branches

pub AllKeep-append :
    (k : ℕ) (xs ys : List (Branch × BbName)) → AllKeep k xs → AllKeep k ys → AllKeep k (xs ++ ys)
AllKeep-append k [] ys hx hy = hy
AllKeep-append k ((_, _) ∷ xs) ys hx hy = (hx.0, AllKeep-append k xs ys hx.1 hy)

pub count-snoc :
    (xs : List (Branch × BbName)) (branch : Branch) (b n : ℕ)
    → count (blocks_of (xs ++ (branch, b) ∷ [])) n ≡ one b n + count (blocks_of xs) n
count-snoc [] branch b n = refl
count-snoc ((_, c) ∷ xs) branch b n = ground (arith, count-snoc xs branch b n)

pub continue_with-Keeps :
    (k : ℕ) (t : BbName → Terminator)
    → ((b : BbName) → successors (t b) ≡ b ∷ [])
    → Keeps k (continue_with t)
unfolding continue_with
continue_with-Keeps k t to_next q fb fb' h _ inv =
    let ((b, fb₁), e₁, h₁) = >>=-eq-some (declare_block fb) _ h in
    let (fb₂, e₂, h₂) = >>=-eq-some (finish_block (t b) fb₁) _ h₁ in
    let (inv₁, _, le, lt) = Inv-declare_block b e₁ inv in
    let (inv₂, _, same) =
      Inv-finish_block (t b) e₂ (subst (AllBelow fb₁.next_block) (sym (to_next b)) (lt, tt)) inv₁ in
    let (inv₃, same') = Inv-set_cur_block b h₂ inv₂ in (inv₃, omega arith)

-- What holds after the first loop of a switch, over its results
abbrev pub Declared :
    ℕ → (ℕ → ℕ) → ℕ → List (ℤ × BbName) × List (Branch × BbName) × FunctionBuilder → Type 0
Declared k q below (m, branches, fb) =
    Inv (λ n. count (blocks_of branches) n + q n) fb
    × AllKeep k branches
    × AllBelow fb.next_block (case_blocks m)
    × (below ≤ fb.next_block)

pub declare_cases-Declared :
    (k : ℕ) (q : ℕ → ℕ) (cases : List (ℤ × Branch)) (m : List (ℤ × BbName))
    (branches : List (Branch × BbName)) (fb : FunctionBuilder) (low : ℕ)
    {r : List (ℤ × BbName) × List (Branch × BbName) × FunctionBuilder}
    → declare_cases cases m branches fb ≡ some r
    → CasesKeep k cases
    → Declared k q low (m, branches, fb)
    → Declared k q low r
unfolding declare_cases
declare_cases-Declared k q [] m branches fb low h hc d = subst (Declared k q low) (some_inj h) d
declare_cases-Declared k q ((case, branch) ∷ cases) m branches fb low h hc (inv, hb, below, le) =
    let ((b, fb₁), e₁, h₁) = >>=-eq-some (declare_block fb) _ h in
    let (_, h₂) = unless-eq-some (has_case m case) h₁ in
    let (inv₁, _, le₁, lt) = Inv-declare_block b e₁ inv in
    declare_cases-Declared k q cases ((case, b) ∷ m) (branches ++ (branch, b) ∷ []) fb₁ low h₂ hc.1
      (
        Inv-congr (λ n. omega (arith, count-snoc branches branch b n)) inv₁,
        AllKeep-append k branches ((branch, b) ∷ []) hb (hc.0, tt),
        (lt, AllBelow-mono fb.next_block fb₁.next_block (case_blocks m) le₁ below),
        omega arith,
      )

-- What holds after a branch, over the block behind the switch and the builder
abbrev pub Joined : (ℕ → ℕ) → ℕ → Option BbName × FunctionBuilder → Type 0
Joined q low (after, fb) = Inv (λ n. one? after n + q n) fb × (low ≤ fb.next_block)

get_or_declare-Joined :
    (q : ℕ → ℕ) (low : ℕ) (after : Option BbName) (fb : FunctionBuilder) (b : BbName)
    (fb₁ : FunctionBuilder)
    → get_or_declare after fb ≡ some (b, fb₁)
    → Joined q low (after, fb)
    → Joined q low (some b, fb₁)
unfolding get_or_declare
get_or_declare-Joined q low none fb b fb₁ e (inv, le) =
    let (inv₁, _, le₁, _) = Inv-declare_block b e inv in
    (Inv-congr (λ n. omega arith) inv₁, omega arith)
get_or_declare-Joined q low (some a) fb b fb₁ e j =
    subst (λ (r : BbName × FunctionBuilder). Joined q low (some r.0, r.1)) (some_inj e) j

pub join_branch-Joined :
    (q : ℕ → ℕ) (low : ℕ) (after : Option BbName) (fb : FunctionBuilder)
    {r : Option BbName × FunctionBuilder}
    → join_branch after fb ≡ some r
    → Joined q low (after, fb)
    → Joined q low r
unfolding join_branch M.goto
join_branch-Joined q low after fb h j = elim (Bool-cases (is_none fb.cur_block)) [
  | inl done ↦ subst (Joined q low) (some_inj (rw done at h)) j
  | inr more ↦
      let ((b, fb₁), e₁, h₁) = >>=-eq-some (get_or_declare after fb) _ (rw more at h) in
      let (fb₂, e₂, h₂) = >>=-eq-some (M.goto b fb₁) _ h₁ in
      let joined : Joined q low (some b, fb₁) = get_or_declare-Joined q low after fb b fb₁ e₁ j in
      let lt : b < fb₁.next_block = below_of_pending b joined.0 (ground arith) in
      let finished = Inv-finish_block (Terminator.goto b) e₂ (lt, tt) joined.0 in
      let le : low ≤ fb₂.next_block = omega (arith, joined.1, finished.2) in
      subst (Joined q low) (some_inj h₂) (finished.0, le)
]
