-- ===== src/Minimize/Bodies/Targets.antt =====
-- bb.rs: the blocks that a translated terminator jumps to.
use minirust.Prelude.{
  ℕ, ◌≡◌, List, [], ◌∷◌, Option, none, some, ◌>>=◌, get, get_elem?, >>=-eq-some, some_inj,
  Bool-cases, inl, inr, subst,
}
use minirust.Prelude.Int.{ℤ, ◌==ℤ◌}
use minirust.Lang.Types.{IntType}
use minirust.Lang.Syntax.{LocalName, BbName, Statement, ValueExpr, PlaceExpr, IntrinsicOp}
use minirust.Build.Terminators.{insert_case, collect_cases}
use minirust.Build.FunctionBuilder.Blocks.{case_blocks, next_blocks, successors}
use minirust.Minimize.Program.{Ctxt}
use minirust.Minimize.Types.{translate_calling_convention}
use minirust.Minimize.Enums.{int_from_bits}
use minirust.Fmt.Text.{codes}
use minirust.Minimize.Mir.{Operand, TerminatorKind, InstanceKind, Env, type_translator}
use minirust.Minimize.Bodies.{TerminatorResult, next_block_of}
use minirust.Minimize.Bodies.Calls.{
  RsIntrinsic, rs_intrinsic, minirust_intrinsic, same_text, is_panic_fn, translate_operands,
  translate_arguments, translate_two, pointee_size, go_on, assign_on, end_with, panic_result,
}
use minirust.Minimize.Bodies.Intrinsics.{distance, rs_intrinsic_result, translate_rs_intrinsic}
use minirust.Minimize.Bodies.Terminators.{
  switch_value, translate_callee, translate_drop, call_intrinsic, call_function, direct_call,
  call_instance, translate_call, switch_cases, plain_terminator,
}

-- What holds of the result of a step, unless it panics
abbrev pub Holds {ℓ κ} : {A : Type ℓ} → (A → Type κ) → Option A → Type (ℓ ⊔ κ)
Holds P o = (a : _) → o ≡ some a → P a

pub Holds-bind {ℓ κ μ} :
    {A : Type ℓ} {B : Type κ} (P : B → Type μ) (o : Option A) (f : A → Option B)
    → ((a : A) → o ≡ some a → Holds P (f a))
    → Holds P (o >>= f)
Holds-bind P o f h b e = let (a, ea, eb) = >>=-eq-some o f e in h a ea b eb

pub Holds-some {ℓ κ} : {A : Type ℓ} (P : A → Type κ) (a : A) → P a → Holds P (some a)
Holds-some P a h b e = subst P (some_inj e) h

pub Holds-none {ℓ κ} : {A : Type ℓ} (P : A → Type κ) → Holds P none
Holds-none P b e = cc

module _ (Q : BbName → Type 0) where
  abbrev pub AllOf : List BbName → Type 0
  AllOf [] = Unit
  AllOf (b ∷ l) = Q b × AllOf l

  -- Each block that the terminator of a result jumps to
  abbrev pub Jumps : TerminatorResult → Type 0
  Jumps t = AllOf (successors t.terminator)

  insert_case-AllOf :
      (m : List (ℤ × BbName)) (k : ℤ) (b : BbName)
      → AllOf (case_blocks m)
      → Q b
      → AllOf (case_blocks (insert_case m k b))
  insert_case-AllOf [] k b h q = (q, tt)
  insert_case-AllOf ((j, c) ∷ m) k b (qc, h) q = elim (Bool-cases (j ==ℤ k)) [
    | inl e ↦ rw e (q, h)
    | inr e ↦ rw e (qc, insert_case-AllOf m k b h q)
  ]

  collect_cases-AllOf :
      (cases m : List (ℤ × BbName))
      → AllOf (case_blocks cases)
      → AllOf (case_blocks m)
      → AllOf (case_blocks (collect_cases cases m))
  collect_cases-AllOf [] m h k = k
  collect_cases-AllOf ((j, c) ∷ cases) m (q, h) k =
      collect_cases-AllOf cases (insert_case m j c) h (insert_case-AllOf m j c k q)

  module _ (bbs : List (ℕ × BbName)) (all : (id : ℕ) → Holds Q (get bbs id)) where
    next_block_of-AllOf :
        (target : Option ℕ) → Holds (λ n. AllOf (next_blocks n)) (next_block_of bbs target)
    next_block_of-AllOf none = Holds-some (λ n. AllOf (next_blocks n)) none tt
    next_block_of-AllOf (some t) =
        Holds-bind (λ n. AllOf (next_blocks n)) (get bbs t) _
          λ n e. Holds-some (λ n. AllOf (next_blocks n)) (some n) (all t n e, tt)

    go_on-Jumps :
        (stmts : List Statement) (target : Option ℕ) → Holds Jumps (go_on bbs stmts target)
    unfolding go_on
    go_on-Jumps stmts target =
        Holds-bind Jumps target _
          λ t et. Holds-bind Jumps (get bbs t) _ λ n e. Holds-some Jumps _ (all t n e, tt)

    end_with-Jumps :
        (op : IntrinsicOp) (arguments : List ValueExpr) (ret : PlaceExpr) (target : Option ℕ)
        → Holds Jumps (end_with bbs op arguments ret target)
    unfolding end_with
    end_with-Jumps op arguments ret target =
        Holds-bind Jumps (next_block_of bbs target) _
          λ n e. Holds-some Jumps _ (next_block_of-AllOf target n e)

    abbrev pub Leads : TerminatorResult × Ctxt → Type 0
    Leads p = Jumps p.0

    -- The steps before the last do not matter.
    after {ℓ} :
        {A : Type ℓ} (o : Option A) (f : A → Option (TerminatorResult × Ctxt))
        → ((a : A) → Holds Leads (f a))
        → Holds Leads (o >>= f)
    after o f h = Holds-bind Leads o f λ a e. h a

    with_context :
        (cx : Ctxt) (o : Option TerminatorResult)
        → Holds Jumps o
        → Holds Leads (o >>= λ t. some (t, cx))
    with_context cx o h = Holds-bind Leads o _ λ t e. Holds-some Leads _ (h t e)

    assign_on-Leads :
        (destination : PlaceExpr) (source : ValueExpr) (target : Option ℕ) (cx : Ctxt)
        → Holds Leads (assign_on bbs destination source target cx)
    assign_on-Leads destination source target cx = with_context cx _ (go_on-Jumps _ target)

    panic-Leads : (cx : Ctxt) → Holds Leads (some (panic_result, cx))
    unfolding panic_result
    panic-Leads cx = Holds-some Leads _ tt

    module _ (v : Env) (names : List (ℕ × LocalName)) where
      rs_intrinsic_result-Leads :
          (op : RsIntrinsic) (instance_ : ℕ) (args : List Operand) (place : ℕ) (target : Option ℕ)
          (cx : Ctxt)
          → Holds Leads (rs_intrinsic_result v names bbs op instance_ args place target cx)
      unfolding rs_intrinsic_result
      rs_intrinsic_result-Leads RsIntrinsic.assert_valid instance_ args place target cx =
          elim (Bool-cases
            (v.check_validity_requirement (v.item_name instance_) (v.type_arg instance_))) [
              | inl e ↦ rw e (with_context cx _ (go_on-Jumps [] target))
              | inr e ↦ rw e (panic-Leads cx)
            ]
      rs_intrinsic_result-Leads RsIntrinsic.raw_eq instance_ args place target cx =
          after (translate_operands v names args cx) _ λ p.
            after (v.translate_place names place p.1) _
              λ d. with_context _ _ (end_with-Jumps _ _ _ target)
      rs_intrinsic_result-Leads RsIntrinsic.arith_offset instance_ args place target cx =
          after (get_elem? args 0) _ λ l. after (get_elem? args 1) _ λ r.
            after (translate_two v names l r place cx) _ λ p.
              after (pointee_size v (v.operand_ty l)) _ λ size.
                after (type_translator v (v.operand_ty r) p.1) _ λ ty. assign_on-Leads _ _ target _
      rs_intrinsic_result-Leads (RsIntrinsic.ptr_offset_from u) instance_ args place target cx =
          after (get_elem? args 0) _ λ l. after (get_elem? args 1) _ λ r.
            after (translate_two v names l r place cx) _ λ p.
              after (pointee_size v (v.operand_ty l)) _
                λ size. after (distance u p.0.0 p.0.1.0 size) _ λ s. assign_on-Leads _ _ target _
      rs_intrinsic_result-Leads RsIntrinsic.ctpop instance_ args place target cx =
          after (get_elem? args 0) _ λ a.
            after (v.translate_operand names a cx) _
              λ p. after (v.translate_place names place p.1) _ λ d. assign_on-Leads _ _ target _
      rs_intrinsic_result-Leads RsIntrinsic.exact_div instance_ args place target cx =
          after (get_elem? args 0) _ λ l.
            after (get_elem? args 1) _
              λ r. after (translate_two v names l r place cx) _ λ p. assign_on-Leads _ _ target _
      rs_intrinsic_result-Leads RsIntrinsic.size_of_val instance_ args place target cx =
          after (v.translate_place names place cx) _ λ d. after (get_elem? args 0) _ λ a.
            after (v.translate_operand names a d.1) _ λ p.
              after (type_translator v (v.type_arg instance_) p.1) _
                λ ty. assign_on-Leads _ _ target _
      rs_intrinsic_result-Leads RsIntrinsic.min_align_of_val instance_ args place target cx =
          after (v.translate_place names place cx) _ λ d. after (get_elem? args 0) _ λ a.
            after (v.translate_operand names a d.1) _ λ p.
              after (type_translator v (v.type_arg instance_) p.1) _
                λ ty. assign_on-Leads _ _ target _
      rs_intrinsic_result-Leads RsIntrinsic.expect instance_ args place target cx =
          after (v.translate_place names place cx) _ λ d.
            after (get_elem? args 0) _
              λ a. after (v.translate_operand names a d.1) _ λ p. assign_on-Leads _ _ target _

      call_intrinsic-Leads :
          (instance_ : ℕ) (args : List Operand) (place : ℕ) (target : Option ℕ) (cx : Ctxt)
          → Holds Leads (call_intrinsic v names bbs instance_ args place target cx)
      unfolding call_intrinsic
      call_intrinsic-Leads instance_ args place target cx =
          after (minirust_intrinsic (v.item_name instance_)) _ λ op.
            after (translate_operands v names args cx) _ λ a.
              after (v.translate_place names place a.1) _
                λ r. with_context _ _ (end_with-Jumps _ _ _ target)

      call_function-Leads :
          (instance_ : ℕ) (args : List Operand) (place : ℕ) (target : Option ℕ) (cx : Ctxt)
          → Holds Leads (call_function v names bbs instance_ args place target cx)
      unfolding call_function
      call_function-Leads instance_ args place target cx =
          after (translate_calling_convention (v.abi_conv instance_)) _ λ conv.
            after (translate_arguments v names args cx) _ λ a.
              after (translate_callee v names bbs instance_ args a.0 a.1) _ λ callee.
                after (v.translate_place names place callee.1) _ λ r.
                  Holds-bind Leads (next_block_of bbs target) _
                    λ n e. Holds-some Leads _ (next_block_of-AllOf target n e)

      direct-Leads :
          (instance_ : ℕ) (args : List Operand) (place : ℕ) (target : Option ℕ) (cx : Ctxt)
          → Holds Leads (direct_call v names bbs instance_ args place target cx)
      unfolding direct_call
      direct-Leads instance_ args place target cx =
          elim (Bool-cases (same_text (v.crate_name instance_) (codes "intrinsics"))) [
            | inl e ↦ rw e (call_intrinsic-Leads instance_ args place target cx)
            | inr e ↦ elim (Bool-cases (is_panic_fn (v.to_string instance_))) [
              | inl ep ↦ rw (e, ep) (panic-Leads cx)
              | inr ep ↦ rw (e, ep) (call_function-Leads instance_ args place target cx)
            ]
          ]

      call_instance-Leads :
          (kind : InstanceKind) (instance_ : ℕ) (args : List Operand) (place : ℕ)
          (target : Option ℕ) (cx : Ctxt)
          → Holds Leads (call_instance v names bbs kind instance_ args place target cx)
      unfolding call_instance translate_rs_intrinsic
      call_instance-Leads InstanceKind.intrinsic instance_ args place target cx =
          after (rs_intrinsic (v.item_name instance_)) _
            λ op. rs_intrinsic_result-Leads op instance_ args place target cx
      call_instance-Leads InstanceKind.item instance_ args place target cx =
          direct-Leads instance_ args place target cx
      call_instance-Leads (InstanceKind.virtual n) instance_ args place target cx =
          direct-Leads instance_ args place target cx

      switch_cases-AllOf :
          (int_ty : IntType) (targets : List (ℕ × ℕ))
          → Holds (λ cs. AllOf (case_blocks cs)) (switch_cases v bbs int_ty targets)
      unfolding switch_cases
      switch_cases-AllOf int_ty [] = Holds-some (λ cs. AllOf (case_blocks cs)) [] tt
      switch_cases-AllOf int_ty ((value, target) ∷ targets) =
          Holds-bind (λ cs. AllOf (case_blocks cs)) (int_from_bits v.types value int_ty) _
            λ int e.
              Holds-bind (λ cs. AllOf (case_blocks cs)) (get bbs target) _
                λ n en.
                  Holds-bind (λ cs. AllOf (case_blocks cs)) (switch_cases v bbs int_ty targets) _
                    λ cs ec.
                      Holds-some (λ cs. AllOf (case_blocks cs)) ((int, n) ∷ cs)
                        (all target n en, switch_cases-AllOf int_ty targets cs ec)

      -- The blocks that a translated terminator jumps to have names of blocks of the body.
      pub plain_terminator-Leads :
          (kind : TerminatorKind) (cx : Ctxt) → Holds Leads (plain_terminator v names bbs kind cx)
      unfolding plain_terminator translate_call
      plain_terminator-Leads TerminatorKind.return_ cx = Holds-some Leads _ tt
      plain_terminator-Leads (TerminatorKind.goto target) cx =
          Holds-bind Leads (get bbs target) _ λ n e. Holds-some Leads _ (all target n e, tt)
      plain_terminator-Leads (TerminatorKind.call func args place target) cx =
          after (v.resolve func) _
            λ i. call_instance-Leads (v.instance_kind i) i args place target cx
      plain_terminator-Leads (TerminatorKind.switch_int discr targets otherwise) cx =
          after (type_translator v (v.operand_ty discr) cx) _ λ ty.
            after (v.translate_operand names discr ty.1) _ λ op.
              after (switch_value ty.0 op.0) _ λ value.
                Holds-bind Leads (switch_cases v bbs value.1 targets) _ λ cs ec.
                  Holds-bind Leads (get bbs otherwise) _ λ n e. Holds-some Leads _ (
                    all otherwise n e,
                    collect_cases-AllOf cs [] (switch_cases-AllOf value.1 targets cs ec) tt,
                  )
      plain_terminator-Leads TerminatorKind.unreachable cx = Holds-some Leads _ tt
      plain_terminator-Leads (TerminatorKind.assert cond expected target) cx = Holds-none Leads
      plain_terminator-Leads (TerminatorKind.drop place target) cx =
          after (translate_drop v names bbs place cx) _
            λ d. Holds-bind Leads (get bbs target) _ λ n e. Holds-some Leads _ (all target n e, tt)
      plain_terminator-Leads TerminatorKind.other cx = Holds-none Leads
