-- ===== src/Minimize/Bodies/Kept.antt =====
-- bb.rs, function.rs: what the translation of a body does to the context.
use minirust.Prelude.{
  ℕ, ◌≡◌, refl, subst, List, [], ◌∷◌, Option, none, some, some_inj, get, get_elem?,
}
use minirust.Lang.Types.{PointerMetaKind, Ty}
use minirust.Lang.Syntax.{LocalName, BbName}
use minirust.Build.Types.{raw_ptr_ty, raw_void_ptr_ty}
use minirust.Build.Exprs.{addr_of}
use minirust.Build.Places.{fn_ptr}
use minirust.Minimize.Program.{Ctxt, get_fn_name}
use minirust.Minimize.Program.Uses.{Uses}
use minirust.Minimize.Program.Kept.{
  ctxt_of, Kept, done-Kept, none-Kept, bind-Kept, pure-Kept, if-Kept,
}
use minirust.Minimize.Rust.{TyKind}
use minirust.Minimize.Types.Kept.{translate_ty-Kept, discriminant_for_variant-Kept}
use minirust.Minimize.Mir.{
  Operand, Rvalue, StatementKind, TerminatorKind, InstanceKind, virtual, Env, type_translator,
}
use minirust.Minimize.Bodies.{translate_assign, translate_stmt}
use minirust.Minimize.Bodies.Calls.{
  RsIntrinsic, translate_operands, translate_argument, translate_arguments, translate_two,
  pointee_size,
}
use minirust.Minimize.Bodies.Intrinsics.{distance, rs_intrinsic_result, translate_rs_intrinsic}
use minirust.Minimize.Bodies.Terminators.{
  switch_value, switch_cases, translate_callee, call_function, call_intrinsic, direct_call,
  call_instance, translate_call, translate_drop, plain_terminator,
}

-- The translation of places, operands and rvalues only asks for names and changes caches.
pub record EnvKeeps (v : Env) : Type 0 where
  pub places :
      (names : List (ℕ × LocalName)) (place : ℕ) (cx : Ctxt)
      → Kept v.rustc ctxt_of cx (v.translate_place names place cx)
  pub operands :
      (names : List (ℕ × LocalName)) (op : Operand) (cx : Ctxt)
      → Kept v.rustc ctxt_of cx (v.translate_operand names op cx)
  pub rvalues :
      (names : List (ℕ × LocalName)) (rvalue : ℕ) (cx : Ctxt)
      → Kept v.rustc ctxt_of cx (v.translate_rvalue names rvalue cx)

module _ (v : Env) (keeps : EnvKeeps v) (names : List (ℕ × LocalName)) where
  pub types-Kept : (ty : ℕ) (cx : Ctxt) → Kept v.rustc ctxt_of cx (type_translator v ty cx)
  types-Kept ty cx = translate_ty-Kept v.rustc v.types v.fuel ty cx

  named-Kept :
      {A : Type 0} (key : ℕ) (cx : Ctxt) (f : ℕ → A)
      → Kept v.rustc ctxt_of cx (some (f (get_fn_name key cx).0, (get_fn_name key cx).1))
  named-Kept key cx f = record {
    keeps = λ r h. subst (λ x. Uses v.rustc cx (ctxt_of x)) (some_inj h) (Uses.fn_name key);
  }

  translate_assign-Kept :
      (place : ℕ) (rval : Rvalue) (cx : Ctxt)
      → Kept v.rustc ctxt_of cx (translate_assign v names place rval cx)
  unfolding translate_assign
  translate_assign-Kept place (Rvalue.expose_provenance op) cx =
      bind-Kept (keeps.places names place cx)
        λ p. bind-Kept (keeps.operands names op p.1) λ p₁. done-Kept ctxt_of _
  translate_assign-Kept place (Rvalue.with_exposed_provenance op) cx =
      bind-Kept (keeps.places names place cx)
        λ p. bind-Kept (keeps.operands names op p.1) λ p₁. done-Kept ctxt_of _
  translate_assign-Kept place (Rvalue.other rvalue) cx =
      bind-Kept (keeps.places names place cx)
        λ p. bind-Kept (keeps.rvalues names rvalue p.1) λ p₁. done-Kept ctxt_of _

  pub translate_stmt-Kept :
      (s : StatementKind) (cx : Ctxt) → Kept v.rustc ctxt_of cx (translate_stmt v names s cx)
  unfolding translate_stmt
  translate_stmt-Kept (StatementKind.assign place rval) cx = translate_assign-Kept place rval cx
  translate_stmt-Kept (StatementKind.storage_live loc) cx = pure-Kept _ λ n. done-Kept ctxt_of _
  translate_stmt-Kept (StatementKind.storage_dead loc) cx = pure-Kept _ λ n. done-Kept ctxt_of _
  translate_stmt-Kept (StatementKind.retag fn_entry place) cx =
      bind-Kept (keeps.places names place cx) λ p. done-Kept ctxt_of _
  translate_stmt-Kept (StatementKind.deinit place) cx =
      bind-Kept (keeps.places names place cx) λ p. done-Kept ctxt_of _
  translate_stmt-Kept (StatementKind.set_discriminant place variant_index) cx =
      bind-Kept
        (discriminant_for_variant-Kept v.rustc v.types (type_translator v) types-Kept
          (v.place_ty place) variant_index cx (v.types.kind (v.place_ty place)) refl)
        λ p. bind-Kept (keeps.places names place p.1) λ p₁. done-Kept ctxt_of _
  translate_stmt-Kept (StatementKind.assume op) cx =
      bind-Kept (keeps.operands names op cx) λ p. done-Kept ctxt_of _
  translate_stmt-Kept (StatementKind.place_mention place) cx =
      bind-Kept (keeps.places names place cx) λ p. done-Kept ctxt_of _
  translate_stmt-Kept StatementKind.other cx = none-Kept

  translate_operands-Kept :
      (ops : List Operand) (cx : Ctxt) → Kept v.rustc ctxt_of cx (translate_operands v names ops cx)
  unfolding translate_operands
  translate_operands-Kept [] cx = done-Kept ctxt_of _
  translate_operands-Kept (op ∷ ops) cx =
      bind-Kept (keeps.operands names op cx)
        λ p. bind-Kept (translate_operands-Kept ops p.1) λ p₁. done-Kept ctxt_of _

  translate_argument-Kept :
      (op : Operand) (cx : Ctxt) → Kept v.rustc ctxt_of cx (translate_argument v names op cx)
  unfolding translate_argument
  translate_argument-Kept (Operand.move place) cx =
      bind-Kept (keeps.places names place cx) λ p. done-Kept ctxt_of _
  translate_argument-Kept (Operand.copy n) cx =
      bind-Kept (keeps.operands names (Operand.copy n) cx) λ p. done-Kept ctxt_of _
  translate_argument-Kept (Operand.constant n) cx =
      bind-Kept (keeps.operands names (Operand.constant n) cx) λ p. done-Kept ctxt_of _

  translate_arguments-Kept :
      (ops : List Operand) (cx : Ctxt)
      → Kept v.rustc ctxt_of cx (translate_arguments v names ops cx)
  unfolding translate_arguments
  translate_arguments-Kept [] cx = done-Kept ctxt_of _
  translate_arguments-Kept (op ∷ ops) cx =
      bind-Kept (translate_argument-Kept op cx)
        λ p. bind-Kept (translate_arguments-Kept ops p.1) λ p₁. done-Kept ctxt_of _

  translate_two-Kept :
      (left right : Operand) (place : ℕ) (cx : Ctxt)
      → Kept v.rustc ctxt_of cx (translate_two v names left right place cx)
  unfolding translate_two
  translate_two-Kept left right place cx = bind-Kept (keeps.operands names left cx) λ p.
      bind-Kept (keeps.operands names right p.1)
        λ p₁. bind-Kept (keeps.places names place p₁.1) λ p₂. done-Kept ctxt_of _

  module _ (bbs : List (ℕ × BbName)) where
    rs_intrinsic_result-Kept :
        (op : RsIntrinsic) (i : ℕ) (args : List Operand) (place : ℕ) (target : Option ℕ) (cx : Ctxt)
        → Kept v.rustc ctxt_of cx (rs_intrinsic_result v names bbs op i args place target cx)
    unfolding rs_intrinsic_result
    rs_intrinsic_result-Kept RsIntrinsic.assert_valid i args place target cx =
        if-Kept _ (pure-Kept _ λ result. done-Kept ctxt_of _) (done-Kept ctxt_of _)
    rs_intrinsic_result-Kept RsIntrinsic.raw_eq i args place target cx =
        bind-Kept (translate_operands-Kept args cx) λ p.
          bind-Kept (keeps.places names place p.1) λ p₁. pure-Kept _ λ result. done-Kept ctxt_of _
    rs_intrinsic_result-Kept RsIntrinsic.arith_offset i args place target cx =
        pure-Kept (get_elem? args 0) λ left. pure-Kept (get_elem? args 1) λ right.
          bind-Kept (translate_two-Kept left right place cx) λ p.
            pure-Kept (pointee_size v (v.operand_ty left)) λ size.
              bind-Kept (types-Kept (v.operand_ty right) p.1)
                λ p₁. pure-Kept _ λ result. done-Kept ctxt_of _
    rs_intrinsic_result-Kept (RsIntrinsic.ptr_offset_from unsigned) i args place target cx =
        pure-Kept (get_elem? args 0) λ left. pure-Kept (get_elem? args 1) λ right.
          bind-Kept (translate_two-Kept left right place cx) λ p.
            pure-Kept (pointee_size v (v.operand_ty left)) λ size.
              pure-Kept (distance unsigned p.0.0 p.0.1.0 size)
                λ source. pure-Kept _ λ result. done-Kept ctxt_of _
    rs_intrinsic_result-Kept RsIntrinsic.ctpop i args place target cx = pure-Kept _ λ arg.
        bind-Kept (keeps.operands names arg cx) λ p.
          bind-Kept (keeps.places names place p.1) λ p₁. pure-Kept _ λ result. done-Kept ctxt_of _
    rs_intrinsic_result-Kept RsIntrinsic.exact_div i args place target cx =
        pure-Kept (get_elem? args 0) λ left. pure-Kept (get_elem? args 1) λ right.
          bind-Kept (translate_two-Kept left right place cx)
            λ p. pure-Kept _ λ result. done-Kept ctxt_of _
    rs_intrinsic_result-Kept RsIntrinsic.size_of_val i args place target cx =
        bind-Kept (keeps.places names place cx) λ p. pure-Kept _ λ arg.
          bind-Kept (keeps.operands names arg p.1) λ p₁.
            bind-Kept (types-Kept (v.type_arg i) p₁.1)
              λ p₂. pure-Kept _ λ result. done-Kept ctxt_of _
    rs_intrinsic_result-Kept RsIntrinsic.min_align_of_val i args place target cx =
        bind-Kept (keeps.places names place cx) λ p. pure-Kept _ λ arg.
          bind-Kept (keeps.operands names arg p.1) λ p₁.
            bind-Kept (types-Kept (v.type_arg i) p₁.1)
              λ p₂. pure-Kept _ λ result. done-Kept ctxt_of _
    rs_intrinsic_result-Kept RsIntrinsic.expect i args place target cx =
        bind-Kept (keeps.places names place cx) λ p. pure-Kept _ λ arg.
          bind-Kept (keeps.operands names arg p.1) λ p₁. pure-Kept _ λ result. done-Kept ctxt_of _

    translate_callee-Kept :
        (i : ℕ) (rs_args : List Operand) (args : List _) (cx : Ctxt) (kind : InstanceKind)
        → v.instance_kind i ≡ kind
        → Kept v.rustc ctxt_of cx (translate_callee v names bbs i rs_args args cx)
    unfolding translate_callee
    translate_callee-Kept i rs_args args cx (virtual method) e =
        rw (translate_callee, e)
          (pure-Kept (get_elem? rs_args 0)
            λ arg. bind-Kept (keeps.operands names arg cx) λ p. done-Kept ctxt_of _)
    translate_callee-Kept i rs_args args cx kind e =
        rw (translate_callee, e) (named-Kept i cx λ n. (fn_ptr n, args))

    call_function-Kept :
        (i : ℕ) (rs_args : List Operand) (place : ℕ) (target : Option ℕ) (cx : Ctxt)
        → Kept v.rustc ctxt_of cx (call_function v names bbs i rs_args place target cx)
    unfolding call_function
    call_function-Kept i rs_args place target cx = pure-Kept _ λ calling.
        bind-Kept (translate_arguments-Kept rs_args cx) λ p.
          bind-Kept (translate_callee-Kept i rs_args p.0 p.1 (v.instance_kind i) refl) λ p₁.
            bind-Kept (keeps.places names place p₁.1) λ p₂. pure-Kept _ λ next. done-Kept ctxt_of _

    direct_call-Kept :
        (i : ℕ) (rs_args : List Operand) (place : ℕ) (target : Option ℕ) (cx : Ctxt)
        → Kept v.rustc ctxt_of cx (direct_call v names bbs i rs_args place target cx)
    unfolding direct_call call_intrinsic
    direct_call-Kept i rs_args place target cx =
        if-Kept _
          (pure-Kept _ λ op. bind-Kept (translate_operands-Kept rs_args cx) λ p.
            bind-Kept (keeps.places names place p.1)
              λ p₁. pure-Kept _ λ result. done-Kept ctxt_of _)
          (if-Kept _ (done-Kept ctxt_of _) (call_function-Kept i rs_args place target cx))

    call_instance-Kept :
        (kind : InstanceKind) (i : ℕ) (rs_args : List Operand) (place : ℕ) (target : Option ℕ)
        (cx : Ctxt)
        → Kept v.rustc ctxt_of cx (call_instance v names bbs kind i rs_args place target cx)
    unfolding call_instance translate_rs_intrinsic
    call_instance-Kept InstanceKind.intrinsic i rs_args place target cx =
        pure-Kept _ λ op. rs_intrinsic_result-Kept op i rs_args place target cx
    call_instance-Kept InstanceKind.item i rs_args place target cx =
        direct_call-Kept i rs_args place target cx
    call_instance-Kept (virtual method) i rs_args place target cx =
        direct_call-Kept i rs_args place target cx

    translate_drop-Kept :
        (place : ℕ) (cx : Ctxt) (kind : TyKind)
        → v.types.kind (v.place_ty place) ≡ kind
        → Kept v.rustc ctxt_of cx (translate_drop v names bbs place cx)
    unfolding translate_drop
    translate_drop-Kept place cx TyKind.dynamic e =
        rw (translate_drop, e)
          (bind-Kept (keeps.places names place cx) λ p.
            bind-Kept (types-Kept (v.place_ty place) p.1) λ p₁.
              pure-Kept (elim p₁.0 [ Ty.trait_object name ↦ some name | _ ↦ none ])
                λ trait_name.
                  pure-Kept (addr_of p.0 (raw_ptr_ty (PointerMetaKind.vtable_pointer trait_name)))
                    λ ptr. done-Kept ctxt_of _)
    translate_drop-Kept place cx kind e =
        rw (translate_drop, e)
          (bind-Kept (keeps.places names place cx) λ p.
            pure-Kept (addr_of p.0 raw_void_ptr_ty) λ ptr.
              named-Kept (v.rustc.resolve_drop_in_place (v.place_ty place)) p.1
                λ n. (fn_ptr n, ptr))

    pub plain_terminator-Kept :
        (kind : TerminatorKind) (cx : Ctxt)
        → Kept v.rustc ctxt_of cx (plain_terminator v names bbs kind cx)
    unfolding plain_terminator translate_call
    plain_terminator-Kept TerminatorKind.return_ cx = done-Kept ctxt_of _
    plain_terminator-Kept (TerminatorKind.goto target) cx = pure-Kept _ λ n. done-Kept ctxt_of _
    plain_terminator-Kept (TerminatorKind.call func args place target) cx =
        pure-Kept _ λ i. call_instance-Kept (v.instance_kind i) i args place target cx
    plain_terminator-Kept (TerminatorKind.switch_int discr targets otherwise) cx =
        bind-Kept (types-Kept (v.operand_ty discr) cx) λ p.
          bind-Kept (keeps.operands names discr p.1) λ p₁. pure-Kept (switch_value p.0 p₁.0) λ x.
            pure-Kept (switch_cases v bbs x.1 targets)
              λ cases. pure-Kept (get bbs otherwise) λ fallback. done-Kept ctxt_of _
    plain_terminator-Kept TerminatorKind.unreachable cx = done-Kept ctxt_of _
    plain_terminator-Kept (TerminatorKind.drop place target) cx =
        bind-Kept (translate_drop-Kept place cx (v.types.kind (v.place_ty place)) refl)
          λ p. pure-Kept _ λ next. done-Kept ctxt_of _
    plain_terminator-Kept (TerminatorKind.assert c e t) cx = none-Kept
    plain_terminator-Kept TerminatorKind.other cx = none-Kept
