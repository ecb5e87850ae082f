-- ===== src/Minimize/Types/Cache.antt =====
-- ty.rs: a type is translated once.
use minirust.Prelude.{
  ℕ, zero, suc, ◌≡◌, refl, subst, some, some_inj, >>=-eq-some, Option-cases, inl, inr, get,
  get-insert, ==_iff,
}
use minirust.Lang.Types.{Ty}
use minirust.Minimize.Program.{Rustc, Ctxt}
use minirust.Minimize.Rust.{RsTypes}
use minirust.Minimize.Types.{translate_kind, translate_ty}

-- What translate_ty has returned it returns again, and it then leaves the context as it is: each
-- type is translated once.
pub translate_ty_again :
    (r : Rustc) (q : RsTypes) (fuel more ty : ℕ) (c c' : Ctxt) (t : Ty)
    → translate_ty r q fuel ty c ≡ some (t, c')
    → translate_ty r q (suc more) ty c' ≡ some (t, c')
unfolding translate_ty
translate_ty_again r q zero more ty c c' t h = cc
translate_ty_again r q (suc fuel) more ty c c' t h = elim (Option-cases (get c.ty_cache ty)) [
  | inl new ↦
      let ((t₁, c₁), made, rest) =
        >>=-eq-some (translate_kind r q (translate_ty r q fuel) ty (q.kind ty) c) _
          (rw (translate_ty, new) at h) in
      subst (λ p. translate_ty r q (suc more) ty p.1 ≡ some p) (some_inj rest)
        (rw (translate_ty, get-insert c₁.ty_cache ty ty t₁, (==_iff ty ty).1 refl) refl)
  | inr (t₁, known) ↦
      subst (λ p. translate_ty r q (suc more) ty p.1 ≡ some p)
        (some_inj (rw (translate_ty, known) at h)) (rw (translate_ty, known) refl)
]
