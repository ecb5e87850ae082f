-- ===== src/Minimize/Chunks/Total.antt =====
-- chunks.rs: when `calc_chunks` panics.
use minirust.Prelude.{
  ℕ, ◌≡◌, ◌↔◌, sym, subst, false, List, [], ◌∷◌, ◌++◌, none, some, >>=-eq-some, length, replicate,
  length-replicate,
}
use minirust.Lang.Types.{Fields}
use minirust.Minimize.Chunks.{mark_fields, scan, calc_chunks}
use minirust.Minimize.Chunks.Mark.{marked_bytes}
use minirust.Minimize.Chunks.Fits.{FieldsFit, Returns-fields}
use minirust.Minimize.Chunks.Thin.{data_bytes, FieldsThin, FieldsFit-data}

-- `calc_chunks` of a union whose fields hold no wide pointers returns exactly if each field is sized
-- and its data lies within the union; else it panics.
pub calc_chunks-total :
    (fields : Fields) (size : ℕ)
    → FieldsThin fields
    → ((chunks : List (ℕ × ℕ)) × (calc_chunks fields size ≡ some chunks))
      ↔ FieldsFit data_bytes fields size
unfolding calc_chunks
calc_chunks-total fields size thin =
    let start = replicate size false in
    let len : length start ≡ size = length-replicate size false in
    let same = FieldsFit-data fields thin in
    let ret = Returns-fields fields in
    (
      λ (chunks, h).
          let (m, e, _) =
            >>=-eq-some (mark_fields fields start) (λ m. some (scan 0 none [] (m ++ false ∷ [])))
              h in
          subst (λ P. P size) same (subst (FieldsFit marked_bytes fields) len (ret.fits start m e)),
      λ fit.
          let (m, e) = ret.runs start (
            subst (FieldsFit marked_bytes fields) (sym len) (subst (λ P. P size) (sym same) fit)) in
          (scan 0 none [] (m ++ false ∷ []), rw e),
    )
