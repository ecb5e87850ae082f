-- ===== src/Minimize/Chunks/Laws.antt =====
-- chunks.rs: the chunks that `calc_chunks` returns.
use minirust.Prelude.{
  ℕ, zero, suc, ◌≡◌, refl, sym, ◌∙◌, ap, subst, Bool, false, ◌||◌, List, [], ◌∷◌, ◌++◌, none, some,
  >>=-eq-some, some_inj, length, get_or, replicate, length-replicate,
}
use minirust.Lang.Types.{Ty, Fields}
use minirust.Minimize.Chunks.{mark_used_bytes, mark_fields, scan, calc_chunks}
use minirust.Minimize.Chunks.Scan.{covers, Separated, covers-scan_all, Separated-scan_all}
use minirust.Minimize.Chunks.Mark.{uses, fields_use, marked_bytes, Marks-used_bytes, Marks-fields}
use minirust.Minimize.Chunks.Thin.{data_bytes, IsThin, FieldsThin, uses-data, fields_use-data}

get_or-replicate : (n i : ℕ) → get_or (replicate n false) i false ≡ false
get_or-replicate zero i = refl
get_or-replicate (suc n) zero = refl
get_or-replicate (suc n) (suc i) = get_or-replicate n i

-- A byte lies in one of the chunks of a union exactly if it is marked for one of its fields.
pub calc_chunks-marked :
    (fields : Fields) (size : ℕ) (chunks : List (ℕ × ℕ)) (j : ℕ)
    → calc_chunks fields size ≡ some chunks
    → covers chunks j ≡ fields_use marked_bytes fields j
unfolding calc_chunks
calc_chunks-marked fields size chunks j h =
    let start = replicate size false in
    let (m, e, e') =
      >>=-eq-some (mark_fields fields start) (λ m. some (scan 0 none [] (m ++ false ∷ []))) h in
    let marked = Marks-fields fields in
    ap (λ c. covers c j) (sym (some_inj e'))
    ∙ covers-scan_all m j
    ∙ marked.marks start m j e
    ∙ rw (get_or-replicate size j)

-- A byte lies in one of the chunks of a union whose fields hold no wide pointers exactly if one of the
-- fields holds data there, where the layout of the specification says how many bytes of data a
-- pointer has.
pub calc_chunks-covers :
    (fields : Fields) (size : ℕ) (chunks : List (ℕ × ℕ)) (j : ℕ)
    → FieldsThin fields
    → calc_chunks fields size ≡ some chunks
    → covers chunks j ≡ fields_use data_bytes fields j
calc_chunks-covers fields size chunks j thin h =
    calc_chunks-marked fields size chunks j h ∙ fields_use-data fields thin j

-- `mark_used_bytes` of a type without wide pointers, unless it panics, keeps the number of markers,
-- and byte `i` is marked after it exactly if it was marked before or holds data of the type, where
-- the layout of the specification says how many bytes of data a pointer has.
pub mark_used_bytes-uses :
    (ty : Ty) (m m' : List Bool) (i : ℕ)
    → IsThin ty
    → mark_used_bytes ty m ≡ some m'
    → (length m' ≡ length m) × (get_or m' i false ≡ (get_or m i false || uses data_bytes ty i))
mark_used_bytes-uses ty m m' i thin h =
    let marks = Marks-used_bytes ty in
    (
      marks.keeps m m' h,
      marks.marks m m' i h ∙ ap (λ u. get_or m i false || u i) (uses-data ty thin),
    )

-- The chunks of a union are in ascending order, each holds a byte, between two of them lies a byte
-- of no chunk, and they end within the union.
pub calc_chunks-Separated :
    (fields : Fields) (size : ℕ) (chunks : List (ℕ × ℕ))
    → calc_chunks fields size ≡ some chunks
    → Separated 0 size chunks
unfolding calc_chunks
calc_chunks-Separated fields size chunks h =
    let start = replicate size false in
    let (m, e, e') =
      >>=-eq-some (mark_fields fields start) (λ m. some (scan 0 none [] (m ++ false ∷ []))) h in
    let marked = Marks-fields fields in
    let len : length m ≡ size = marked.keeps start m e ∙ length-replicate size false in
    subst (λ c. Separated 0 size c) (some_inj e')
      (subst (λ n. Separated 0 n (scan 0 none [] (m ++ false ∷ []))) len (Separated-scan_all m))
