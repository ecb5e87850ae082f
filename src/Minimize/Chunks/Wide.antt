-- ===== src/Minimize/Chunks/Wide.antt =====
-- chunks.rs: the metadata of a wide pointer is not marked.
use minirust.Prelude.{ℕ, ◌+◌, ◌<◌, ◌≤◌, ◌≡◌, ◌∙◌, true, false, List, some, arith}
use minirust.Lang.Types.{PtrType, Ty, no_fields, field}
use minirust.Lang.Layout.{ptr_meta_kind, is_thin}
use minirust.Minimize.Chunks.{calc_chunks}
use minirust.Minimize.Chunks.Scan.{covers}
use minirust.Minimize.Chunks.Mark.{uses, fields_use, marked_bytes}
use minirust.Minimize.Chunks.Laws.{calc_chunks-marked}
use minirust.Minimize.Chunks.Thin.{data_bytes, data_bytes-wide}

marked :
    (p : PtrType) (o j : ℕ)
    → 8 ≤ j
    → fields_use marked_bytes (field o (Ty.ptr p) no_fields) (o + j) ≡ false
unfolding uses
marked p o j h = ground arith

data_there :
    (p : PtrType) (o j : ℕ)
    → data_bytes p ≡ 16
    → j < 16
    → fields_use data_bytes (field o (Ty.ptr p) no_fields) (o + j) ≡ true
unfolding uses
data_there p o j e h = ground arith

-- Of a union of one wide pointer, no chunk has any of the last eight of the sixteen bytes of the
-- pointer, though they hold its metadata.
pub calc_chunks_wide :
    (p : PtrType) (o size : ℕ) (chunks : List (ℕ × ℕ)) (j : ℕ)
    → is_thin (ptr_meta_kind p) ≡ false
    → calc_chunks (field o (Ty.ptr p) no_fields) size ≡ some chunks
    → 8 ≤ j
    → j < 16
    → (covers chunks (o + j) ≡ false)
      × (fields_use data_bytes (field o (Ty.ptr p) no_fields) (o + j) ≡ true)
calc_chunks_wide p o size chunks j wide h ge lt = (
  calc_chunks-marked (field o (Ty.ptr p) no_fields) size chunks (o + j) h ∙ marked p o j ge,
  data_there p o j (data_bytes-wide p wide) lt,
)
