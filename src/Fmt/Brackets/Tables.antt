-- ===== src/Fmt/Brackets/Tables.antt =====
-- global.rs and vtables.rs: the brackets of globals, traits and vtables.
use minirust.Prelude.{
  ◌/◌, ℕ, ◌/◌, ◌%◌, ◌≡◌, refl, true, ◌||◌, not, List, [], ◌∷◌, map, Option, none, some, arith,
  Bool-cases, inl, inr,
}
use minirust.Lang.Syntax.{
  Relocation, Global, VTable, GlobalName, VTableName, TraitMethodName, FnName,
}
use minirust.Lang.Types.{TraitName}
use minirust.Fmt.Text.{
  Text, ◌⧺◌, codes, hex_digit, fmt_hex, leb_text, insert_text, sort_texts, sort_by_key,
}
use minirust.Fmt.Exprs.{fmt_trait_method_name}
use minirust.Fmt.Tables.{
  fmt_entries, fmt_byte, fmt_bytes, fmt_relocation_line, fmt_global, fmt_globals, fmt_method_line,
  fmt_vtable, fmt_vtables, fmt_trait, fmt_traits,
}
use minirust.Fmt.Brackets.{
  IsBalanced, scan, opens, closes, scan-append, append-IsBalanced, is_plain-IsBalanced,
  fmt_nat-IsBalanced,
}
use minirust.Fmt.Brackets.Pieces.{
  fmt_trait_name-IsBalanced, fmt_fn_name-IsBalanced, fmt_vtable_name-IsBalanced,
  fmt_trait_method_name-IsBalanced, fmt_global_name-IsBalanced, fmt_relocation-IsBalanced,
}
use minirust.Fmt.Brackets.Operators.{
  AllBalanced, nil-AllBalanced, cons-AllBalanced, join-IsBalanced,
}

fmt_entries-IsBalanced {ℓ} :
    {A : Type ℓ} (f : A → Text)
    → ((a : A) → IsBalanced (f a))
    → (xs : List A) → IsBalanced (fmt_entries f xs)
unfolding fmt_entries
fmt_entries-IsBalanced f item [] = is_plain-IsBalanced [] refl
fmt_entries-IsBalanced f item (x ∷ xs) =
    append-IsBalanced (f x) (fmt_entries f xs) (item x) (fmt_entries-IsBalanced f item xs)

map-AllBalanced {ℓ} :
    {A : Type ℓ} (f : A → Text)
    → ((a : A) → IsBalanced (f a))
    → (xs : List A) → AllBalanced (map f xs)
map-AllBalanced f item [] = nil-AllBalanced
map-AllBalanced f item (x ∷ xs) =
    cons-AllBalanced (f x) (map f xs) (item x) (map-AllBalanced f item xs)

hex_digit-is_plain :
    (d : ℕ) → not (opens (hex_digit (d % 16)) || closes (hex_digit (d % 16))) ≡ true
hex_digit-is_plain d = ground arith

fmt_byte-IsBalanced : (b : Option ℕ) → IsBalanced (fmt_byte b)
unfolding fmt_byte fmt_hex
fmt_byte-IsBalanced none = is_plain-IsBalanced (codes "__") refl
fmt_byte-IsBalanced (some u) =
    is_plain-IsBalanced (hex_digit (u / 16 % 16) ∷ hex_digit (u % 16) ∷ [])
      (rw (hex_digit-is_plain (u / 16), hex_digit-is_plain u) refl)

relocation_line-IsBalanced : (r : ℕ × Relocation) → IsBalanced (fmt_relocation_line r)
unfolding fmt_relocation_line IsBalanced scan
relocation_line-IsBalanced (i, rel) stack =
    simp (scan-append, fmt_nat-IsBalanced, fmt_relocation-IsBalanced)

fmt_bytes-IsBalanced : (bytes : List (Option ℕ)) → IsBalanced (fmt_bytes bytes)
unfolding fmt_bytes
fmt_bytes-IsBalanced bytes =
    join-IsBalanced (codes " ") (map fmt_byte bytes) (is_plain-IsBalanced (codes " ") refl)
      (map-AllBalanced fmt_byte fmt_byte-IsBalanced bytes)

fmt_global-IsBalanced : (g : GlobalName × Global) → IsBalanced (fmt_global g)
unfolding fmt_global IsBalanced scan
fmt_global-IsBalanced (n, g) stack = simp (
  scan-append,
  fmt_global_name-IsBalanced n,
  fmt_bytes-IsBalanced,
  fmt_nat-IsBalanced,
  fmt_entries-IsBalanced fmt_relocation_line relocation_line-IsBalanced,
)

pub fmt_globals-IsBalanced :
    (globals : List (GlobalName × Global)) → IsBalanced (fmt_globals globals)
unfolding fmt_globals
fmt_globals-IsBalanced globals =
    fmt_entries-IsBalanced fmt_global fmt_global-IsBalanced (sort_by_key globals)

method_line-IsBalanced : (m : TraitMethodName × FnName) → IsBalanced (fmt_method_line m)
unfolding fmt_method_line IsBalanced scan
method_line-IsBalanced (meth, impel) stack =
    simp (scan-append, fmt_trait_method_name-IsBalanced, fmt_fn_name-IsBalanced)

fmt_vtable-IsBalanced : (v : VTableName × VTable) → IsBalanced (fmt_vtable v)
unfolding fmt_vtable IsBalanced scan
fmt_vtable-IsBalanced (n, v) stack = simp (
  scan-append,
  fmt_vtable_name-IsBalanced n,
  fmt_trait_name-IsBalanced,
  fmt_nat-IsBalanced,
  fmt_entries-IsBalanced fmt_method_line method_line-IsBalanced,
)

newline_last-IsBalanced : (s : Text) → IsBalanced s → IsBalanced (s ⧺ codes "\n")
newline_last-IsBalanced s h =
    append-IsBalanced s (codes "\n") h (is_plain-IsBalanced (codes "\n") refl)

pub fmt_vtables-IsBalanced :
    (vtables : List (VTableName × VTable)) → IsBalanced (fmt_vtables vtables)
unfolding fmt_vtables
fmt_vtables-IsBalanced vtables =
    newline_last-IsBalanced _
      (fmt_entries-IsBalanced fmt_vtable fmt_vtable-IsBalanced (sort_by_key vtables))

insert_text-AllBalanced :
    (s : Text) (ts : List Text) → IsBalanced s → AllBalanced ts → AllBalanced (insert_text s ts)
unfolding AllBalanced
insert_text-AllBalanced s [] h b = (h, tt)
insert_text-AllBalanced s (t ∷ ts) h (k, b) = elim (Bool-cases (leb_text s t)) [
  | inl e ↦ rw e (h, (k, b))
  | inr e ↦ rw e (k, insert_text-AllBalanced s ts h b)
]

sort_texts-AllBalanced : (ts : List Text) → AllBalanced ts → AllBalanced (sort_texts ts)
unfolding sort_texts AllBalanced
sort_texts-AllBalanced [] b = tt
sort_texts-AllBalanced (t ∷ ts) (h, b) =
    insert_text-AllBalanced t (sort_texts ts) h (sort_texts-AllBalanced ts b)

trait-IsBalanced :
    (s t : Text) → IsBalanced s → IsBalanced t → IsBalanced (s ⧺ codes " { " ⧺ t ⧺ codes " }\n")
unfolding IsBalanced scan
trait-IsBalanced s t h k stack = simp (scan-append, h, k)

fmt_trait-IsBalanced : (t : TraitName × List TraitMethodName) → IsBalanced (fmt_trait t)
unfolding fmt_trait
fmt_trait-IsBalanced (n, methods) = trait-IsBalanced _ _ (fmt_trait_name-IsBalanced n) (
    join-IsBalanced (codes ", ") _ (is_plain-IsBalanced (codes ", ") refl) (
      sort_texts-AllBalanced _
        (map-AllBalanced fmt_trait_method_name fmt_trait_method_name-IsBalanced methods)))

pub fmt_traits-IsBalanced :
    (traits : List (TraitName × List TraitMethodName)) → IsBalanced (fmt_traits traits)
unfolding fmt_traits
fmt_traits-IsBalanced traits =
    newline_last-IsBalanced _
      (fmt_entries-IsBalanced fmt_trait fmt_trait-IsBalanced (sort_by_key traits))
