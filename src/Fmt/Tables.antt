-- ===== src/Fmt/Tables.antt =====
-- tooling/miniutil/src/fmt/global.rs and vtables.rs: globals, traits and vtables.
use minirust.Prelude.{ℕ, List, [], ◌∷◌, Option, none, some, map}
use minirust.Lang.Types.{TraitName}
use minirust.Lang.Syntax.{
  FnName, GlobalName, VTableName, TraitMethodName, Relocation, Global, VTable,
}
use minirust.Fmt.Text.{Text, ◌⧺◌, codes, fmt_nat, fmt_hex, join, sort_by_key, sort_texts}
use minirust.Fmt.Types.{to_string, fmt_trait_name}
use minirust.Fmt.Exprs.{
  fmt_fn_name, fmt_vtable_name, fmt_trait_method_name, fmt_global_name, fmt_relocation,
}

-- A loop that prints each entry behind what is printed so far, `out += ..`
unfoldable pub fmt_entries {ℓ} : {A : Type ℓ} → (A → Text) → List A → Text
fmt_entries f [] = []
fmt_entries f (x ∷ xs) = f x ⧺ fmt_entries f xs

unfoldable pub fmt_byte : Option ℕ → Text
fmt_byte (some u) = fmt_hex u
fmt_byte none = codes "__"

unfoldable pub fmt_bytes : List (Option ℕ) → Text
fmt_bytes bytes = join (codes " ") (map fmt_byte bytes)

unfoldable pub fmt_relocation_line : (ℕ × Relocation) → Text
fmt_relocation_line (i, rel) =
    codes "  at byte " ⧺ fmt_nat i ⧺ codes ": " ⧺ to_string (fmt_relocation rel) ⧺ codes ",\n"

unfoldable pub fmt_global : (GlobalName × Global) → Text
fmt_global (gname, global) =
    fmt_global_name gname
    ⧺ codes " {\n  bytes = ["
    ⧺ fmt_bytes global.bytes
    ⧺ codes "],\n  align = "
    ⧺ fmt_nat global.align
    ⧺ codes " bytes,\n"
    ⧺ fmt_entries fmt_relocation_line global.relocations
    ⧺ codes "}\n\n"

unfoldable pub fmt_globals : List (GlobalName × Global) → Text
fmt_globals globals = fmt_entries fmt_global (sort_by_key globals)

unfoldable pub fmt_method_line : (TraitMethodName × FnName) → Text
fmt_method_line (meth, impel) =
    codes "  " ⧺ fmt_trait_method_name meth ⧺ codes "() = " ⧺ fmt_fn_name impel ⧺ codes ",\n"

unfoldable pub fmt_vtable : (VTableName × VTable) → Text
fmt_vtable (vname, vtable) =
    fmt_vtable_name vname
    ⧺ codes " {\n  trait = "
    ⧺ fmt_trait_name vtable.trait_name
    ⧺ codes ",\n  size = "
    ⧺ fmt_nat vtable.size
    ⧺ codes ",\n  align = "
    ⧺ fmt_nat vtable.align
    ⧺ codes ",\n"
    ⧺ fmt_entries fmt_method_line vtable.methods
    ⧺ codes "}\n"

unfoldable pub fmt_vtables : List (VTableName × VTable) → Text
fmt_vtables vtables = fmt_entries fmt_vtable (sort_by_key vtables) ⧺ codes "\n"

unfoldable pub fmt_trait : (TraitName × List TraitMethodName) → Text
fmt_trait (trait_name, methods) =
    fmt_trait_name trait_name
    ⧺ codes " { "
    ⧺ join (codes ", ") (sort_texts (map fmt_trait_method_name methods))
    ⧺ codes " }\n"

unfoldable pub fmt_traits : List (TraitName × List TraitMethodName) → Text
fmt_traits traits = fmt_entries fmt_trait (sort_by_key traits) ⧺ codes "\n"
