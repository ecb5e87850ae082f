-- ===== src/Minimize/Program.antt =====
-- tooling/minimize/src/program.rs and vtable.rs: names for functions, traits and vtables, which come
-- into being when they are first asked for. `none` is a panic.
-- rustc is not part of the program: what it answers is a `Rustc`. Its instances, types and lists of
-- predicates are only compared, so numbers stand for them. The newest entry
-- of a `HashMap` stands first.
pub mod Translate
pub mod Inv
pub mod Traits
pub mod VTables
pub mod Uses
pub mod Kept
pub mod Complete
pub mod Names
pub mod Total
pub mod Returns
pub mod Asks
pub mod Tests
use minirust.Prelude.{
  ℕ, zero, suc, ◌+◌, ◌%◌, ◌^◌, Bool, true, false, ◌&&◌, List, [], ◌∷◌, Option, none, some, ◌>>=◌,
  length, get, insert, contains, contains_key, if◌then◌else◌, ◌==◌,
}
use minirust.Lang.Types.{Ty, TraitName}
use minirust.Lang.Syntax.{FnName, GlobalName, VTableName, TraitMethodName, Function, Global, VTable}

-- `rs::VtblEntry`
pub data VtblEntry : Type 0 where
  method : ℕ → VtblEntry
  metadata_drop_in_place : VtblEntry
  other : VtblEntry

-- The answers of rustc to the queries that the translator makes.
pub record Rustc : Type 0 where
  -- The predicates of a trait object type, and whether its kind is `DynKind::Dyn`
  pub dynamic : ℕ → Option (ℕ × Bool)
  pub has_principal : ℕ → Bool
  -- Size and alignment of a sized type
  pub size_and_align : ℕ → Option (ℕ × ℕ)
  -- `vtable_entries`, of a type as one that has the principal trait of the predicates
  pub vtable_entries : ℕ → ℕ → List VtblEntry
  pub resolve_drop_in_place : ℕ → ℕ
  pub first_method_vtable_slot : ℕ → ℕ → ℕ
  -- The length of `own_existential_vtable_entries`
  pub own_entries : ℕ → ℕ
  -- `COMMON_VTABLE_ENTRIES_DROPINPLACE`
  pub drop_in_place_slot : ℕ
  pub entry : ℕ

pub record Ctxt : Type 0 where
  pub fn_name_map : List (ℕ × FnName)
  pub trait_map : List (ℕ × TraitName)
  pub traits : List (TraitName × List TraitMethodName)
  pub vtable_map : List ((ℕ × ℕ) × VTableName)
  pub vtables : List (VTableName × VTable)
  pub alloc_map : List (ℕ × GlobalName)
  pub globals : List (GlobalName × Global)
  pub functions : List (FnName × Function)
  pub ty_cache : List (ℕ × Ty)

-- `as _`, to the `u32` that a name holds
abbrev pub as_u32 : ℕ → ℕ
as_u32 n = n % 2 ^ 32

unfoldable pub get_fn_name : ℕ → Ctxt → FnName × Ctxt
get_fn_name key c = elim (get c.fn_name_map key) [
  | some name ↦ (name, c)
  | none ↦ (
    as_u32 (length c.fn_name_map),
    record c { fn_name_map = (key, as_u32 (length c.fn_name_map)) ∷ c.fn_name_map },
  )
]

-- `Set::insert`
abbrev pub set_insert : List ℕ → ℕ → List ℕ
set_insert s k = if contains s k then s else k ∷ s

-- The set of the names `vtable_base + i`, for i from the given index on.
unfoldable pub own_methods : ℕ → ℕ → ℕ → List TraitMethodName → List TraitMethodName
own_methods zero i vtable_base methods = methods
own_methods (suc rounds) i vtable_base methods =
    own_methods rounds (i + 1) vtable_base (set_insert methods (as_u32 (vtable_base + i)))

-- The map of a vtable's entries to functions, from the entry `idx` on: `enumerate`, `filter_map` and
-- `collect`.
unfoldable pub vtable_methods :
    Rustc
    → ℕ
    → ℕ
    → List VtblEntry
    → List (TraitMethodName × FnName)
    → Ctxt
    → List (TraitMethodName × FnName) × Ctxt
unfolding get_fn_name
vtable_methods q ty idx [] methods c = (methods, c)
vtable_methods q ty idx (VtblEntry.method func ∷ entries) methods c =
    let named = get_fn_name func c in
    vtable_methods q ty (idx + 1) entries (insert methods (as_u32 idx) named.0) named.1
vtable_methods q ty idx (VtblEntry.metadata_drop_in_place ∷ entries) methods c =
    let named = get_fn_name (q.resolve_drop_in_place ty) c in
    vtable_methods q ty (idx + 1) entries (insert methods (as_u32 q.drop_in_place_slot) named.0)
      named.1
vtable_methods q ty idx (VtblEntry.other ∷ entries) methods c =
    vtable_methods q ty (idx + 1) entries methods c

-- `vtable_map.get`
abbrev pub get_pair : List ((ℕ × ℕ) × VTableName) → ℕ → ℕ → Option VTableName
get_pair [] ty trait_ = none
get_pair (((ty', trait'), name) ∷ m) ty trait_ =
    if ty' == ty && trait' == trait_ then some name else get_pair m ty trait_

-- The last step of `get_vtable`. No key is replaced, since `generate_vtable` adds none.
abbrev pub add_vtable : ℕ → ℕ → VTableName → VTable → Ctxt → Ctxt
add_vtable ty trait_ fresh_name vtable c = record c {
  vtables = insert c.vtables fresh_name vtable;
  vtable_map = ((ty, trait_), fresh_name) ∷ c.vtable_map;
}

module _ (q : Rustc) where
  unfoldable pub generate_trait : ℕ → Option (List TraitMethodName)
  unfolding own_methods
  generate_trait trait_obj_ty = do
    (trait_, _) ← q.dynamic trait_obj_ty
    some (
        if q.has_principal trait_
        then set_insert
            (own_methods (q.own_entries trait_) 0 (q.first_method_vtable_slot trait_obj_ty trait_)
              [])
            (as_u32 q.drop_in_place_slot)
        else [])

  -- `get_trait_name`, of predicates that have no name yet
  unfoldable pub new_trait : ℕ → ℕ → Ctxt → Option (TraitName × Ctxt)
  unfolding generate_trait
  new_trait trait_obj_ty trait_ c = do
    methods ← generate_trait trait_obj_ty
    let fresh_name = as_u32 (length c.trait_map)
    some (
      fresh_name,
      record c {
        traits = insert c.traits fresh_name methods;
        trait_map = (trait_, fresh_name) ∷ c.trait_map;
      },
    )

  unfoldable pub get_trait_name : ℕ → Ctxt → Option (TraitName × Ctxt)
  unfolding new_trait
  get_trait_name trait_obj_ty c = do
    (trait_, _) ← q.dynamic trait_obj_ty
    elim (get c.trait_map trait_) [
      | some name ↦ if contains_key c.traits name then some (name, c) else none
      | none ↦ new_trait trait_obj_ty trait_ c
    ]

  unfoldable pub generate_vtable : ℕ → ℕ → Ctxt → Option (VTable × Ctxt)
  unfolding vtable_methods get_trait_name
  generate_vtable ty trait_obj_ty c = do
    (trait_, dyn) ← q.dynamic trait_obj_ty
    if dyn
        then (do
          (size, align) ← q.size_and_align ty
          let filled =
              if q.has_principal trait_
              then vtable_methods q ty 0 (q.vtable_entries ty trait_) [] c
              else ([], c)
          (trait_name, c₁) ← get_trait_name trait_obj_ty filled.1
          some (
            record { trait_name = trait_name; size = size; align = align; methods = filled.0 },
            c₁,
          ))
        else none

  -- `get_vtable`, of a type and predicates that have no vtable yet
  unfoldable pub new_vtable : ℕ → ℕ → ℕ → Ctxt → Option (VTableName × Ctxt)
  unfolding generate_vtable
  new_vtable ty trait_obj_ty trait_ c = do
    let fresh_name = as_u32 (length c.vtable_map)
    (vtable, c₁) ← generate_vtable ty trait_obj_ty c
    some (fresh_name, add_vtable ty trait_ fresh_name vtable c₁)

  unfoldable pub get_vtable : ℕ → ℕ → Ctxt → Option (VTableName × Ctxt)
  unfolding new_vtable
  get_vtable ty trait_obj_ty c = do
    (trait_, dyn) ← q.dynamic trait_obj_ty
    if dyn
        then elim (get_pair c.vtable_map ty trait_) [
          | some name ↦ if contains_key c.vtables name then some (name, c) else none
          | none ↦ new_vtable ty trait_obj_ty trait_ c
        ]
        else none
