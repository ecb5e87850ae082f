-- ===== src/Fmt/Order.antt =====
-- The text of a program does not tell in which order the program's maps hold their entries.
use mathlib.Core.List.{Permᴰ}
use minirust.Prelude.{
  ℕ, ◌≡◌, refl, sym, subst, ◌∙◌, false, List, [], ◌∷◌, ◌==◌, contains_key, arith,
}
use minirust.Lang.Syntax.{Program}
use minirust.Fmt.Text.{insert_by_key, sort_by_key}
use minirust.Fmt.Functions.{fmt_functions}
use minirust.Fmt.Tables.{fmt_globals, fmt_traits, fmt_vtables}
use minirust.Fmt.Program.{fmt_program}

-- A map has one entry for each of its keys.
unfoldable pub IsMap : {V : Type 0} → List (ℕ × V) → Type 0
IsMap [] = Unit
IsMap ((k, v) ∷ m) = (contains_key m k ≡ false) × IsMap m

module _ {V : Type 0} where
  insert_by_key_comm :
      (k j : ℕ) (v w : V) (m : List (ℕ × V))
      → (k == j) ≡ false
      → insert_by_key k v (insert_by_key j w m) ≡ insert_by_key j w (insert_by_key k v m)
  insert_by_key_comm k j v w [] ne = ground arith
  insert_by_key_comm k j v w ((i, x) ∷ m) ne = ground (arith, insert_by_key_comm k j v w m)

  contains_key-Perm : (l m : List (ℕ × V)) (k : ℕ) → Permᴰ l m → contains_key l k ≡ contains_key m k
  contains_key-Perm l m k Permᴰ.nil = refl
  contains_key-Perm (a ∷ l) (b ∷ m) k (Permᴰ.cons e p) = rw (e, contains_key-Perm l m k p) refl
  contains_key-Perm (a ∷ b ∷ l) (a' ∷ b' ∷ m) k (Permᴰ.swap e f) = rw (e, f) (ground arith)
  contains_key-Perm l m k (Permᴰ.trans {l₂ = n} p r) =
      contains_key-Perm l n k p ∙ contains_key-Perm n m k r

  IsMap-Perm : (l m : List (ℕ × V)) → Permᴰ l m → IsMap l → IsMap m
  unfolding IsMap
  IsMap-Perm l m Permᴰ.nil h = h
  IsMap-Perm (a ∷ l) (b ∷ m) (Permᴰ.cons e p) (new, h) =
      subst (λ x. (contains_key m x.0 ≡ false) × IsMap m) e
        (sym (contains_key-Perm l m a.0 p) ∙ new, IsMap-Perm l m p h)
  IsMap-Perm (a ∷ b ∷ l) (a' ∷ b' ∷ m) (Permᴰ.swap e f) (new, (fresh, h)) =
      rw (sym e, sym f) (ground arith, (ground arith, h))
  IsMap-Perm l m (Permᴰ.trans {l₂ = n} p r) h = IsMap-Perm n m r (IsMap-Perm l n p h)

  pub sort_by_key-Perm : (l m : List (ℕ × V)) → Permᴰ l m → IsMap l → sort_by_key l ≡ sort_by_key m
  unfolding sort_by_key IsMap
  sort_by_key-Perm l m Permᴰ.nil h = refl
  sort_by_key-Perm (a ∷ l) (b ∷ m) (Permᴰ.cons e p) (_, h) = rw (e, sort_by_key-Perm l m p h) refl
  sort_by_key-Perm (a ∷ b ∷ l) (a' ∷ b' ∷ m) (Permᴰ.swap e f) (new, _) =
      rw (sym e, sym f) (insert_by_key_comm a.0 b.0 a.1 b.1 (sort_by_key l) (ground arith))
  sort_by_key-Perm l m (Permᴰ.trans {l₂ = n} p r) h =
      sort_by_key-Perm l n p h ∙ sort_by_key-Perm n m r (IsMap-Perm l n p h)

-- The printed text depends on the entries of the functions, globals, traits and vtables of a
-- program, in which no name stands twice, and not on their order.
pub fmt_program_order :
    (p q : Program)
    → p.start ≡ q.start
    → IsMap p.functions × IsMap p.globals × IsMap p.traits × IsMap p.vtables
    → Permᴰ p.functions q.functions
    → Permᴰ p.globals q.globals
    → Permᴰ p.traits q.traits
    → Permᴰ p.vtables q.vtables
    → fmt_program p ≡ fmt_program q
unfolding fmt_program fmt_functions fmt_globals fmt_traits fmt_vtables
fmt_program_order p q start (f, g, t, v) functions globals traits vtables =
    rw
      (
        start,
        sort_by_key-Perm p.functions q.functions functions f,
        sort_by_key-Perm p.globals q.globals globals g,
        sort_by_key-Perm p.traits q.traits traits t,
        sort_by_key-Perm p.vtables q.vtables vtables v,
      )
      refl
