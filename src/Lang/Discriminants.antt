-- ===== src/Lang/Discriminants.antt =====
-- spec/lang/representation.md: finding the discriminant of a value.
-- What the accessor reads at an offset and decodes as an integer of a type is an argument, where
-- `none` stands for bytes that are no integer; the accessor does not fail.
use minirust.Prelude.{ℕ, Bool, not, ◌&&◌, Option, none, some, ◌>>=◌, if◌then◌else◌}
use minirust.Prelude.Int.{ℤ, ltb_ℤ}
use minirust.Lang.Types.{IntType, Discriminator, Children, no_children, child}

-- `start <= val && val < end`
abbrev pub in_range : ℤ → ℤ → ℤ → Bool
in_range start end val = not (ltb_ℤ val start) && ltb_ℤ val end

unfoldable mutual
  pub decode_discriminant : (ℕ → IntType → Option ℤ) → Discriminator → Option ℤ
  decode_discriminant accessor (Discriminator.known val) = some val
  decode_discriminant accessor Discriminator.invalid = none
  decode_discriminant accessor (Discriminator.branch offset value_type fallback children) =
      accessor offset value_type >>= λ val.
      decode_children accessor val children (decode_discriminant accessor fallback)

  -- `find_map` over the children, with the discriminant that the fallback gives
  pub decode_children : (ℕ → IntType → Option ℤ) → ℤ → Children → Option ℤ → Option ℤ
  decode_children accessor val no_children fallback = fallback
  decode_children accessor val (child start end next children) fallback =
      let found = decode_discriminant accessor next in
      let rest = decode_children accessor val children fallback in
      if in_range start end val then found else rest
