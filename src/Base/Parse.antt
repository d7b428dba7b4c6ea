-- ===== src/Base/Parse.antt =====
-- The functions of `str` that the program calls, on the bytes of a text.
use Prim.Native.Nat.{ℕ, ◌+◌, ◌-◌, ◌*◌}
use mathlib.Core.Bool.{◌&&◌}
use mathlib.Core.Option.{Option, none, some}
use mathlib.Core.List.{[], ◌∷◌}
use rathole_x.Base.Tests.{if◌then◌else◌, leb}
use rathole_x.Base.Eq.{Text, ◌==◌, nat_eq}

-- `str::rsplit_once` at a byte: what stands before and behind its last occurrence.
unfoldable pub rsplit_once : ℕ → Text → Option (Text × Text)
rsplit_once c [] = none
rsplit_once c (x ∷ s) = elim (rsplit_once c s) [
  | some (before, behind) ↦ some (x ∷ before, behind)
  | none ↦ if x == c then some ([], s) else none
]

unfoldable pub parse_digits : ℕ → Text → Option ℕ
parse_digits acc [] = some acc
parse_digits acc (d ∷ s) =
    if leb b'0' d && leb d b'9' && leb (acc * 10 + (d - b'0')) 65535
    then parse_digits (acc * 10 + (d - b'0')) s
    else none

abbrev pub parse_unsigned : Text → Option ℕ
parse_unsigned [] = none
parse_unsigned (d ∷ s) = parse_digits 0 (d ∷ s)

-- `str::parse::<u16>`
unfoldable pub parse_u16 : Text → Option ℕ
unfolding parse_digits
parse_u16 [] = none
parse_u16 (c ∷ s) = if c == b'+' then parse_unsigned s else parse_digits 0 (c ∷ s)
