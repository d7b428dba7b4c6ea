-- ===== src/Base/Trim.antt =====
-- The functions of `str` that split and trim a text, on its UTF-8 bytes.
use Prim.Native.Nat.{ℕ}
use mathlib.Core.Bool.{Bool, ◌&&◌, ◌||◌}
use mathlib.Core.Option.{Option, none, some}
use mathlib.Core.List.{List, [], ◌∷◌}
use rathole_x.Base.Tests.{if◌then◌else◌, leb}
use rathole_x.Base.Eq.{Text, ◌==◌, nat_eq}

abbrev pub rev_onto : Text → Text → Text
rev_onto [] acc = acc
rev_onto (x ∷ s) acc = rev_onto s (x ∷ acc)

-- White space of Unicode that is encoded in one, two and three bytes.
abbrev pub white_1 : ℕ → Bool
white_1 a = (leb 9 a && leb a 13) || a == 32

abbrev pub white_2 : ℕ → ℕ → Bool
white_2 a b = a == 194 && (b == 133 || b == 160)

abbrev pub white_3 : ℕ → ℕ → ℕ → Bool
white_3 a b c =
    (a == 225 && b == 154 && c == 128)
    || (a == 226 && b == 128 && ((leb 128 c && leb c 138) || c == 168 || c == 169 || c == 175))
    || (a == 226 && b == 129 && c == 159)
    || (a == 227 && b == 128 && c == 128)

-- The next character is white: its bytes behind the first.
abbrev pub trim_start : Text → Text
trim_start [] = []
trim_start (a ∷ []) = if white_1 a then [] else a ∷ []
trim_start (a ∷ b ∷ []) =
    let rest = trim_start (b ∷ []) in
    if white_1 a then rest else if white_2 a b then [] else a ∷ b ∷ []
trim_start (a ∷ b ∷ c ∷ s) =
    let rest_1 = trim_start (b ∷ c ∷ s) in
    let rest_2 = trim_start (c ∷ s) in
    let rest_3 = trim_start s in
    if white_1 a
    then rest_1
    else if white_2 a b
    then rest_2
    else if white_3 a b c
    then rest_3
    else a ∷ b ∷ c ∷ s

-- The same from the end, on the reversed text.
abbrev pub trim_end_rev : Text → Text
trim_end_rev [] = []
trim_end_rev (c ∷ []) = if white_1 c then [] else c ∷ []
trim_end_rev (c ∷ b ∷ []) =
    let rest = trim_end_rev (b ∷ []) in
    if white_1 c then rest else if white_2 b c then [] else c ∷ b ∷ []
trim_end_rev (c ∷ b ∷ a ∷ s) =
    let rest_1 = trim_end_rev (b ∷ a ∷ s) in
    let rest_2 = trim_end_rev (a ∷ s) in
    let rest_3 = trim_end_rev s in
    if white_1 c
    then rest_1
    else if white_2 b c
    then rest_2
    else if white_3 a b c
    then rest_3
    else c ∷ b ∷ a ∷ s

-- `str::trim`
unfoldable pub trim : Text → Text
trim s = rev_onto (trim_end_rev (rev_onto (trim_start s) [])) []

abbrev pub put_first : ℕ → List Text → List Text
put_first x [] = (x ∷ []) ∷ []
put_first x (w ∷ ws) = (x ∷ w) ∷ ws

-- `str::split` at a byte
unfoldable pub split : ℕ → Text → List Text
split c [] = [] ∷ []
split c (x ∷ s) = let rest = split c s in if x == c then [] ∷ rest else put_first x rest

abbrev pub longer : ℕ → Option (Text × Text) → Option (Text × Text)
longer x none = none
longer x (some (a, b)) = some (x ∷ a, b)

-- `str::split_once` at a byte
unfoldable pub split_once : ℕ → Text → Option (Text × Text)
split_once c [] = none
split_once c (x ∷ s) = let rest = split_once c s in if x == c then some ([], s) else longer x rest
