-- ===== src/Prelude/Text/Trim.antt =====
-- `strings.TrimSpace`, `strings.TrimSuffix` for one character, and the part behind the first "/".
use Prim.Native.Nat.{ℕ}
use Prim.Native.Char.{code}
use Prim.Native.String.{String, [], ◌∷◌}
use mathlib.Core.Bool.{Bool, ◌&&◌, ◌||◌}
use text.Mathlib.Text.{◌==◌}
use dim.Prelude.Tests.{nat_eq, leb, if◌then◌else◌}
use dim.Prelude.Text.{contains}

-- `unicode.IsSpace`
abbrev is_space : ℕ → Bool
is_space c =
    (leb 9 c && leb c 13)
    || nat_eq c 32
    || nat_eq c 0x85
    || nat_eq c 0xA0
    || nat_eq c 0x1680
    || (leb 0x2000 c && leb c 0x200A)
    || nat_eq c 0x2028
    || nat_eq c 0x2029
    || nat_eq c 0x202F
    || nat_eq c 0x205F
    || nat_eq c 0x3000

unfoldable pub trim_left : String → String
trim_left [] = []
trim_left (c ∷ s) = let rest = trim_left s in if is_space (code c) then rest else c ∷ s

unfoldable pub trim_right : String → String
trim_right [] = []
trim_right (c ∷ s) =
    let rest = trim_right s in if rest == "" && is_space (code c) then "" else c ∷ rest

unfoldable pub trim_space : String → String
trim_space s = trim_right (trim_left s)

-- `strings.TrimSuffix(s, "/")`
unfoldable pub trim_slash : String → String
trim_slash [] = []
trim_slash (c ∷ s) =
    let rest = trim_slash s in if s == "" && nat_eq (code c) b'/' then "" else c ∷ rest

-- `s[strings.Index(s, "/")+1:]`: all of `s` where it has no "/".
unfoldable pub behind_slash : String → String
behind_slash [] = []
behind_slash (c ∷ s) =
    let rest = behind_slash s in
    if nat_eq (code c) b'/' then s else if contains s b'/' then rest else c ∷ s
