-- ===== src/Prelude/Text.antt =====
-- The functions of Go's `strings` and `fmt` that the program calls on text.
pub mod Laws
pub mod Trim
use Prim.Native.Nat.{ℕ}
use Prim.Native.Char.{Char, code}
use Prim.Native.String.{String, [], ◌∷◌, ◌++◌}
use mathlib.Core.Bool.{Bool, false, ◌||◌}
use mathlib.Core.List.{List}
use dim.Prelude.Tests.{nat_eq, if◌then◌else◌}

-- `strings.Split(s, sep)` for a separator of one ASCII character, by its code.
abbrev add_to_first : Char → List String → List String
add_to_first c List.[] = List.◌∷◌ (c ∷ []) List.[]
add_to_first c (List.◌∷◌ part parts) = List.◌∷◌ (c ∷ part) parts

unfoldable pub split : String → ℕ → List String
split [] sep = List.◌∷◌ "" List.[]
split (c ∷ s) sep =
    let parts = split s sep in
    if nat_eq (code c) sep then List.◌∷◌ "" parts else add_to_first c parts

-- `strings.Contains(s, sep)` for one such character.
unfoldable pub contains : String → ℕ → Bool
contains [] sep = false
contains (c ∷ s) sep = nat_eq (code c) sep || contains s sep

-- `strings.Join`
unfoldable pub join : List String → String → String
join List.[] sep = ""
join (List.◌∷◌ s List.[]) sep = s
join (List.◌∷◌ s (List.◌∷◌ t rest)) sep = s ++ (sep ++ join (List.◌∷◌ t rest) sep)
