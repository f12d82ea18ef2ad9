-- ===== src/Prelude/Dict.antt =====
-- Go maps with string keys, as association lists. The order of the entries stands for the order in
-- which one `range` loop happens to visit them: what is stated for every list holds for every order.
use Prim.Native.String.{String}
use mathlib.Core.Path.{◌≡◌, refl}
use mathlib.Core.Option.{Option, none, some}
use mathlib.Core.List.{List, [], ◌∷◌}
use native.Mathlib.Omega.{arith}
use text.Mathlib.Text.{◌==◌}
use text.Mathlib.TextEquality.{eq_iff}
use dim.Prelude.Tests.{if◌then◌else◌}

abbrev pub Dict {ℓ} : Type ℓ → Type ℓ
Dict V = List (String × V)

module _ {ℓ} {V : Type ℓ} where
  -- `m[key]`, with the entry missing or there.
  unfoldable pub lookup : String → Dict V → Option V
  lookup key ((other, held) ∷ entries) = if other == key then some held else lookup key entries
  lookup key [] = none

  -- `m[key] = value`
  unfoldable pub insert : String → V → Dict V → Dict V
  insert key value ((other, held) ∷ entries) =
      if other == key then (key, value) ∷ entries else (other, held) ∷ insert key value entries
  insert key value [] = (key, value) ∷ []

  -- An assignment is seen at its key and nowhere else.
  pub lookup-insert :
      (key asked : String) (value : V) (entries : Dict V)
      → lookup asked (insert key value entries)
        ≡ (if key == asked then some value else lookup asked entries)
  unfolding insert lookup
  lookup-insert key asked value ((other, held) ∷ entries) =
      let rest = lookup-insert key asked value entries in
      ground (arith, rest, eq_iff other asked, eq_iff other key, eq_iff key asked)
  lookup-insert key asked value [] = refl

  -- No key occurs twice: what every Go map satisfies.
  abbrev pub DistinctKeys : Dict V → Type ℓ
  DistinctKeys [] = Unit
  DistinctKeys ((k, v) ∷ m) = (lookup k m ≡ none) × DistinctKeys m

  pub insert-DistinctKeys :
      (k : String) (v : V) (m : Dict V) → DistinctKeys m → DistinctKeys (insert k v m)
  unfolding insert lookup
  insert-DistinctKeys k v [] h = (refl, tt)
  insert-DistinctKeys k v ((j, w) ∷ m) (fresh, h) =
      ground (arith, eq_iff j k, eq_iff k j, lookup-insert k j v m, insert-DistinctKeys k v m h)

-- `m[k]` for a map of strings: the zero value where the key is missing.
abbrev pub value_at : Dict String → String → String
value_at m k = elim (lookup k m) [ none ↦ "" | some v ↦ v ]
