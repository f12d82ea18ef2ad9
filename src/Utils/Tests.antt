-- ===== src/Utils/Tests.antt =====
-- The helpers of lib/utils/utils.go on the inputs of lib/utils/utils_test.go, and their theorems at
-- inputs that meet the hypotheses.
use dim.Prelude.{String, ◌≡◌, refl, ◌≢◌, ◌↔◌, true, none, some, [], ◌∷◌}
use dim.Prelude.Dict.{Dict, lookup}
use dim.Prelude.Text.{join}
use dim.Utils.{map_matches_all, flat_map, sort_strings, sorted_insert, text_le}
use mathlib.Core.List.{Permᴰ}
use dim.Utils.Order.{flat_map-Perm}
use dim.Utils.Laws.{Within, map_matches_all_iff}

abbrev test_all : Dict String
test_all = ("type", "web") ∷ ("env", "prod") ∷ []

abbrev test_search : Dict String
test_search = ("env", "prod") ∷ []

map_matches_all_iff_example :
    (map_matches_all (some test_all) (some test_search) ≡ true)
    ↔ ((some test_all ≢ none) × (some test_search ≢ none) × Within test_search test_all)
map_matches_all_iff_example =
    map_matches_all_iff (some test_all) (some test_search) ((unfold lookup in refl), tt)
      ((λ e. cc), tt)

flat_map_run : flat_map (some test_all) ≡ "env=prod, type=web"
unfolding flat_map join sort_strings sorted_insert text_le
flat_map_run = refl

flat_map-Perm_example :
    flat_map (some (("a", "1") ∷ ("b", "2") ∷ [])) ≡ flat_map (some (("b", "2") ∷ ("a", "1") ∷ []))
flat_map-Perm_example =
    flat_map-Perm (("a", "1") ∷ ("b", "2") ∷ []) (("b", "2") ∷ ("a", "1") ∷ [])
      ∣ Permᴰ.swap refl refl ∣₁
