-- ===== src/Utils.antt =====
-- lib/utils/utils.go: helpers on lists, maps, URLs and durations.
-- A map that may be nil is an `Option`. `Sha256` is Go's crypto/sha256 and is a parameter of its user.
pub mod Laws
pub mod Order
pub mod Duration
mod Tests
use dim.Prelude.{
  String, Bool, true, false, ◌||◌, Option, none, some, List, [], ◌∷◌, map, ◌==◌, ltb, leb,
  if◌then◌else◌, length,
}
use dim.Prelude.Dict.{Dict, value_at}
use dim.Prelude.Text.{join}
use Prim.Native.Char.{code}
use Prim.Native.String
use text.Mathlib.Text.{starts_with}

unfoldable pub list_contains : List String → String → Bool
list_contains [] search = false
list_contains (r ∷ list) search = if r == search then true else list_contains list search

-- The loop over the entries of `search`; a missing key reads as the empty text.
unfoldable pub all_match : Dict String → Dict String → Bool
all_match all [] = true
all_match all ((k, v) ∷ search) = if value_at all k == v then all_match all search else false

unfoldable pub map_matches_all : Option (Dict String) → Option (Dict String) → Bool
map_matches_all (some all) (some search) =
    if leb (length search) (length all) then all_match all search else false
map_matches_all _ _ = false

unfoldable pub keys : Dict String → List String
keys [] = []
keys ((k, v) ∷ m) = k ∷ keys m

unfoldable pub filter_values : Dict String → String → Dict String
filter_values [] s = []
filter_values ((k, v) ∷ m) s =
    let rest = filter_values m s in if v == s then rest else (k, v) ∷ rest

unfoldable pub build_url : String → Bool → String
build_url hostname insecure =
    if hostname == ""
    then ""
    else if starts_with hostname "http://" || starts_with hostname "https://"
    then hostname
    else if insecure
    then String.◌++◌ "http://" hostname
    else String.◌++◌ "https://" hostname

-- The order of texts by the codes of their characters, which is that of their UTF-8 bytes.
unfoldable pub text_le : String → String → Bool
text_le String.[] t = true
text_le (String.◌∷◌ c s) String.[] = false
text_le (String.◌∷◌ c s) (String.◌∷◌ d t) =
    let rest = text_le s t in
    if ltb (code c) (code d) then true else if ltb (code d) (code c) then false else rest

unfoldable pub sorted_insert : String → List String → List String
sorted_insert s [] = s ∷ []
sorted_insert s (t ∷ l) = if text_le s t then s ∷ t ∷ l else t ∷ sorted_insert s l

-- `sort.Strings`
unfoldable pub sort_strings : List String → List String
sort_strings [] = []
sort_strings (s ∷ l) = sorted_insert s (sort_strings l)

abbrev pub entry_text : String × String → String
entry_text (k, v) = String.◌++◌ k (String.◌++◌ "=" v)

-- nil and empty maps are the empty text.
unfoldable pub flat_map : Option (Dict String) → String
flat_map none = ""
flat_map (some []) = ""
flat_map (some (e ∷ m)) = join (sort_strings (map entry_text (e ∷ m))) ", "
