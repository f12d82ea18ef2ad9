-- ===== src/Utils/Laws.antt =====
-- What the helpers on maps, URLs and lists compute.
use dim.Prelude.{
  suc, ◌≤◌, String, ◌≡◌, refl, ap, ◌≢◌, ◌↔◌, ◌⊎◌, inl, inr, Bool, true, false, ◌||◌, Option, none,
  some, [], ◌∷◌, arith, ◌==◌, eq_iff, if◌then◌else◌, Bool-cases, Option-cases, length, All,
}
use dim.Prelude.Dict.{Dict, lookup, DistinctKeys, value_at}
use Prim.Native.String
use text.Mathlib.Text.{starts_with}
use text.Mathlib.TextPositions.{starts_with-append}
use dim.Utils.{all_match, map_matches_all, filter_values, build_url}

-- One entry less: the first with the key.
erase : String → Dict String → Dict String
erase k [] = []
erase k ((j, v) ∷ m) = if j == k then m else (j, v) ∷ erase k m

lookup-erase_ne : (k j : String) (m : Dict String) → k ≢ j → lookup j (erase k m) ≡ lookup j m
unfolding lookup erase
lookup-erase_ne k j [] h = refl
lookup-erase_ne k j ((i, w) ∷ m) h =
    ground (arith, eq_iff i k, eq_iff i j, eq_iff k j, lookup-erase_ne k j m h)

length-erase :
    (k : String) (m : Dict String) (v : String)
    → lookup k m ≡ some v
    → length m ≡ suc (length (erase k m))
unfolding lookup erase
length-erase k [] v h = cc
length-erase k ((i, w) ∷ m) v h = ground (arith, length-erase k m v)

-- Every entry of the first map is an entry of the second.
abbrev pub Within : Dict String → Dict String → Type 0
Within search all = All (λ e. lookup e.0 all ≡ some e.1) search

Within-erase :
    (k : String) (search all : Dict String)
    → lookup k search ≡ none
    → Within search all
    → Within search (erase k all)
unfolding lookup
Within-erase k [] all fresh h = tt
Within-erase k ((j, v) ∷ search) all fresh (h, hs) = (
  ground (arith, eq_iff j k, lookup-erase_ne k j all),
  Within-erase k search all (ground arith) hs,
)

-- A map that is within another has no more entries.
pub length_of_Within :
    (search all : Dict String)
    → DistinctKeys search
    → Within search all
    → length search ≤ length all
length_of_Within [] all d h = omega arith
length_of_Within ((k, v) ∷ search) all (fresh, d) (h, hs) = omega (
  arith,
  length-erase k all v h,
  length_of_Within search (erase k all) d (Within-erase k search all fresh hs),
)

value_at_iff :
    (all : Dict String) (k v : String)
    → v ≢ ""
    → ((value_at all k == v) ≡ true) ↔ (lookup k all ≡ some v)
value_at_iff all k v h = elim (Option-cases (lookup k all)) [
  | inl missing ↦ rw missing (ground (arith, eq_iff "" v))
  | inr (w, found) ↦ rw found (ground (arith, eq_iff w v))
]

all_match_iff :
    (search all : Dict String)
    → All (λ e. e.1 ≢ "") search
    → (all_match all search ≡ true) ↔ Within search all
unfolding all_match
all_match_iff [] all h = (λ _. tt, λ _. refl)
all_match_iff ((k, v) ∷ search) all (h, hs) =
    ground (arith, all_match_iff search all hs, value_at_iff all k v h)

-- The entries of a map, none of which a nil map has.
abbrev pub entries : Option (Dict String) → Dict String
entries none = []
entries (some m) = m

-- For two maps that may be nil, where the search map has distinct keys and no empty value:
-- `MapMatchesAll` says true exactly if neither map is nil and every entry of the search map is in the
-- other map. So the comparison of the sizes excludes nothing more, and a nil map matches nothing, not
-- even a nil map.
pub map_matches_all_iff :
    (all search : Option (Dict String))
    → DistinctKeys (entries search)
    → All (λ e. e.1 ≢ "") (entries search)
    → (map_matches_all all search ≡ true)
      ↔ ((all ≢ none) × (search ≢ none) × Within (entries search) (entries all))
unfolding map_matches_all
map_matches_all_iff none search d h = ((λ m. cc), λ w. absurd (w.0 refl))
map_matches_all_iff (some all) none d h = ((λ m. cc), λ w. absurd (w.1 refl))
map_matches_all_iff (some all) (some search) d h =
    let (to, from) = all_match_iff search all h in
    (
      (λ m. ((λ e. cc), (λ e. cc), to (ground arith))),
      λ w. let small = length_of_Within search all d w.2 in let m = from w.2 in ground arith,
    )

-- An empty value matches a missing key: a map that lacks the key is reported to contain the entry.
pub map_matches_all-missing :
    (all : Dict String) (k : String)
    → lookup k all ≡ none
    → all ≢ []
    → (map_matches_all (some all) (some ((k, "") ∷ [])) ≡ true) × ¬ Within ((k, "") ∷ []) all
unfolding map_matches_all all_match
map_matches_all-missing all k missing h =
    let empty : (value_at all k == "") ≡ true = rw (missing, value_at) in
    (ground (arith, empty), λ w. cc (missing, w.0))

lookup-filter_values-none :
    (m : Dict String) (s k : String) → lookup k m ≡ none → lookup k (filter_values m s) ≡ none
unfolding lookup filter_values
lookup-filter_values-none [] s k h = refl
lookup-filter_values-none ((j, v) ∷ m) s k h = ground (arith, lookup-filter_values-none m s k)

abbrev keep_unless : String → Option String → Option String
keep_unless s none = none
keep_unless s (some v) = if v == s then none else some v

-- Filtering keeps each key with its value, but those with the value that is filtered out.
pub lookup-filter_values :
    (m : Dict String) (s k : String)
    → DistinctKeys m
    → lookup k (filter_values m s)
      ≡ elim (lookup k m) [ none ↦ none | some v ↦ if v == s then none else some v ]
unfolding lookup filter_values
lookup-filter_values [] s k d = refl
lookup-filter_values ((j, v) ∷ m) s k (fresh, d) =
    ground (arith, eq_iff j k, lookup-filter_values m s k d, lookup-filter_values-none m s k)

abbrev IsComplete : String → Type 0
IsComplete u = (u ≡ "") ⊎ ((starts_with u "http://" || starts_with u "https://") ≡ true)

build_url_of_IsComplete : (u : String) (insecure : Bool) → IsComplete u → build_url u insecure ≡ u
unfolding build_url
build_url_of_IsComplete u insecure (inl empty) = rw empty
build_url_of_IsComplete u insecure (inr scheme) = elim (Bool-cases (u == "")) [
  | inl empty ↦ rw ((eq_iff u "").0 empty)
  | inr full ↦ rw (full, scheme)
]

or_true : (a : Bool) {b : Bool} → b ≡ true → (a || b) ≡ true
or_true true h = refl
or_true false h = h

with_scheme-IsComplete :
    (hostname : String) (insecure : Bool)
    → IsComplete
        (if insecure then String.◌++◌ "http://" hostname else String.◌++◌ "https://" hostname)
with_scheme-IsComplete hostname true = inr (
    ap (λ b. b || starts_with (String.◌++◌ "http://" hostname) "https://")
      (starts_with-append "http://" hostname))
with_scheme-IsComplete hostname false = inr (
    or_true (starts_with (String.◌++◌ "https://" hostname) "http://")
      (starts_with-append "https://" hostname))

build_url-IsComplete :
    (hostname : String) (insecure : Bool) → IsComplete (build_url hostname insecure)
unfolding build_url
build_url-IsComplete hostname insecure = elim (Bool-cases (hostname == "")) [
  | inl empty ↦ rw empty (inl refl)
  | inr full ↦
      elim (Bool-cases (starts_with hostname "http://" || starts_with hostname "https://")) [
        | inl scheme ↦ rw (full, scheme) (inr scheme)
        | inr bare ↦ rw (full, bare) (with_scheme-IsComplete hostname insecure)
      ]
]

-- Completing a URL a second time changes nothing, whatever the second scheme.
pub build_url_idempotent :
    (hostname : String) (insecure again : Bool)
    → build_url (build_url hostname insecure) again ≡ build_url hostname insecure
build_url_idempotent hostname insecure again =
    build_url_of_IsComplete (build_url hostname insecure) again
      (build_url-IsComplete hostname insecure)
