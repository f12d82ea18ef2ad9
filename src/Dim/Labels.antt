-- ===== src/Dim/Labels.antt =====
-- When `AddLabel` and `RemoveLabel` build an image, and with which labels.
use mathlib.Core.Path.{ap₂}
use dim.Prelude.{
  String, ◌≡◌, refl, sym, ap, ◌∙◌, ◌≢◌, ◌⊎◌, inl, inr, false, not, ◌&&◌, Option, none, some, List,
  [], ◌∷◌, map, arith, ◌==◌, eq_iff, if◌then◌else◌, Bool-cases, All,
}
use dim.Prelude.Dict.{Dict, lookup, insert, lookup-insert, value_at}
use dim.Prelude.Errors.{message, Result, ok, err, panic, ok_injective, Result-cases}
use dim.Prelude.Text.{split}
use Prim.Native.String
use dim.Prelude.Exec.{Exec}
use dim.Prelude.Text.Laws.{split-eq-two}
use dim.Utils.{map_matches_all, list_contains}
use dim.Dim.{
  Docker, equals_sign, from_parts, parse_label, parse_labels, already_set, none_to_clear, clear_one,
  entries, clear_labels, get_image_labels, add_label, remove_label,
}

abbrev pub Pair : Type 0
Pair = String × String

-- "key=value"
abbrev pub label_text : Pair → String
label_text e = String.◌++◌ e.0 (String.◌++◌ "=" e.1)

-- Setting keys one after the other: the last value of a key stays.
abbrev pub insert_all : List Pair → Dict String → Dict String
insert_all [] m = m
insert_all (e ∷ es) m = insert_all es (insert e.0 e.1 m)

-- The labels are "key=value" texts with values that are not empty, and the map holds their pairs.
abbrev pub Describes : List String → Dict String → Type 0
Describes labels build =
    (pairs : List Pair) × (labels ≡ map label_text pairs)
    × All (λ e. e.1 ≢ "") pairs
    × (build ≡ insert_all pairs [])

from_parts-eq-ok :
    (l : String) (parts : List String) (e : Pair)
    → from_parts l parts ≡ ok e
    → (parts ≡ e.0 ∷ e.1 ∷ []) × (e.1 ≢ "")
from_parts-eq-ok l (k ∷ v ∷ []) e h = ground (arith, eq_iff v "")
from_parts-eq-ok l _ e h = cc

parse_label-eq-ok : (l : String) (e : Pair) → parse_label l ≡ ok e → (l ≡ label_text e) × (e.1 ≢ "")
unfolding parse_label
parse_label-eq-ok l e h =
    let (parts, full) = from_parts-eq-ok l (split l equals_sign) e h in
    (split-eq-two _ l e.0 e.1 parts, full)

parse_labels-eq-ok :
    (labels : List String) (start build : Dict String)
    → parse_labels labels start ≡ ok build
    → (pairs : List Pair) × (labels ≡ map label_text pairs)
      × All (λ e. e.1 ≢ "") pairs
      × (build ≡ insert_all pairs start)
unfolding parse_labels
parse_labels-eq-ok [] start build h = ([], refl, tt, sym (ok_injective h))
parse_labels-eq-ok (l ∷ labels) start build h = elim (Result-cases (parse_label l)) [
  | inl (e, parsed) ↦
      let (text, full) = parse_label-eq-ok l e parsed in
      let (pairs, texts, fulls, made) =
        parse_labels-eq-ok labels (insert e.0 e.1 start) build (rw (parsed, parse_labels) at h) in
      (e ∷ pairs, ap₂ (λ x xs. x ∷ xs) text texts, (full, fulls), made)
  | inr (inl (e, failed)) ↦ cc (rw (failed, parse_labels) at h)
  | inr (inr failed) ↦ cc (rw (failed, parse_labels) at h)
]

module _ {W : Type 0} (docker : Docker W) (parent : String) (tag : String) (w : W) where
  -- The daemon was asked to build nothing, and the call did not succeed.
  abbrev pub Refuses : Exec W (Unit {0}) → Type 0
  Refuses m = (r : Result (Unit {0})) × (m w ≡ (r, w)) × (r ≢ ok tt)

  abbrev pub Adds : List String → Type 0
  Adds labels =
      (build : Dict String) × (actual : Option (Dict String)) × Describes labels build
      × (labels ≢ [])
      × (get_image_labels docker parent w ≡ ok actual)
      × (map_matches_all actual (some build) ≡ false)
      × (add_label docker parent labels tag w ≡ docker.image_build parent build tag w)

  -- `AddLabel` either fails and leaves the daemon as it was, or hands over to one build of the
  -- parent: with the given labels, all of the form "key=value" with a value, of which not all were
  -- set already.
  pub add_label_lem :
      (labels : List String) → Refuses (add_label docker parent labels tag) ⊎ Adds labels
  unfolding add_label
  add_label_lem [] = inl (_, refl, λ e. cc)
  add_label_lem (l ∷ labels) = elim (Result-cases (parse_labels (l ∷ labels) [])) [
    | inl (build, parsed) ↦ elim (Result-cases (get_image_labels docker parent w)) [
      | inl (actual, got) ↦ elim (Bool-cases (map_matches_all actual (some build))) [
        | inl same ↦ inl (err (already_set parent), ground arith, λ e. cc)
        | inr new ↦ inr (
          build,
          actual,
          parse_labels-eq-ok (l ∷ labels) [] build parsed,
          (λ e. cc),
          got,
          new,
          ground arith,
        )
      ]
      | inr (inl (e, failed)) ↦ inl (err e, ground arith, λ x. cc)
      | inr (inr failed) ↦ inl (panic, ground arith, λ x. cc)
    ]
    | inr (inl (e, failed)) ↦ inl (err e, ground arith, λ x. cc)
    | inr (inr failed) ↦ inl (panic, ground arith, λ x. cc)
  ]

-- What is cleared: exactly the keys that were asked for and have a value.
clear_labels-eq-ok :
    (actual : Dict String) (labels : List String) (start build : Dict String) (k : String)
    → clear_labels actual labels start ≡ ok build
    → lookup k build ≡ (
        if list_contains labels k && not (value_at actual k == "") then some "" else lookup k start)
unfolding clear_labels list_contains
clear_labels-eq-ok actual [] start build k h = ap (lookup k) (sym (ok_injective h))
clear_labels-eq-ok actual (l ∷ labels) start build k h = ground (
  arith,
  clear_labels-eq-ok actual labels (clear_one actual l start) build k,
  lookup-insert l k "" start,
  eq_iff l k,
)

module _ {W : Type 0} (docker : Docker W) (parent : String) (tag : String) (w : W) where
  -- The map that `RemoveLabel` builds with: the empty text for each key that was given and has a
  -- value, and nothing else.
  abbrev pub Clears : List String → Type 0
  Clears labels =
      (build : Dict String) × (actual : Option (Dict String)) × (get_image_labels docker parent w
        ≡ ok actual)
      × (build ≢ [])
      × ((k : String)
          → lookup k build ≡ (
              if list_contains labels k && not (value_at (entries actual) k == "")
              then some ""
              else none))
      × (remove_label docker parent labels tag w ≡ docker.image_build parent build tag w)

  clears :
      (l : String) (labels : List String) (actual : Option (Dict String)) (build : Dict String)
      → get_image_labels docker parent w ≡ ok actual
      → clear_labels (entries actual) (l ∷ labels) [] ≡ ok build
      → Refuses docker parent tag w (remove_label docker parent (l ∷ labels) tag)
        ⊎ Clears (l ∷ labels)
  unfolding remove_label
  clears l labels actual [] got cleared = inl (err (none_to_clear parent), ground arith, λ e. cc)
  clears l labels actual (e ∷ build) got cleared = inr (
    e ∷ build,
    actual,
    got,
    (λ x. cc),
    (λ k.
        clear_labels-eq-ok (entries actual) (l ∷ labels) [] (e ∷ build) k cleared
        ∙ unfold lookup in refl),
    ground arith,
  )

  -- `RemoveLabel` either fails and leaves the daemon as it was, or hands over to one build of the
  -- parent that sets to the empty text exactly the given labels that have a value, at least one.
  pub remove_label_lem :
      (labels : List String)
      → Refuses docker parent tag w (remove_label docker parent labels tag) ⊎ Clears labels
  remove_label_lem [] =
      unfold remove_label in inl (err (message "No label provided"), refl, λ e. cc)
  remove_label_lem (l ∷ labels) = elim (Result-cases (get_image_labels docker parent w)) [
    | inl (actual, got) ↦ elim (Result-cases (clear_labels (entries actual) (l ∷ labels) [])) [
      | inl (build, cleared) ↦ clears l labels actual build got cleared
      | inr (inl (e, failed)) ↦ inl (err e, unfold remove_label in ground arith, λ x. cc)
      | inr (inr failed) ↦ inl (panic, unfold remove_label in ground arith, λ x. cc)
    ]
    | inr (inl (e, failed)) ↦ inl (err e, unfold remove_label in ground arith, λ x. cc)
    | inr (inr failed) ↦ inl (panic, unfold remove_label in ground arith, λ x. cc)
  ]
