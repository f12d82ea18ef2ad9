-- ===== src/Dim.antt =====
-- lib/dim.go: the client's operations on images of the docker daemon.
-- The daemon behind `dockerClient.Docker` is an interface over its state: looking at an image does not
-- change it.
pub mod Labels
pub mod Images
mod Tests
use dim.Prelude.{ℕ, String, Option, none, some, List, [], ◌∷◌, ◌==◌, if◌then◌else◌, set}
use dim.Prelude.Dict.{Dict, insert, value_at}
use dim.Prelude.Errors.{Error, message, Result, ok, err, panic}
use dim.Prelude.Text.{split, contains}
use Prim.Native.String
use dim.Prelude.Exec.{Exec, raise}
use dim.Types.{IndexImage, Time}
use dim.Prelude.Int.{ℤ}
use dim.Utils.{map_matches_all, keys}

-- The fields of docker's `types.ImageInspect` that dim reads; labels that are nil are `none`. The daemon
-- gives every image a configuration.
pub record ImageInspect : Type 0 where
  pub id : String
  pub repo_tags : List String
  pub comment : String
  pub author : String
  pub created : String
  pub size : ℤ
  pub config_labels : Option (Dict String)
  pub config_volumes : List String
  pub config_env : List String
  pub config_exposed_ports : List ℤ

pub record Docker (W : Type 0) : Type 0 where
  pub image_build : String → Dict String → String → Exec W (Unit {0})
  pub pull : String → Exec W (Unit {0})
  pub inspect : String → W → Result ImageInspect
  pub remove : String → Exec W (Unit {0})
  pub push : String → Exec W (Unit {0})

abbrev pub equals_sign : ℕ
equals_sign = b'='

abbrev pub unparsed : String → Error
unparsed l = message (String.◌++◌ "Failed to parse given label " l)

abbrev pub from_parts : String → List String → Result (String × String)
from_parts l (k ∷ v ∷ []) = if v == "" then err (unparsed l) else ok (k, v)
from_parts l _ = err (unparsed l)

abbrev pub already_set : String → Error
already_set parent =
    message
      (String.◌++◌ "Image " (String.◌++◌ parent " already contains the label(s) you want to set"))

abbrev pub none_to_clear : String → Error
none_to_clear parent =
    message (
      String.◌++◌ "Image " (String.◌++◌ parent " has none of the given label(s) you want to clear"))

-- One label "key=value" of `AddLabel`.
unfoldable pub parse_label : String → Result (String × String)
parse_label l = from_parts l (split l equals_sign)

-- The loop of `AddLabel`, with the map that it fills.
unfoldable pub parse_labels : List String → Dict String → Result (Dict String)
parse_labels [] build = ok build
parse_labels (l ∷ labels) build = elim (parse_label l) [
  | ok (k, v) ↦ parse_labels labels (insert k v build)
  | err e ↦ err e
  | panic ↦ panic
]

-- Indexing a nil map reads the empty text.
abbrev pub entries : Option (Dict String) → Dict String
entries none = []
entries (some m) = m

abbrev pub clear_one : Dict String → String → Dict String → Dict String
clear_one actual l build = if value_at actual l == "" then build else insert l "" build

-- The loop of `RemoveLabel`.
unfoldable pub clear_labels : Dict String → List String → Dict String → Result (Dict String)
clear_labels actual [] build = ok build
clear_labels actual (l ∷ labels) build =
    let rest = clear_labels actual labels (clear_one actual l build) in
    if contains l equals_sign then err (unparsed l) else rest

module _ {W : Type 0} (docker : Docker W) where
  abbrev pub pull : String → Exec W (Unit {0})
  pull = docker.pull

  abbrev pub remove : String → Exec W (Unit {0})
  remove = docker.remove

  abbrev pub push : String → Exec W (Unit {0})
  push = docker.push

  -- `execute` writes what a template makes of the information.
  unfoldable pub print_image_info :
      (execute : ImageInspect → Exec W (Unit {0})) → String → Exec W (Unit {0})
  print_image_info execute image w = elim (docker.inspect image w) [
    | ok infos ↦ execute infos w
    | err e ↦ (err e, w)
    | panic ↦ (panic, w)
  ]

  unfoldable pub get_image_labels : String → W → Result (Option (Dict String))
  get_image_labels image w = elim (docker.inspect image w) [
    | ok i ↦ ok i.config_labels
    | err e ↦ err e
    | panic ↦ panic
  ]

  unfoldable pub get_image_info : String → W → Result (String × List String)
  get_image_info image w = elim (docker.inspect image w) [
    | ok i ↦ ok (i.id, i.repo_tags)
    | err e ↦ err e
    | panic ↦ panic
  ]

  abbrev build_unless_set : String → String → Dict String → Option (Dict String) → Exec W (Unit {0})
  build_unless_set parent tag build actual =
      if map_matches_all actual (some build)
      then raise (
          message (
            String.◌++◌ "Image "
              (String.◌++◌ parent " already contains the label(s) you want to set")))
      else docker.image_build parent build tag

  unfoldable pub add_label : String → List String → String → Exec W (Unit {0})
  add_label parent [] tag w = (err (message "No label provided"), w)
  add_label parent (l ∷ labels) tag w = elim (parse_labels (l ∷ labels) []) [
    | ok build ↦ elim (get_image_labels parent w) [
      | ok actual ↦ build_unless_set parent tag build actual w
      | err e ↦ (err e, w)
      | panic ↦ (panic, w)
    ]
    | err e ↦ (err e, w)
    | panic ↦ (panic, w)
  ]

  abbrev build_unless_empty : String → String → Dict String → Exec W (Unit {0})
  build_unless_empty parent tag [] = raise (
      message (
        String.◌++◌ "Image "
          (String.◌++◌ parent " has none of the given label(s) you want to clear")))
  build_unless_empty parent tag (e ∷ build) = docker.image_build parent (e ∷ build) tag

  unfoldable pub remove_label : String → List String → String → Exec W (Unit {0})
  remove_label parent [] tag w = (err (message "No label provided"), w)
  remove_label parent (l ∷ labels) tag w = elim (get_image_labels parent w) [
    | ok actual ↦ elim (clear_labels (entries actual) (l ∷ labels) []) [
      | ok build ↦ build_unless_empty parent tag build w
      | err e ↦ (err e, w)
      | panic ↦ (panic, w)
    ]
    | err e ↦ (err e, w)
    | panic ↦ (panic, w)
  ]

-- The environment entries "key=value" as a map; an entry with no "=" is left out, and of a value
-- that holds "=" only the part before it is kept.
unfoldable pub parse_env : List String → Dict String → Dict String
parse_env [] envs = envs
parse_env (entry ∷ env) envs = elim (split entry equals_sign) [
  | k ∷ v ∷ _ ↦ parse_env env (insert k v envs)
  | _ ↦ parse_env env envs
]

abbrev pub created_or_zero : Option Time → Time
created_or_zero none = 0
created_or_zero (some t) = t

module _ {W : Type 0} (docker : Docker W) (parse_time : String → Option Time) where
  abbrev image_of : ImageInspect → String → String → String → IndexImage
  image_of i full_name name tag = record {
    id = i.id;
    name = name;
    full_name = full_name;
    tag = tag;
    comment = i.comment;
    created = created_or_zero (parse_time i.created);
    author = i.author;
    label = i.config_labels;
    labels = keys (elim i.config_labels [ none ↦ [] | some m ↦ m ]);
    volumes = i.config_volumes;
    exposed_ports = i.config_exposed_ports;
    env = some (parse_env i.config_env []);
    envs = keys (parse_env i.config_env []);
    size = i.size;
  }

  -- The name and tag are the first two parts of the first tag around ":".
  abbrev from_tags : ImageInspect → List String → Result IndexImage
  from_tags i [] = panic
  from_tags i (full_name ∷ _) = elim (split full_name b':') [
    | name ∷ tag ∷ _ ↦ ok (image_of i full_name name tag)
    | _ ↦ panic
  ]

  unfoldable pub as_index_image : String → W → Result IndexImage
  as_index_image image w = elim (docker.inspect image w) [
    | ok i ↦ from_tags i i.repo_tags
    | err e ↦ err e
    | panic ↦ panic
  ]
