-- ===== src/Types.antt =====
-- lib/types.go: the records that the parts of dim exchange.
-- A time is the number of nanoseconds since Go's zero time, so 0 is the value of an unset field.
-- A map or slice that Go may leave nil, and tells from an empty one, is an `Option`.
use dim.Prelude.{String, Bool, Option, none, List, [], ℕ}
use dim.Prelude.Dict.{Dict}
use dim.Prelude.Int.{ℤ, pos}

abbrev pub Time : Type 0
Time = ℕ

pub record SearchResult : Type 0 where
  pub star_count : ℤ
  pub is_official : Bool
  pub name : String
  pub is_automated : Bool
  pub description : String
  pub tag : String
  pub full_name : String
  pub created : Time
  pub label : Option (Dict String)
  pub volumes : List String
  pub exposed_ports : List ℤ
  pub env : Option (Dict String)
  pub size : ℤ

pub record SearchResults : Type 0 where
  pub query : String
  pub num_results : ℕ
  pub results : List SearchResult

pub record Info : Type 0 where
  pub version : String
  pub uptime : String

-- The fields of docker's `container.Config` that dim reads.
pub record ImageConfig : Type 0 where
  pub labels : Dict String
  pub volumes : List String
  pub env : List String
  pub exposed_ports : List ℤ

-- The fields of docker's `image.Image` that dim reads, with the tag and digest that dim adds. The
-- configuration is a pointer, which the JSON of an image may leave nil.
pub record RegistryImage : Type 0 where
  pub tag : String
  pub digest : String
  pub id : String
  pub comment : String
  pub created : Time
  pub author : String
  pub config : Option ImageConfig
  pub size : ℤ

pub record IndexImage : Type 0 where
  pub id : String
  pub name : String
  pub full_name : String
  pub tag : String
  pub comment : String
  pub created : Time
  pub author : String
  pub label : Option (Dict String)
  pub labels : List String
  pub volumes : List String
  pub exposed_ports : List ℤ
  pub env : Option (Dict String)
  pub envs : List String
  pub size : ℤ

pub record IndexResults : Type 0 where
  pub total : ℕ
  pub images : List IndexImage

-- `ActionType` is a string type; its two constants are the actions that the index handles.
abbrev pub ActionType : Type 0
ActionType = String

abbrev pub delete_action : ActionType
delete_action = "delete"

abbrev pub push_action : ActionType
push_action = "push"

pub record NotificationJob : Type 0 where
  pub action : ActionType
  pub repository : String
  pub tag : String
  pub digest : String

-- `&IndexImage{}`
abbrev pub empty_image : IndexImage
empty_image = record {
  id = "";
  name = "";
  full_name = "";
  tag = "";
  comment = "";
  created = 0;
  author = "";
  label = none;
  labels = [];
  volumes = [];
  exposed_ports = [];
  env = none;
  envs = [];
  size = pos 0;
}

-- `&RegistryImage{}`
abbrev pub empty_registry_image : RegistryImage
empty_registry_image = record {
  tag = "";
  digest = "";
  id = "";
  comment = "";
  created = 0;
  author = "";
  config = none;
  size = pos 0;
}
