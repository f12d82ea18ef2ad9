-- ===== src/System/Tests.antt =====
-- A search of the client at a server whose index holds one image.
use dim.Prelude.{String, ◌≡◌, refl, List, [], ◌∷◌, ◌++◌, arith, ◌==◌, if◌then◌else◌}
use dim.Prelude.Errors.{eof, Result, ok, err}
use dim.Prelude.Int.{pos}
use dim.Prelude.Text.Trim.{trim_space, trim_slash, trim_left, trim_right}
use dim.Types.{IndexResults, SearchResults, Info, NotificationJob}
use dim.Server.Http.{HandlerFunc}
use dim.Server.Config.{Regexp, Config}
use dim.Server.Handlers.{RegistryIndex, results_of}
use dim.Prelude.{none, some, false}
use dim.Prelude.Dict.{Dict, insert}
use dim.Prelude.Exec.{Exec}
use dim.Prelude.Text.{split}
use dim.Utils.{map_matches_all}
use dim.Dim.{ImageInspect, add_label, parse_labels, parse_label, get_image_labels}
use dim.Dim.Labels.{Describes}
use dim.Wrapper.DockerClient.{
  Engine, Outside, ClientState, client, with_client, image_build, inspect,
}
use dim.Wrapper.DockerClient.Build.{IsBuilt}
use dim.System.Label.{docker_client, add_label-IsBuilt}
use dim.System.Search.{remote_search, remote_search-search_images}

abbrev prefixes : Regexp String
prefixes = record { compile = λ s. ok s; match_string = λ r s. r == s }

abbrev open_server : Config String
open_server = record { port = ":6000"; authorizations = [] }

abbrev found : IndexResults
found = record { total = 3; images = [] }

abbrev index : RegistryIndex (List NotificationJob)
index = record {
  search_images = λ q a fields offset n s. ok found;
  submit = λ job s. s ++ job ∷ [];
}

abbrev idle : HandlerFunc (List NotificationJob)
idle r w s = ok (w, s)

-- A coding that knows one result.
abbrev marshal : SearchResults → Result String
marshal results = ok "{}"

abbrev decode : String → Result SearchResults
decode text = ok (results_of "mysql" found)

abbrev decode_info : String → Result Info
decode_info text = err eof

abbrev path_of : String → String
path_of url = if url == "http://h/v1/search" then "/v1/search" else "/"

remote_search-search_images_example :
    remote_search index marshal decode decode_info prefixes
      (λ s. s)
      open_server
      (λ r. none)
      idle
      idle
      idle
      path_of
      (λ code. "")
      "http://h/"
      " mysql"
      ""
      (pos 0)
      (pos 15)
      []
    ≡ (ok (results_of "mysql" found), [])
unfolding trim_slash trim_space trim_right trim_left
remote_search-search_images_example =
    remote_search-search_images index marshal decode decode_info prefixes (λ s. s) open_server
      (λ r. none) idle idle idle path_of (λ code. "") "http://h/" " mysql" "" (pos 0) (pos 15) []
      found "{}" refl refl (omega arith) (omega arith) refl refl refl refl refl

abbrev an_image : ImageInspect
an_image = record {
  id = "12";
  repo_tags = "base" ∷ [];
  comment = "";
  author = "";
  created = "";
  size = pos 0;
  config_labels = none;
  config_volumes = [];
  config_env = [];
  config_exposed_ports = [];
}

-- A daemon that logs what it is asked.
abbrev daemon : Engine (List String) (Unit {0})
daemon = record {
  new_env_client = λ w. ok tt;
  container_create = λ c image name w. (ok "id1", w ++ "create" ∷ []);
  container_commit = λ c id change tag w. (ok tt, w ++ tag ∷ []);
  container_remove = λ c id w. (ok tt, w ++ "remove" ∷ []);
  image_pull = λ c image auth w. (ok [], w);
  image_push = λ c image auth w. (ok [], w);
  image_inspect = λ c image w. ok an_image;
  image_remove = λ c image w. (ok [], w);
}

abbrev no_login : Outside (List String)
no_login = record {
  is_valid_url = λ url. false;
  do_request = λ url a w. (err eof, w);
  encode_auth = λ a. err eof;
  parse_named = λ image. err eof;
  default_hostname = "docker.io";
}

abbrev logged : List String → ClientState (List String) (Unit {0})
logged log = record {
  daemon = log;
  c = some tt;
  auth = none;
  console = record { inputs = []; prompts = [] };
  output = [];
}

abbrev no_transfer : String → Exec (ClientState (List String) (Unit {0})) (Unit {0})
no_transfer image s = (err eof, s)

labelled :
    add_label
      (docker_client daemon no_login false "dim_1" no_transfer no_transfer)
      "base"
      ("os=x" ∷ [])
      "new:1"
      (logged [])
    ≡ (ok tt, logged ("create" ∷ "new:1" ∷ "remove" ∷ []))
unfolding add_label parse_labels parse_label split get_image_labels inspect with_client client
    map_matches_all insert image_build
labelled = refl

add_label-IsBuilt_example :
    (build : Dict String) × (i : ImageInspect) × Describes ("os=x" ∷ []) build
    × (◌≡◌ {A = Result ImageInspect} (ok an_image) (ok i))
    × (map_matches_all i.config_labels (some build) ≡ false)
    × IsBuilt daemon no_login false tt
        (logged [])
        "dim_1"
        "base"
        "new:1"
        build
        refl
        ("create" ∷ "new:1" ∷ "remove" ∷ [])
add_label-IsBuilt_example =
    add_label-IsBuilt daemon no_login false "dim_1" no_transfer no_transfer tt (logged []) refl
      "base" "new:1" ("os=x" ∷ []) (logged ("create" ∷ "new:1" ∷ "remove" ∷ [])) labelled
