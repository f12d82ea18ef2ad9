-- ===== src/Cmd/Tests.antt =====
-- Runs of the commands, and the theorems at inputs that meet their hypotheses.
use dim.Cmd.Requests.{
  RequestOption, with_payload, with_method, with_header, apply_options,
  default_notification_request, values_of, apply_options_lem,
}
use dim.Cmd.Remote.{RegistryClient}
use dim.Prelude.Dict.{Dict, insert, lookup, DistinctKeys}
use dim.Types.{push_action}
use dim.Index.Hooks.{Hook, parse_hooks, parse_from, parse_hook}
use dim.Index.Config.{Config, register_function, parse_config}
use dim.Cmd.Config.{read_config_hooks, register_all, IsRead, read_config_hooks-Ready}
use dim.Cmd.Names.{Settings}
use dim.Cmd.Serve.{Indexes, Listeners, checked, run_server, run_server-listens}
use dim.Cmd.Label.{LabelFlags, run_label, run_label-keeps}
use dim.Dim.{Docker, ImageInspect}
use dim.Prelude.Int.{pos}
use Prim.Native.String
use dim.Prelude.Errors.{eof, err}
use dim.Prelude.{true, false, String, ℕ, ◌++◌, ◌==◌, if◌then◌else◌}
use dim.Prelude.{ℕ, String, ◌≡◌, refl, none, some, List, [], ◌∷◌}
use dim.Prelude.Errors.{Result, ok}
use dim.Cmd.Search.{fetch, run_search, serves}

abbrev test_results : List String
test_results = "a" ∷ "b" ∷ "c" ∷ []

search_run : run_search (serves test_results 2) 2 ≡ some (ok test_results)
unfolding run_search fetch
search_run = refl

abbrev base_image : ImageInspect
base_image = record {
  id = "1";
  repo_tags = "base" ∷ [];
  comment = "";
  author = "";
  created = "";
  size = pos 0;
  config_labels = none;
  config_volumes = [];
  config_env = [];
  config_exposed_ports = [];
}

-- A daemon that logs what it does.
abbrev logging : Docker (List String)
logging = record {
  image_build = λ parent build tag w. (ok tt, w ++ String.◌++◌ "build " tag ∷ []);
  pull = λ image w. (ok tt, w ++ "pull" ∷ []);
  inspect = λ image w. ok base_image;
  remove = λ image w. (ok tt, w ++ "remove" ∷ []);
  push = λ image w. (ok tt, w ++ "push" ∷ []);
}

abbrev override : LabelFlags
override = record {
  pull_flag = true;
  image_flag = "";
  override_flag = true;
  delete_flag = false;
  remote_flag = true;
}

run_label-keeps_example :
    run_label logging override ("base" ∷ "os=x" ∷ []) []
    ≡ run_label
        (record logging { remove = λ image w. (err eof, "removed" ∷ w) })
        override
        ("base" ∷ "os=x" ∷ [])
        []
run_label-keeps_example =
    run_label-keeps logging (λ image w. (err eof, "removed" ∷ w)) override ("base" ∷ "os=x" ∷ []) []
      refl

abbrev json_post : List RequestOption
json_post =
    with_method "PUT"
    ∷ with_header "accept" "a"
    ∷ with_method "POST"
    ∷ with_payload "{}"
    ∷ with_header "Accept" "b"
    ∷ []

abbrev canonical : String → String
canonical key = if key == "accept" then "Accept" else key

apply_options_lem_example :
    ((apply_options canonical json_post default_notification_request).payload ≡ "{}")
    × ((apply_options canonical json_post default_notification_request).method ≡ "POST")
    × (values_of "Accept" (apply_options canonical json_post default_notification_request).headers
        ≡ "a" ∷ "b" ∷ [])
unfolding lookup
apply_options_lem_example =
    apply_options_lem canonical json_post default_notification_request "Accept"

-- A registry that joins everyone, with a number as its client.
abbrev open_registry : RegistryClient (List String) ℕ ℕ ℕ
open_registry = record {
  new = λ auth url w. (ok 1, w ++ url ∷ []);
  silent_new = λ auth url w. (ok 1, w);
  search = λ c q a offset n w. (ok (record { query = q; num_results = 0; results = [] }), w);
  delete_image = λ c n w. (ok tt, w);
  print_image_info = λ c out n tpl w. (ok tt, w);
  server_version = λ c w. (ok (record { version = ""; uptime = "" }), w);
}

abbrev disk : Indexes (List String) ℕ ℕ ℕ
disk = record { new = λ dir hooks c w. (ok 2, w ++ dir ∷ []); build = λ i w. w ++ "build" ∷ [] }

abbrev listeners : Listeners (List String) ℕ ℕ String
listeners = record {
  run = λ parts w. (ok tt, w ++ "http" ∷ []);
  run_secure = λ cert key parts w. (ok tt, w ++ "https" ∷ []);
}

abbrev settings : Settings
settings = record { registry_url = "https://reg"; username = ""; password = ""; insecure = false }

run_server-listens_example :
    run_server open_registry disk
      (λ url. ok url)
      settings
      "d"
      "cert"
      "key"
      listeners
      (ok 3)
      (ok 4)
      []
    ≡ run_server open_registry disk
        (λ url. ok url)
        settings
        "d"
        "cert"
        "key"
        (record listeners { run = λ parts w. (err eof, []) })
        (ok 3)
        (ok 4)
        []
run_server-listens_example =
    run_server-listens open_registry disk (λ url. ok url) settings "d" "cert" "key" listeners
      (λ parts w. (err eof, [])) (λ cert key parts w. (err eof, [])) (ok 3) (ok 4) []

secure_run :
    run_server open_registry disk
      (λ url. ok url)
      settings
      "d"
      "cert"
      "key"
      listeners
      (ok 3)
      (ok 4)
      []
    ≡ (ok tt, "https://reg" ∷ "d" ∷ "build" ∷ "https" ∷ [])
unfolding run_server checked
secure_run = refl

abbrev push_hook : Hook String
push_hook = record { event = push_action; action = "log"; eval = none }

-- A template is the text of its action.
abbrev as_is : Dict ℕ → String → String → Result String
as_is fns name action = ok action

abbrev hook_name : ℕ → String
hook_name i = "hook"

abbrev read_config : Config String ℕ
read_config = record {
  directory = "";
  hooks = record push_hook { eval = some "log" } ∷ [];
  func_map = some (("info", 1) ∷ ("warn", 2) ∷ []);
}

read_config_run :
    read_config_hooks as_is hook_name (ok (push_hook ∷ [])) (("info", 1) ∷ ("warn", 2) ∷ [])
    ≡ ok read_config
unfolding read_config_hooks register_all register_function parse_config parse_hooks parse_from
    parse_hook insert
read_config_run = refl

distinct_names : DistinctKeys {V = ℕ} (("info", 1) ∷ ("warn", 2) ∷ [])
unfolding lookup
distinct_names = (refl, (refl, tt))

read_config_hooks-Ready_example :
    IsRead as_is hook_name (("info", 1) ∷ ("warn", 2) ∷ []) push_action read_config
read_config_hooks-Ready_example =
    read_config_hooks-Ready as_is hook_name (push_hook ∷ []) (("info", 1) ∷ ("warn", 2) ∷ [])
      read_config push_action distinct_names read_config_run
