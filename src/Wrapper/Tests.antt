-- ===== src/Wrapper/Tests.antt =====
-- Runs of wrapper/dockerClient/dockerClient.go against a daemon and a registry that answer at once.
use Prim.Native.String
use dim.Prelude.{
  ℕ, String, ◌≡◌, refl, Bool, true, false, none, some, List, [], ◌∷◌, ◌++◌, arith, ◌==◌, eq_iff,
  if◌then◌else◌,
}
use dim.Prelude.Errors.{eof, docker_hub_authentication_not_supported, ok, err}
use dim.Prelude.Text.{join}
use dim.Prelude.Int.{pos}
use dim.Dim.{ImageInspect}
use dim.Cli.Credentials.{AuthConfig}
use dim.Registry.Client.{HttpResponse, Named, bare}
use dim.Wrapper.DockerClient.{
  Engine, Outside, ClientState, image_build, authenticate, pull, push, change_labels,
}
use dim.Wrapper.DockerClient.Build.{image_build-removes}
use dim.Wrapper.DockerClient.Login.{IsAfter, authenticate-typed}
use dim.Wrapper.DockerClient.Laws.{docker_hub_lem}

abbrev nothing : ImageInspect
nothing = record {
  id = "";
  repo_tags = [];
  comment = "";
  author = "";
  created = "";
  size = pos 0;
  config_labels = none;
  config_volumes = [];
  config_env = [];
  config_exposed_ports = [];
}

-- A daemon that logs what it is asked, and cannot remove containers.
abbrev daemon : Engine (List String) Bool
daemon = record {
  new_env_client = λ w. ok true;
  container_create = λ c image name w. (ok "id1", w ++ String.◌++◌ "create " image ∷ []);
  container_commit =
      λ c id change tag w. (ok tt, w ++ String.◌++◌ tag (String.◌++◌ " " change) ∷ []);
  container_remove = λ c id w. (err eof, w ++ String.◌++◌ "remove " id ∷ []);
  image_pull = λ c image auth w. (ok ("Pulling" ∷ auth ∷ []), w ++ image ∷ []);
  image_push = λ c image auth w. (ok ("1" ∷ "2" ∷ []), w ++ image ∷ []);
  image_inspect = λ c image w. ok nothing;
  image_remove = λ c image w. (ok (record { deleted = image; untagged = "" } ∷ []), w);
}

abbrev good : AuthConfig → Bool
good a = a.password == "secret"

abbrev answer : ℕ → HttpResponse
answer code = record { status_code = code; status = ""; body = "down" }

abbrev named : String → Named
named image = record { name = image; hostname = "reg"; suffix = bare }

-- A registry where one password is good.
abbrev registry : Outside (List String)
registry = record {
  is_valid_url = λ url. true;
  do_request = λ url a w. (ok (answer (if good a then 200 else 401)), w);
  encode_auth = λ a. ok (String.◌++◌ a.username a.password);
  parse_named = λ image. ok (named image);
  default_hostname = "docker.io";
}

-- A registry that is down, and where every image is on docker hub.
abbrev failing : Outside (List String)
failing = record registry {
  do_request = λ url a w. (ok (answer 500), w);
  parse_named = λ image. ok (record (named image) { hostname = "docker.io" });
}

abbrev at : List String → ClientState (List String) Bool
at inputs = record {
  daemon = [];
  c = some true;
  auth = none;
  console = record { inputs = inputs; prompts = [] };
  output = [];
}

abbrev login : String → AuthConfig
login password = record { username = "al"; password = password }

image_build_run :
    image_build daemon registry false "dim_1" "base" (("a", "b") ∷ []) "new:1" (at [])
    ≡ (ok tt, record (at []) { daemon = "create base" ∷ "new:1 LABEL a=\"b\"" ∷ "remove id1" ∷ [] })
unfolding join
image_build_run =
    image_build-removes daemon registry false true (at []) "dim_1" "base" "new:1" (("a", "b") ∷ [])
      refl "id1" ("create base" ∷ []) ("create base" ∷ "new:1 LABEL a=\"b\"" ∷ [])
      ("create base" ∷ "new:1 LABEL a=\"b\"" ∷ "remove id1" ∷ []) (err eof) refl
      (unfold change_labels in refl) refl (λ e. cc)

abbrev typed_twice : ClientState (List String) Bool
typed_twice = at ("al" ∷ "no" ∷ "al" ∷ "secret" ∷ [])

authenticate-typed_example :
    (t : ClientState (List String) Bool) × (authenticate daemon registry false 2 "reg" typed_twice
      ≡ some (ok "alsecret", t))
    × IsAfter daemon registry false good typed_twice (login "secret") [] t
authenticate-typed_example =
    authenticate-typed daemon registry false good 2 "reg" typed_twice (login "no" ∷ [])
      (login "secret") [] refl refl (λ a w. (answer (if good a then 200 else 401), refl, refl)) refl
      ((((λ e. ground (arith, eq_iff "al" "")), (λ e. ground (arith, eq_iff "no" ""))), refl), tt)
      (((λ e. ground (arith, eq_iff "al" "")), (λ e. ground (arith, eq_iff "secret" ""))), refl)
      refl (omega arith)

docker_hub_run :
    (pull daemon failing false 0 "busybox" (at [])
      ≡ some (ok tt, record (at []) { daemon = "busybox" ∷ []; output = "Pulling" ∷ "" ∷ [] }))
    × (push daemon failing false 0 "busybox" (at [])
        ≡ some (err docker_hub_authentication_not_supported, at []))
docker_hub_run =
    docker_hub_lem daemon failing false 0 "busybox"
      (record (named "busybox") { hostname = "docker.io" }) true (at []) refl refl refl
