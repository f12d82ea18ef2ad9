-- ===== src/Wrapper/DockerClient.antt =====
-- wrapper/dockerClient/dockerClient.go: building, pulling, pushing, inspecting and removing images.
-- docker's engine-api client, `http.DefaultClient`, `reference.ParseNamed`, and the JSON and base64 of
-- the login are interfaces. `logrus.Fatalln` ends the process, as a panic does: both are `panic`.
pub mod Build
pub mod Login
pub mod Laws
use dim.Prelude.{
  ℕ, zero, suc, String, Bool, true, false, not, Option, none, some, List, [], ◌∷◌, ◌++◌, map, ◌==◌,
  ltb, nat_eq, if◌then◌else◌,
}
use dim.Prelude.Dict.{Dict}
use dim.Prelude.Errors.{
  Error, docker_hub_authentication_not_supported, message, Result, ok, err, panic, ◌>>=◌,
}
use dim.Prelude.Text.{join}
use Prim.Native.String
use dim.Prelude.Exec.{Exec}
use dim.Dim.{ImageInspect}
use dim.Utils.{build_url}
use dim.Cli.Credentials.{AuthConfig, Console, read_credentials}
use dim.Registry.Client.{HttpResponse, Named}

-- One entry of the answer to `ImageRemove`.
pub record Removed : Type 0 where
  pub deleted : String
  pub untagged : String

-- A client `C` of the daemon, whose state is `W`. A pull or push that is answered is a stream of texts.
pub record Engine (W C : Type 0) : Type 0 where
  pub new_env_client : W → Result C
  pub container_create : C → (image name : String) → Exec W String
  pub container_commit : C → (id change reference : String) → Exec W (Unit {0})
  pub container_remove : C → (id : String) → Exec W (Unit {0})
  pub image_pull : C → (image auth : String) → Exec W (List String)
  pub image_push : C → (image auth : String) → Exec W (List String)
  pub image_inspect : C → String → W → Result ImageInspect
  pub image_remove : C → String → Exec W (List Removed)

-- What else the client calls: the request with a login that tests it, and what is known of names.
pub record Outside (W : Type 0) : Type 0 where
  pub is_valid_url : String → Bool
  pub do_request : (url : String) → AuthConfig → Exec W HttpResponse
  pub encode_auth : AuthConfig → Result String
  pub parse_named : String → Result Named
  pub default_hostname : String

-- `DockerClient`, with the daemon it talks to, the terminal it asks at and what it printed.
pub record ClientState (W C : Type 0) : Type 0 where
  pub daemon : W
  pub c : Option C
  pub auth : Option AuthConfig
  pub console : Console
  pub output : List String

abbrev quoted : String × String → String
quoted (k, v) = String.◌++◌ k (String.◌++◌ "=\"" (String.◌++◌ v "\""))

unfoldable pub change_labels : Dict String → String
change_labels m = String.◌++◌ "LABEL " (join (map quoted m) " ")

abbrev pub no_login : AuthConfig
no_login = record { username = ""; password = "" }

abbrev pub login_of : Option AuthConfig → AuthConfig
login_of none = no_login
login_of (some auth) = auth

module _ {W C : Type 0} (engine : Engine W C) (outside : Outside W) (insecure : Bool) where
  abbrev pub State : Type 0
  State = ClientState W C

  abbrev keep_client : Result C → Exec State C
  keep_client (ok cli) s = (ok cli, record s { c = some cli })
  keep_client (err e) s = (err e, s)
  keep_client panic s = (panic, s)

  -- `Client` connects once.
  unfoldable pub client : Exec State C
  client s = elim s.c [
    | some cli ↦ (ok cli, s)
    | none ↦ keep_client (engine.new_env_client s.daemon) s
  ]

  -- A call of the daemon by the client.
  abbrev pub on_daemon : {A : Type 0} → Exec W A → Exec State A
  on_daemon call s = let (r, w) = call s.daemon in (r, record s { daemon = w })

  -- Each operation starts by connecting, and the process ends where that fails.
  abbrev connected : {A : Type 0} → Result C → (C → Exec State A) → Exec State A
  connected (ok cli) f s = f cli s
  connected _ f s = (panic, s)

  unfoldable pub with_client : {A : Type 0} → (C → Exec State A) → Exec State A
  with_client f s = let (cli, s') = client s in connected cli f s'

  -- The error of the removal is only logged.
  abbrev pub remove_temp : Result (Unit {0}) × State → Result (Unit {0}) × State
  remove_temp (panic, s) = (panic, s)
  remove_temp (r, s) = (ok tt, s)

  abbrev committed : C → String → Result (Unit {0}) → Exec State (Unit {0})
  committed cli id (ok done) s = remove_temp (on_daemon (engine.container_remove cli id) s)
  committed cli id _ s = (panic, s)

  abbrev created : C → Dict String → String → Result String → Exec State (Unit {0})
  created cli labels tag (ok id) s =
      let (r, s') = on_daemon (engine.container_commit cli id (change_labels labels) tag) s in
      committed cli id r s'
  created cli labels tag _ s = (panic, s)

  -- `temp_name` is "dim_" with the time.
  unfoldable pub image_build :
      (temp_name parent : String) → Dict String → String → Exec State (Unit {0})
  image_build temp_name parent labels tag = with_client λ cli s.
      let (id, s') = on_daemon (engine.container_create cli parent temp_name) s in
      created cli labels tag id s'

  unfoldable pub inspect : String → Exec State ImageInspect
  inspect image = with_client λ cli s. (engine.image_inspect cli image s.daemon, s)

  abbrev removed_lines : List Removed → List String
  removed_lines [] = []
  removed_lines (r ∷ rs) =
      (if r.deleted == "" then [] else String.◌++◌ r.deleted " deleted" ∷ [])
      ++ (if r.untagged == "" then [] else String.◌++◌ r.untagged " untagged" ∷ [])
      ++ removed_lines rs

  -- The lines that are printed for an answer, and its result without the answer.
  abbrev pub printed :
      {A : Type 0} → (A → List String) → Result A × State → Result (Unit {0}) × State
  printed lines (ok a, s) = (ok tt, record s { output = s.output ++ lines a })
  printed lines (err e, s) = (err e, s)
  printed lines (panic, s) = (panic, s)

  unfoldable pub remove : String → Exec State (Unit {0})
  remove image =
      with_client λ cli s. printed removed_lines (on_daemon (engine.image_remove cli image) s)

  abbrev pub auth_url : String → String
  auth_url registry_url = build_url (String.◌++◌ registry_url "/v2/") insecure

  abbrev not_private : String → Error
  not_private url = message (String.◌++◌ url " not a private registry")

  -- The end of `Authenticate`: the last answer was no refusal.
  abbrev pub accepted : String → HttpResponse → State → Result String
  accepted url resp s =
      if nat_eq resp.status_code 404
      then err (not_private url)
      else outside.encode_auth (login_of s.auth)

  abbrev server_error : HttpResponse → Error
  server_error resp = message (String.◌++◌ "Server error occured : " resp.body)

  -- The prompts change the login that the client keeps.
  unfoldable pub prompted : State → State
  prompted s =
      let (auth, console) = read_credentials (login_of s.auth) s.console in
      record s { auth = some auth; console = console }

  -- The request with the login that the client keeps.
  abbrev pub try_login : String → Exec State HttpResponse
  try_login url s = on_daemon (outside.do_request url (login_of s.auth)) s

  -- What the body of the loop does with the answer to its request. A request without an answer leaves
  -- `resp` nil, which is dereferenced.
  unfoldable pub retried :
      (again : State → Option (Result String × State))
      → (url : String) → Result HttpResponse × State
      → Option (Result String × State)
  retried again url (ok resp, s) = elim (ltb 401 resp.status_code) [
    | true ↦ some (err (server_error resp), s)
    | false ↦ elim (nat_eq resp.status_code 401) [
      | true ↦ again s
      | false ↦ some (accepted url resp s, s)
    ]
  ]
  retried again url (_, s) = some (panic, s)

  -- The body of the loop, run after an answer 401.
  unfoldable pub authenticate_loop : ℕ → String → State → Option (Result String × State)
  authenticate_loop zero url s = none
  authenticate_loop (suc fuel) url s =
      retried (authenticate_loop fuel url) url (try_login url (prompted s))

  -- `resp.StatusCode` is read behind the loop, also where the request failed and `resp` is nil.
  abbrev first_answer : ℕ → String → Result HttpResponse → State → Option (Result String × State)
  first_answer fuel url (ok resp) s =
      let again = authenticate_loop fuel url s in
      if nat_eq resp.status_code 401 then again else some (accepted url resp s, s)
  first_answer fuel url _ s = some (panic, s)

  unfoldable pub authenticate : ℕ → String → State → Option (Result String × State)
  authenticate fuel registry_url s =
      let s0 = record s { auth = some (login_of s.auth) } in
      let url = auth_url registry_url in
      let (answer, s1) = try_login url s0 in
      let tested = first_answer fuel url answer s1 in
      if registry_url == outside.default_hostname
      then some (err docker_hub_authentication_not_supported, s)
      else if outside.is_valid_url url
      then tested
      else some (panic, s0)

  abbrev map_result :
      {A B : Type 0} → (A × State → B × State) → Option (A × State) → Option (B × State)
  map_result f none = none
  map_result f (some p) = some (f p)

  -- The statuses of a pull are printed. Without a login, docker hub is asked as nobody.
  abbrev pull_as : C → String → Result String × State → Result (Unit {0}) × State
  pull_as cli image (ok auth, s) =
      printed (λ lines. lines) (on_daemon (engine.image_pull cli image auth) s)
  pull_as cli image (err docker_hub_authentication_not_supported, s) =
      printed (λ lines. lines) (on_daemon (engine.image_pull cli image "") s)
  pull_as cli image (err e, s) = (err e, s)
  pull_as cli image (panic, s) = (panic, s)

  abbrev dots : List String → String
  dots [] = "."
  dots (status ∷ statuses) = String.◌++◌ "." (dots statuses)

  abbrev push_as : C → String → Result String × State → Result (Unit {0}) × State
  push_as cli image (ok auth, s) =
      printed (λ statuses. String.◌++◌ "Pushing image..." (dots statuses) ∷ [])
        (on_daemon (engine.image_push cli image auth) s)
  push_as cli image (err e, s) = (err e, s)
  push_as cli image (panic, s) = (panic, s)

  -- What `Pull` and `Push` share: the client, the name of the image, and the login at its registry.
  abbrev authenticated :
      ℕ
      → (C → String → Result String × State → Result (Unit {0}) × State)
      → String
      → Result C
      → Result Named
      → State
      → Option (Result (Unit {0}) × State)
  authenticated fuel use_login image (ok cli) (ok n) s =
      map_result (use_login cli image) (authenticate fuel n.hostname s)
  authenticated fuel use_login image (ok cli) (err e) s = some (err e, s)
  authenticated fuel use_login image _ _ s = some (panic, s)

  unfoldable pub pull : ℕ → String → State → Option (Result (Unit {0}) × State)
  pull fuel image s =
      let (cli, s') = client s in
      authenticated fuel pull_as image cli (outside.parse_named image) s'

  unfoldable pub push : ℕ → String → State → Option (Result (Unit {0}) × State)
  push fuel image s =
      let (cli, s') = client s in
      authenticated fuel push_as image cli (outside.parse_named image) s'
