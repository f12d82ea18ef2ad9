-- ===== src/Server/Handlers.antt =====
-- server/server.go: the search, notification and version handlers, and the server's routes.
-- The index behind the handlers is the interface `dim.RegistryIndex`; JSON coding, the current time
-- and the printing of a duration are parameters.
pub mod Laws
use dim.Prelude.{String, false, ◌&&◌, Option, none, some, List, [], ◌∷◌, map, ◌==◌, if◌then◌else◌}
use dim.Prelude.Dict.{lookup}
use dim.Prelude.Errors.{◌>>=◌, error_text, Result, ok, err, panic}
use Prim.Native.String
use dim.Prelude.Int.{ℤ, pos, atoi, is_zero}
use dim.Types.{
  SearchResult, SearchResults, Info, IndexImage, IndexResults, NotificationJob, delete_action,
  push_action, Time,
}
use dim.Environment
use dim.Environment.{Context, text, time}
use dim.Server.Http.{Request, Response, HandlerFunc, write, write_header, http_error, form_value}
use dim.Server.Config.{Regexp, Config}
use dim.Server.Middleware.{security_filter}

-- The methods of `dim.RegistryIndex` that the handlers call, over the state of the index.
pub record RegistryIndex (S : Type 0) : Type 0 where
  pub search_images : String → String → List String → ℤ → ℤ → S → Result IndexResults
  pub submit : NotificationJob → S → S

-- An event of a registry notification, with the fields that the handler reads.
pub record Event : Type 0 where
  pub action : String
  pub media_type : String
  pub repository : String
  pub tag : String
  pub digest : String

abbrev pub media_type_manifest : String
media_type_manifest = "application/vnd.docker.distribution.manifest.v2+json"

unfoldable pub image_to_search_result : IndexImage → SearchResult
image_to_search_result i = record {
  star_count = pos 0;
  is_official = false;
  is_automated = false;
  name = i.name;
  description = i.tag;
  tag = i.tag;
  full_name = i.full_name;
  created = i.created;
  label = i.label;
  volumes = i.volumes;
  exposed_ports = i.exposed_ports;
  env = i.env;
  size = i.size;
}

unfoldable pub build_results : IndexResults → List SearchResult
build_results sr = map image_to_search_result sr.images

-- The number of results asked for, 10 where none is given.
abbrev pub max_results_of : Request → ℤ
max_results_of r = let n = atoi (form_value r "maxResults") in if is_zero n then pos 10 else n

abbrev pub fields_of : Request → List String
fields_of r = elim (lookup "f" r.form) [ none ↦ [] | some fields ↦ fields ]

abbrev pub results_of : String → IndexResults → SearchResults
results_of q sr = record { query = q; num_results = sr.total; results = build_results sr }

module _ {S : Type 0} (index : RegistryIndex S) (marshal : SearchResults → Result String) where
  -- The end of `Search`, once the index has answered.
  abbrev pub respond : String → Response → Result IndexResults → Result Response
  respond q w (ok sr) = elim (marshal (results_of q sr)) [
    | ok b ↦ ok (write b w)
    | err e ↦ ok (http_error "Failed to serialize the response" 500 w)
    | panic ↦ panic
  ]
  respond q w (err e) = ok (http_error "An error occured while procesing your request" 500 w)
  respond q w panic = panic

  -- A form that cannot be parsed is answered, and then the search goes on.
  abbrev pub after_form : Request → Response → Response
  after_form r w = elim r.form_error [
    | none ↦ w
    | some e ↦ http_error "Failed to parse query" 400 w
  ]

  unfoldable pub search : HandlerFunc S
  search r w s =
      let q = form_value r "q" in
      let a = form_value r "a" in
      let w' = after_form r w in
      if q == "" && a == "" then ok (http_error "No search criteria provided" 400 w', s) else do
        answer ← respond q w' (
            index.search_images q a (fields_of r) (atoi (form_value r "offset")) (max_results_of r)
              s)
        ok (answer, s)

module _ {S : Type 0} (index : RegistryIndex S) (decode : String → Result (List Event)) where
  -- The body of the loop over the events.
  unfoldable pub process_event : Event → S → S
  process_event event s =
      if event.action == "delete"
      then index.submit
          (record { action = delete_action; repository = ""; tag = ""; digest = event.digest }) s
      else if event.action == "push"
      then (if event.media_type == media_type_manifest
          then index.submit
              (record {
                action = push_action;
                repository = event.repository;
                tag = event.tag;
                digest = event.digest;
              })
              s
          else s)
      else s

  unfoldable pub process_events : List Event → S → S
  process_events [] s = s
  process_events (event ∷ events) s = process_events events (process_event event s)

  unfoldable pub notify_image_change : HandlerFunc S
  notify_image_change r w s = elim (decode r.body) [
    | ok events ↦
        ok (write "Notiifcation handled !\n" (write_header 200 w), process_events events s)
    | err e ↦ ok (write (String.◌++◌ (error_text e) "\n") (write_header 400 w), s)
    | panic ↦ panic
  ]

module _ (now : Time) (duration_string : Time → Time → String)
    (marshal_info : Info → Result String) where
  -- The type assertions `v.(string)` and `start.(time.Time)`; a missing key leaves the field empty.
  abbrev pub version_text : Option Environment.Value → Result String
  version_text none = ok ""
  version_text (some (text v)) = ok v
  version_text (some (time t)) = panic

  abbrev pub uptime_text : Option Environment.Value → Result String
  uptime_text none = ok ""
  uptime_text (some (time t)) = ok (duration_string t now)
  uptime_text (some (text v)) = panic

  abbrev pub write_info : Response → Result String → Result Response
  write_info w (ok b) = ok (write b w)
  write_info w (err e) = ok (http_error "Failed to serialize the response" 500 w)
  write_info w panic = panic

  unfoldable pub version : {S : Type 0} → Context → HandlerFunc S
  version ctx r w s = do
    v ← version_text (Environment.get ctx Environment.version_key)
    uptime ← uptime_text (Environment.get ctx Environment.start_time_key)
    answer ← write_info w (marshal_info (record { version = v; uptime = uptime }))
    ok (answer, s)

-- The handlers that `NewServer` registers with the default mux of `net/http`, by the path of the request.
-- The mux picks the longest pattern, so that an exact path goes to its handler. `others` is what it has
-- at other paths instead of the handler of the root: the redirection of a path that is not clean, and the
-- handlers that other packages of the program register, such as that of expvar.
module _ {R S : Type 0} (rx : Regexp R) (sha256 : String → String) (cfg : Config R)
    (others : Request → Option (HandlerFunc S)) where
  unfoldable pub serve : (search notify version forward : HandlerFunc S) → HandlerFunc S
  serve search notify version forward r w s =
      if r.url_path == "/v1/search"
      then security_filter rx sha256 cfg search r w s
      else if r.url_path == "/dim/notify"
      then security_filter rx sha256 cfg notify r w s
      else if r.url_path == "/dim/version"
      then security_filter rx sha256 cfg version r w s
      else elim (others r) [ some h ↦ h r w s | none ↦ security_filter rx sha256 cfg forward r w s ]

-- The context that `NewServer` builds for the version handler.
unfoldable pub server_context : Context → Time → Context
server_context ctx now = Environment.set ctx Environment.start_time_key (time now)
