-- ===== src/Server/Tests.antt =====
-- Runs of the server's code at concrete requests, and the server's theorems at inputs that meet
-- their hypotheses.
use dim.Prelude.{
  ℕ, ◌+◌, String, ◌≡◌, refl, ◌≢◌, ◌↔◌, ◌⊎◌, inl, inr, false, Option, none, some, List, [], ◌∷◌,
  ◌++◌, ◌==◌,
}
use dim.Prelude.Dict.{lookup}
use dim.Prelude.Errors.{Error, Result, ok}
use Prim.Native.String
use dim.Types.{SearchResults, NotificationJob}
use dim.Server.Handlers.{
  RegistryIndex, Event, media_type_manifest, search, process_event, process_events,
  notify_image_change, serve,
}
use dim.Server.Handlers.Laws.{
  AsksAll, submit_all, notify_image_change-submits, search_status, serve-refused,
}
use dim.Server.Proxy.{RegistryProxy, rewrite, rewrite_lem}
use dim.Server.Http.{
  write_header, http_error, form_value, Request, Response, HandlerFunc, new_response, write,
}
use dim.Server.Config.{Regexp, Authorization, Config, applies}
use dim.Server.Middleware.{get_authorization, grant_access, security_filter, reject}
use dim.Server.Middleware.Laws.{
  Outcome, security_filter_lem, IsRefused, Grants, grant_access_iff, first,
}

-- A regexp that is a literal prefix, with ".*" or "$" at its end left off.
abbrev prefixes : Regexp String
prefixes = record { compile = λ s. ok s; match_string = λ r s. r == s }

abbrev digest : String → String
digest s = String.◌++◌ "sha:" s

abbrev rules : Config String
rules = record {
  port = ":6000";
  authorizations =
      record {
        path = "/v1/search";
        method = "GET";
        users = some (record { username = "al"; password = "sha:pw" } ∷ []);
        path_regexp = some "/v1/search";
      }
      ∷ record { path = "/"; method = ""; users = none; path_regexp = some "/" }
      ∷ [];
}

abbrev get : String → Option (String × String) → Request
get path login = record {
  method = "GET";
  url_scheme = "http";
  url_host = "";
  url_path = path;
  host = "h";
  tls = false;
  header = [];
  basic_auth = login;
  form_error = none;
  form = [];
  body = "";
}

abbrev counting : HandlerFunc ℕ
counting req w n = ok (write "done" w, n + 1)

filter_runs :
    (security_filter prefixes digest rules counting
        (get "/v1/search" (some ("al", "pw")))
        new_response
        4
      ≡ ok (write "done" new_response, 5))
    × (security_filter prefixes digest rules counting
          (get "/v1/search" (some ("al", "no")))
          new_response
          4
        ≡ ok (reject "You are not allowed to access URLs matching /v1/search" new_response, 4))
    × (security_filter prefixes digest rules counting (get "" none) new_response 4
        ≡ ok (write "done" new_response, 5))
unfolding security_filter get_authorization grant_access applies
filter_runs = (refl, refl, refl)

security_filter_lem_example :
    Outcome prefixes digest rules counting (get "/v1/search" none) new_response 4
security_filter_lem_example =
    security_filter_lem prefixes digest rules counting (get "/v1/search" none) new_response 4
      (("/v1/search", refl), (("/", refl), tt))

-- An index that keeps the jobs submitted to it, and finds nothing.
abbrev logging : RegistryIndex (List NotificationJob)
logging = record {
  search_images = λ q a fields offset n s. ok (record { total = 0; images = [] });
  submit = λ job s. s ++ job ∷ [];
}

abbrev event : String → String → Event
event action media = record {
  action = action;
  media_type = media;
  repository = "repo";
  tag = "1";
  digest = "sha256:d";
}

abbrev decode_two : String → Result (List Event)
decode_two body = ok (event "push" media_type_manifest ∷ event "pull" "" ∷ event "delete" "" ∷ [])

abbrev two_jobs : List NotificationJob
two_jobs =
    record { action = "push"; repository = "repo"; tag = "1"; digest = "sha256:d" }
    ∷ record { action = "delete"; repository = ""; tag = ""; digest = "sha256:d" }
    ∷ []

notify_run :
    notify_image_change logging decode_two (get "/dim/notify" none) new_response []
    ≡ ok (write "Notiifcation handled !\n" (write_header 200 new_response), two_jobs)
unfolding notify_image_change process_events process_event
notify_run = refl

notify_image_change-submits_example :
    (jobs : List NotificationJob) × AsksAll
      (event "push" media_type_manifest ∷ event "pull" "" ∷ event "delete" "" ∷ [])
      jobs
    × (notify_image_change logging decode_two (get "/dim/notify" none) new_response []
        ≡ ok (
          write "Notiifcation handled !\n" (write_header 200 new_response),
          submit_all logging decode_two jobs [],
        ))
notify_image_change-submits_example =
    notify_image_change-submits logging decode_two (get "/dim/notify" none) new_response []
      (event "push" media_type_manifest ∷ event "pull" "" ∷ event "delete" "" ∷ []) refl

abbrev as_text : SearchResults → Result String
as_text r = ok r.query

abbrev query : Option Error → String → Request
query e q = record {
  method = "GET";
  url_scheme = "http";
  url_host = "";
  url_path = "/v1/search";
  host = "h";
  tls = false;
  header = [];
  basic_auth = none;
  form_error = e;
  form = ("q", q ∷ []) ∷ [];
  body = "";
}

abbrev no_criteria : Response
no_criteria = http_error "No search criteria provided" 400 new_response

no_criteria_run : search logging as_text (query none "") new_response [] ≡ ok (no_criteria, [])
unfolding search lookup
no_criteria_run = refl

search_status_example :
    ((no_criteria.status ≡ some 400) ↔ (
      (◌≢◌ {A = Option Error} none none)
      ⊎ ((form_value (query none "") "q" ≡ "") × (form_value (query none "") "a" ≡ ""))))
    × (◌≡◌ {A = List NotificationJob} [] [])
search_status_example =
    search_status logging as_text (query none "") [] no_criteria [] no_criteria_run

abbrev search_rule : Authorization String
search_rule = record {
  path = "/v1/search";
  method = "GET";
  users = some (record { username = "al"; password = "sha:pw" } ∷ []);
  path_regexp = some "/v1/search";
}

denied : ¬ Grants digest (get "/v1/search" none) search_rule
unfolding grant_access
denied g = cc ((grant_access_iff digest (get "/v1/search" none) search_rule).1 g)

refused : IsRefused prefixes digest rules (get "/v1/search" none) search_rule
refused = (first ("/v1/search", refl, refl, inr refl), denied)

serve-refused_example :
    serve prefixes digest rules
      (λ r. none)
      counting
      counting
      counting
      counting
      (get "/v1/search" none)
      new_response
      4
    ≡ ok (reject "You are not allowed to access URLs matching /v1/search" new_response, 4)
serve-refused_example =
    serve-refused prefixes digest rules (λ r. none) counting counting counting counting
      (get "/v1/search" none) new_response 4 search_rule (inl refl) refused

abbrev proxy : RegistryProxy
proxy = record {
  target = record { scheme = "https"; host = "reg" };
  username = "u";
  password = "p";
}

rewrite_lem_example :
    ((rewrite proxy (get "/v2/" none)).host ≡ "reg")
    × (lookup "X-Forwarded-Host" (rewrite proxy (get "/v2/" none)).header ≡ some ("h" ∷ []))
    × (lookup "X-Forwarded-Proto" (rewrite proxy (get "/v2/" none)).header
        ≡ lookup "X-Forwarded-Proto" [])
    × ((rewrite proxy (get "/v2/" none)).basic_auth ≡ some ("u", "p"))
    × ((rewrite proxy (get "/v2/" none)).method ≡ "GET")
    × ((rewrite proxy (get "/v2/" none)).url_path ≡ "/v2/")
    × ((rewrite proxy (get "/v2/" none)).body ≡ "")
rewrite_lem_example = rewrite_lem proxy (get "/v2/" none)
