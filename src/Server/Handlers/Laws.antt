-- ===== src/Server/Handlers/Laws.antt =====
-- What the handlers answer, and what reaches the index.
use dim.Prelude.{
  String, ◌≡◌, refl, ◌≢◌, ◌↔◌, ◌⊎◌, inl, inr, Option, none, some, List, [], ◌∷◌, arith, ◌==◌,
  eq_iff, Bool-cases, Option-cases,
}
use dim.Prelude.Errors.{Error, Result, ok}
use dim.Prelude.Int.{atoi}
use dim.Types.{SearchResults, IndexResults, NotificationJob, delete_action, push_action, Time, Info}
use dim.Environment
use dim.Environment.{Context, text, time}
use dim.Server.Http.{
  Request, Response, HandlerFunc, write, write_header, http_error, form_value, new_response,
}
use dim.Server.Config.{Regexp, Config, Authorization}
use dim.Server.Middleware.{reject, refusal}
use dim.Server.Middleware.Laws.{IsRefused, security_filter_refused}
use dim.Server.Handlers.{
  RegistryIndex, Event, media_type_manifest, max_results_of, fields_of, results_of, search,
  process_event, process_events, notify_image_change, version, serve, server_context,
}

-- The job that an event asks for, if any: deletions by digest, pushes of manifests with their tag.
pub data Asks : Event → Option NotificationJob → Type 0 where
  deletion :
      (e : Event)
      → e.action ≡ "delete"
      → Asks e
          (some (record { action = delete_action; repository = ""; tag = ""; digest = e.digest }))
  pushed :
      (e : Event)
      → e.action ≡ "push"
      → e.media_type ≡ media_type_manifest
      → Asks e (
          some (record {
            action = push_action;
            repository = e.repository;
            tag = e.tag;
            digest = e.digest;
          }))
  other_media : (e : Event) → e.action ≡ "push" → e.media_type ≢ media_type_manifest → Asks e none
  other_action : (e : Event) → e.action ≢ "delete" → e.action ≢ "push" → Asks e none

-- The jobs that a list of events asks for, in order.
pub data AsksAll : List Event → List NotificationJob → Type 0 where
  done : AsksAll [] []
  asked :
      {e : Event} {es : List Event} {j : NotificationJob} {js : List NotificationJob}
      → Asks e (some j)
      → AsksAll es js
      → AsksAll (e ∷ es) (j ∷ js)
  ignored :
      {e : Event} {es : List Event} {js : List NotificationJob}
      → Asks e none
      → AsksAll es js
      → AsksAll (e ∷ es) js

pub asked_by : (e : Event) → (o : Option NotificationJob) × Asks e o
asked_by e = elim (Bool-cases (e.action == "delete")) [
  | inl del ↦ (_, deletion e ((eq_iff e.action "delete").0 del))
  | inr keep ↦ elim (Bool-cases (e.action == "push")) [
    | inl push ↦ elim (Bool-cases (e.media_type == media_type_manifest)) [
      | inl manifest ↦ (
        _,
        pushed e ((eq_iff e.action "push").0 push)
            ((eq_iff e.media_type media_type_manifest).0 manifest),
      )
      | inr other ↦ (
        _,
        other_media e ((eq_iff e.action "push").0 push)
            (ground (arith, eq_iff e.media_type media_type_manifest)),
      )
    ]
    | inr other ↦ (
      _,
      other_action e (ground (arith, eq_iff e.action "delete"))
          (ground (arith, eq_iff e.action "push")),
    )
  ]
]

pub jobs_of : (es : List Event) → (js : List NotificationJob) × AsksAll es js
jobs_of [] = ([], done)
jobs_of (e ∷ es) = add (asked_by e) (jobs_of es)
  where
    add :
        (o : Option NotificationJob) × Asks e o
        → (js : List NotificationJob) × AsksAll es js
        → (js : List NotificationJob) × AsksAll (e ∷ es) js
    add (none, a) (js, as_) = (js, ignored a as_)
    add (some j, a) (js, as_) = (j ∷ js, asked a as_)

module _ {S : Type 0} (index : RegistryIndex S) (decode : String → Result (List Event)) where
  -- Submitting jobs one after the other.
  abbrev pub submit_all : List NotificationJob → S → S
  submit_all [] s = s
  submit_all (j ∷ js) s = submit_all js (index.submit j s)

  abbrev submit_opt : Option NotificationJob → S → S
  submit_opt none s = s
  submit_opt (some j) s = index.submit j s

  process_event-Asks :
      (e : Event) (o : Option NotificationJob) (s : S)
      → Asks e o
      → process_event index decode e s ≡ submit_opt o s
  unfolding process_event
  process_event-Asks e o s (deletion _ d) = rw d
  process_event-Asks e o s (pushed _ p m) = rw (p, m)
  process_event-Asks e o s (other_media _ p m) =
      rw p (ground (arith, eq_iff e.media_type media_type_manifest))
  process_event-Asks e o s (other_action _ d p) =
      ground (arith, eq_iff e.action "delete", eq_iff e.action "push")

  pub process_events-AsksAll :
      (es : List Event) (js : List NotificationJob) (s : S)
      → AsksAll es js
      → process_events index decode es s ≡ submit_all js s
  unfolding process_events
  process_events-AsksAll es js s done = refl
  process_events-AsksAll es js s (asked {e} {es = rest} {j} {js = more} a as_) =
      rw (process_event-Asks e (some j) s a)
        (process_events-AsksAll rest more (index.submit j s) as_)
  process_events-AsksAll es js s (ignored {e} {es = rest} a as_) =
      rw (process_event-Asks e none s a) (process_events-AsksAll rest js s as_)

  -- A body that decodes is answered with 200, and exactly the jobs that its events ask for are
  -- submitted, in the order of the events.
  pub notify_image_change-submits :
      (r : Request) (w : Response) (s : S) (events : List Event)
      → decode r.body ≡ ok events
      → (jobs : List NotificationJob) × AsksAll events jobs
        × (notify_image_change index decode r w s
            ≡ ok (write "Notiifcation handled !\n" (write_header 200 w), submit_all jobs s))
  unfolding notify_image_change
  notify_image_change-submits r w s events decoded =
      let (jobs, asks) = jobs_of events in
      (jobs, asks, ground (arith, decoded, process_events-AsksAll events jobs s asks))

module _ {S : Type 0} (index : RegistryIndex S) (marshal : SearchResults → Result String) where
  -- What `Search` asks of the index.
  abbrev pub asked_of : Request → S → Result IndexResults
  asked_of r s =
      index.search_images (form_value r "q") (form_value r "a") (fields_of r)
        (atoi (form_value r "offset")) (max_results_of r) s

  -- After a form that does not parse the search goes on: the client gets the status 400 with the
  -- error text, and behind it in the same body the results.
  pub search-bad_form :
      (r : Request) (s : S) (e : Error) (sr : IndexResults) (json : String)
      → r.form_error ≡ some e
      → form_value r "q" ≢ ""
      → asked_of r s ≡ ok sr
      → marshal (results_of (form_value r "q") sr) ≡ ok json
      → (answer : Response) × (search index marshal r new_response s ≡ ok (answer, s))
        × (answer.status ≡ some 400)
        × (answer.body ≡ "Failed to parse query\n" ∷ json ∷ [])
  unfolding search http_error
  search-bad_form r s e sr json bad given found coded = (
    write json (http_error "Failed to parse query" 400 new_response),
    ground (arith, eq_iff (form_value r "q") ""),
    refl,
    refl,
  )

  -- A request is answered 400 exactly if its form does not parse or holds no criterion; whatever the
  -- answer, the state of the index stays as it was.
  pub search_status :
      (r : Request) (s : S) (answer : Response) (s' : S)
      → search index marshal r new_response s ≡ ok (answer, s')
      → ((answer.status ≡ some 400)
          ↔ ((r.form_error ≢ none) ⊎ ((form_value r "q" ≡ "") × (form_value r "a" ≡ ""))))
        × (s' ≡ s)
  unfolding search http_error
  search_status r s answer s' h = elim (Option-cases r.form_error) [
    | inl good ↦ ground (arith, eq_iff (form_value r "q") "", eq_iff (form_value r "a") "")
    | inr (e, bad) ↦ ground (arith, eq_iff (form_value r "q") "", eq_iff (form_value r "a") "")
  ]

module _ (now : Time) (duration_string : Time → Time → String)
    (marshal_info : Info → Result String) where
  -- The version handler of a server that was started at `start` with the version `v` reports that
  -- version and the time since the start.
  pub version-server_context :
      {S : Type 0} (ctx : Context) (start : Time) (v json : String) (r : Request) (w : Response)
      (s : S)
      → marshal_info (record { version = v; uptime = duration_string start now }) ≡ ok json
      → version now duration_string marshal_info
          (server_context (Environment.set ctx Environment.version_key (text v)) start)
          r
          w
          s
        ≡ ok (write json w, s)
  unfolding version server_context Environment.set Environment.get
  version-server_context ctx start v json r w s coded = rw coded

-- A request that goes to a handler of this program: its path is that of one, or the mux neither redirects it
-- nor has a handler of another package for it.
abbrev pub IsRouted : {S : Type 0} → (Request → Option (HandlerFunc S)) → Request → Type 0
IsRouted others r =
    (r.url_path ≡ "/v1/search")
    ⊎ ((r.url_path ≡ "/dim/notify") ⊎ ((r.url_path ≡ "/dim/version") ⊎ (others r ≡ none)))

-- A request that the rules refuse, if its path is one of the three of the server or the mux neither redirects
-- it nor gives it to a handler of another package, reaches no handler, that of the registry included: it
-- is answered 401 and the state behind the handlers, that of the index and of the registry, is unchanged.
pub serve-refused :
    {R S : Type 0} (rx : Regexp R) (sha256 : String → String) (cfg : Config R)
    (others : Request → Option (HandlerFunc S)) (find notify info forward : HandlerFunc S)
    (r : Request) (w : Response) (s : S) (auth : Authorization R)
    → IsRouted others r
    → IsRefused rx sha256 cfg r auth
    → serve rx sha256 cfg others find notify info forward r w s ≡ ok (reject (refusal auth) w, s)
unfolding serve
serve-refused rx sha256 cfg others find notify info forward r w s auth routed refused =
    let answered =
      λ (hf : HandlerFunc _). security_filter_refused rx sha256 cfg hf r w s auth refused in
    ground (
      arith,
      answered find,
      answered notify,
      answered info,
      answered forward,
      eq_iff r.url_path "/v1/search",
      eq_iff r.url_path "/dim/notify",
      eq_iff r.url_path "/dim/version",
    )
