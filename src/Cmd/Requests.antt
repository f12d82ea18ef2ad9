-- ===== src/Cmd/Requests.antt =====
-- The functions of the hooks in cmd/server.go, and those that only print in cmd/hooktest.go. `http` sends
-- a request, `canonical` is the form in which `http.Header` keeps a key.
use dim.Prelude.{
  String, ◌≡◌, refl, sym, ap, ◌∙◌, inl, inr, Bool, Option, none, some, List, [], ◌∷◌, ◌++◌, ◌==◌,
  eq_iff, if◌then◌else◌, Bool-cases,
}
use dim.Prelude.Dict.{Dict, lookup, insert, lookup-insert}
use dim.Prelude.Errors.{panic}
use Prim.Native.String
use mathlib.Core.List.{append-nil, append_assoc}
use dim.Prelude.Exec.{Exec}

abbrev pub Header : Type 0
Header = Dict (List String)

pub record NotificationRequest : Type 0 where
  pub method : String
  pub payload : String
  pub headers : Header

abbrev pub default_notification_request : NotificationRequest
default_notification_request = record { method = "GET"; payload = ""; headers = [] }

abbrev values_at : Option (List String) → List String
values_at none = []
values_at (some values) = values

-- All the values of a key.
abbrev pub values_of : String → Header → List String
values_of key h = values_at (lookup key h)

-- `http.Header.Add`
unfoldable pub add_header : (canonical : String → String) → String → String → Header → Header
add_header canonical key value h =
    insert (canonical key) (values_of (canonical key) h ++ value ∷ []) h

-- A `notificationRequestOption`, by the function that makes it.
pub data RequestOption : Type 0 where
  with_payload : String → RequestOption
  with_method : String → RequestOption
  with_header : (key value : String) → RequestOption

module _ (canonical : String → String) where
  abbrev pub apply_option : RequestOption → NotificationRequest → NotificationRequest
  apply_option (with_payload payload) req = record req { payload = payload }
  apply_option (with_method method) req = record req { method = method }
  apply_option (with_header key value) req = record req {
    headers = add_header canonical key value req.headers;
  }

  -- The loop over the options.
  unfoldable pub apply_options : List RequestOption → NotificationRequest → NotificationRequest
  apply_options [] req = req
  apply_options (option ∷ options) req = apply_options options (apply_option option req)

  -- `sendRequest`: the answer is only logged.
  unfoldable pub send_request :
      {W : Type 0}
      → (http : String → NotificationRequest → Exec W (Unit {0})) → (valid : String → String → Bool)
      → (url : String) → List RequestOption
      → Exec W (Unit {0})
  send_request http valid url options w =
      let request = apply_options options default_notification_request in
      if valid request.method url then http url request w else (panic, w)

  -- What the test of a hook says of the request. `show` is the "%v" of the headers.
  unfoldable pub would_send :
      (show : Header → String) → (url : String) → List RequestOption → String
  would_send show url options =
      let request = apply_options options default_notification_request in
      if request.payload == ""
      then String.◌++◌ "Would have sent request with method " (
          String.◌++◌ request.method (
            String.◌++◌ " to " (
              String.◌++◌ url
                (String.◌++◌ " with headers " (String.◌++◌ (show request.headers) "\n")))))
      else String.◌++◌ "Would have sent payload " (
          String.◌++◌ request.payload (
            String.◌++◌ " with method " (
              String.◌++◌ request.method (
                String.◌++◌ " to " (
                  String.◌++◌ url
                    (String.◌++◌ " with headers " (String.◌++◌ (show request.headers) "\n")))))))

  -- The values that the options give to a key, in their order.
  abbrev pub given_values : String → List RequestOption → List String
  given_values key [] = []
  given_values key (with_header k value ∷ options) =
      (if canonical k == key then value ∷ [] else []) ++ given_values key options
  given_values key (_ ∷ options) = given_values key options

  -- The last payload and method among the options, or what they were.
  abbrev pub last_payload : String → List RequestOption → String
  last_payload p [] = p
  last_payload p (with_payload q ∷ options) = last_payload q options
  last_payload p (_ ∷ options) = last_payload p options

  abbrev pub last_method : String → List RequestOption → String
  last_method m [] = m
  last_method m (with_method n ∷ options) = last_method n options
  last_method m (_ ∷ options) = last_method m options

  values_of-add_header :
      (key k value : String) (h : Header)
      → values_of key (add_header canonical k value h)
        ≡ values_of key h ++ (if canonical k == key then value ∷ [] else [])
  unfolding add_header
  values_of-add_header key k value h =
      let k' = canonical k in
      let seen = lookup-insert k' key (values_of k' h ++ value ∷ []) h in
      elim (Bool-cases (k' == key)) [
        | inl same ↦
            let one : k' ≡ key = (eq_iff k' key).0 same in
            rw (seen, same) (ap (λ x. values_of x h ++ value ∷ []) one)
        | inr other ↦ rw (seen, other) (sym (append-nil (values_of key h)))
      ]

  -- The request that the options make: its payload and its method are those of the last option that gives
  -- one, and a header has, behind the values it had, those that the options give to its key in their order.
  pub apply_options_lem :
      (options : List RequestOption) (req : NotificationRequest) (key : String)
      → ((apply_options options req).payload ≡ last_payload req.payload options)
        × ((apply_options options req).method ≡ last_method req.method options)
        × (values_of key (apply_options options req).headers
            ≡ values_of key req.headers ++ given_values key options)
  unfolding apply_options
  apply_options_lem [] req key = (refl, refl, sym (append-nil (values_of key req.headers)))
  apply_options_lem (with_payload payload ∷ options) req key =
      apply_options_lem options (record req { payload = payload }) key
  apply_options_lem (with_method method ∷ options) req key =
      apply_options_lem options (record req { method = method }) key
  apply_options_lem (with_header k value ∷ options) req key =
      let (p, m, h) =
        apply_options_lem options
          (record req { headers = add_header canonical k value req.headers }) key in
      (
        p,
        m,
        h
            ∙ ap (λ x. x ++ given_values key options) (values_of-add_header key k value req.headers)
            ∙ append_assoc (values_of key req.headers)
                (if canonical k == key then value ∷ [] else []) (given_values key options),
      )
