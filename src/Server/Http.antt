-- ===== src/Server/Http.antt =====
-- The parts of Go's `net/http` that the server package uses: requests, response writers, handlers.
use dim.Prelude.{ℕ, String, Bool, Option, none, some, List, [], ◌∷◌, ◌++◌}
use dim.Prelude.Dict.{Dict, lookup, insert}
use dim.Prelude.Errors.{Error, Result}
use Prim.Native.String

-- `http.Header`, with the names as the source spells them.
abbrev pub Header : Type 0
Header = Dict (List String)

-- `Header.Set`
abbrev pub header_set : String → String → Header → Header
header_set key value h = insert key (value ∷ []) h

-- `basic_auth` is what `BasicAuth()` reads from the Authorization header; `form_error` and `form` are
-- what `ParseForm` returns and leaves in `r.Form`.
pub record Request : Type 0 where
  pub method : String
  pub url_scheme : String
  pub url_host : String
  pub url_path : String
  pub host : String
  pub tls : Bool
  pub header : Header
  pub basic_auth : Option (String × String)
  pub form_error : Option Error
  pub form : Dict (List String)
  pub body : String

-- `r.Form.Get` and `r.FormValue`: the first value, or the empty text.
abbrev pub form_value : Request → String → String
form_value r key = elim (lookup key r.form) [ some (v ∷ _) ↦ v | _ ↦ "" ]

-- What a handler has done to its `ResponseWriter`: the status once it is sent, the header map, and
-- the texts written to the body, in order.
pub record Response : Type 0 where
  pub status : Option ℕ
  pub header : Header
  pub body : List String

abbrev pub new_response : Response
new_response = record { status = none; header = []; body = [] }

-- Only the first call of `WriteHeader` has an effect.
abbrev pub write_header : ℕ → Response → Response
write_header code w = elim w.status [ none ↦ record w { status = some code } | some c ↦ w ]

-- `Write` sends the status 200 if none was sent.
abbrev pub write : String → Response → Response
write s w = let w' = write_header 200 w in record w' { body = w'.body ++ s ∷ [] }

-- `http.Error`
unfoldable pub http_error : String → ℕ → Response → Response
http_error text code w =
    let typed = record w {
      header =
          header_set "X-Content-Type-Options" "nosniff"
            (header_set "Content-Type" "text/plain; charset=utf-8" w.header);
    } in
    write (String.◌++◌ text "\n") (write_header code typed)

-- A handler reads a request, writes a response and may change the state of what it closes over.
abbrev pub HandlerFunc : Type 0 → Type 0
HandlerFunc S = Request → Response → S → Result (Response × S)
