-- ===== src/System/Http.antt =====
-- An HTTP client whose requests are answered by a handler of this program: what the wire carries from
-- lib/registry/registry.go to server/server.go. A handler that panics closes the connection.
use dim.Prelude.{ℕ, String, false, Option, none, some, List, [], ◌∷◌}
use dim.Prelude.Dict.{Dict}
use dim.Prelude.Errors.{eof, Result, ok, err, panic}
use Prim.Native.String
use dim.Server.Http.{Request, Response, new_response, HandlerFunc}
use dim.Registry.Client.{HttpResponse, HttpClient}

abbrev pub concat : List String → String
concat [] = ""
concat (s ∷ texts) = String.◌++◌ s (concat texts)

-- A handler that never sends a status has sent 200.
abbrev pub status_of : Option ℕ → ℕ
status_of none = 200
status_of (some code) = code

-- `status_line` is the text of a status.
abbrev pub received : (ℕ → String) → Response → HttpResponse
received status_line w = record {
  status_code = status_of w.status;
  status = status_line (status_of w.status);
  body = concat w.body;
}

-- `path_of` is the path of a URL; the form that is posted is what `ParseForm` reads.
module _ {S : Type 0} (path_of : String → String) (status_line : ℕ → String)
    (hf : HandlerFunc S) where
  abbrev pub request : (method endpoint : String) → Dict (List String) → Request
  request method endpoint form = record {
    method = method;
    url_scheme = "";
    url_host = "";
    url_path = path_of endpoint;
    host = "";
    tls = false;
    header = [];
    basic_auth = none;
    form_error = none;
    form = form;
    body = "";
  }

  abbrev answered : Result (Response × S) → S → Result HttpResponse × S
  answered (ok (w, s')) s = (ok (received status_line w), s')
  answered (err e) s = (err eof, s)
  answered panic s = (err eof, s)

  abbrev pub over_http : HttpClient S
  over_http = record {
    post_form = λ endpoint form s. answered (hf (request "POST" endpoint form) new_response s) s;
    get = λ endpoint s. answered (hf (request "GET" endpoint []) new_response s) s;
  }
