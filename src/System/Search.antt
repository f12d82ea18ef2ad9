-- ===== src/System/Search.antt =====
-- `Client.Search` of lib/registry/registry.go against the `Search` handler of server/server.go.
use dim.Prelude.{
  ℕ, String, ◌≡◌, refl, ◌∙◌, true, false, ◌&&◌, Option, none, [], arith, ◌==◌, eq_iff,
}
use dim.Prelude.Errors.{Result, ok, ◌>>=◌}
use Prim.Native.String
use text.Mathlib.TextLemmas.{append-nil}
use dim.Prelude.Int.{ℤ, is_zero}
use dim.Prelude.Decimal.{IsInt64, atoi-itoa}
use dim.Prelude.Text.Trim.{trim_space, trim_slash}
use dim.Server.Middleware.{security_filter, get_authorization}
use dim.Types.{IndexResults, SearchResults, Info}
use dim.Server.Http.{Request, Response, new_response, HandlerFunc, write}
use dim.Server.Config.{Regexp, Config}
use dim.Server.Handlers.{
  RegistryIndex, respond, after_form, search, results_of, serve, max_results_of,
}
use dim.Registry.Client
use dim.Registry.Client.{search_values, search_fields}
use dim.System.Http.{over_http, request}
use dim.System.Form.{
  form_value-q, form_value-a, form_value-offset, form_value-max_results, fields_of-search_fields,
}

module _ {S R : Type 0} (index : RegistryIndex S) (marshal : SearchResults → Result String)
    (decode : String → Result SearchResults) (decode_info : String → Result Info) (rx : Regexp R)
    (sha256 : String → String) (cfg : Config R) (others : Request → Option (HandlerFunc S))
    (notify version forward : HandlerFunc S) (path_of : String → String) (status_line : ℕ → String)
    (url : String) where
  -- The client of an open server.
  abbrev pub remote_search :
      (query advanced : String) → (offset max_results : ℤ) → S → Result SearchResults × S
  remote_search =
      Client.search
        (over_http path_of status_line
          (serve rx sha256 cfg others (search index marshal) notify version forward))
        decode decode_info url

  abbrev posted : (query advanced : String) → (offset max_results : ℤ) → Request
  posted query advanced offset max_results =
      request path_of status_line
        (serve rx sha256 cfg others (search index marshal) notify version forward) "POST"
        (Client.search_endpoint
          (over_http path_of status_line
            (serve rx sha256 cfg others (search index marshal) notify version forward))
          decode decode_info url)
        (search_values query advanced offset max_results)

  serve_search :
      (r : Request) (w : Response) (s : S)
      → r.url_path ≡ "/v1/search"
      → cfg.authorizations ≡ []
      → serve rx sha256 cfg others (search index marshal) notify version forward r w s
        ≡ search index marshal r w s
  unfolding serve security_filter get_authorization
  serve_search r w s path no_rules =
      let here : (r.url_path == "/v1/search") ≡ true = (eq_iff r.url_path "/v1/search").1 path in
      rw (here, no_rules)

  asked_max_results :
      (query advanced : String) (offset max_results : ℤ) (r : Request)
      → r.form ≡ search_values query advanced offset max_results
      → IsInt64 max_results
      → is_zero max_results ≡ false
      → max_results_of r ≡ max_results
  asked_max_results query advanced offset max_results r sent fits some_ = rw (
    form_value-max_results query advanced offset max_results r sent,
    atoi-itoa max_results fits,
    some_,
  )

  responded :
      (q : String) (w : Response) (r : Request) (sr : IndexResults) (json : String) (s : S)
      → r.form_error ≡ none
      → marshal (results_of q sr) ≡ ok json
      → ◌>>=◌ {C = Response × S}
          (respond index marshal q (after_form index marshal r w) (ok sr))
          (λ answer. ok (answer, s))
        ≡ ok (write json w, s)
  responded q w r sr json s fine coded = ground (arith, fine, coded)

  handled :
      (query advanced : String) (offset max_results : ℤ) (r : Request) (w : Response) (s : S)
      (sr : IndexResults) (json : String)
      → r.form ≡ search_values query advanced offset max_results
      → r.form_error ≡ none
      → IsInt64 offset
      → IsInt64 max_results
      → is_zero max_results ≡ false
      → (trim_space query == "" && trim_space advanced == "") ≡ false
      → index.search_images
          (trim_space query)
          (trim_space advanced)
          search_fields
          offset
          max_results
          s
        ≡ ok sr
      → marshal (results_of (trim_space query) sr) ≡ ok json
      → search index marshal r w s ≡ ok (write json w, s)
  unfolding search
  handled query advanced offset max_results r w s sr json sent fine small fits some_ given found
        coded =
      rw
        (
          form_value-q query advanced offset max_results r sent,
          form_value-a query advanced offset max_results r sent,
          fields_of-search_fields query advanced offset max_results r sent,
          form_value-offset query advanced offset max_results r sent,
          asked_max_results query advanced offset max_results r sent fits some_,
          atoi-itoa offset small,
          given,
          found,
        )
        (responded (trim_space query) w r sr json s fine coded)

  -- A search of the client at a server without access rules, at whose search path its URL leads,
  -- returns what the index of the server finds for the trimmed query and advanced query with the
  -- nine fields of the client, the offset and the number of results being those that the client
  -- was given, if one of the queries is not blank, the number is not 0, both numbers fit into 64
  -- bits, the index finds something, be it empty, without an error, and the results survive JSON.
  -- The state of the index stays as it was.
  pub remote_search-search_images :
      (query advanced : String) (offset max_results : ℤ) (s : S) (sr : IndexResults) (json : String)
      → path_of (String.◌++◌ (trim_slash url) "/v1/search") ≡ "/v1/search"
      → cfg.authorizations ≡ []
      → IsInt64 offset
      → IsInt64 max_results
      → is_zero max_results ≡ false
      → (trim_space query == "" && trim_space advanced == "") ≡ false
      → index.search_images
          (trim_space query)
          (trim_space advanced)
          search_fields
          offset
          max_results
          s
        ≡ ok sr
      → marshal (results_of (trim_space query) sr) ≡ ok json
      → decode json ≡ ok (results_of (trim_space query) sr)
      → remote_search query advanced offset max_results s
        ≡ (ok (results_of (trim_space query) sr), s)
  unfolding Client.search
  remote_search-search_images query advanced offset max_results s sr json path no_rules small fits
        some_ given found coded decoded =
      let r = posted query advanced offset max_results in
      let answer =
        serve_search r new_response s path no_rules
        ∙ handled query advanced offset max_results r new_response s sr json refl refl small fits
            some_ given found coded in
      rw (answer, append-nil json, decoded)
