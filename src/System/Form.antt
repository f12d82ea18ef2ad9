-- ===== src/System/Form.antt =====
-- What the `Search` handler of server/server.go reads from the values that the client posts.
use dim.Prelude.{String, ◌≡◌, arith, eq_iff}
use dim.Prelude.Dict.{lookup, insert}
use dim.Prelude.Int.{ℤ}
use dim.Prelude.Decimal.{itoa}
use dim.Prelude.Text.Trim.{trim_space}
use dim.Server.Http.{Request, form_value}
use dim.Server.Handlers.{fields_of}
use dim.Registry.Client.{search_values, search_fields}

module _ (query advanced : String) (offset max_results : ℤ) (r : Request)
    (sent : r.form ≡ search_values query advanced offset max_results) where
  pub form_value-q : form_value r "q" ≡ trim_space query
  unfolding search_values lookup insert
  form_value-q = ground (arith, sent, eq_iff (trim_space query) "")

  pub form_value-a : form_value r "a" ≡ trim_space advanced
  unfolding search_values lookup insert
  form_value-a = ground (arith, sent, eq_iff (trim_space advanced) "")

  pub form_value-offset : form_value r "offset" ≡ itoa offset
  unfolding search_values lookup insert
  form_value-offset = ground (arith, sent)

  pub form_value-max_results : form_value r "maxResults" ≡ itoa max_results
  unfolding search_values lookup insert
  form_value-max_results = ground (arith, sent)

  pub fields_of-search_fields : fields_of r ≡ search_fields
  unfolding search_values lookup insert
  fields_of-search_fields = ground (arith, sent)
