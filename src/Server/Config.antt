-- ===== src/Server/Config.antt =====
-- server/config.go: the server's configuration and its access rules.
-- Go's `regexp` is a parameter: how a path compiles, and whether a compiled one matches a text.
use dim.Prelude.{
  String, Bool, false, ◌&&◌, ◌||◌, Option, none, some, List, ◌==◌, nat_eq, if◌then◌else◌,
}
use dim.Prelude.Errors.{Error, error_text, message, Result, ok, err, panic}
use Prim.Native.Char.{code}
use Prim.Native.String
use dim.Server.Http.{Request}

pub record Regexp (R : Type 0) : Type 0 where
  pub compile : String → Result R
  pub match_string : R → String → Bool

pub record Credentials : Type 0 where
  pub username : String
  pub password : String

-- `users` is `none` where the slice is nil.
pub record Authorization (R : Type 0) : Type 0 where
  pub path : String
  pub method : String
  pub users : Option (List Credentials)
  pub path_regexp : Option R

pub record Config (R : Type 0) : Type 0 where
  pub port : String
  pub authorizations : List (Authorization R)

-- `strings.HasSuffix(s, "$")`
abbrev pub ends_in_dollar : String → Bool
ends_in_dollar String.[] = false
ends_in_dollar (String.◌∷◌ c String.[]) = nat_eq (code c) b'$'
ends_in_dollar (String.◌∷◌ c (String.◌∷◌ d s)) = ends_in_dollar (String.◌∷◌ d s)

-- The pattern that is compiled: the path as it is if it ends in "$", else open at its end.
abbrev pub pattern_of : String → String
pattern_of path = if ends_in_dollar path then path else String.◌++◌ path ".*"

abbrev pub bad_path : String → Error → String
bad_path path e =
    String.◌++◌ "Failed to parse path " (String.◌++◌ path (String.◌++◌ " : " (error_text e)))

-- The path of a request, "/" where it is empty.
abbrev pub request_path : Request → String
request_path req = if req.url_path == "" then "/" else req.url_path

module _ {R : Type 0} (rx : Regexp R) where
  unfoldable pub compile_path : Authorization R → Result (Authorization R)
  compile_path auth = elim (rx.compile (pattern_of auth.path)) [
    | ok r ↦ ok (record auth { path_regexp = some r })
    | err e ↦ err (message (bad_path auth.path e))
    | panic ↦ panic
  ]

  -- `MatchString` on a nil regexp dereferences it.
  unfoldable pub applies : Authorization R → Request → Result Bool
  applies auth req = elim auth.path_regexp [
    | none ↦ panic
    | some r ↦
        ok
          (rx.match_string r (request_path req) && (auth.method == "" || auth.method == req.method))
  ]
