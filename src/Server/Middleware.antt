-- ===== src/Server/Middleware.antt =====
-- server/middleware.go: the access check in front of every handler.
-- `sha256` stands for `utils.Sha256`, the hexadecimal digest of Go's crypto/sha256.
pub mod Laws
use dim.Prelude.{
  String, Bool, true, false, not, ◌&&◌, Option, none, some, List, [], ◌∷◌, ◌==◌, if◌then◌else◌,
}
use dim.Prelude.Errors.{◌>>=◌, Result, ok, err, panic}
use Prim.Native.String
use dim.Server.Http.{Request, Response, HandlerFunc, header_set, http_error}
use dim.Server.Config.{Regexp, Credentials, Authorization, Config, applies}

abbrev pub authenticate_header_name : String
authenticate_header_name = "WWW-Authenticate"

abbrev pub authenticate_header_value : String
authenticate_header_value = "Basic realm=\"Registry Authentication\""

module _ {R : Type 0} (rx : Regexp R) where
  -- The first authorization that applies to the request.
  unfoldable pub get_authorization :
      Request → List (Authorization R) → Result (Option (Authorization R))
  get_authorization req [] = ok none
  get_authorization req (auth ∷ auths) = elim (applies rx auth req) [
    | ok true ↦ ok (some auth)
    | ok false ↦ get_authorization req auths
    | err e ↦ err e
    | panic ↦ panic
  ]

abbrev pub refusal : {R : Type 0} → Authorization R → String
refusal auth = String.◌++◌ "You are not allowed to access URLs matching " auth.path

module _ (sha256 : String → String) where
  -- One round of the loop over the users of a rule.
  abbrev pub is_user : Option (String × String) → Credentials → Bool
  is_user none user = false
  is_user (some (u, p)) user = u == user.username && sha256 p == user.password

  abbrev pub is_one_of : Option (String × String) → List Credentials → Bool
  is_one_of login [] = false
  is_one_of login (user ∷ users) = if is_user login user then true else is_one_of login users

  -- The text of the error, or nothing where access is granted.
  unfoldable pub grant_access : {R : Type 0} → Request → Authorization R → Option String
  grant_access req auth = elim auth.users [
    | none ↦ none
    | some users ↦ if is_one_of req.basic_auth users then none else some (refusal auth)
  ]

abbrev pub reject : String → Response → Response
reject text w =
    http_error text 401
      (record w { header = header_set authenticate_header_name authenticate_header_value w.header })

module _ {R : Type 0} (rx : Regexp R) (sha256 : String → String) where
  unfoldable pub security_filter : {S : Type 0} → Config R → HandlerFunc S → HandlerFunc S
  security_filter cfg hf r w s = do
    found ← get_authorization rx r cfg.authorizations
    elim found [
      | none ↦ hf r w s
      | some auth ↦ elim (grant_access sha256 r auth) [
        | some text ↦ ok (reject text w, s)
        | none ↦ hf r w s
      ]
    ]
