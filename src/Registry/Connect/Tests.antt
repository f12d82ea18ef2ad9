-- ===== src/Registry/Connect/Tests.antt =====
-- Runs of the connection to a registry that knows one password.
use dim.Prelude.{
  ℕ, String, refl, Bool, Option, none, some, List, [], ◌∷◌, arith, ◌==◌, eq_iff, if◌then◌else◌,
}
use dim.Prelude.Errors.{Error, eof, message, ok}
use dim.Cli.Credentials.{AuthConfig}
use dim.Registry.Connect.{Catalogs, ConnectState, new, silent_new, silent_new-IsSilent, IsSilent}
use dim.Registry.Connect.Attempts.{IsClient, new-typed}

abbrev good : AuthConfig → Bool
good a = a.password == "secret"

abbrev page_error : Option AuthConfig → Error
page_error none = message "unauthorized"
page_error (some a) = if good a then eof else message "unauthorized"

-- A registry is the login that it was made for.
abbrev catalogs : Catalogs ℕ (Option AuthConfig)
catalogs = record { new_registry = λ url a. ok a; repositories = λ a w. (some (page_error a), w) }

abbrev at : List String → ConnectState ℕ
at inputs = record { auth = none; console = record { inputs = inputs; prompts = [] }; service = 7 }

abbrev login : String → AuthConfig
login password = record { username = "al"; password = password }

abbrev typed_twice : ConnectState ℕ
typed_twice = at ("al" ∷ "no" ∷ "al" ∷ "secret" ∷ [])

new-typed_example :
    IsClient catalogs good "unauthorized" "https://reg"
      (login "secret")
      []
      typed_twice
      (new catalogs 3 "https://reg" typed_twice)
new-typed_example =
    new-typed catalogs good "unauthorized" "https://reg" 3 none typed_twice (login "no" ∷ [])
      (login "secret") [] refl refl (λ w. refl)
      (λ a. (some a, refl, (λ fine w. rw fine), λ wrong w. rw wrong))
      ((((λ e. ground (arith, eq_iff "al" "")), (λ e. ground (arith, eq_iff "no" ""))), refl), tt)
      (((λ e. ground (arith, eq_iff "al" "")), (λ e. ground (arith, eq_iff "secret" ""))), refl)
      refl (omega arith)

silent_new-IsSilent_example :
    IsSilent catalogs (at []) (silent_new catalogs 1 "https://reg" (at []))
silent_new-IsSilent_example = silent_new-IsSilent catalogs 0 "https://reg" (at [])
