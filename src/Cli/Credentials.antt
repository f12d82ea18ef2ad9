-- ===== src/Cli/Credentials.antt =====
-- cli/cli.go: asking the user for a login and a password.
-- What the user types is the list of the inputs that the next reads return; at its end a read
-- returns the empty text.
pub mod Attempts
use dim.Prelude.{String, ◌≡◌, ◌&&◌, ◌||◌, List, [], ◌∷◌, ◌++◌, arith, ◌==◌, eq_iff, if◌then◌else◌}
use Prim.Native.String

-- docker's `types.AuthConfig`
pub record AuthConfig : Type 0 where
  pub username : String
  pub password : String

-- The inputs still to come and the prompts that were written.
pub record Console : Type 0 where
  pub inputs : List String
  pub prompts : List String

abbrev next_input : List String → String × List String
next_input [] = ("", [])
next_input (s ∷ rest) = (s, rest)

unfoldable pub ask : String → Console → String × Console
ask prompt c =
    let (input, rest) = next_input c.inputs in
    (input, record { inputs = rest; prompts = c.prompts ++ prompt ∷ [] })

abbrev pub username_prompt : AuthConfig → String
username_prompt auth =
    if auth.username == ""
    then "Username :"
    else String.◌++◌ "Username (" (String.◌++◌ auth.username ") :")

unfoldable pub ask_username : AuthConfig → Console → AuthConfig × Console
unfolding ask
ask_username auth c =
    let (input, c') = ask (username_prompt auth) c in
    (if input == "" then auth else record auth { username = input }, c')

unfoldable pub ask_password : AuthConfig → Console → AuthConfig × Console
unfolding ask
ask_password auth c =
    let (input, c') = ask "Password :" c in
    (if input == "" then auth else record auth { password = input }, c')

unfoldable pub read_credentials : AuthConfig → Console → AuthConfig × Console
unfolding ask_username ask_password
read_credentials auth c =
    let (named, c') = ask_username auth c in
    if named.username == "" then (named, c') else ask_password named c'

-- The credentials after the prompts: an empty input keeps what was there, the password is asked for
-- only under a user name, and each prompt takes one input.
pub read_credentials_lem :
    (auth : AuthConfig) (u p : String) (rest prompts : List String)
    → let c : Console = record { inputs = u ∷ p ∷ rest; prompts = prompts } in
      ((read_credentials auth c).0.username ≡ (if u == "" then auth.username else u))
      × ((read_credentials auth c).0.password
          ≡ (if (u == "" && auth.username == "") || p == "" then auth.password else p))
      × ((read_credentials auth c).1.inputs
          ≡ (if u == "" && auth.username == "" then p ∷ rest else rest))
unfolding read_credentials
read_credentials_lem auth u p rest prompts =
    (ground (arith, eq_iff u ""), ground (arith, eq_iff u ""), ground (arith, eq_iff u ""))
