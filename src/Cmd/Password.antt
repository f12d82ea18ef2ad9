-- ===== src/Cmd/Password.antt =====
-- `runGenPasswd` of cmd/genpaswd.go: the digest of a password that is given or typed. A loop that has not
-- ended within the fuel is `none`; the end of the input reads as an empty password.
use mathlib.Core.List.{append_assoc}
use dim.Prelude.{
  ℕ, zero, suc, ◌<◌, String, ◌≡◌, ◌∙◌, ◌≢◌, false, Option, none, some, List, [], ◌∷◌, ◌++◌, arith,
  ◌==◌, eq_iff, if◌then◌else◌, replicate,
}
use dim.Cli.Credentials.{Console, ask}

-- The loop until something is typed.
unfoldable pub read_until_given : ℕ → Console → Option (String × Console)
read_until_given zero c = none
read_until_given (suc fuel) c =
    let (password, c') = ask "Password :" c in
    let again = read_until_given fuel c' in if password == "" then again else some (password, c')

unfoldable pub run_gen_passwd :
    (sha256 : String → String) → ℕ → (args : List String) → Console → Option (String × Console)
run_gen_passwd sha256 fuel (password ∷ args) c = some (sha256 password, c)
run_gen_passwd sha256 fuel [] c = elim (read_until_given fuel c) [
  | none ↦ none
  | some (password, c') ↦ some (sha256 password, c')
]

abbrev password_prompt : String
password_prompt = "Password :"

read_until_given-typed :
    (blanks fuel : ℕ) (password : String) (rest prompts : List String)
    → password ≢ ""
    → blanks < fuel
    → read_until_given fuel
        (record { inputs = replicate blanks "" ++ password ∷ rest; prompts = prompts })
      ≡ some (
        password,
        record { inputs = rest; prompts = prompts ++ replicate (suc blanks) password_prompt },
      )
unfolding read_until_given ask
read_until_given-typed blanks zero password rest prompts given h = absurd (omega (arith, h))
read_until_given-typed zero (suc fuel) password rest prompts given h =
    let full : (password == "") ≡ false = ground (arith, eq_iff password "") in rw full
read_until_given-typed (suc blanks) (suc fuel) password rest prompts given h =
    read_until_given-typed blanks fuel password rest (prompts ++ password_prompt ∷ []) given
      (omega (arith, h))
    ∙ rw (append_assoc prompts (password_prompt ∷ []) (replicate (suc blanks) password_prompt))

-- Without an argument, the user who types nothing a number of times and then a password is asked once
-- more than that, and gets the digest of that password; as many rounds are enough.
pub run_gen_passwd-typed :
    (sha256 : String → String) (blanks fuel : ℕ) (password : String) (rest prompts : List String)
    → password ≢ ""
    → blanks < fuel
    → run_gen_passwd sha256 fuel []
        (record { inputs = replicate blanks "" ++ password ∷ rest; prompts = prompts })
      ≡ some (
        sha256 password,
        record { inputs = rest; prompts = prompts ++ replicate (suc blanks) password_prompt },
      )
unfolding run_gen_passwd
run_gen_passwd-typed sha256 blanks fuel password rest prompts given h =
    rw (read_until_given-typed blanks fuel password rest prompts given h, run_gen_passwd)
