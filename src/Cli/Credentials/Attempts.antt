-- ===== src/Cli/Credentials/Attempts.antt =====
-- A user who answers both prompts: what is read, attempt by attempt.
use dim.Prelude.{String, ◌≡◌, ◌≢◌, false, List, [], ◌∷◌, ◌++◌, arith, ◌==◌, eq_iff}
use dim.Cli.Credentials.{AuthConfig, read_credentials, username_prompt}

-- What is typed for a list of logins.
abbrev pub typed : List AuthConfig → List String
typed [] = []
typed (a ∷ logins) = a.username ∷ a.password ∷ typed logins

-- Neither the name nor the password is empty.
abbrev pub IsFull : AuthConfig → Type 0
IsFull a = (a.username ≢ "") × (a.password ≢ "")

-- A full login replaces the one that was there, and its two inputs are used up.
pub read_credentials-typed :
    (old new : AuthConfig) (logins : List AuthConfig) (prompts : List String)
    → IsFull new
    → read_credentials old (record { inputs = typed (new ∷ logins); prompts = prompts }) ≡ (
      new,
      record {
        inputs = typed logins;
        prompts = (prompts ++ username_prompt old ∷ []) ++ "Password :" ∷ [];
      },
    )
unfolding read_credentials
read_credentials-typed old new logins prompts (named, secret) =
    let some_name : (new.username == "") ≡ false = ground (arith, eq_iff new.username "") in
    let some_password : (new.password == "") ≡ false = ground (arith, eq_iff new.password "") in
    rw (some_name, some_password, some_name)
