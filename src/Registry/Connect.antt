-- ===== src/Registry/Connect.antt =====
-- lib/registry/registry.go: `New`, `SilentNew` and `tryNew`, which ask for a login until the registry
-- accepts one. The client of docker's distribution is an interface: it is made for a URL and a login, and
-- asked for one page of the repositories. A transport stands for the login it sends; all the transports
-- share the login that the prompts change, so the last one typed is the one that is sent.
pub mod Attempts
mod Tests
use Prim.Native.String
use dim.Prelude.{
  ℕ, zero, suc, String, ◌≡◌, refl, inl, inr, Bool, true, false, Option, none, some, ◌==◌,
  if◌then◌else◌, Bool-cases,
}
use dim.Prelude.Errors.{
  Error, eof, docker_hub_authentication_not_supported, unexpected_http, message, Result, ok, err,
  panic, ◌>>=◌,
}
use dim.Prelude.Text.{join}
use dim.Cli.Credentials.{AuthConfig, Console, read_credentials}

-- `repositories` returns the error of `Repositories`, if any.
pub record Catalogs (W R : Type 0) : Type 0 where
  pub new_registry : (url : String) → Option AuthConfig → Result R
  pub repositories : R → W → Option Error × W

pub record Client (R : Type 0) : Type 0 where
  pub registry : R
  pub transport : Option AuthConfig
  pub registry_url : String

-- The login that is shared with the caller, the terminal, and the registry.
pub record ConnectState (W : Type 0) : Type 0 where
  pub auth : Option AuthConfig
  pub console : Console
  pub service : W

abbrev failed_to_join : String → Error
failed_to_join s = message (String.◌++◌ "Failed to join the registry : " s)

abbrev no_url : Error
no_url = message "No registry URL given"

abbrev login_of : Option AuthConfig → AuthConfig
login_of none = record { username = ""; password = "" }
login_of (some auth) = auth

module _ {W R : Type 0} (catalogs : Catalogs W R) where
  abbrev pub Connected : Type 0
  Connected = Option (Result (Client R) × ConnectState W)

  unfoldable pub prompted : ConnectState W → ConnectState W
  prompted s =
      let (auth, console) = read_credentials (login_of s.auth) s.console in
      record s { auth = some auth; console = console }

  abbrev pub client_of : R → String → ConnectState W → Result (Client R) × ConnectState W
  client_of reg url s = (ok (record { registry = reg; transport = s.auth; registry_url = url }), s)

  -- The loop goes on with a registry that is made for the login.
  abbrev pub again_with : (R → ConnectState W → Connected) → Result R → ConnectState W → Connected
  again_with again (ok reg) s = again reg s
  again_with again (err e) s = some (err e, s)
  again_with again panic s = some (panic, s)

  -- What the loop does after a page: a page without an error and the end of the catalog both end it.
  unfoldable pub after_page :
      (again : R → ConnectState W → Connected)
      → (prompt : Bool) → String
      → R
      → Option Error × W
      → ConnectState W
      → Connected
  after_page again prompt url reg (none, w) s = some (client_of reg url (record s { service = w }))
  after_page again prompt url reg (some eof, w) s =
      some (client_of reg url (record s { service = w }))
  after_page again prompt url reg (some (unexpected_http text), w) s =
      some (err (failed_to_join text), record s { service = w })
  after_page again prompt url reg (some e, w) s =
      let t = prompted (record s { service = w }) in
      let more = again_with again (catalogs.new_registry url t.auth) t in
      if prompt then more else some (client_of reg url (record s { service = w }))

  unfoldable pub connect_loop : ℕ → (prompt : Bool) → String → R → ConnectState W → Connected
  connect_loop zero prompt url reg s = none
  connect_loop (suc fuel) prompt url reg s =
      after_page (connect_loop fuel prompt url) prompt url reg (catalogs.repositories reg s.service)
        s

  unfoldable pub try_new : ℕ → String → (prompt : Bool) → ConnectState W → Connected
  try_new fuel url prompt s =
      let made = again_with (connect_loop fuel prompt url) (catalogs.new_registry url s.auth) s in
      if url == "" then some (err no_url, s) else made

  abbrev pub new : ℕ → String → ConnectState W → Connected
  new fuel url = try_new fuel url true

  abbrev pub silent_new : ℕ → String → ConnectState W → Connected
  silent_new fuel url = try_new fuel url false

  -- A result that leaves the login and the terminal as they were.
  abbrev pub IsSilent : ConnectState W → Connected → Type 0
  IsSilent s r =
      (result : Result (Client R)) × (w : W) × (r ≡ some (result, record s { service = w }))

  after_page-IsSilent :
      (again : R → ConnectState W → Connected) (url : String) (reg : R) (page : Option Error × W)
      (s : ConnectState W)
      → IsSilent s (after_page again false url reg page s)
  unfolding after_page
  after_page-IsSilent again url reg (none, w) s = (_, w, refl)
  after_page-IsSilent again url reg (some eof, w) s = (_, w, refl)
  after_page-IsSilent again url reg (some (unexpected_http text), w) s = (_, w, refl)
  after_page-IsSilent again url reg (some docker_hub_authentication_not_supported, w) s =
      (_, w, refl)
  after_page-IsSilent again url reg (some (message text), w) s = (_, w, refl)

  made-IsSilent :
      (fuel : ℕ) (url : String) (made : Result R) (s : ConnectState W)
      → IsSilent s (again_with (connect_loop (suc fuel) false url) made s)
  unfolding connect_loop
  made-IsSilent fuel url (ok reg) s =
      after_page-IsSilent (connect_loop fuel false url) url reg
        (catalogs.repositories reg s.service) s
  made-IsSilent fuel url (err e) s = (err e, s.service, refl)
  made-IsSilent fuel url panic s = (panic, s.service, refl)

  -- A client that is made without prompts leaves the login and the terminal as they were, whatever the
  -- registry answers, and one round of the loop is enough for its result.
  pub silent_new-IsSilent :
      (fuel : ℕ) (url : String) (s : ConnectState W) → IsSilent s (silent_new (suc fuel) url s)
  unfolding try_new
  silent_new-IsSilent fuel url s = elim (Bool-cases (url == "")) [
    | inl blank ↦ (err no_url, s.service, rw blank)
    | inr given ↦
        let (r, w, e) = made-IsSilent fuel url (catalogs.new_registry url s.auth) s in
        (r, w, rw (given) e)
  ]
