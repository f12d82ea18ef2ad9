-- ===== src/Wrapper/DockerClient/Login.antt =====
-- A user who types logins until a registry accepts one.
use dim.Prelude.{
  ℕ, zero, suc, ◌<◌, String, ◌≡◌, refl, ap, ◌∙◌, Bool, true, false, Option, some, List, [], ◌∷◌,
  ◌++◌, arith, ◌==◌, if◌then◌else◌, length, All,
}
use dim.Prelude.Errors.{Result, ok}
use dim.Cli.Credentials.{AuthConfig, read_credentials, username_prompt}
use dim.Cli.Credentials.Attempts.{typed, IsFull, read_credentials-typed}
use dim.Registry.Client.{HttpResponse}
use dim.Wrapper.DockerClient.{
  Engine, Outside, ClientState, State, authenticate, authenticate_loop, retried, try_login,
  prompted, auth_url, login_of,
}

module _ {W C : Type 0} (engine : Engine W C) (outside : Outside W) (insecure : Bool)
    (good : AuthConfig → Bool) where
  abbrev AnswerTo : AuthConfig → HttpResponse → Type 0
  AnswerTo a resp = resp.status_code ≡ (if good a then 200 else 401)

  -- A registry that answers every request, 200 for the logins that are good and 401 for the others, and
  -- is not changed by it.
  abbrev pub Answers : String → Type 0
  Answers url =
      (a : AuthConfig) (w : W)
      → (resp : HttpResponse) × (outside.do_request url a w ≡ (ok resp, w)) × AnswerTo a resp

  -- The state once the user has typed a login.
  abbrev pub IsAfter : ClientState W C → AuthConfig → List AuthConfig → ClientState W C → Type 0
  IsAfter s a rest t =
      (t.auth ≡ some a)
      × ((t.console).inputs ≡ typed rest)
      × (t.daemon ≡ s.daemon)
      × (t.c ≡ s.c)
      × (t.output ≡ s.output)

  -- The client after a full login was typed.
  abbrev after_login : ClientState W C → AuthConfig → List AuthConfig → ClientState W C
  after_login s a rest = record s {
    auth = some a;
    console = record {
      inputs = typed rest;
      prompts =
          ((s.console).prompts ++ username_prompt (login_of s.auth) ∷ []) ++ "Password :" ∷ [];
    };
  }

  prompted-typed :
      (s : ClientState W C) (a : AuthConfig) (rest : List AuthConfig)
      → IsFull a
      → (s.console).inputs ≡ typed (a ∷ rest)
      → prompted engine outside insecure s ≡ after_login s a rest
  unfolding prompted
  prompted-typed s a rest full i =
      let typed_console : s.console
          ≡ record { inputs = typed (a ∷ rest); prompts = (s.console).prompts } =
        ap (λ xs. record (s.console) { inputs = xs }) i in
      let answers =
        ap (read_credentials (login_of s.auth)) typed_console
        ∙ read_credentials-typed (login_of s.auth) a rest ((s.console).prompts) full in
      ap (λ p. record s { auth = some p.0; console = p.1 }) answers

  module _ (fuel : ℕ) (url : String) (s t : ClientState W C) (a : AuthConfig) (resp : HttpResponse)
      (to : prompted engine outside insecure s ≡ t) (named : t.auth ≡ some a)
      (asked : outside.do_request url (login_of t.auth) t.daemon ≡ (ok resp, t.daemon)) where
    abbrev round : Option (Result String × State engine outside insecure)
    round =
        retried engine outside insecure (authenticate_loop engine outside insecure fuel url) url
          (try_login engine outside insecure url t)

    loop_round : authenticate_loop engine outside insecure (suc fuel) url s ≡ round
    unfolding authenticate_loop
    loop_round =
        ap
          (λ x.
            retried engine outside insecure (authenticate_loop engine outside insecure fuel url) url
              (try_login engine outside insecure url x))
          to

    loop_again :
        resp.status_code ≡ 401
        → authenticate_loop engine outside insecure (suc fuel) url s
          ≡ authenticate_loop engine outside insecure fuel url t
    loop_again code = loop_round ∙ unfold retried in rw (asked, code) refl

    loop_ends :
        resp.status_code ≡ 200
        → authenticate_loop engine outside insecure (suc fuel) url s
          ≡ some (outside.encode_auth a, t)
    loop_ends code = loop_round ∙ unfold retried in rw (asked, code, named) refl

  -- The user types some full logins that are not good and then one that is: the loop ends with that
  -- one, within as many rounds as logins were typed.
  authenticate_loop-typed :
      (fuel : ℕ) (url : String) (s : ClientState W C) (wrong : List AuthConfig) (right : AuthConfig)
      (rest : List AuthConfig)
      → Answers url
      → All (λ a. IsFull a × (good a ≡ false)) wrong
      → IsFull right × (good right ≡ true)
      → (s.console).inputs ≡ typed (wrong ++ right ∷ rest)
      → length wrong < fuel
      → (t : ClientState W C) × (authenticate_loop engine outside insecure fuel url s
          ≡ some (outside.encode_auth right, t))
        × IsAfter s right rest t
  unfolding authenticate_loop
  authenticate_loop-typed zero url s wrong right rest a w r i h = absurd (omega (arith, h))
  authenticate_loop-typed (suc fuel) url s [] right rest a w (full, fine) i h =
      let t = after_login s right rest in
      let (resp, asked, code) = a right s.daemon in
      (
        t,
        loop_ends fuel url s t right resp (prompted-typed s right rest full i) refl asked
            (code ∙ rw fine),
        (refl, refl, refl, refl, refl),
      )
  authenticate_loop-typed (suc fuel) url s (x ∷ wrong) right rest a ((full, bad), w) r i h =
      let t = after_login s x (wrong ++ right ∷ rest) in
      let (resp, asked, code) = a x s.daemon in
      let (u, done, after) =
        authenticate_loop-typed fuel url t wrong right rest a w r refl (omega (arith, h)) in
      (
        u,
        loop_again fuel url s t x resp (prompted-typed s x (wrong ++ right ∷ rest) full i) refl
              asked (code ∙ rw bad)
            ∙ done,
        after,
      )

  -- At a registry that is not docker hub, that has a valid URL, that answers 200 to requests with
  -- the logins that are good and 401 to all others, and that no request changes, where the login
  -- that the client kept is not good: the user types some full logins that are not good and then
  -- one that is. The result is the encoding of that one, which the client keeps, with everything
  -- typed up to it used up and the daemon as it was. One round more than logins were refused is
  -- enough.
  pub authenticate-typed :
      (fuel : ℕ) (registry_url : String) (s : ClientState W C) (wrong : List AuthConfig)
      (right : AuthConfig) (rest : List AuthConfig)
      → (registry_url == outside.default_hostname) ≡ false
      → outside.is_valid_url (auth_url engine outside insecure registry_url) ≡ true
      → Answers (auth_url engine outside insecure registry_url)
      → good (login_of s.auth) ≡ false
      → All (λ a. IsFull a × (good a ≡ false)) wrong
      → IsFull right × (good right ≡ true)
      → (s.console).inputs ≡ typed (wrong ++ right ∷ rest)
      → length wrong < fuel
      → (t : ClientState W C) × (authenticate engine outside insecure fuel registry_url s
          ≡ some (outside.encode_auth right, t))
        × IsAfter s right rest t
  unfolding authenticate
  authenticate-typed fuel registry_url s wrong right rest private valid answers bad w r i h =
      let s0 = record s { auth = some (login_of s.auth) } in
      let (resp, asked, code) = answers (login_of s.auth) s.daemon in
      let (t, done, after) =
        authenticate_loop-typed fuel (auth_url engine outside insecure registry_url) s0 wrong right
          rest answers w r i h in
      let refused : resp.status_code ≡ 401 = code ∙ rw bad in
      (t, rw (private, valid, asked, refused) done, after)
