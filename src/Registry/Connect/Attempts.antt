-- ===== src/Registry/Connect/Attempts.antt =====
-- A user who types logins until the registry accepts one.
use dim.Prelude.{
  ℕ, zero, suc, ◌+◌, ◌<◌, String, ◌≡◌, refl, ap, ◌∙◌, Bool, true, false, some, List, [], ◌∷◌, ◌++◌,
  arith, ◌==◌, length, All,
}
use dim.Prelude.Errors.{eof, message, ok}
use dim.Cli.Credentials.{AuthConfig, read_credentials, username_prompt}
use dim.Cli.Credentials.Attempts.{typed, IsFull, read_credentials-typed}
use dim.Registry.Connect.{
  Catalogs, ConnectState, Connected, prompted, again_with, client_of, after_page, connect_loop,
  try_new, new, login_of,
}

module _ {W R : Type 0} (catalogs : Catalogs W R) (good : AuthConfig → Bool) (refused : String)
    (url : String) where
  -- The first page of a registry that refuses a login, and of one that accepts it.
  abbrev pub Refuses : R → Type 0
  Refuses reg = (w : W) → catalogs.repositories reg w ≡ (some (message refused), w)

  abbrev pub Accepts : R → Type 0
  Accepts reg = (w : W) → catalogs.repositories reg w ≡ (some eof, w)

  -- A registry can be made for every login, and accepts those that are good.
  abbrev pub Answers : Type 0
  Answers =
      (a : AuthConfig)
      → (reg : R) × (catalogs.new_registry url (some a) ≡ ok reg)
        × (good a ≡ true → Accepts reg)
        × (good a ≡ false → Refuses reg)

  abbrev after_login : ConnectState W → AuthConfig → List AuthConfig → ConnectState W
  after_login s a rest = record {
    auth = some a;
    console = record {
      inputs = typed rest;
      prompts =
          ((s.console).prompts ++ username_prompt (login_of s.auth) ∷ []) ++ "Password :" ∷ [];
    };
    service = s.service;
  }

  prompted-typed :
      (s : ConnectState W) (a : AuthConfig) (rest : List AuthConfig)
      → IsFull a
      → (s.console).inputs ≡ typed (a ∷ rest)
      → prompted catalogs s ≡ after_login s a rest
  unfolding prompted
  prompted-typed s a rest full i =
      let typed_console : s.console
          ≡ record { inputs = typed (a ∷ rest); prompts = (s.console).prompts } =
        ap (λ xs. record (s.console) { inputs = xs }) i in
      let answers =
        ap (read_credentials (login_of s.auth)) typed_console
        ∙ read_credentials-typed (login_of s.auth) a rest ((s.console).prompts) full in
      ap (λ p. record s { auth = some p.0; console = p.1 }) answers

  -- The client that the loop ends with.
  abbrev pub IsClient : AuthConfig → List AuthConfig → ConnectState W → Connected catalogs → Type 0
  IsClient right rest s r =
      (reg : R) × (t : ConnectState W) × (catalogs.new_registry url (some right) ≡ ok reg)
      × (r ≡ some (ok (record { registry = reg; transport = some right; registry_url = url }), t))
      × (t.auth ≡ some right)
      × ((t.console).inputs ≡ typed rest)
      × (t.service ≡ s.service)

  round :
      (fuel : ℕ) (reg made : R) (s t : ConnectState W)
      → Refuses reg
      → prompted catalogs s ≡ t
      → catalogs.new_registry url t.auth ≡ ok made
      → connect_loop catalogs (suc fuel) true url reg s ≡ connect_loop catalogs fuel true url made t
  unfolding after_page
  round fuel reg made s t refuses to m =
      let again = connect_loop catalogs fuel true url in
      let page : connect_loop catalogs (suc fuel) true url reg s
          ≡ again_with catalogs again (catalogs.new_registry url (prompted catalogs s).auth)
              (prompted catalogs s) =
        unfold connect_loop in rw (refuses s.service, after_page) in
      page ∙ ap (λ u. again_with catalogs again (catalogs.new_registry url u.auth) u) to ∙ rw m

  ended :
      (fuel : ℕ) (reg : R) (s : ConnectState W)
      → Accepts reg
      → connect_loop catalogs (suc fuel) true url reg s ≡ some (client_of catalogs reg url s)
  unfolding after_page
  ended fuel reg s accepts = unfold connect_loop in rw (accepts s.service, after_page)

  connect_loop-typed :
      (fuel : ℕ) (reg : R) (s : ConnectState W) (wrong : List AuthConfig) (right : AuthConfig)
      (rest : List AuthConfig)
      → Refuses reg
      → Answers
      → All (λ a. IsFull a × (good a ≡ false)) wrong
      → IsFull right × (good right ≡ true)
      → (s.console).inputs ≡ typed (wrong ++ right ∷ rest)
      → length wrong + 1 < fuel
      → IsClient right rest s (connect_loop catalogs fuel true url reg s)
  connect_loop-typed zero reg s wrong right rest n a w r i h = absurd (omega (arith, h))
  connect_loop-typed (suc zero) reg s wrong right rest n a w r i h = absurd (omega (arith, h))
  connect_loop-typed (suc (suc fuel)) reg s [] right rest n a w (full, fine) i h =
      let t = after_login s right rest in
      let (made, m, accepts, refuses) = a right in
      (
        made,
        t,
        m,
        round (suc fuel) reg made s t n (prompted-typed s right rest full i) m
            ∙ ended fuel made t (accepts fine),
        refl,
        refl,
        refl,
      )
  connect_loop-typed (suc (suc fuel)) reg s (x ∷ wrong) right rest n a ((full, bad), w) r i h =
      let t = after_login s x (wrong ++ right ∷ rest) in
      let (made, m, accepts, refuses) = a x in
      let (reg', u, m', done, kept, used, same) =
        connect_loop-typed (suc fuel) made t wrong right rest (refuses bad) a w r refl
          (omega (arith, h)) in
      (
        reg',
        u,
        m',
        round (suc fuel) reg made s t n (prompted-typed s x (wrong ++ right ∷ rest) full i) m
            ∙ done,
        kept,
        used,
        same,
      )

  -- At a registry with a URL, whose client can be made for every login, whose first page is the
  -- end of the catalog for the logins that are good and an error of no HTTP kind for the others,
  -- and that no page changes, where the login that is given, if any, is refused: the user types
  -- some full logins that are not good and then one that is. The result is a client that sends
  -- that login, which the caller gets too, with everything typed up to it used up and the registry
  -- as it was. Two rounds more than logins were refused are enough.
  pub new-typed :
      (fuel : ℕ) (first : R) (s : ConnectState W) (wrong : List AuthConfig) (right : AuthConfig)
      (rest : List AuthConfig)
      → (url == "") ≡ false
      → catalogs.new_registry url s.auth ≡ ok first
      → Refuses first
      → Answers
      → All (λ a. IsFull a × (good a ≡ false)) wrong
      → IsFull right × (good right ≡ true)
      → (s.console).inputs ≡ typed (wrong ++ right ∷ rest)
      → length wrong + 1 < fuel
      → IsClient right rest s (new catalogs fuel url s)
  unfolding try_new
  new-typed fuel first s wrong right rest given made n a w r i h =
      let (reg, t, m, done, kept, used, same) =
        connect_loop-typed fuel first s wrong right rest n a w r i h in
      (reg, t, m, rw (given, made) done, kept, used, same)
