-- ===== src/Server/Middleware/Laws.antt =====
-- Which rule decides a request, and what it takes to get past the filter.
use dim.Prelude.{
  String, ◌≡◌, refl, ◌↔◌, ◌⊎◌, inl, inr, true, false, Option, none, some, List, [], ◌∷◌, arith,
  eq_iff, Bool-cases, Option-cases, All, Any,
}
use dim.Prelude.Errors.{ok}
use dim.Server.Http.{Request, Response, HandlerFunc}
use dim.Server.Config.{Regexp, Credentials, Authorization, Config, applies, request_path}
use dim.Server.Middleware.{
  get_authorization, is_user, is_one_of, refusal, grant_access, reject, security_filter,
}

module _ {R : Type 0} (rx : Regexp R) (req : Request) where
  -- What it means that a rule speaks of a request.
  abbrev pub Concerns : Authorization R → Type 0
  Concerns auth =
      (r : R) × (auth.path_regexp ≡ some r)
      × (rx.match_string r (request_path req) ≡ true)
      × ((auth.method ≡ "") ⊎ (auth.method ≡ req.method))

  abbrev pub IsCompiled : Authorization R → Type 0
  IsCompiled auth = (r : R) × (auth.path_regexp ≡ some r)

  -- The rule that comes first among those that speak of the request.
  pub data Decides : List (Authorization R) → Authorization R → Type 0 where
    first :
        {auth : Authorization R} {auths : List (Authorization R)}
        → Concerns auth
        → Decides (auth ∷ auths) auth
    later :
        {other auth : Authorization R} {auths : List (Authorization R)}
        → IsCompiled other
        → ¬ Concerns other
        → Decides auths auth
        → Decides (other ∷ auths) auth

  pub applies_of_Concerns : (auth : Authorization R) → Concerns auth → applies rx auth req ≡ ok true
  unfolding applies
  applies_of_Concerns auth (r, compiled, matched, method) =
      rw compiled (ground (arith, eq_iff auth.method "", eq_iff auth.method req.method))

  pub Concerns-applies : (auth : Authorization R) → applies rx auth req ≡ ok true → Concerns auth
  unfolding applies
  Concerns-applies auth h = elim (Option-cases auth.path_regexp) [
    | inl missing ↦ cc (rw missing at h)
    | inr (r, compiled) ↦ (
      r,
      compiled,
      ground arith,
      ground (arith, eq_iff auth.method "", eq_iff auth.method req.method),
    )
  ]

  applies_decides :
      (auth : Authorization R)
      → IsCompiled auth
      → (applies rx auth req ≡ ok true) ⊎ (applies rx auth req ≡ ok false)
  unfolding applies
  applies_decides auth (r, compiled) = rw compiled (ground arith)

  pub not-applies :
      (auth : Authorization R) → IsCompiled auth → ¬ Concerns auth → applies rx auth req ≡ ok false
  not-applies auth compiled h = elim (applies_decides auth compiled) [
    | inl hit ↦ absurd (h (Concerns-applies auth hit))
    | inr miss ↦ miss
  ]

  pub get_authorization-Decides :
      (auths : List (Authorization R)) (auth : Authorization R)
      → Decides auths auth
      → get_authorization rx req auths ≡ ok (some auth)
  unfolding get_authorization
  get_authorization-Decides auths auth (first {auth = a} c) =
      rw (applies_of_Concerns a c, get_authorization)
  get_authorization-Decides auths auth (later {other} {auths = rest} compiled h d) =
      rw (not-applies other compiled h, get_authorization) (get_authorization-Decides rest auth d)

  pub get_authorization-none :
      (auths : List (Authorization R))
      → All IsCompiled auths
      → All (λ a. ¬ Concerns a) auths
      → get_authorization rx req auths ≡ ok none
  unfolding get_authorization
  get_authorization-none [] compiled h = refl
  get_authorization-none (a ∷ auths) (c, cs) (h, hs) =
      rw (not-applies a c h, get_authorization) (get_authorization-none auths cs hs)

  -- With compiled rules, a request is decided by one rule, or no rule speaks of it.
  pub decision :
      (auths : List (Authorization R))
      → All IsCompiled auths
      → ((a : Authorization R) × Decides auths a) ⊎ All (λ a. ¬ Concerns a) auths
  decision [] compiled = inr tt
  decision (a ∷ auths) (c, cs) = elim (applies_decides a c) [
    | inl hit ↦ inl (a, first (Concerns-applies a hit))
    | inr miss ↦ skip (λ h. cc (applies_of_Concerns a h)) (decision auths cs)
  ]
    where
      skip :
          ¬ Concerns a
          → ((b : Authorization R) × Decides auths b) ⊎ All (λ b. ¬ Concerns b) auths
          → ((b : Authorization R) × Decides (a ∷ auths) b) ⊎ All (λ b. ¬ Concerns b) (a ∷ auths)
      skip h (inl (b, d)) = inl (b, later c h d)
      skip h (inr hs) = inr (h, hs)

-- The users of a rule are let in by name and by the digest of the password.
module _ (sha256 : String → String) where
  abbrev pub LogsIn : Option (String × String) → Credentials → Type 0
  LogsIn login user = (p : String) × (login ≡ some (user.username, p)) × (sha256 p ≡ user.password)

  abbrev pub Grants : {R : Type 0} → Request → Authorization R → Type 0
  Grants req auth =
      (auth.users ≡ none)
      ⊎ ((users : List Credentials) × (auth.users ≡ some users) × Any (LogsIn req.basic_auth) users)

  is_user_sound :
      (login : Option (String × String)) (user : Credentials)
      → is_user sha256 login user ≡ true
      → LogsIn login user
  is_user_sound none user h = cc
  is_user_sound (some (u, p)) user h =
      (p, ground (arith, eq_iff u user.username), ground (arith, eq_iff (sha256 p) user.password))

  is_user_complete :
      (login : Option (String × String)) (user : Credentials)
      → LogsIn login user
      → is_user sha256 login user ≡ true
  is_user_complete none user (p, e, d) = cc
  is_user_complete (some (u, q)) user (p, e, d) =
      ground (arith, eq_iff u user.username, eq_iff (sha256 q) user.password)

  is_one_of_sound :
      (login : Option (String × String)) (users : List Credentials)
      → is_one_of sha256 login users ≡ true
      → Any (LogsIn login) users
  is_one_of_sound login [] h = cc
  is_one_of_sound login (user ∷ users) h = elim (Bool-cases (is_user sha256 login user)) [
    | inl hit ↦ inl (is_user_sound login user hit)
    | inr miss ↦ inr (is_one_of_sound login users (ground arith))
  ]

  is_one_of_complete :
      (login : Option (String × String)) (users : List Credentials)
      → Any (LogsIn login) users
      → is_one_of sha256 login users ≡ true
  is_one_of_complete login [] h = elim h [ ]
  is_one_of_complete login (user ∷ users) (inl h) = rw (is_user_complete login user h)
  is_one_of_complete login (user ∷ users) (inr h) = ground (arith, is_one_of_complete login users h)

  pub grant_access_iff :
      {R : Type 0} (req : Request) (auth : Authorization R)
      → (grant_access sha256 req auth ≡ none) ↔ Grants req auth
  unfolding grant_access
  grant_access_iff req auth = elim (Option-cases auth.users) [
    | inl missing ↦ (λ _. inl missing, λ _. rw missing)
    | inr (users, given) ↦ (
      λ h. inr (users, given, is_one_of_sound req.basic_auth users (ground arith)),
      λ g. elim g [
        | inl missing ↦ cc
        | inr (us, same, h) ↦ ground (arith, is_one_of_complete req.basic_auth us h)
      ],
    )
  ]

  grant_access_text :
      {R : Type 0} (req : Request) (auth : Authorization R) (text : String)
      → grant_access sha256 req auth ≡ some text
      → text ≡ refusal auth
  unfolding grant_access
  grant_access_text req auth text h = ground arith

module _ {R : Type 0} (rx : Regexp R) (sha256 : String → String) where
  -- No rule speaks of the request, or the rule that decides it lets the user in.
  abbrev pub IsAdmitted : Config R → Request → Type 0
  IsAdmitted cfg req =
      All (λ a. ¬ Concerns rx req a) cfg.authorizations
      ⊎ ((auth : Authorization R) × Decides rx req cfg.authorizations auth × Grants sha256 req auth)

  abbrev pub IsRefused : Config R → Request → Authorization R → Type 0
  IsRefused cfg req auth = Decides rx req cfg.authorizations auth × ¬ Grants sha256 req auth

  pub security_filter_refused :
      {S : Type 0} (cfg : Config R) (hf : HandlerFunc S) (req : Request) (w : Response) (s : S)
      (auth : Authorization R)
      → IsRefused cfg req auth
      → security_filter rx sha256 cfg hf req w s ≡ ok (reject (refusal auth) w, s)
  unfolding security_filter
  security_filter_refused cfg hf req w s auth (d, denied) =
      let found = get_authorization-Decides rx req cfg.authorizations auth d in
      elim (Option-cases (grant_access sha256 req auth)) [
        | inl granted ↦ absurd (denied ((grant_access_iff sha256 req auth).0 granted))
        | inr (text, refused) ↦ ground (arith, found, grant_access_text sha256 req auth text)
      ]

  module _ {S : Type 0} (cfg : Config R) (hf : HandlerFunc S) (req : Request) (w : Response)
      (s : S) where
    abbrev pub Outcome : Type 0
    Outcome =
        (IsAdmitted cfg req × (security_filter rx sha256 cfg hf req w s ≡ hf req w s))
        ⊎ ((auth : Authorization R) × IsRefused cfg req auth
            × (security_filter rx sha256 cfg hf req w s ≡ ok (reject (refusal auth) w, s)))

    security_filter_open :
        All (IsCompiled rx req) cfg.authorizations
        → All (λ a. ¬ Concerns rx req a) cfg.authorizations
        → Outcome
    unfolding security_filter
    security_filter_open compiled h =
        inl (inl h, rw (get_authorization-none rx req cfg.authorizations compiled h))

    security_filter_decided :
        (auth : Authorization R) → Decides rx req cfg.authorizations auth → Outcome
    unfolding security_filter
    security_filter_decided auth d =
        let found = get_authorization-Decides rx req cfg.authorizations auth d in
        elim (Option-cases (grant_access sha256 req auth)) [
          | inl granted ↦
              inl
                (inr (auth, d, (grant_access_iff sha256 req auth).0 granted), ground (arith, found))
          | inr (text, refused) ↦
              let denied : IsRefused cfg req auth =
                (d, λ g. cc ((grant_access_iff sha256 req auth).1 g)) in
              inr (auth, denied, security_filter_refused cfg hf req w s auth denied)
        ]

  -- With compiled rules, every request is either admitted and handled, exactly as if there were no
  -- filter, or refused by the first rule that speaks of it: then the answer is 401 with the
  -- challenge header and that rule's text, and the handler's state is unchanged.
  pub security_filter_lem :
      {S : Type 0} (cfg : Config R) (hf : HandlerFunc S) (req : Request) (w : Response) (s : S)
      → All (IsCompiled rx req) cfg.authorizations
      → Outcome cfg hf req w s
  security_filter_lem cfg hf req w s compiled = elim (decision rx req cfg.authorizations compiled) [
    | inl (auth, d) ↦ security_filter_decided cfg hf req w s auth d
    | inr h ↦ security_filter_open cfg hf req w s compiled h
  ]
