-- ===== src/Cmd/Names.antt =====
-- cmd/root.go: the names of images on the command line, the login for the registry, and the parts of the
-- configuration. `reference.ParseNamed`, the host of a parsed URL and viper's values are parameters.
use dim.Prelude.{
  String, ◌≡◌, refl, sym, ◌∙◌, subst, ◌⊎◌, inl, inr, Bool, true, false, not, ◌&&◌, ◌||◌, Option,
  none, some, List, [], ◌∷◌, ◌==◌, if◌then◌else◌,
}
use dim.Prelude.Errors.{
  Error, error_text, message, Result, ok, err, panic, ◌>>=◌, >>=-eq-ok, ok_injective,
}
use Prim.Native.String
use text.Mathlib.Text.{starts_with}
use dim.Utils.{list_contains, build_url}
use dim.Cli.Credentials.{AuthConfig}
use dim.Registry.Client.{Named}
use dim.Server.Config.{Regexp, Authorization, Config, compile_path}

-- The flags and variables of the commands that name a registry.
pub record Settings : Type 0 where
  pub registry_url : String
  pub username : String
  pub password : String
  pub insecure : Bool

abbrev pub auth_config : Settings → Option AuthConfig
auth_config o =
    if not (o.username == "") || not (o.password == "")
    then some (record { username = o.username; password = o.password })
    else none

-- What every command reads first, from the values of the flags and the environment.
unfoldable pub persistent_pre_run :
    (registry_url username password : String) → (insecure : Bool) → Settings
persistent_pre_run registry_url username password insecure = record {
  registry_url = build_url registry_url insecure;
  username = username;
  password = password;
  insecure = insecure;
}

abbrev first_tag : List String → Result String
first_tag [] = err (message "Cannot override image with no tag. Use --tag option instead")
first_tag (tag ∷ tags) = ok tag

unfoldable pub guess_tag :
    (tag_option image_name : String)
    → (image_tags : List String) → (override : Bool) → Result String
guess_tag tag_option image_name image_tags override =
    if override && tag_option == ""
    then if list_contains image_tags image_name then ok image_name else first_tag image_tags
    else ok tag_option

module _ (parse_named : String → Result Named) (url_host : String → Result String)
    (default_hostname : String) where
  abbrev bad_name : String → Error → Error
  bad_name image e = message (
      String.◌++◌ "Failed to parse the name of the remote repository image "
        (String.◌++◌ image (String.◌++◌ " : " (error_text e))))

  abbrev bad_url : Error → Error
  bad_url e = message (String.◌++◌ "Failed to parse registry URL : " (error_text e))

  abbrev bad_full_name : Error → Error
  bad_full_name e =
      message
        (String.◌++◌ "Failed to parse the name of the remote repository image : " (error_text e))

  abbrev or_else {ℓ} : {A : Type ℓ} → (Error → Error) → Result A → Result A
  or_else wrap (ok a) = ok a
  or_else wrap (err e) = err (wrap e)
  or_else wrap panic = panic

  -- The name with the host of the registry before it.
  abbrev at_registry : (image registry_url : String) → Result Named
  at_registry image registry_url = or_else bad_url (url_host registry_url) >>= λ host.
      or_else bad_full_name (parse_named (String.◌++◌ host (String.◌++◌ "/" image)))

  -- An image of docker hub that does not say so is one of the registry.
  abbrev is_short : String → Named → Bool
  is_short image n = n.hostname == default_hostname && not (starts_with image default_hostname)

  unfoldable pub parse_name : (image registry_url : String) → Result Named
  parse_name image registry_url = or_else (bad_name image) (parse_named image) >>= λ n.
      if is_short image n then at_registry image registry_url else ok n

  or_else-eq-ok {ℓ} :
      {A : Type ℓ} (wrap : Error → Error) (r : Result A) {a : A} → or_else wrap r ≡ ok a → r ≡ ok a
  or_else-eq-ok wrap (ok b) h = h
  or_else-eq-ok wrap (err e) h = cc
  or_else-eq-ok wrap panic h = cc

  at_registry_inv :
      (image registry_url host : String) (n : Named)
      → url_host registry_url ≡ ok host
      → at_registry image registry_url ≡ ok n
      → parse_named (String.◌++◌ host (String.◌++◌ "/" image)) ≡ ok n
  at_registry_inv image registry_url host n u h =
      let (host', e, f) =
        >>=-eq-ok (or_else bad_url (url_host registry_url))
          (λ x. or_else bad_full_name (parse_named (String.◌++◌ x (String.◌++◌ "/" image)))) h in
      let same : host ≡ host' =
        ok_injective (sym u ∙ or_else-eq-ok bad_url (url_host registry_url) e) in
      or_else-eq-ok bad_full_name (parse_named (String.◌++◌ host (String.◌++◌ "/" image)))
        (rw same f)

  abbrev pub IsOwn : String → Named → Type 0
  IsOwn image n =
      (parse_named image ≡ ok n)
      × (((n.hostname == default_hostname) ≡ false) ⊎ (starts_with image default_hostname ≡ true))

  long_name : (b c : Bool) → (b && not c) ≡ false → (b ≡ false) ⊎ (c ≡ true)
  long_name true true h = inr refl
  long_name true false h = cc
  long_name false c h = inl refl

  chosen_name :
      (b : Bool) (image registry_url host : String) (m n : Named)
      → url_host registry_url ≡ ok host
      → parse_named image ≡ ok m
      → is_short image m ≡ b
      → (if b then at_registry image registry_url else ok m) ≡ ok n
      → (parse_named (String.◌++◌ host (String.◌++◌ "/" image)) ≡ ok n) ⊎ IsOwn image n
  chosen_name true image registry_url host m n u p short h =
      inl (at_registry_inv image registry_url host n u h)
  chosen_name false image registry_url host m n u p short h =
      let same : m ≡ n = ok_injective h in
      inr (
        subst (λ x. IsOwn image x) same
          (
            p,
            long_name (m.hostname == default_hostname) (starts_with image default_hostname) short,
          ))

  -- Where the host of the registry's URL, written before the image, parses as a name of that host: a name
  -- that is found is one of that host, or it is the image's own name, which is on another host than
  -- docker hub or starts with docker hub's.
  pub parse_name_lem :
      (image registry_url host : String) (n : Named)
      → url_host registry_url ≡ ok host
      → ((m : Named)
          → parse_named (String.◌++◌ host (String.◌++◌ "/" image)) ≡ ok m
          → m.hostname ≡ host)
      → parse_name image registry_url ≡ ok n
      → (n.hostname ≡ host) ⊎ IsOwn image n
  unfolding parse_name
  parse_name_lem image registry_url host n u law h =
      let (m, e, f) =
        >>=-eq-ok (or_else (bad_name image) (parse_named image))
          (λ x. if is_short image x then at_registry image registry_url else ok x) h in
      elim (chosen_name (is_short image m) image registry_url host m n u
        (or_else-eq-ok (bad_name image) (parse_named image) e) refl f) [
          | inl there ↦ inl (law n there)
          | inr own ↦ inr own
        ]

module _ {R : Type 0} (rx : Regexp R) where
  -- The loop over the authorizations, which stops at the first path that does not compile.
  unfoldable pub compile_paths : List (Authorization R) → Result (List (Authorization R))
  compile_paths [] = ok []
  compile_paths (auth ∷ auths) =
      compile_path rx auth >>= λ compiled. compile_paths auths >>= λ rest. ok (compiled ∷ rest)

  unfoldable pub read_server_config :
      (port : String) → Result (List (Authorization R)) → Result (Config R)
  read_server_config port auths =
      auths >>= compile_paths >>= λ compiled. ok (record { port = port; authorizations = compiled })
