-- ===== src/Server/Proxy.antt =====
-- server/proxy.go: what is changed in a request before it goes to the registry.
-- Go's `httputil.ReverseProxy` is a parameter, the handler that the rewritten request is given to.
use dim.Prelude.{
  String, ◌≡◌, inl, inr, not, ◌&&◌, ◌||◌, some, [], ◌∷◌, arith, ◌==◌, eq_iff, if◌then◌else◌,
  Bool-cases,
}
use dim.Prelude.Dict.{lookup, lookup-insert}
use dim.Server.Http.{Request, HandlerFunc, header_set}

pub record Url : Type 0 where
  pub scheme : String
  pub host : String

pub record RegistryProxy : Type 0 where
  pub target : Url
  pub username : String
  pub password : String

unfoldable pub new_registry_proxy : Url → String → String → RegistryProxy
new_registry_proxy registry_url username password = record {
  target = registry_url;
  username = username;
  password = password;
}

module _ (rp : RegistryProxy) where
  abbrev with_credentials : Request → Request
  with_credentials r =
      if not (rp.username == "") && not (rp.password == "")
      then record r { basic_auth = some (rp.username, rp.password) }
      else r

  abbrev with_forwarded : Request → Request
  with_forwarded r =
      let proto = if r.tls then header_set "X-Forwarded-Proto" "https" r.header else r.header in
      record r { header = header_set "X-Forwarded-Host" r.host proto }

  abbrev with_scheme : Request → Request
  with_scheme r = if rp.target.scheme == "https" then record r { url_scheme = "https" } else r

  abbrev with_host : Request → Request
  with_host r =
      if rp.target.host == r.host
      then r
      else record r { url_host = rp.target.host; host = rp.target.host }

  -- The request that `Forwards` hands to the reverse proxy.
  unfoldable pub rewrite : Request → Request
  rewrite r = with_host (with_scheme (with_forwarded (with_credentials r)))

  unfoldable pub forwards : {S : Type 0} → HandlerFunc S → HandlerFunc S
  unfolding rewrite
  forwards serve_http r w s = serve_http (rewrite r) w s

  header-rewrite : (r : Request) → (rewrite r).header ≡ (with_forwarded r).header
  unfolding rewrite
  header-rewrite r = ground arith

  host-rewrite : (r : Request) → (rewrite r).host ≡ rp.target.host
  unfolding rewrite
  host-rewrite r = ground (arith, eq_iff rp.target.host r.host)

  basic_auth-rewrite :
      (r : Request)
      → (rewrite r).basic_auth ≡ (
          if rp.username == "" || rp.password == ""
          then r.basic_auth
          else some (rp.username, rp.password))
  unfolding rewrite
  basic_auth-rewrite r = ground arith

  forwarded_host :
      (r : Request) → lookup "X-Forwarded-Host" (with_forwarded r).header ≡ some (r.host ∷ [])
  forwarded_host r = rw lookup-insert

  forwarded_proto :
      (r : Request)
      → lookup "X-Forwarded-Proto" (with_forwarded r).header
        ≡ (if r.tls then some ("https" ∷ []) else lookup "X-Forwarded-Proto" r.header)
  forwarded_proto r = elim (Bool-cases r.tls) [
    | inl on ↦ rw (on, lookup-insert, lookup-insert)
    | inr off ↦ rw (off, lookup-insert)
  ]

  -- The forwarded request is addressed to the registry and carries the host that the client asked
  -- for; over TLS it carries the protocol, and otherwise leaves that header alone. The registry's
  -- credentials replace the client's exactly if both are set. Method, path and body are the client's.
  pub rewrite_lem :
      (r : Request)
      → ((rewrite r).host ≡ rp.target.host)
        × (lookup "X-Forwarded-Host" (rewrite r).header ≡ some (r.host ∷ []))
        × (lookup "X-Forwarded-Proto" (rewrite r).header
            ≡ (if r.tls then some ("https" ∷ []) else lookup "X-Forwarded-Proto" r.header))
        × ((rewrite r).basic_auth ≡ (
            if rp.username == "" || rp.password == ""
            then r.basic_auth
            else some (rp.username, rp.password)))
        × ((rewrite r).method ≡ r.method)
        × ((rewrite r).url_path ≡ r.url_path)
        × ((rewrite r).body ≡ r.body)
  rewrite_lem r = (
    host-rewrite r,
    rw header-rewrite (forwarded_host r),
    rw header-rewrite (forwarded_proto r),
    basic_auth-rewrite r,
    unfold rewrite in ground arith,
    unfold rewrite in ground arith,
    unfold rewrite in ground arith,
  )
