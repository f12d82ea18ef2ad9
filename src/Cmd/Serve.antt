-- ===== src/Cmd/Serve.antt =====
-- `runServer` of cmd/server.go: the checks, the index, and the server that listens with or without a
-- certificate. Opening the index, its indexation, the proxy and the listeners are interfaces.
use dim.Prelude.{
  ℕ, zero, suc, Option, none, some, String, ◌≡◌, ap, inl, inr, Bool, true, false, not, ◌==◌,
  if◌then◌else◌, Bool-cases,
}
use dim.Prelude.Errors.{Error, message, Result, ok, err, panic}
use mathlib.Core.Path.{fun_ext}
use dim.Prelude.Exec.{Exec, continue}
use dim.Cmd.Names.{Settings, auth_config}
use dim.Cmd.Remote.{RegistryClient, failed_to_connect}

-- `index.New` and `Build`, which only starts the indexation.
pub record Indexes (W C H I : Type 0) : Type 0 where
  pub new : (directory : String) → H → C → Exec W I
  pub build : I → W → W

-- What a server is made of: its configuration, the index and the proxy, which sends a login.
pub record Parts (K I U : Type 0) : Type 0 where
  pub config : K
  pub index : I
  pub url : U
  pub login : String × String

-- `Run` and `RunSecure`, which return when the server ends.
pub record Listeners (W K I U : Type 0) : Type 0 where
  pub run : Parts K I U → Exec W (Unit {0})
  pub run_secure : (cert key : String) → Parts K I U → Exec W (Unit {0})

abbrev no_registry : Error
no_registry = message "No registry URL given"

abbrev separate_files : Error
separate_files = message "ssl-cert-file and ssl-key-file cannot be defined separately"

abbrev pub one_only : Bool → Bool → Bool
one_only true b = not b
one_only false b = b

module _ {W C T O H I U K : Type 0} (registry : RegistryClient W C T O) (indexes : Indexes W C H I)
    (parse_url : String → Result U) (settings : Settings)
    (directory ssl_cert ssl_key : String) where
  -- The configuration of the access rules is read when the indexation has started.
  abbrev with_index :
      (listen : Parts K I U → Exec W (Unit {0})) → Result K → U → I → Exec W (Unit {0})
  with_index listen server_config url idx w =
      continue server_config
        (λ cfg. listen (record {
          config = cfg;
          index = idx;
          url = url;
          login = (settings.username, settings.password);
        }))
        (indexes.build idx w)

  abbrev with_client :
      (listen : Parts K I U → Exec W (Unit {0}))
      → Result K
      → H
      → U
      → Result C × W
      → Result (Unit {0}) × W
  with_client listen server_config hooks url (ok client, w) =
      let (r, w') = indexes.new directory hooks client w in
      continue r (with_index listen server_config url) w'
  with_client listen server_config hooks url (err e, w) = (err (failed_to_connect e), w)
  with_client listen server_config hooks url (panic, w) = (panic, w)

  abbrev with_hooks : (listen : Parts K I U → Exec W (Unit {0})) → Result K → H → Exec W (Unit {0})
  with_hooks listen server_config hooks = continue (parse_url settings.registry_url) λ url w.
      with_client listen server_config hooks url
        (registry.new (auth_config settings) settings.registry_url w)

  -- The hooks are read before the registry is asked.
  unfoldable pub checked :
      (listen : Parts K I U → Exec W (Unit {0})) → Result H → Result K → Exec W (Unit {0})
  checked listen hooks server_config w =
      if settings.registry_url == ""
      then (err no_registry, w)
      else if one_only (ssl_cert == "") (ssl_key == "")
      then (err separate_files, w)
      else continue hooks (with_hooks listen server_config) w

  abbrev listen_with : Listeners W K I U → Parts K I U → Exec W (Unit {0})
  listen_with listeners parts w =
      if not (ssl_cert == "")
      then listeners.run_secure ssl_cert ssl_key parts w
      else listeners.run parts w

  unfoldable pub run_server : Listeners W K I U → Result H → Result K → Exec W (Unit {0})
  run_server listeners = checked (listen_with listeners)

  -- With a certificate the server never listens without it: the command does the same with any other
  -- `Run`. Without one it does the same with any other `RunSecure`.
  pub run_server-listens :
      (listeners : Listeners W K I U) (run : Parts K I U → Exec W (Unit {0}))
      (run_secure : String → String → Parts K I U → Exec W (Unit {0})) (hooks : Result H)
      (server_config : Result K) (w : W)
      → run_server listeners hooks server_config w
        ≡ run_server
            (if ssl_cert == ""
              then record listeners { run_secure = run_secure }
              else record listeners { run = run })
            hooks
            server_config
            w
  unfolding run_server
  run_server-listens listeners run run_secure hooks server_config w =
      ap (λ listen. checked listen hooks server_config w)
        (fun_ext λ parts.
          fun_ext
            λ u. elim (Bool-cases (ssl_cert == "")) [ inl blank ↦ rw blank | inr given ↦ rw given ])

  -- Where the access rules of the configuration are wrong, the error is returned when the registry has
  -- been joined, the index opened and its indexation started.
  pub run_server-late :
      (listeners : Listeners W K I U) (hooks : H) (e : Error) (url : U) (client : C) (idx : I)
      (w w1 w2 : W)
      → (settings.registry_url == "") ≡ false
      → one_only (ssl_cert == "") (ssl_key == "") ≡ false
      → parse_url settings.registry_url ≡ ok url
      → registry.new (auth_config settings) settings.registry_url w ≡ (ok client, w1)
      → indexes.new directory hooks client w1 ≡ (ok idx, w2)
      → run_server listeners (ok hooks) (err e) w ≡ (err e, indexes.build idx w2)
  unfolding run_server checked
  run_server-late listeners hooks e url client idx w w1 w2 given together parsed joined opened =
      rw (given, together, parsed, joined, opened)

-- What `handleSignal` does with the interrupts of the process, `server` being the server's `BlockingClose`
-- where it has been made: at the first one the process ends, with the status that is returned.
unfoldable pub handle_signal :
    {W : Type 0} → (server : Option (W → W)) → (interrupts : ℕ) → W → Option ℕ × W
handle_signal server zero w = (none, w)
handle_signal none (suc n) w = (some 0, w)
handle_signal (some blocking_close) (suc n) w = (some 0, blocking_close w)
