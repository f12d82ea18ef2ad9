-- ===== src/Cmd/Version.antt =====
-- `PrintVersion` of cmd/version.go, and the exit code of main.go.
use dim.Prelude.{ℕ, String, Option, none, some, ◌==◌, if◌then◌else◌}
use dim.Prelude.Errors.{Error, error_text, Result, ok, err, panic}
use Prim.Native.String
use dim.Prelude.Exec.{Exec, continue}
use dim.Types.{Info}
use dim.Cmd.Names.{Settings, auth_config}
use dim.Cmd.Remote.{RegistryClient}

-- `print` writes to the terminal, which may fail.
module _ {W C T O : Type 0} (registry : RegistryClient W C T O) (print : String → Exec W (Unit {0}))
    (settings : Settings) (version : String) where
  abbrev pub version_line : String
  version_line = String.◌++◌ "dim version : " (String.◌++◌ version "\n")

  abbrev pub server_lines : Info → String
  server_lines infos =
      String.◌++◌ "server version : " (
        String.◌++◌ infos.version
          (String.◌++◌ "\nserver uptime : " (String.◌++◌ infos.uptime "\n")))

  abbrev pub not_available : Error → String
  not_available e = String.◌++◌ "N/A (" (String.◌++◌ (error_text e) ")\n")

  abbrev asked : Exec W Info
  asked w =
      let (r, w') = registry.silent_new (auth_config settings) settings.registry_url w in
      continue r registry.server_version w'

  abbrev print_infos : Result Info × W → Result (Unit {0}) × W
  print_infos (ok infos, w) = print (server_lines infos) w
  print_infos (err e, w) = (err e, (print (not_available e) w).1)
  print_infos (panic, w) = (panic, w)

  unfoldable pub print_version : Exec W (Unit {0})
  print_version w =
      let (r, w') = print version_line w in
      continue r (λ _ u. if settings.registry_url == "" then (ok tt, u) else print_infos (asked u))
        w'

  -- The exit code of main.go for `dim --version`; a panic has ended the process before it.
  abbrev pub exit_code : Result (Unit {0}) → Option ℕ
  exit_code (ok done) = some 0
  exit_code (err e) = some 1
  exit_code panic = none
