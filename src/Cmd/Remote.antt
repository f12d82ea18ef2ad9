-- ===== src/Cmd/Remote.antt =====
-- `connectRegistry` of cmd/root.go: the client of the registry that an image is in.
use dim.Prelude.{String, Option}
use dim.Prelude.Errors.{Error, error_text, message, Result, ok, err, panic}
use Prim.Native.String
use dim.Prelude.Exec.{Exec}
use dim.Utils.{build_url}
use dim.Cli.Credentials.{AuthConfig}
use dim.Registry.Client.{Named}
use dim.Types.{Info, SearchResults}
use dim.Prelude.Int.{ℤ}
use dim.Cmd.Names.{Settings, auth_config}

-- `dim.RegistryClient` with the clients `C` of lib/registry, where `T` are the parsed templates and `O`
-- the outputs. The loop of `New` that asks for a login is part of `new`.
pub record RegistryClient (W C T O : Type 0) : Type 0 where
  pub new : Option AuthConfig → String → Exec W C
  pub silent_new : Option AuthConfig → String → Exec W C
  pub search : C → (query advanced : String) → (offset max_results : ℤ) → Exec W SearchResults
  pub delete_image : C → Named → Exec W (Unit {0})
  pub print_image_info : C → O → Named → T → Exec W (Unit {0})
  pub server_version : C → Exec W Info

abbrev pub failed_to_connect : Error → Error
failed_to_connect e = message (String.◌++◌ "Failed to connect to registry : " (error_text e))

-- `parse_name` is `parseName`.
module _ {W C T O : Type 0} (registry : RegistryClient W C T O)
    (parse_name : String → String → Result Named) (settings : Settings) where
  abbrev pub joined : Named → Result C × W → Result (C × Named) × W
  joined n (ok client, w) = (ok (client, n), w)
  joined n (err e, w) = (err (failed_to_connect e), w)
  joined n (panic, w) = (panic, w)

  abbrev join_registry : Result Named → Exec W (C × Named)
  join_registry (ok n) w =
      joined n (registry.new (auth_config settings) (build_url n.hostname settings.insecure) w)
  join_registry (err e) w = (err e, w)
  join_registry panic w = (panic, w)

  unfoldable pub connect_registry : String → Exec W (C × Named)
  connect_registry image = join_registry (parse_name image settings.registry_url)
