-- ===== src/Cmd/Root.antt =====
-- `NewRootCommand` of cmd/root.go: the configuration file and the level of the log; the functions of hooks
-- of cmd/server.go that log.
use dim.Prelude.{String, Bool, true, Option, none, some, List, [], ◌∷◌, ◌++◌, ◌==◌, if◌then◌else◌}
use dim.Prelude.Errors.{Error, Result, ok, panic, ◌>>=◌}
use dim.Cmd.Names.{Settings, persistent_pre_run}

pub data Level : Type 0 where
  debug_level info_level warn_level error_level fatal_level : Level

-- The level that the log is set to, `level` being the one that it has: any other text leaves it.
unfoldable pub set_level : (log_level : String) → (level : Level) → Level
set_level log_level level =
    if log_level == "debug"
    then debug_level
    else if log_level == "info"
    then info_level
    else if log_level == "warn"
    then warn_level
    else if log_level == "error"
    then error_level
    else if log_level == "fatal"
    then fatal_level
    else level

-- The errors of `viper.ReadInConfig`, as the switch on their type tells them apart.
pub data ConfigError : Type 0 where
  path_error config_file_not_found : ConfigError
  other_error : Error → ConfigError

-- No file is no error; a file that cannot be read ends the process.
unfoldable pub read_in_config : Option ConfigError → Result (Unit {0})
read_in_config none = ok tt
read_in_config (some path_error) = ok tt
read_in_config (some config_file_not_found) = ok tt
read_in_config (some (other_error e)) = panic

-- The values of the flags and the environment that every command reads.
pub record RootFlags : Type 0 where
  pub log_level : String
  pub registry_url_flag : String
  pub registry_user : String
  pub registry_password : String
  pub insecure_flag : Bool

-- What a command starts with: the file is read when the commands are made, the flags when one runs.
unfoldable pub start_command : Option ConfigError → RootFlags → Level → Result (Settings × Level)
start_command file flags level = read_in_config file >>= λ _. ok (
  persistent_pre_run flags.registry_url_flag flags.registry_user flags.registry_password
      flags.insecure_flag,
  set_level flags.log_level level,
)

-- A line of the log, with the arguments `A` of the hook that wrote it.
abbrev pub Log : Type 0 → Type 0
Log A = List (Level × List A)

abbrev log_at : {A : Type 0} → Level → List A → Log A → Bool × Log A
log_at level args log = (true, log ++ (level, args) ∷ [])

-- `info`, `warn` and `error` of `hookFunctions`
unfoldable pub log_info : {A : Type 0} → List A → Log A → Bool × Log A
log_info = log_at info_level

unfoldable pub log_warn : {A : Type 0} → List A → Log A → Bool × Log A
log_warn = log_at warn_level

unfoldable pub log_error : {A : Type 0} → List A → Log A → Bool × Log A
log_error = log_at error_level
