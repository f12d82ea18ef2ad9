-- ===== src/Cmd/Show.antt =====
-- `runShow` of cmd/show.go: the details of an image, local or of its registry, through a template, on
-- the terminal or into a file. Parsing the template and creating the file are parameters.
use dim.Prelude.{String, Bool, List, [], ◌∷◌, ◌==◌, if◌then◌else◌}
use dim.Prelude.Errors.{Error, error_text, message, Result, ok, err}
use Prim.Native.String
use dim.Prelude.Exec.{Exec, continue}
use dim.Registry.Client.{Named}
use dim.Cmd.Names.{Settings}
use dim.Cmd.Remote.{RegistryClient, connect_registry}

pub record ShowFlags : Type 0 where
  pub template_flag : String
  pub output_flag : String
  pub remote_flag : Bool

abbrev name_missing : Error
name_missing = message "image name is missing"

abbrev failed_to_open : String → Error → Error
failed_to_open file e =
    message
      (String.◌++◌ "Failed to open file " (String.◌++◌ file (String.◌++◌ " : " (error_text e))))

-- `print_local` is `PrintImageInfo` of the daemon's images, `info_tpl` the default template.
module _ {W C T O : Type 0} (registry : RegistryClient W C T O)
    (parse_name : String → String → Result Named) (settings : Settings) (parse : String → Result T)
    (create : String → Exec W O) (out : O) (print_local : O → String → T → Exec W (Unit {0}))
    (info_tpl : String) (flags : ShowFlags) where
  abbrev template_text : String
  template_text = if flags.template_flag == "" then info_tpl else flags.template_flag

  abbrev wrap_open : Result O × W → Result O × W
  wrap_open (err e, w) = (err (failed_to_open flags.output_flag e), w)
  wrap_open r = r

  abbrev open_output : Exec W O
  open_output w =
      if flags.output_flag == "" then (ok out, w) else wrap_open (create flags.output_flag w)

  abbrev show_remote : String → T → O → Exec W (Unit {0})
  show_remote image tpl output w =
      let (r, w') = connect_registry registry parse_name settings image w in
      continue r (λ p. registry.print_image_info p.0 output p.1 tpl) w'

  abbrev show_to : String → T → O → Exec W (Unit {0})
  show_to image tpl output w =
      if flags.remote_flag then show_remote image tpl output w else print_local output image tpl w

  abbrev show_with : String → T → Exec W (Unit {0})
  show_with image tpl w = let (r, w') = open_output w in continue r (show_to image tpl) w'

  unfoldable pub run_show : List String → Exec W (Unit {0})
  run_show [] w = (err name_missing, w)
  run_show (image ∷ args) w = continue (parse template_text) (show_with image) w
