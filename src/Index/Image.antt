-- ===== src/Index/Image.antt =====
-- `Parse` of lib/index/image.go: the index record of an image of the registry.
-- The order in which Go visits a map is the order of its entries here.
use dim.Prelude.{String, none, some, []}
use dim.Prelude.Errors.{Result, ok, panic}
use Prim.Native.String
use dim.Types.{IndexImage, RegistryImage, ImageConfig}
use dim.Utils.{keys, filter_values}
use dim.Dim.{parse_env}

abbrev pub full_name_of : String → String → String
full_name_of name tag = String.◌++◌ name (String.◌++◌ ":" tag)

abbrev pub image_with : String → RegistryImage → ImageConfig → IndexImage
image_with name img config = record {
  id = img.digest;
  name = name;
  full_name = full_name_of name img.tag;
  tag = img.tag;
  comment = img.comment;
  created = img.created;
  author = img.author;
  label = some (filter_values config.labels "");
  labels = keys (filter_values config.labels "");
  volumes = config.volumes;
  exposed_ports = config.exposed_ports;
  env = some (parse_env config.env []);
  envs = keys (parse_env config.env []);
  size = img.size;
}

-- `img.Config` is dereferenced unseen.
unfoldable pub parse : String → RegistryImage → Result IndexImage
parse name img = elim img.config [ none ↦ panic | some config ↦ ok (image_with name img config) ]
