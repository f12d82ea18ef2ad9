-- ===== src/Index/Tests.antt =====
-- The index on a bleve that holds its documents in a map, and the theorems at inputs that meet their
-- hypotheses.
use dim.Prelude.{
  String, ◌≡◌, refl, ◌≢◌, ◌⊎◌, Option, none, some, List, [], ◌∷◌, ◌++◌, map, arith, ◌==◌, eq_iff,
  if◌then◌else◌, length,
}
use dim.Prelude.Dict.{Dict, lookup, insert, lookup-insert}
use dim.Prelude.Errors.{Result, ok, panic}
use dim.Prelude.Text.{contains}
use dim.Prelude.Int.{ℤ, pos}
use dim.Types.{
  IndexImage, RegistryImage, ImageConfig, NotificationJob, Time, empty_image, delete_action,
  push_action,
}
use dim.Utils.{list_contains}
use dim.Index.Bleve.{Query, term, text, one, DocumentMatch, BleveResult, Bleve}
use dim.Index.Hooks.{Hook, get_hooks}
use dim.Index.Image.{parse, image_with}
use dim.Index.Documents.{document_to_image, collect, without_prefix}
use dim.Index.Laws.{Indexes, parse_lem}
use dim.Index.Store.{RegistryClient, find_image}
use dim.Index.Store.Laws.{Keeps, Finds}
use dim.Index.Notifications.{IndexState, handle}
use dim.Index.Notifications.Laws.{handle-delete}

abbrev pub Documents : Type 0
Documents = Dict IndexImage

pub remove : String → Documents → Documents
remove k [] = []
remove k ((j, d) ∷ m) = let rest = remove k m in if j == k then rest else (j, d) ∷ rest

lookup-remove :
    (k j : String) (m : Documents) → lookup j (remove k m) ≡ (if k == j then none else lookup j m)
unfolding lookup remove
lookup-remove k j [] = ground arith
lookup-remove k j ((i, d) ∷ m) =
    ground (arith, eq_iff k j, eq_iff i k, eq_iff i j, lookup-remove k j m)

abbrev hit_of : IndexImage → DocumentMatch
hit_of d = record {
  id = d.full_name;
  fields =
      ("Name", one (text d.name))
      ∷ ("Tag", one (text d.tag))
      ∷ ("FullName", one (text d.full_name))
      ∷ [];
}

abbrev hits_of : String → Documents → List DocumentMatch
hits_of id [] = []
hits_of id ((k, d) ∷ m) = let rest = hits_of id m in if d.id == id then hit_of d ∷ rest else rest

abbrev answer : List DocumentMatch → Result BleveResult
answer hits = ok (record { total = length hits; hits = hits })

abbrev run_query : Query → Documents → Result BleveResult
run_query (term field id) m = answer (hits_of id m)
run_query q m = answer (map (λ e. hit_of e.1) m)

abbrev pub test_bleve : Bleve Documents
test_bleve = record {
  search = λ r m. run_query r.query m;
  index = λ k d m. insert k d m;
  delete = remove;
}

pub test_docs : Documents → String → Option IndexImage
test_docs m k = lookup k m

pub test_bleve-Keeps : Keeps test_bleve test_docs
unfolding test_docs
test_bleve-Keeps = record {
  of_index = λ k j d m. lookup-insert k j d m;
  of_delete = λ k j m. lookup-remove k j m;
}

abbrev test_image : IndexImage
test_image = record empty_image {
  id = "sha256:12";
  name = "mysql";
  tag = "5.7";
  full_name = "mysql:5.7";
}

abbrev pub test_index : Documents
test_index = ("mysql:5.7", test_image) ∷ []

abbrev pub no_time : String → Option Time
no_time t = none

abbrev pub no_verb : ℤ → String
no_verb n = ""

abbrev pub no_hex : String → String
no_hex s = s

abbrev test_result : BleveResult
test_result = record { total = 1; hits = hit_of test_image ∷ [] }

abbrev test_names : List String
test_names = "mysql:5.7" ∷ []

test_Finds : Finds test_docs "sha256:12" test_index test_result test_names
unfolding test_docs lookup list_contains
test_Finds = record {
  named = unfold lookup in refl;
  counted = refl;
  complete = λ k d held same. ground arith;
  sound = λ k hit. (test_image, ground arith, refl);
}

abbrev pub test_hooks : List (Hook String)
test_hooks =
    record { event = push_action; action = "push"; eval = none }
    ∷ record { event = delete_action; action = "delete"; eval = none }
    ∷ []

abbrev test_config : ImageConfig
test_config = record {
  labels = ("type", "db") ∷ [];
  volumes = [];
  env = "PATH=/bin" ∷ [];
  exposed_ports = [];
}

abbrev test_registry_image : RegistryImage
test_registry_image = record {
  tag = "8.0";
  digest = "sha256:80";
  id = "";
  comment = "";
  created = 0;
  author = "";
  config = some test_config;
  size = pos 5;
}

parse_lem_example :
    Indexes "mysql" test_registry_image test_config
      (image_with "mysql" test_registry_image test_config)
parse_lem_example =
    parse_lem "mysql" test_registry_image test_config
      (image_with "mysql" test_registry_image test_config) refl ((unfold lookup in refl), tt)
      (unfold parse in refl) (unfold contains in refl) (unfold contains in refl)

abbrev pub test_client : RegistryClient String
test_client = record {
  new_repository = λ name. ok name;
  image_from_manifest =
      λ repo digest tag. ok (record test_registry_image { tag = tag; digest = digest });
}

abbrev test_state : IndexState String Documents
test_state = record { index = test_index; triggered = [] }

abbrev pub push_job : NotificationJob
push_job = record { action = push_action; repository = "mysql"; tag = "8.0"; digest = "sha256:80" }

abbrev pub pushed : IndexImage
pushed = image_with "mysql" test_registry_image test_config

abbrev delete_job : NotificationJob
delete_job = record { action = delete_action; repository = "mysql"; tag = ""; digest = "sha256:12" }

found_safe : find_image test_bleve no_time no_verb no_hex "sha256:12" test_index ≢ panic
unfolding find_image document_to_image collect without_prefix lookup
found_safe e = cc e

handle-delete_example :
    (s' : IndexState String Documents) × (handle test_bleve test_client no_time no_verb no_hex
        test_hooks delete_job test_state
      ≡ ok s')
    × ((k : String) (d : IndexImage) → test_docs s'.index k ≡ some d → d.id ≢ "sha256:12")
    × ((k : String) (d : IndexImage)
        → test_docs test_index k ≡ some d
        → d.id ≢ "sha256:12"
        → test_docs s'.index k ≡ some d)
    × ((s'.triggered ≡ [])
        ⊎ ((img : IndexImage) × (find_image test_bleve no_time no_verb no_hex "sha256:12" test_index
              ≡ ok img)
            × (s'.triggered ≡ [] ++ map (λ h. (h, img)) (get_hooks test_hooks delete_job.action))))
handle-delete_example =
    handle-delete test_bleve test_docs test_bleve-Keeps test_client no_time no_verb no_hex
      test_hooks delete_job test_state test_result test_names refl refl test_Finds found_safe
