-- ===== src/Dim/Tests.antt =====
-- The client's operations on a daemon with one image, as in lib/dim_test.go.
use dim.Prelude.{String, ◌⊎◌, some, List, [], ◌∷◌}
use dim.Prelude.Dict.{Dict}
use dim.Prelude.Errors.{ok}
use dim.Prelude.Int.{pos}
use dim.Dim.{ImageInspect, Docker, add_label, remove_label}
use dim.Dim.Labels.{Refuses, Adds, Clears, add_label_lem, remove_label_lem}

abbrev test_inspect : ImageInspect
test_inspect = record {
  id = "123456";
  repo_tags = "mysql:5.7" ∷ [];
  comment = "";
  author = "";
  created = "2016-07-24T09:05:06Z";
  size = pos 1024;
  config_labels = some (("type", "db") ∷ []);
  config_volumes = [];
  config_env = "PATH=/usr/bin" ∷ [];
  config_exposed_ports = pos 3306 ∷ [];
}

-- The daemon's state is the list of the images that it was asked to build.
abbrev Builds : Type 0
Builds = List (String × Dict String × String)

abbrev test_docker : ImageInspect → Docker Builds
test_docker i = record {
  image_build = λ parent build tag w. (ok tt, (parent, build, tag) ∷ w);
  pull = λ image w. (ok tt, w);
  inspect = λ image w. ok i;
  remove = λ image w. (ok tt, w);
  push = λ image w. (ok tt, w);
}

add_label_lem_example :
    Refuses
      (test_docker test_inspect)
      "mysql"
      "mysql:new"
      []
      (add_label (test_docker test_inspect) "mysql" ("os=linux" ∷ []) "mysql:new")
    ⊎ Adds (test_docker test_inspect) "mysql" "mysql:new" [] ("os=linux" ∷ [])
add_label_lem_example =
    add_label_lem (test_docker test_inspect) "mysql" "mysql:new" [] ("os=linux" ∷ [])

remove_label_lem_example :
    Refuses
      (test_docker test_inspect)
      "mysql"
      "mysql:new"
      []
      (remove_label (test_docker test_inspect) "mysql" ("type" ∷ []) "mysql:new")
    ⊎ Clears (test_docker test_inspect) "mysql" "mysql:new" [] ("type" ∷ [])
remove_label_lem_example =
    remove_label_lem (test_docker test_inspect) "mysql" "mysql:new" [] ("type" ∷ [])
