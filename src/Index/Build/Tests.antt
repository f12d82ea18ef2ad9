-- ===== src/Index/Build/Tests.antt =====
-- A schedule of `Build` for one repository with one image.
use dim.Prelude.{ℕ, ◌≡◌, refl, true, some, List, [], ◌∷◌, arith}
use dim.Prelude.Int.{pos}
use dim.Types.{IndexImage, RegistryImage, ImageConfig}
use dim.Index.Image.{parse, image_with}
use dim.Index.Build.{
  RepoImage, RepoWalk, BuildState, build, start_browser, start_parsers, push_image, end_browser,
  close_images, take_image, push_task, end_parser, close_tasks, collect_task, close_done, Reach,
  begun, later, ended,
}
use dim.Prelude.{total}
use dim.Index.Build.Invariant.{walk_weight, Reach-done}
use dim.Index.Build.Completion.{Completes, Reach-Completes}

abbrev config : ImageConfig
config = record { labels = []; volumes = []; env = []; exposed_ports = [] }

abbrev image : RegistryImage
image = record {
  tag = "8.0";
  digest = "sha256:80";
  id = "";
  comment = "";
  created = 0;
  author = "";
  config = some config;
  size = pos 5;
}

abbrev mysql : RepoImage
mysql = record { repo_name = "mysql"; image = some image }

abbrev repositories : List RepoWalk
repositories = (mysql ∷ [], true) ∷ []

abbrev mysql_record : IndexImage
mysql_record = image_with "mysql" image config

abbrev finished : BuildState
finished = record {
  phase = ended;
  walking = [];
  repositories_close = true;
  browsing = [];
  images = [];
  idle = 0;
  parsing = [];
  tasks = [];
  batch = mysql_record ∷ [];
  done = true;
}

schedule : Reach repositories true finished
unfolding build parse
schedule =
    let started =
      later (later begun (start_browser _ (mysql ∷ [], true) [] refl refl))
        (start_parsers _ refl refl refl) in
    let pushed = later started (push_image _ [] [] mysql [] true refl (omega arith)) in
    let closed = later (later pushed (end_browser _ [] [] refl)) (close_images _ refl refl) in
    let parsed =
      later (later closed (take_image _ mysql [] 2 refl refl))
        (push_task _ [] [] mysql mysql_record refl refl (omega arith)) in
    let collected = later parsed (collect_task _ mysql_record [] refl) in
    let alone =
      later
        (later (later collected (end_parser _ 2 refl refl refl)) (end_parser _ 1 refl refl refl))
        (end_parser _ 0 refl refl refl) in
    later (later alone (close_tasks _ refl refl refl)) (close_done _ refl refl refl)

abbrev one_each : IndexImage → ℕ
one_each task = 1

Reach-done_example : total one_each (mysql_record ∷ []) ≡ total (walk_weight one_each) repositories
Reach-done_example = Reach-done one_each schedule refl

Reach-Completes_example : Completes (build repositories true)
Reach-Completes_example =
    Reach-Completes ((((mysql_record, unfold parse in refl), tt), refl), tt) begun
