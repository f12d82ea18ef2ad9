-- ===== src/Index/Build.antt =====
-- `Build` of lib/index/index.go: the goroutines that read the images of all repositories, parse them and
-- collect them in one batch, as steps in any order. What the walks of the registry will send, and
-- whether they then close their channels, is given: a walk that does not, as one that has lost a worker or
-- that asks a failing registry for ever, keeps its reader in the loop. An image is a pointer, which a
-- walk may send as nil. The batch is the sequence of its `Index` calls; it is
-- handed to bleve, where an error is only logged, in the step that closes `done`. A parser that panics ends the
-- process: it has no step.
pub mod Invariant
pub mod Progress
pub mod Completion
mod Tests
use dim.Prelude.{
  ℕ, suc, ◌<◌, String, ◌≡◌, Bool, true, false, Option, none, some, List, [], ◌∷◌, ◌++◌, length,
}
use dim.Prelude.Errors.{Result, ok, panic, ◌>>=◌}
use dim.Types.{IndexImage, RegistryImage}
use dim.Index.Image.{parse}

pub record RepoImage : Type 0 where
  pub repo_name : String
  pub image : Option RegistryImage

-- What `WalkImages` of a repository sends, and whether it then closes its channel.
abbrev pub RepoWalk : Type 0
RepoWalk = List RepoImage × Bool

-- Where the goroutine is that `Build` starts: in the loop over the repositories, waiting for the
-- browsers, waiting for the parsers with the channel of images closed, and past the end with the channel
-- of tasks closed.
pub data Phase : Type 0 where
  walks waits_images waits_tasks ended : Phase

-- `walking` are the repositories that are still to be received, `browsing` what the browsers have left to
-- receive and push, `repositories_close` whether `WalkRepositories` closes its channel, `idle` the parsers that wait for an image, `parsing` the images that the others hold.
pub record BuildState : Type 0 where
  pub phase : Phase
  pub walking : List RepoWalk
  pub repositories_close : Bool
  pub browsing : List RepoWalk
  pub images : List RepoImage
  pub idle : ℕ
  pub parsing : List RepoImage
  pub tasks : List IndexImage
  pub batch : List IndexImage
  pub done : Bool

abbrev pub image_capacity : ℕ
image_capacity = 10

abbrev pub task_capacity : ℕ
task_capacity = 5

abbrev pub parsers : ℕ
parsers = 3

unfoldable pub build : List RepoWalk → (repositories_close : Bool) → BuildState
build repositories closes = record {
  phase = walks;
  walking = repositories;
  repositories_close = closes;
  browsing = [];
  images = [];
  idle = 0;
  parsing = [];
  tasks = [];
  batch = [];
  done = false;
}

-- `Parse` reads the image through its pointer.
abbrev pub parse_image : RepoImage → Result IndexImage
parse_image i = elim i.image [ none ↦ panic | some img ↦ parse i.repo_name img ]

pub data Step : BuildState → BuildState → Type 0 where
  start_browser :
      (s : BuildState) (r : RepoWalk) (rs : List RepoWalk)
      → s.phase ≡ walks
      → s.walking ≡ r ∷ rs
      → Step s (record s { walking = rs; browsing = r ∷ s.browsing })
  start_parsers :
      (s : BuildState)
      → s.phase ≡ walks
      → s.walking ≡ []
      → s.repositories_close ≡ true
      → Step s (record s { phase = waits_images; idle = parsers })
  push_image :
      (s : BuildState) (others rest : List RepoWalk) (i : RepoImage) (left : List RepoImage)
      (closes : Bool)
      → s.browsing ≡ others ++ (i ∷ left, closes) ∷ rest
      → length s.images < image_capacity
      → Step s
          (record s { browsing = others ++ (left, closes) ∷ rest; images = s.images ++ i ∷ [] })
  end_browser :
      (s : BuildState) (others rest : List RepoWalk)
      → s.browsing ≡ others ++ ([], true) ∷ rest
      → Step s (record s { browsing = others ++ rest })
  close_images :
      (s : BuildState)
      → s.phase ≡ waits_images
      → s.browsing ≡ []
      → Step s (record s { phase = waits_tasks })
  take_image :
      (s : BuildState) (i : RepoImage) (left : List RepoImage) (n : ℕ)
      → s.images ≡ i ∷ left
      → s.idle ≡ suc n
      → Step s (record s { images = left; idle = n; parsing = i ∷ s.parsing })
  push_task :
      (s : BuildState) (others rest : List RepoImage) (i : RepoImage) (task : IndexImage)
      → s.parsing ≡ others ++ i ∷ rest
      → parse_image i ≡ ok task
      → length s.tasks < task_capacity
      → Step s
          (record s { parsing = others ++ rest; idle = suc s.idle; tasks = s.tasks ++ task ∷ [] })
  end_parser :
      (s : BuildState) (n : ℕ)
      → s.phase ≡ waits_tasks
      → s.images ≡ []
      → s.idle ≡ suc n
      → Step s (record s { idle = n })
  close_tasks :
      (s : BuildState)
      → s.phase ≡ waits_tasks
      → s.idle ≡ 0
      → s.parsing ≡ []
      → Step s (record s { phase = ended })
  collect_task :
      (s : BuildState) (task : IndexImage) (left : List IndexImage)
      → s.tasks ≡ task ∷ left
      → Step s (record s { tasks = left; batch = s.batch ++ task ∷ [] })
  close_done :
      (s : BuildState)
      → s.phase ≡ ended
      → s.tasks ≡ []
      → s.done ≡ false
      → Step s (record s { done = true })

-- What a schedule of the goroutines leads to.
pub data Reach (repositories : List RepoWalk) (closes : Bool) : BuildState → Type 0 where
  begun : Reach repositories closes (build repositories closes)
  later : {s t : BuildState} → Reach repositories closes s → Step s t → Reach repositories closes t
