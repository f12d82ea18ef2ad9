-- ===== src/Index/Build/Progress.antt =====
-- What is left to do in a schedule of `Build`, and the next step of one of its goroutines.
use dim.Prelude.{
  ℕ, zero, suc, ◌+◌, ◌*◌, ◌<◌, ◌≡◌, refl, ap, ◌⊎◌, inl, inr, Bool, true, false, List, [], ◌∷◌,
  arith, length, length-append, All,
}
use dim.Prelude.Errors.{ok}
use dim.Types.{IndexImage}
use dim.Index.Build.{
  RepoImage, RepoWalk, Phase, walks, waits_images, waits_tasks, ended, BuildState, parsers,
  parse_image, Step, start_browser, start_parsers, push_image, end_browser, close_images,
  take_image, push_task, end_parser, close_tasks, collect_task, close_done, Reach,
}
use dim.Prelude.{total, total-append}
use dim.Index.Build.Invariant.{InPhase, Inv, Reach-Inv}

-- What is left to do for a phase, a repository, and the end.
abbrev phase_work : Phase → ℕ
phase_work walks = 6
phase_work waits_images = 2
phase_work waits_tasks = 1
phase_work ended = 0

abbrev end_work : Bool → ℕ
end_work true = 0
end_work false = 1

abbrev image_work : RepoImage → ℕ
image_work i = 3

abbrev browse_work : RepoWalk → ℕ
browse_work (images, closes) = 1 + 4 * length images

abbrev walk_work : RepoWalk → ℕ
walk_work r = 1 + browse_work r

abbrev task_work : IndexImage → ℕ
task_work task = 1

abbrev pub work : BuildState → ℕ
work s =
    phase_work s.phase
    + total walk_work s.walking
    + total browse_work s.browsing
    + 3 * length s.images
    + s.idle
    + 3 * length s.parsing
    + length s.tasks
    + end_work s.done

-- A step leaves less to do, so that no schedule is longer than what there is to do at its start.
pub Step-work : {s t : BuildState} → Step s t → work t < work s
Step-work (start_browser s r rs p h) = rw h (omega arith)
Step-work (start_parsers s p h c) = rw p (omega arith)
Step-work (push_image s others rest i left closes h room) = rw h (
    omega (
      arith,
      total-append browse_work others ((left, closes) ∷ rest),
      total-append browse_work others ((i ∷ left, closes) ∷ rest),
      length-append s.images (i ∷ []),
    ))
Step-work (end_browser s others rest h) = rw h (
    omega (
      arith,
      total-append browse_work others rest,
      total-append browse_work others (([], true) ∷ rest),
    ))
Step-work (close_images s p h) = rw p (omega arith)
Step-work (take_image s i left n h k) = rw (h, k) (omega arith)
Step-work (push_task s others rest i task h made room) = rw h (
    omega (
      arith,
      length-append others rest,
      length-append others (i ∷ rest),
      length-append s.tasks (task ∷ []),
    ))
Step-work (end_parser s n p h k) = rw k (omega arith)
Step-work (close_tasks s p h k) = rw p (omega arith)
Step-work (collect_task s task left h) = rw h (omega arith)
Step-work (close_done s p h d) = rw d (omega arith)

-- Some goroutine can go on.
abbrev pub CanStep : BuildState → Type 0
CanStep s = (t : BuildState) × Step s t

-- A walk that closes its channel.
abbrev pub Closes : RepoWalk → Type 0
Closes r = r.1 ≡ true

-- All walks that are not over close their channels, and so does that of the repositories.
abbrev pub AllClose : BuildState → Type 0
AllClose s = All Closes s.walking × All Closes s.browsing × (s.repositories_close ≡ true)

-- Every image is there and has a configuration, so that no parser panics.
abbrev pub Parses : BuildState → Type 0
Parses s = All (λ i. (task : IndexImage) × (parse_image i ≡ ok task)) s.parsing

browsing_CanStep :
    (s : BuildState) (b : List RepoWalk)
    → All Closes b
    → s.phase ≡ waits_images
    → s.images ≡ []
    → s.browsing ≡ b
    → CanStep s
browsing_CanStep s [] all p e h = (_, close_images s p h)
browsing_CanStep s (([], true) ∷ rest) all p e h = (_, end_browser s [] rest h)
browsing_CanStep s (([], false) ∷ rest) (c, all) p e h = cc
browsing_CanStep s ((i ∷ left, closes) ∷ rest) all p e h =
    (_, push_image s [] rest i left closes h (omega (arith, ap length e)))

waiting_CanStep :
    (s : BuildState) (images : List RepoImage)
    → All Closes s.browsing
    → s.phase ≡ waits_images
    → s.idle ≡ 3
    → s.images ≡ images
    → CanStep s
waiting_CanStep s [] all p k h = browsing_CanStep s s.browsing all p h refl
waiting_CanStep s (i ∷ left) all p k h = (_, take_image s i left 2 h k)

ending_CanStep :
    (s : BuildState) (idle : ℕ)
    → s.phase ≡ waits_tasks
    → s.images ≡ []
    → s.parsing ≡ []
    → s.idle ≡ idle
    → CanStep s
ending_CanStep s zero p e f k = (_, close_tasks s p k f)
ending_CanStep s (suc n) p e f k = (_, end_parser s n p e k)

parsing_CanStep :
    (s : BuildState) (images : List RepoImage)
    → s.phase ≡ waits_tasks
    → s.parsing ≡ []
    → (s.idle ≡ 3) ⊎ (s.images ≡ [])
    → s.images ≡ images
    → CanStep s
parsing_CanStep s [] p f c h = ending_CanStep s s.idle p h f refl
parsing_CanStep s (i ∷ left) p f (inl k) h = (_, take_image s i left 2 h k)
parsing_CanStep s (i ∷ left) p f (inr e) h = cc

walking_CanStep :
    (s : BuildState) (walking : List RepoWalk)
    → s.repositories_close ≡ true
    → s.phase ≡ walks
    → s.walking ≡ walking
    → CanStep s
walking_CanStep s [] c p h = (_, start_parsers s p h c)
walking_CanStep s (r ∷ rs) c p h = (_, start_browser s r rs p h)

all_idle : (s : BuildState) → s.parsing ≡ [] → s.idle + length s.parsing ≡ parsers → s.idle ≡ 3
all_idle s f c = omega (arith, c, ap length f)

idle_or_empty :
    (s : BuildState)
    → s.parsing ≡ []
    → (s.idle + length s.parsing ≡ parsers) ⊎ (s.images ≡ [])
    → (s.idle ≡ 3) ⊎ (s.images ≡ [])
idle_or_empty s f (inl c) = inl (all_idle s f c)
idle_or_empty s f (inr e) = inr e

-- With nothing to collect and nothing parsed.
phase_CanStep :
    (p : Phase) (s : BuildState)
    → AllClose s
    → s.phase ≡ p
    → InPhase p s
    → s.tasks ≡ []
    → s.parsing ≡ []
    → s.done ≡ false
    → CanStep s
phase_CanStep walks s all p inv e f d = walking_CanStep s s.walking all.2 p refl
phase_CanStep waits_images s all p (x, w, c) e f d =
    waiting_CanStep s s.images all.1 p (all_idle s f c) refl
phase_CanStep waits_tasks s all p (x, w, b, c) e f d =
    parsing_CanStep s s.images p f (idle_or_empty s f c) refl
phase_CanStep ended s all p inv e f d = (_, close_done s p e d)

held_CanStep :
    (s : BuildState) (parsing : List RepoImage)
    → AllClose s
    → Inv s
    → s.tasks ≡ []
    → s.done ≡ false
    → s.parsing ≡ parsing
    → All (λ i. (task : IndexImage) × (parse_image i ≡ ok task)) parsing
    → CanStep s
held_CanStep s [] closed inv e d h all = phase_CanStep s.phase s closed refl inv e h d
held_CanStep s (i ∷ rest) closed inv e d h ((task, made), all) =
    (_, push_task s [] rest i task h made (omega (arith, ap length e)))

tasks_CanStep :
    (s : BuildState) (tasks : List IndexImage)
    → AllClose s
    → Inv s
    → s.done ≡ false
    → Parses s
    → s.tasks ≡ tasks
    → CanStep s
tasks_CanStep s [] closed inv d all h = held_CanStep s s.parsing closed inv h d refl all
tasks_CanStep s (task ∷ left) closed inv d all h = (_, collect_task s task left h)

-- Wherever a schedule leads before the end, some goroutine can go on, if all walks that are not over close
-- their channels and the images that are being parsed have their configuration.
pub Reach-CanStep :
    {repositories : List RepoWalk} {closes : Bool} {s : BuildState}
    → Reach repositories closes s
    → s.done ≡ false
    → AllClose s
    → Parses s
    → CanStep s
Reach-CanStep {repositories} {closes} {s} r d closed all =
    tasks_CanStep s s.tasks closed (Reach-Inv r) d all refl
