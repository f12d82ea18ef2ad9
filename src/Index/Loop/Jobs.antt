-- ===== src/Index/Loop/Jobs.antt =====
-- The jobs that the channel and the goroutines hold.
use dim.Prelude.{
  ℕ, ◌+◌, ◌≤◌, String, ◌≡◌, refl, ap, ◌∙◌, Option, List, [], ◌∷◌, arith, length, length-append,
}
use dim.Prelude.Int.{ℤ}
use dim.Prelude.{total, total-append}
use dim.Types.{Time, NotificationJob}
use dim.Index.Hooks.{Hook}
use dim.Index.Bleve.{Bleve}
use dim.Index.Store.{RegistryClient}
use dim.Index.Notifications.{IndexState}
use dim.Index.Loop.{
  Taker, waiting, holding, jobs_of, ended, LoopState, loop, opened, job_capacity, Act, call_hooks,
  search_hits, delete_hit, end_delete, fetch_image, miss_image, write_image, skip_job, Step,
  submit_job, take_job, act, Run, here, next,
}

module _ {T I R : Type 0} (bleve : Bleve I) (client : RegistryClient R)
    (parse_time : String → Option Time) (percent_s : ℤ → String) (hex : String → String)
    (configured : List (Hook T)) where
  abbrev TheStep : LoopState T I → LoopState T I → Type 0
  TheStep = Step bleve client parse_time percent_s hex configured

  abbrev pub TheRun : LoopState T I → LoopState T I → Type 0
  TheRun = Run bleve client parse_time percent_s hex configured

  module _ (w : NotificationJob → ℕ) where
    abbrev taker_weight : Taker → ℕ
    taker_weight t = total w (jobs_of t)

    -- Of all jobs: to be submitted, in the channel, with a goroutine, and finished.
    abbrev pub weight_of : LoopState T I → ℕ
    weight_of s =
        total w s.submitting + total w s.channel + total taker_weight s.takers + total w s.finished

    Act-jobs :
        {a b : Taker} {s t : IndexState T I}
        → Act bleve client parse_time percent_s hex configured a s b t
        → total w (jobs_of b) + total w (ended a b) ≡ total w (jobs_of a)
    Act-jobs (call_hooks job s t d h) = omega arith
    Act-jobs (search_hits job s sr h) = omega arith
    Act-jobs (delete_hit job s h hits name e) = omega arith
    Act-jobs (end_delete job s) = omega arith
    Act-jobs (fetch_image job s img d p g) = omega arith
    Act-jobs (miss_image job s e d p g) = omega arith
    Act-jobs (write_image job s img) = omega arith
    Act-jobs (skip_job job s d p) = omega arith

    Step-weight_of : {s t : LoopState T I} → TheStep s t → weight_of t ≡ weight_of s
    Step-weight_of (submit_job s job jobs h room) =
        rw h (omega (arith, total-append w s.channel (job ∷ [])))
    Step-weight_of (take_job s before after job jobs h k) =
        rw (h, k)
          (omega (
            arith,
            total-append taker_weight before (holding job ∷ after),
            total-append taker_weight before (waiting ∷ after),
          ))
    Step-weight_of (act s before after a b t h move) = rw h (
        omega (
          arith,
          Act-jobs move,
          total-append taker_weight before (b ∷ after),
          total-append taker_weight before (a ∷ after),
          total-append w s.finished (ended a b),
        ))

    pub Run-weight_of : {s t : LoopState T I} → TheRun s t → weight_of t ≡ weight_of s
    Run-weight_of here = refl
    Run-weight_of (next r step) = Step-weight_of step ∙ Run-weight_of r

    -- When all jobs were taken and every goroutine waits, whatever the schedule was, the jobs that were
    -- submitted are those that are finished, each as often: for every weight, the weights of both add up
    -- to the same.
    pub Run-finished :
        (jobs : List NotificationJob) (i : I) (s : LoopState T I)
        → TheRun (opened jobs i) s
        → s.submitting ≡ []
        → s.channel ≡ []
        → s.takers ≡ loop 3
        → total w s.finished ≡ total w jobs
    Run-finished jobs i s r none_left none_waiting all_wait = omega (
      arith,
      Run-weight_of r,
      ap (total w) none_left,
      ap (total w) none_waiting,
      ap (total taker_weight) all_wait,
    )

  -- The channel never holds more than its capacity, and no goroutine is lost.
  abbrev pub Fits : ℕ → LoopState T I → Type 0
  Fits n s = (length s.channel ≤ job_capacity) × (length s.takers ≡ n)

  Step-Fits : (n : ℕ) {s t : LoopState T I} → TheStep s t → Fits n s → Fits n t
  Step-Fits n (submit_job s job jobs h room) (c, k) =
      (omega (arith, room, length-append s.channel (job ∷ [])), k)
  Step-Fits n (take_job s before after job jobs h e) (c, k) = (
    omega (arith, c, ap length e),
    omega (
      arith,
      k,
      ap length h,
      length-append before (holding job ∷ after),
      length-append before (waiting ∷ after),
    ),
  )
  Step-Fits n (act s before after a b t h move) (c, k) = (
    c,
    omega
        (arith, k, ap length h, length-append before (b ∷ after), length-append before (a ∷ after)),
  )

  pub Run-Fits : (n : ℕ) {s t : LoopState T I} → TheRun s t → Fits n s → Fits n t
  Run-Fits n here f = f
  Run-Fits n (next r step) f = Step-Fits n step (Run-Fits n r f)
