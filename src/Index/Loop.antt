-- ===== src/Index/Loop.antt =====
-- `New`, `loop` and `handleNotifications` of lib/index/index.go: three goroutines take the jobs of one
-- channel. What a goroutine does for a job is cut where another can come between: at each call of bleve
-- that changes or reads the index. A call that panics ends the process: it has no step.
pub mod Jobs
pub mod Alone
pub mod Order
pub mod Serial
pub mod Documents
pub mod Progress
mod Tests
use dim.Prelude.{
  ℕ, ◌<◌, String, ◌≡◌, true, false, Option, List, [], ◌∷◌, ◌++◌, ◌==◌, nat_eq, if◌then◌else◌,
  length, replicate,
}
use dim.Prelude.Dict.{lookup}
use dim.Prelude.Errors.{Error, Result, ok, err, panic, ◌>>=◌}
use dim.Prelude.Int.{ℤ}
use dim.Types.{Time, IndexImage, NotificationJob, delete_action, push_action}
use dim.Index.Hooks.{Hook, get_hooks}
use dim.Index.Bleve.{Bleve, BleveResult, DocumentMatch}
use dim.Index.Documents.{as_text}
use dim.Index.Store.{RegistryClient, get_image, index_image, id_request}
use dim.Index.Notifications.{IndexState, delete_hooks, trigger_hooks}

-- A goroutine waits for a job, holds one, has called the delete hooks, deletes hits, or writes an image.
pub data Taker : Type 0 where
  waiting : Taker
  holding searching : NotificationJob → Taker
  deleting : NotificationJob → List DocumentMatch → Taker
  writing : NotificationJob → IndexImage → Taker

-- The jobs that a goroutine has.
abbrev pub jobs_of : Taker → List NotificationJob
jobs_of waiting = []
jobs_of (holding job) = job ∷ []
jobs_of (searching job) = job ∷ []
jobs_of (deleting job hits) = job ∷ []
jobs_of (writing job img) = job ∷ []

-- The jobs that are finished by a step of a goroutine.
abbrev pub ended : Taker → Taker → List NotificationJob
ended w waiting = jobs_of w
ended w _ = []

-- `submitting` are the jobs that the handlers of the server will submit, `finished` those that are done.
pub record LoopState (T I : Type 0) : Type 0 where
  pub submitting : List NotificationJob
  pub channel : List NotificationJob
  pub takers : List Taker
  pub state : IndexState T I
  pub finished : List NotificationJob

abbrev pub job_capacity : ℕ
job_capacity = 3

-- `loop`
abbrev pub loop : ℕ → List Taker
loop parallels = replicate parallels waiting

abbrev pub opened : {T I : Type 0} → List NotificationJob → I → LoopState T I
opened jobs i = record {
  submitting = jobs;
  channel = [];
  takers = loop 3;
  state = record { index = i; triggered = [] };
  finished = [];
}

-- `New`, where `made` is the result of `bleve.New`.
unfoldable pub new_index :
    {T I : Type 0} → (made : Result I) → List NotificationJob → Result (LoopState T I)
new_index (ok i) jobs = ok (opened jobs i)
new_index (err e) jobs = err e
new_index panic jobs = panic

abbrev pub hits_of : BleveResult → List DocumentMatch
hits_of sr = if nat_eq sr.total 0 then [] else sr.hits

module _ {T I R : Type 0} (bleve : Bleve I) (client : RegistryClient R)
    (parse_time : String → Option Time) (percent_s : ℤ → String) (hex : String → String)
    (configured : List (Hook T)) where
  -- What a goroutine does next for its job.
  pub data Act : Taker → IndexState T I → Taker → IndexState T I → Type 0 where
    call_hooks :
        (job : NotificationJob) (s t : IndexState T I)
        → (job.action == delete_action) ≡ true
        → delete_hooks bleve client parse_time percent_s hex configured
            (get_hooks configured job.action)
            job.digest
            s
          ≡ ok t
        → Act (holding job) s (searching job) t
    search_hits :
        (job : NotificationJob) (s : IndexState T I) (sr : BleveResult)
        → bleve.search
            (id_request bleve parse_time percent_s hex job.digest ("FullName" ∷ []))
            s.index
          ≡ ok sr
        → Act (searching job) s (deleting job (hits_of sr)) s
    delete_hit :
        (job : NotificationJob) (s : IndexState T I) (h : DocumentMatch) (hits : List DocumentMatch)
        (name : String)
        → as_text (lookup "FullName" h.fields) ≡ ok name
        → Act
            (deleting job (h ∷ hits))
            s
            (deleting job hits)
            (record s { index = bleve.delete name s.index })
    end_delete : (job : NotificationJob) (s : IndexState T I) → Act (deleting job []) s waiting s
    fetch_image :
        (job : NotificationJob) (s : IndexState T I) (img : IndexImage)
        → (job.action == delete_action) ≡ false
        → (job.action == push_action) ≡ true
        → get_image client job.repository job.tag job.digest ≡ ok img
        → Act
            (holding job)
            s
            (writing job img)
            (trigger_hooks (get_hooks configured job.action) img s)
    miss_image :
        (job : NotificationJob) (s : IndexState T I) (e : Error)
        → (job.action == delete_action) ≡ false
        → (job.action == push_action) ≡ true
        → get_image client job.repository job.tag job.digest ≡ err e
        → Act (holding job) s waiting s
    write_image :
        (job : NotificationJob) (s : IndexState T I) (img : IndexImage)
        → Act (writing job img) s waiting (record s { index = index_image bleve img s.index })
    skip_job :
        (job : NotificationJob) (s : IndexState T I)
        → (job.action == delete_action) ≡ false
        → (job.action == push_action) ≡ false
        → Act (holding job) s waiting s

  pub data Step : LoopState T I → LoopState T I → Type 0 where
    submit_job :
        (s : LoopState T I) (job : NotificationJob) (jobs : List NotificationJob)
        → s.submitting ≡ job ∷ jobs
        → length s.channel < job_capacity
        → Step s (record s { submitting = jobs; channel = s.channel ++ job ∷ [] })
    take_job :
        (s : LoopState T I) (before after : List Taker) (job : NotificationJob)
        (jobs : List NotificationJob)
        → s.takers ≡ before ++ waiting ∷ after
        → s.channel ≡ job ∷ jobs
        → Step s (record s { channel = jobs; takers = before ++ holding job ∷ after })
    act :
        (s : LoopState T I) (before after : List Taker) (w w' : Taker) (t : IndexState T I)
        → s.takers ≡ before ++ w ∷ after
        → Act w s.state w' t
        → Step s (record s {
          takers = before ++ w' ∷ after;
          state = t;
          finished = s.finished ++ ended w w';
        })

  -- What a schedule leads to.
  pub data Run (s : LoopState T I) : LoopState T I → Type 0 where
    here : Run s s
    next : {t u : LoopState T I} → Run s t → Step t u → Run s u
