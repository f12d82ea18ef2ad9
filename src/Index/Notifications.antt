-- ===== src/Index/Notifications.antt =====
-- `handleNotifications` of lib/index/index.go: what a job does to the index, and which hooks it
-- triggers. The hooks run in goroutines of their own, whose errors are only logged: they are recorded
-- in the order in which they are started. The state is that of one of the goroutines that take jobs.
pub mod Laws
use dim.Prelude.{String, Option, List, [], ◌∷◌, ◌++◌, map, ◌==◌, if◌then◌else◌}
use dim.Prelude.Errors.{Result, ok, err, panic, ◌>>=◌}
use Prim.Native.String
use dim.Prelude.Int.{ℤ}
use dim.Types.{IndexImage, NotificationJob, Time, delete_action, push_action}
use dim.Index.Bleve.{Bleve}
use dim.Index.Hooks.{Hook, get_hooks}
use dim.Index.Store.{RegistryClient, find_image, delete_image, index_image, get_image}

pub record IndexState (T I : Type 0) : Type 0 where
  pub index : I
  pub triggered : List (Hook T × IndexImage)

unfoldable pub trigger_hooks :
    {T I : Type 0} → List (Hook T) → IndexImage → IndexState T I → IndexState T I
trigger_hooks hooks img s = record s { triggered = s.triggered ++ map (λ h. (h, img)) hooks }

module _ {T I R : Type 0} (bleve : Bleve I) (client : RegistryClient R)
    (parse_time : String → Option Time) (percent_s : ℤ → String) (hex : String → String)
    (configured : List (Hook T)) where
  -- The image is looked up only if there is a hook to call.
  unfoldable pub delete_hooks : List (Hook T) → String → IndexState T I → Result (IndexState T I)
  delete_hooks [] id s = ok s
  delete_hooks (h ∷ hooks) id s = elim (find_image bleve parse_time percent_s hex id s.index) [
    | ok img ↦ ok (trigger_hooks (h ∷ hooks) img s)
    | err e ↦ ok s
    | panic ↦ panic
  ]

  unfoldable pub handle_delete : NotificationJob → IndexState T I → Result (IndexState T I)
  handle_delete job s = do
    s' ← delete_hooks (get_hooks configured job.action) job.digest s
    i ← delete_image bleve parse_time percent_s hex job.digest s'.index
    ok (record s' { index = i })

  unfoldable pub handle_push : NotificationJob → IndexState T I → Result (IndexState T I)
  handle_push job s = elim (get_image client job.repository job.tag job.digest) [
    | ok img ↦
        let s' = trigger_hooks (get_hooks configured job.action) img s in
        ok (record s' { index = index_image bleve img s'.index })
    | err e ↦ ok s
    | panic ↦ panic
  ]

  unfoldable pub handle : NotificationJob → IndexState T I → Result (IndexState T I)
  handle job s =
      if job.action == delete_action
      then handle_delete job s
      else if job.action == push_action
      then handle_push job s
      else ok s

  -- The loop over the channel, for the jobs that one goroutine takes.
  unfoldable pub handle_notifications :
      List NotificationJob → IndexState T I → Result (IndexState T I)
  handle_notifications [] s = ok s
  handle_notifications (job ∷ jobs) s = handle job s >>= handle_notifications jobs
