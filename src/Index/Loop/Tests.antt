-- ===== src/Index/Loop/Tests.antt =====
-- Schedules of the goroutines, and the theorems at inputs that meet their hypotheses.
use dim.Prelude.{
  ℕ, String, ◌≡◌, refl, ◌≢◌, false, none, List, [], ◌∷◌, ◌++◌, map, arith, ◌==◌, eq_iff,
  if◌then◌else◌,
}
use dim.Prelude.Errors.{panic, Result, ok}
use dim.Prelude.{total}
use dim.Types.{IndexImage, NotificationJob, push_action}
use dim.Index.Tests.{
  test_docs, test_bleve-Keeps, Documents, test_bleve, test_client, no_time, no_verb, no_hex,
  test_hooks, push_job, pushed, test_index,
}
use dim.Index.Hooks.{get_hooks}
use dim.Index.Image.{parse}
use dim.Index.Store.{get_image, index_image}
use dim.Index.Notifications.{IndexState, handle, handle_push, trigger_hooks}
use dim.Index.Loop.{
  waiting, LoopState, loop, opened, Run, here, next, submit_job, take_job, act, fetch_image,
  write_image,
}
use dim.Index.Loop.Jobs.{Run-finished}
use dim.Index.Loop.Serial.{serial, Run-serial}
use dim.Prelude.{◌≤◌, ◌*◌, ◌⊎◌, length}
use dim.Index.Loop.Progress.{steps, IsIdle, CanStep, Run-Progress}
use dim.Index.Loop.Documents.{put_jobs}
use dim.Server.Http.{Request, new_response, write, write_header}
use dim.Server.Handlers.{Event, media_type_manifest, notify_image_change}
use dim.Server.Handlers.Laws
use dim.Server.Handlers.Laws.{AsksAll}
use dim.System.Notify.{concurrent_index, notify-put_jobs}
use dim.Index.Loop.Order.{overtaken}

abbrev Held : Type 0
Held = IndexState String Documents

abbrev start : LoopState String Documents
start = opened (push_job ∷ []) test_index

abbrev Schedule : LoopState String Documents → Type 0
Schedule = Run test_bleve test_client no_time no_verb no_hex test_hooks start

abbrev hooked : Held
hooked =
    trigger_hooks (get_hooks test_hooks push_job.action) pushed
      (record { index = test_index; triggered = [] })

abbrev indexed : Held
indexed = record hooked { index = index_image test_bleve pushed hooked.index }

abbrev done : LoopState String Documents
done = record {
  submitting = [];
  channel = [];
  takers = loop 3;
  state = indexed;
  finished = push_job ∷ [];
}

one_job : Schedule done
unfolding get_image parse trigger_hooks
one_job =
    let r0 : Schedule start = here in
    let r1 = next r0 (submit_job _ push_job [] refl (omega arith)) in
    let r2 = next r1 (take_job _ [] (waiting ∷ waiting ∷ []) push_job [] refl refl) in
    let r3 = next r2 (
      act _ [] (waiting ∷ waiting ∷ []) _ _ _ refl
        (fetch_image push_job _ pushed refl refl refl)) in
    next r3 (act _ [] (waiting ∷ waiting ∷ []) _ _ _ refl (write_image push_job _ pushed))

abbrev is_push : NotificationJob → ℕ
is_push job = if job.action == push_action then 1 else 0

Run-finished_example : total is_push (push_job ∷ []) ≡ total is_push (push_job ∷ [])
Run-finished_example =
    Run-finished test_bleve test_client no_time no_verb no_hex test_hooks is_push (push_job ∷ [])
      test_index done one_job refl refl refl

-- The same job for another tag.
abbrev later_job : NotificationJob
later_job = record push_job { tag = "9.0" }

abbrev later : IndexImage
later = record pushed { tag = "9.0"; full_name = "mysql:9.0" }

abbrev after_later : Held
after_later = record {
  index = index_image test_bleve later test_index;
  triggered = map (λ h. (h, later)) (get_hooks test_hooks push_job.action);
}

abbrev after_both : Held
after_both = record {
  index = index_image test_bleve pushed after_later.index;
  triggered =
      after_later.triggered ++ map (λ h. (h, pushed)) (get_hooks test_hooks push_job.action);
}

later_first :
    handle test_bleve test_client no_time no_verb no_hex test_hooks later_job
      (record { index = test_index; triggered = [] })
    ≡ ok after_later
unfolding handle handle_push get_image parse trigger_hooks index_image
later_first = refl

then_first :
    handle test_bleve test_client no_time no_verb no_hex test_hooks push_job after_later
    ≡ ok after_both
unfolding handle handle_push get_image parse trigger_hooks index_image
then_first = refl

overtaken_example :
    (u : LoopState String Documents) × Run test_bleve test_client no_time no_verb no_hex test_hooks
      (opened (push_job ∷ later_job ∷ []) test_index)
      u
    × (u.takers ≡ loop 3)
    × (u.state ≡ after_both)
    × (u.finished ≡ later_job ∷ push_job ∷ [])
overtaken_example =
    overtaken test_bleve test_client no_time no_verb no_hex test_hooks push_job later_job test_index
      after_later after_both later_first then_first

Run-serial_example :
    (t : Held) × (serial test_bleve test_client no_time no_verb no_hex test_hooks
        (push_job ∷ [])
        (record { index = test_index; triggered = [] })
      ≡ ok t)
    × (t.index ≡ indexed.index)
Run-serial_example =
    Run-serial test_bleve test_client no_time no_verb no_hex test_hooks (push_job ∷ []) test_index
      done (refl, tt) one_job

abbrev push_event : Event
push_event = record {
  action = "push";
  media_type = media_type_manifest;
  repository = "mysql";
  tag = "8.0";
  digest = "sha256:80";
}

abbrev one_event : String → Result (List Event)
one_event body = ok (push_event ∷ [])

abbrev posted : Request
posted = record {
  method = "POST";
  url_scheme = "http";
  url_host = "";
  url_path = "/dim/notify";
  host = "h";
  tls = false;
  header = [];
  basic_auth = none;
  form_error = none;
  form = [];
  body = "{}";
}

no_deletion : push_event.action ≢ "delete"
no_deletion e = ground (arith, eq_iff "push" "delete")

notify-put_jobs_example :
    (notify_image_change
        (concurrent_index test_bleve no_time no_verb no_hex)
        one_event
        posted
        new_response
        (opened [] test_index)
      ≡ ok (write "Notiifcation handled !\n" (write_header 200 new_response), start))
    × ((weight : NotificationJob → ℕ) → total weight done.finished ≡ total weight (push_job ∷ []))
    × ((k : String)
        → test_docs done.state.index k
          ≡ put_jobs test_client done.finished (test_docs test_index) k)
notify-put_jobs_example =
    notify-put_jobs test_bleve test_docs test_bleve-Keeps test_client no_time no_verb no_hex
      test_hooks one_event posted new_response (push_event ∷ []) (push_job ∷ []) test_index done
      refl (no_deletion, tt) (Laws.asked (Laws.pushed push_event refl refl) Laws.done) one_job refl
      refl refl

registry_lives :
    (job : NotificationJob) → get_image test_client job.repository job.tag job.digest ≢ panic
unfolding get_image parse
registry_lives job e = cc e

Run-Progress_example :
    (steps test_bleve test_client no_time no_verb no_hex test_hooks one_job
      ≤ 4 * length (push_job ∷ []))
    × (IsIdle test_bleve test_client no_time no_verb no_hex test_hooks done
        ⊎ CanStep test_bleve test_client no_time no_verb no_hex test_hooks done)
Run-Progress_example =
    Run-Progress test_bleve test_client no_time no_verb no_hex test_hooks registry_lives
      (push_job ∷ []) test_index done (refl, tt) one_job
