-- ===== src/System/Notify.antt =====
-- A notification of the registry, from the handler of server/server.go to the documents of lib/index/.
use dim.Prelude.{ℕ, String, ◌≡◌, refl, sym, ap, ◌∙◌, ◌≢◌, Option, List, [], ◌∷◌, ◌++◌, All}
use dim.Prelude.Errors.{Result, ok}
use dim.Prelude.{total}
use dim.Prelude.Int.{ℤ}
use dim.Types.{Time, IndexImage, NotificationJob}
use dim.Index.Hooks.{Hook}
use dim.Index.Bleve.{Bleve}
use dim.Index.Store.{RegistryClient, search_images}
use dim.Index.Store.Laws.{Keeps}
use dim.Index.Loop.{LoopState, loop, opened, Run}
use dim.Index.Loop.Jobs.{Run-finished}
use dim.Index.Loop.Serial.{IsKept}
use dim.Index.Loop.Documents.{put_jobs, Run-put_jobs}
use dim.Server.Http.{Request, Response, write, write_header}
use dim.Server.Handlers.{RegistryIndex, Event, notify_image_change}
use mathlib.Core.List.{append-nil, append_assoc}
use dim.Server.Handlers.Laws.{
  AsksAll, done, asked, ignored, deletion, pushed, submit_all, process_events-AsksAll,
}

module _ {T I : Type 0} (bleve : Bleve I) (parse_time : String → Option Time)
    (percent_s : ℤ → String) (hex : String → String) where
  -- The index behind the handlers: a job that is submitted waits for room in the channel.
  abbrev pub concurrent_index : RegistryIndex (LoopState T I)
  concurrent_index = record {
    search_images = λ q a fields offset max_results s.
        search_images bleve parse_time percent_s hex q a fields offset max_results (s.state).index;
    submit = λ job s. record s { submitting = s.submitting ++ job ∷ [] };
  }

module _ {T I R : Type 0} (bleve : Bleve I) (docs : I → String → Option IndexImage)
    (keeps : Keeps bleve docs) (client : RegistryClient R) (parse_time : String → Option Time)
    (percent_s : ℤ → String) (hex : String → String) (configured : List (Hook T))
    (decode : String → Result (List Event)) where
  abbrev the_index : RegistryIndex (LoopState T I)
  the_index = concurrent_index bleve parse_time percent_s hex

  submit_all-opened :
      (more jobs : List NotificationJob) (i : I)
      → submit_all the_index decode jobs (opened more i) ≡ opened (more ++ jobs) i
  submit_all-opened more [] i = ap (λ x. opened x i) (sym (append-nil more))
  submit_all-opened more (job ∷ jobs) i =
      submit_all-opened (more ++ job ∷ []) jobs i
      ∙ ap (λ x. opened x i) (append_assoc more (job ∷ []) jobs)

  AsksAll-IsKept :
      {events : List Event} {jobs : List NotificationJob}
      → AsksAll events jobs
      → All (λ e. e.action ≢ "delete") events
      → All IsKept jobs
  AsksAll-IsKept done kept = tt
  AsksAll-IsKept (asked (deletion e d) rest) (k, kept) = absurd (k d)
  AsksAll-IsKept (asked (pushed e p m) rest) (k, kept) = (refl, AsksAll-IsKept rest kept)
  AsksAll-IsKept (ignored a rest) (k, kept) = AsksAll-IsKept rest kept

  -- Where bleve keeps its documents as a map, a notification whose body decodes to events without a
  -- deletion is answered 200, and the jobs that the events ask for are those of the server. Once every job
  -- was taken and all goroutines wait, whatever the schedule was, each job is finished as often as it was
  -- asked for, and the documents are those that were there with the images of the pushes that can be read
  -- from the registry, put under their full names in the order in which the jobs were finished.
  pub notify-put_jobs :
      (r : Request) (w : Response) (events : List Event) (jobs : List NotificationJob) (i : I)
      (s : LoopState T I)
      → decode r.body ≡ ok events
      → All (λ e. e.action ≢ "delete") events
      → AsksAll events jobs
      → Run bleve client parse_time percent_s hex configured (opened jobs i) s
      → s.submitting ≡ []
      → s.channel ≡ []
      → s.takers ≡ loop 3
      → (notify_image_change the_index decode r w (opened [] i)
          ≡ ok (write "Notiifcation handled !\n" (write_header 200 w), opened jobs i))
        × ((weight : NotificationJob → ℕ) → total weight s.finished ≡ total weight jobs)
        × ((k : String) → docs s.state.index k ≡ put_jobs client s.finished (docs i) k)
  unfolding notify_image_change
  notify-put_jobs r w events jobs i s decoded kept asks run a b c = (
    rw (decoded, notify_image_change)
        (ap (λ x. ok (write "Notiifcation handled !\n" (write_header 200 w), x))
          (process_events-AsksAll the_index decode events jobs (opened [] i) asks
            ∙ submit_all-opened [] jobs i)),
    (λ weight.
        Run-finished bleve client parse_time percent_s hex configured weight jobs i s run a b c),
    Run-put_jobs bleve docs keeps client parse_time percent_s hex configured jobs i s
        (AsksAll-IsKept asks kept) run,
  )
