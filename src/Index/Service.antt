-- ===== src/Index/Service.antt =====
-- The index behind the handlers of the server: `Index` of lib/index/index.go as a `RegistryIndex`. The
-- channel of notifications is the list of the jobs that wait; it holds three, and a `Submit` into a
-- full channel waits for a job to be taken.
use dim.Prelude.{String, Option, List, [], ◌∷◌, ◌++◌}
use dim.Prelude.Int.{ℤ}
use dim.Types.{NotificationJob, Time}
use dim.Index.Bleve.{Bleve}
use dim.Index.Store.{search_images}
use dim.Index.Notifications.{IndexState}
use dim.Server.Handlers.{RegistryIndex}

pub record Queued (T I : Type 0) : Type 0 where
  pub state : IndexState T I
  pub notifications : List NotificationJob

unfoldable pub submit : {T I : Type 0} → NotificationJob → Queued T I → Queued T I
submit job s = record s { notifications = s.notifications ++ job ∷ [] }

module _ {T I : Type 0} (bleve : Bleve I) (parse_time : String → Option Time)
    (percent_s : ℤ → String) (hex : String → String) where
  abbrev pub as_registry_index : RegistryIndex (Queued T I)
  as_registry_index = record {
    search_images = λ q a fields offset max_results s.
        search_images bleve parse_time percent_s hex q a fields offset max_results (s.state).index;
    submit = submit;
  }
