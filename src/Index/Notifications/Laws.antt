-- ===== src/Index/Notifications/Laws.antt =====
-- What the jobs do to the index and which hooks they start.
use dim.Prelude.{
  String, ◌≡◌, refl, ◌≢◌, ◌⊎◌, inl, inr, true, Option, some, List, [], ◌∷◌, ◌++◌, map, ◌==◌,
}
use dim.Prelude.Errors.{ok, panic, Result-cases}
use dim.Prelude.Int.{ℤ}
use dim.Types.{IndexImage, NotificationJob, Time, delete_action}
use dim.Index.Bleve.{Bleve, BleveResult}
use dim.Index.Hooks.{Hook, get_hooks}
use dim.Index.Store.{RegistryClient, find_image, id_request}
use dim.Index.Store.Laws.{Keeps, Finds, delete_image-removes}
use dim.Index.Notifications.{IndexState, trigger_hooks, delete_hooks, handle_delete, handle}

module _ {T I R : Type 0} (bleve : Bleve I) (docs : I → String → Option IndexImage)
    (keeps : Keeps bleve docs) (client : RegistryClient R) (parse_time : String → Option Time)
    (percent_s : ℤ → String) (hex : String → String) (configured : List (Hook T))
    (job : NotificationJob) (s : IndexState T I) where
  -- What starting the hooks of a delete leaves: the index as it was, and no hook or those that are
  -- configured, on the image that was found.
  delete_hooks_lem :
      (hooks : List (Hook T))
      → find_image bleve parse_time percent_s hex job.digest s.index ≢ panic
      → (s' : IndexState T I) × (delete_hooks bleve client parse_time percent_s hex configured hooks
            job.digest s
          ≡ ok s')
        × (s'.index ≡ s.index)
        × ((s'.triggered ≡ s.triggered)
            ⊎ ((img : IndexImage) × (find_image bleve parse_time percent_s hex job.digest s.index
                  ≡ ok img)
                × (s'.triggered ≡ s.triggered ++ map (λ h. (h, img)) hooks)))
  unfolding delete_hooks trigger_hooks
  delete_hooks_lem [] safe = (s, refl, refl, inl refl)
  delete_hooks_lem (h ∷ hooks) safe =
      elim (Result-cases (find_image bleve parse_time percent_s hex job.digest s.index)) [
        | inl (img, got) ↦ (_, rw (got, delete_hooks), refl, inr (img, got, refl))
        | inr (inl (e, failed)) ↦ (s, rw (failed, delete_hooks), refl, inl refl)
        | inr (inr failed) ↦ absurd (safe failed)
      ]

  -- Where bleve keeps its documents as a map, a delete whose digest the search finds in all its
  -- documents, and whose image is looked up without a panic, leaves no document with that digest
  -- and every other document as it was. It starts no hook, or the configured ones on the image
  -- that was found before it was removed.
  pub handle-delete :
      (sr : BleveResult) (names : List String)
      → job.action ≡ delete_action
      → bleve.search
          (id_request bleve parse_time percent_s hex job.digest ("FullName" ∷ []))
          s.index
        ≡ ok sr
      → Finds docs job.digest s.index sr names
      → find_image bleve parse_time percent_s hex job.digest s.index ≢ panic
      → (s' : IndexState T I) × (handle bleve client parse_time percent_s hex configured job s
          ≡ ok s')
        × ((k : String) (d : IndexImage) → docs s'.index k ≡ some d → d.id ≢ job.digest)
        × ((k : String) (d : IndexImage)
            → docs s.index k ≡ some d
            → d.id ≢ job.digest
            → docs s'.index k ≡ some d)
        × ((s'.triggered ≡ s.triggered)
            ⊎ ((img : IndexImage) × (find_image bleve parse_time percent_s hex job.digest s.index
                  ≡ ok img)
                × (s'.triggered
                    ≡ s.triggered ++ map (λ h. (h, img)) (get_hooks configured job.action))))
  unfolding handle handle_delete
  handle-delete sr names delete found f safe =
      let (s1, hooked, same, started) = delete_hooks_lem (get_hooks configured job.action) safe in
      let (j, done, gone, kept) =
        delete_image-removes bleve docs keeps parse_time percent_s hex job.digest s.index sr names
          found f in
      let guard : (job.action == delete_action) ≡ true = rw delete refl in
      (record s1 { index = j }, rw (guard, hooked, same, done), gone, kept, started)
