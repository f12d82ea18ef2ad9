-- ===== src/Index/Loop/Documents.antt =====
-- The documents that the jobs of a schedule leave.
use dim.Prelude.{
  String, ◌≡◌, refl, sym, ap, ◌∙◌, inl, inr, Option, some, List, [], ◌∷◌, ◌==◌, if◌then◌else◌,
  Bool-cases, All,
}
use dim.Prelude.Errors.{Result, ok, panic, >>=-eq-ok, ok_injective, Result-cases}
use dim.Prelude.Int.{ℤ}
use dim.Types.{Time, IndexImage, NotificationJob, push_action}
use mathlib.Core.Path.{fun_ext}
use dim.Index.Hooks.{Hook, get_hooks}
use dim.Index.Bleve.{Bleve}
use dim.Index.Store.{RegistryClient, get_image, index_image}
use dim.Index.Store.Laws.{Keeps}
use dim.Index.Notifications.{IndexState, trigger_hooks, handle, handle_push, handle_notifications}
use dim.Index.Loop.{LoopState, opened, Run}
use dim.Index.Loop.Serial.{IsKept, serial, Run-IsSerial}

abbrev pub Documents : Type 0
Documents = String → Option IndexImage

-- A document under its full name, in place of what was there.
abbrev pub put : IndexImage → Documents → Documents
put img d k = if img.full_name == k then some img else d k

abbrev put_read : Result IndexImage → Documents → Documents
put_read (ok img) d = put img d
put_read _ d = d

module _ {R : Type 0} (client : RegistryClient R) where
  -- What a push puts, if its image can be read from the registry.
  abbrev pub put_job : NotificationJob → Documents → Documents
  put_job job d =
      if job.action == push_action
      then put_read (get_image client job.repository job.tag job.digest) d
      else d

  abbrev pub put_jobs : List NotificationJob → Documents → Documents
  put_jobs [] d = d
  put_jobs (job ∷ jobs) d = put_jobs jobs (put_job job d)

module _ {T I R : Type 0} (bleve : Bleve I) (docs : I → Documents) (keeps : Keeps bleve docs)
    (client : RegistryClient R) (parse_time : String → Option Time) (percent_s : ℤ → String)
    (hex : String → String) (configured : List (Hook T)) where
  abbrev handled : NotificationJob → IndexState T I → Result (IndexState T I)
  handled = handle bleve client parse_time percent_s hex configured

  handle-put_job :
      (job : NotificationJob) (s t : IndexState T I)
      → IsKept job
      → handle bleve client parse_time percent_s hex configured job s ≡ ok t
      → (k : String) → docs t.index k ≡ put_job client job (docs s.index) k
  unfolding handle handle_push trigger_hooks index_image
  handle-put_job job s t kept h k = elim (Bool-cases (job.action == push_action)) [
    | inr p ↦
        let skipped : handled job s ≡ ok s = rw (kept, p, handle) refl in
        rw p (ap (λ x. docs x.index k) (sym (ok_injective (sym skipped ∙ h))))
    | inl p ↦ elim (Result-cases (get_image client job.repository job.tag job.digest)) [
      | inl (img, e) ↦
          let s' = trigger_hooks (get_hooks configured job.action) img s in
          let pushed : handled job s ≡ ok (record s' { index = index_image bleve img s.index }) =
            rw (kept, p, e, handle, handle_push) refl in
          rw (p, e)
            (ap (λ x. docs x.index k) (sym (ok_injective (sym pushed ∙ h)))
              ∙ keeps.of_index img.full_name k img s.index)
      | inr (inl (x, e)) ↦
          let missed : handled job s ≡ ok s = rw (kept, p, e, handle, handle_push) refl in
          rw (p, e) (ap (λ x. docs x.index k) (sym (ok_injective (sym missed ∙ h))))
      | inr (inr e) ↦
          let failed : handled job s ≡ panic = rw (kept, p, e, handle, handle_push) refl in
          absurd (cc (sym failed ∙ h))
    ]
  ]

  put_jobs_at :
      (jobs : List NotificationJob) (d e : Documents)
      → ((k : String) → d k ≡ e k)
      → (k : String) → put_jobs client jobs d k ≡ put_jobs client jobs e k
  put_jobs_at jobs d e same k = ap (λ x. put_jobs client jobs x k) (fun_ext same)

  serial-put_jobs :
      (jobs : List NotificationJob) (s t : IndexState T I)
      → All IsKept jobs
      → serial bleve client parse_time percent_s hex configured jobs s ≡ ok t
      → (k : String) → docs t.index k ≡ put_jobs client jobs (docs s.index) k
  unfolding handle_notifications
  serial-put_jobs [] s t kept h k = ap (λ x. docs x.index k) (sym (ok_injective h))
  serial-put_jobs (job ∷ jobs) s t (kept, rest) h k =
      let (u, first, more) =
        >>=-eq-ok (handled job s) (serial bleve client parse_time percent_s hex configured jobs)
          h in
      serial-put_jobs jobs u t rest more k
      ∙ put_jobs_at jobs (docs u.index) (put_job client job (docs s.index))
          (handle-put_job job s u kept first) k

  -- Where bleve keeps its documents as a map and no job is a deletion, the documents at every moment of
  -- every schedule are those that were there with the images of the finished pushes that can be read from
  -- the registry, put under their full names in the order in which the jobs were finished.
  pub Run-put_jobs :
      (jobs : List NotificationJob) (i : I) (s : LoopState T I)
      → All IsKept jobs
      → Run bleve client parse_time percent_s hex configured (opened jobs i) s
      → (k : String) → docs s.state.index k ≡ put_jobs client s.finished (docs i) k
  Run-put_jobs jobs i s kept r k =
      let (all_kept, t, one_by_one, same) =
        Run-IsSerial bleve client parse_time percent_s hex configured jobs i s kept r in
      ap (λ x. docs x k) (sym same)
      ∙ serial-put_jobs s.finished (record { index = i; triggered = [] }) t all_kept one_by_one k
