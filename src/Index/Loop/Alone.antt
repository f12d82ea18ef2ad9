-- ===== src/Index/Loop/Alone.antt =====
-- What a goroutine does for a job when no other comes between, against `handle`.
use dim.Prelude.{
  String, ◌≡◌, sym, ◌∙◌, subst, ◌≢◌, inl, inr, Bool, true, false, Option, List, [], ◌∷◌, ◌==◌,
  nat_eq, if◌then◌else◌, Bool-cases,
}
use dim.Prelude.Dict.{lookup}
use dim.Prelude.Errors.{Result, ok, panic, ◌>>=◌, >>=-eq-ok, ok_injective, Result-cases}
use dim.Prelude.Int.{ℤ}
use dim.Types.{Time, IndexImage, NotificationJob, delete_action, push_action}
use dim.Index.Hooks.{Hook, get_hooks}
use dim.Index.Bleve.{Bleve, DocumentMatch}
use dim.Index.Documents.{as_text}
use dim.Index.Store.{RegistryClient, get_image, index_image, id_request, delete_image, delete_hits}
use dim.Index.Notifications.{
  IndexState, delete_hooks, trigger_hooks, handle, handle_delete, handle_push,
}
use dim.Index.Loop.{
  Taker, waiting, holding, searching, deleting, writing, hits_of, Act, call_hooks, search_hits,
  delete_hit, end_delete, fetch_image, miss_image, write_image, skip_job,
}

never_ok {ℓ} : {A : Type ℓ} {a : A} → panic ≢ ok a
never_ok e = cc

module _ {T I R : Type 0} (bleve : Bleve I) (client : RegistryClient R)
    (parse_time : String → Option Time) (percent_s : ℤ → String) (hex : String → String)
    (configured : List (Hook T)) where
  abbrev TheAct : Taker → IndexState T I → Taker → IndexState T I → Type 0
  TheAct = Act bleve client parse_time percent_s hex configured

  abbrev deleted_from : String → I → Result I
  deleted_from = delete_image bleve parse_time percent_s hex

  abbrev handled : NotificationJob → IndexState T I → Result (IndexState T I)
  handled = handle bleve client parse_time percent_s hex configured

  -- Some steps of one goroutine, up to the end of its job.
  pub data Acts : Taker → IndexState T I → IndexState T I → Type 0 where
    over : (s : IndexState T I) → Acts waiting s s
    onward : {a b : Taker} {s t u : IndexState T I} → TheAct a s b t → Acts b t u → Acts a s u

  delete_hits-Acts :
      (job : NotificationJob) (hits : List DocumentMatch) (s : IndexState T I) (i : I)
      → delete_hits bleve parse_time percent_s hex hits s.index ≡ ok i
      → Acts (deleting job hits) s (record s { index = i })
  unfolding delete_hits
  delete_hits-Acts job [] s i h =
      onward (end_delete job s)
        (subst (λ x. Acts waiting s (record s { index = x })) (ok_injective h) (over s))
  delete_hits-Acts job (hit ∷ hits) s i h =
      let (name, e, k) =
        >>=-eq-ok (as_text (lookup "FullName" hit.fields))
          (λ name. delete_hits bleve parse_time percent_s hex hits (bleve.delete name s.index)) h in
      onward (delete_hit job s hit hits name e)
        (delete_hits-Acts job hits (record s { index = bleve.delete name s.index }) i k)

  -- The hits that are deleted, where none are if there is no total.
  hits_of-ok :
      (b : Bool) (hits : List DocumentMatch) (i j : I)
      → (if b then ok i else delete_hits bleve parse_time percent_s hex hits i) ≡ ok j
      → delete_hits bleve parse_time percent_s hex (if b then [] else hits) i ≡ ok j
  unfolding delete_hits
  hits_of-ok true hits i j h = h
  hits_of-ok false hits i j h = h

  searching_Acts :
      (job : NotificationJob) (s : IndexState T I) (i : I)
      → deleted_from job.digest s.index ≡ ok i
      → Acts (searching job) s (record s { index = i })
  unfolding delete_image
  searching_Acts job s i h =
      elim (Result-cases (
        bleve.search (id_request bleve parse_time percent_s hex job.digest ("FullName" ∷ []))
          s.index)) [
            | inl (sr, e) ↦
                let deleted : deleted_from job.digest s.index ≡ (
                    if nat_eq sr.total 0
                    then ok s.index
                    else delete_hits bleve parse_time percent_s hex sr.hits s.index) =
                  rw (e, delete_image) in
                onward (search_hits job s sr e) (
                  delete_hits-Acts job (hits_of sr) s i
                    (hits_of-ok (nat_eq sr.total 0) sr.hits s.index i (sym deleted ∙ h)))
            | inr (inl (x, e)) ↦
                let failed : deleted_from job.digest s.index ≡ panic = rw (e, delete_image) in
                absurd (never_ok (sym failed ∙ h))
            | inr (inr e) ↦
                let failed : deleted_from job.digest s.index ≡ panic = rw (e, delete_image) in
                absurd (never_ok (sym failed ∙ h))
          ]

  handle_delete-Acts :
      (job : NotificationJob) (s t : IndexState T I)
      → (job.action == delete_action) ≡ true
      → handle_delete bleve client parse_time percent_s hex configured job s ≡ ok t
      → Acts (holding job) s t
  unfolding handle_delete
  handle_delete-Acts job s t d h =
      let (u, called, rest) =
        >>=-eq-ok
          (delete_hooks bleve client parse_time percent_s hex configured
            (get_hooks configured job.action) job.digest s)
          (λ u. deleted_from job.digest u.index >>= λ i. ok (record u { index = i })) h in
      let (i, deleted, end) =
        >>=-eq-ok (deleted_from job.digest u.index) (λ i. ok (record u { index = i })) rest in
      onward (call_hooks job s u d called)
        (subst (λ x. Acts (searching job) u x) (ok_injective end) (searching_Acts job u i deleted))

  abbrev called : NotificationJob → IndexImage → IndexState T I → IndexState T I
  called job img s = trigger_hooks (get_hooks configured job.action) img s

  abbrev written : NotificationJob → IndexImage → IndexState T I → IndexState T I
  written job img s = record (called job img s) {
    index = index_image bleve img (called job img s).index;
  }

  handle_push-Acts :
      (job : NotificationJob) (s t : IndexState T I)
      → (job.action == delete_action) ≡ false
      → (job.action == push_action) ≡ true
      → handle_push bleve client parse_time percent_s hex configured job s ≡ ok t
      → Acts (holding job) s t
  unfolding handle_push
  handle_push-Acts job s t d p h =
      elim (Result-cases (get_image client job.repository job.tag job.digest)) [
        | inl (img, e) ↦
            let pushed : handle_push bleve client parse_time percent_s hex configured job s
                ≡ ok (written job img s) =
              rw (e, handle_push) in
            onward (fetch_image job s img d p e) (
              subst (λ x. Acts (writing job img) (called job img s) x)
                (ok_injective (sym pushed ∙ h))
                (onward (write_image job (called job img s) img) (over (written job img s))))
        | inr (inl (x, e)) ↦
            let missed : handle_push bleve client parse_time percent_s hex configured job s ≡ ok s =
              rw (e, handle_push) in
            onward (miss_image job s x d p e)
              (subst (λ y. Acts waiting s y) (ok_injective (sym missed ∙ h)) (over s))
        | inr (inr e) ↦
            let failed : handle_push bleve client parse_time percent_s hex configured job s
                ≡ panic =
              rw (e, handle_push) in
            absurd (never_ok (sym failed ∙ h))
      ]

  -- A goroutine that nothing comes between does for its job what `handle` does.
  pub handle-Acts :
      (job : NotificationJob) (s t : IndexState T I) → handled job s ≡ ok t → Acts (holding job) s t
  unfolding handle
  handle-Acts job s t h = elim (Bool-cases (job.action == delete_action)) [
    | inl d ↦
        let deletes : handled job s
            ≡ handle_delete bleve client parse_time percent_s hex configured job s =
          rw (d, handle) in
        handle_delete-Acts job s t d (sym deletes ∙ h)
    | inr d ↦ elim (Bool-cases (job.action == push_action)) [
      | inl p ↦
          let pushes : handled job s
              ≡ handle_push bleve client parse_time percent_s hex configured job s =
            rw (d, p, handle) in
          handle_push-Acts job s t d p (sym pushes ∙ h)
      | inr p ↦
          let skipped : handled job s ≡ ok s = rw (d, p, handle) in
          onward (skip_job job s d p)
            (subst (λ x. Acts waiting s x) (ok_injective (sym skipped ∙ h)) (over s))
    ]
  ]
