-- ===== src/Index/Loop/Serial.antt =====
-- Schedules without deletions, against the handling of one job after the other.
use dim.Prelude.{
  String, ◌≡◌, refl, sym, ap, ◌∙◌, subst, Bool, true, false, Option, List, [], ◌∷◌, ◌++◌, ◌==◌, All,
}
use dim.Prelude.Errors.{Result, ok, >>=-eq-ok, ok_injective}
use dim.Prelude.Int.{ℤ}
use mathlib.Core.List.{append-nil}
use dim.Types.{Time, IndexImage, NotificationJob, delete_action, push_action}
use dim.Index.Hooks.{Hook, get_hooks}
use dim.Index.Bleve.{Bleve}
use dim.Index.Store.{RegistryClient, get_image, index_image}
use dim.Index.Notifications.{IndexState, trigger_hooks, handle, handle_push, handle_notifications}
use dim.Index.Loop.{
  Taker, waiting, holding, searching, deleting, writing, ended, LoopState, opened, Act, call_hooks,
  search_hits, delete_hit, end_delete, fetch_image, miss_image, write_image, skip_job, Step,
  submit_job, take_job, act, Run, here, next,
}

module _ {ℓ} {A : Type ℓ} (P : A → Type 0) where
  All-append : (xs ys : List A) → All P xs → All P ys → All P (xs ++ ys)
  All-append [] ys a b = b
  All-append (x ∷ xs) ys (p, a) b = (p, All-append xs ys a b)

  -- One element among others.
  pub All-at : (xs : List A) (x : A) (ys : List A) → All P (xs ++ x ∷ ys) → P x
  All-at [] x ys (p, a) = p
  All-at (y ∷ xs) x ys (p, a) = All-at xs x ys a

  All-put :
      (xs : List A) (x y : A) (ys : List A) → P y → All P (xs ++ x ∷ ys) → All P (xs ++ y ∷ ys)
  All-put [] x y ys q (p, a) = (q, a)
  All-put (z ∷ xs) x y ys q (p, a) = (p, All-put xs x y ys q a)

pub both : {b : Bool} → b ≡ true → b ≡ false → ⊥
both p q = cc (sym p ∙ q)

-- A job that deletes nothing.
abbrev pub IsKept : NotificationJob → Type 0
IsKept job = (job.action == delete_action) ≡ false

module _ {T I R : Type 0} (bleve : Bleve I) (client : RegistryClient R)
    (parse_time : String → Option Time) (percent_s : ℤ → String) (hex : String → String)
    (configured : List (Hook T)) where
  abbrev handled : NotificationJob → IndexState T I → Result (IndexState T I)
  handled = handle bleve client parse_time percent_s hex configured

  abbrev pub serial : List NotificationJob → IndexState T I → Result (IndexState T I)
  serial = handle_notifications bleve client parse_time percent_s hex configured

  abbrev pub IsFetched : NotificationJob → IndexImage → Type 0
  IsFetched job img =
      IsKept job
      × ((job.action == push_action) ≡ true)
      × (get_image client job.repository job.tag job.digest ≡ ok img)

  abbrev pub IsApart : Taker → Type 0
  IsApart waiting = Unit
  IsApart (holding job) = IsKept job
  IsApart (searching job) = ⊥
  IsApart (deleting job hits) = ⊥
  IsApart (writing job img) = IsFetched job img

  serial-append :
      (jobs more : List NotificationJob) (s t : IndexState T I)
      → serial jobs s ≡ ok t
      → serial (jobs ++ more) s ≡ serial more t
  unfolding handle_notifications
  serial-append [] more s t h = ap (serial more) (ok_injective h)
  serial-append (job ∷ jobs) more s t h =
      let (u, first, rest) = >>=-eq-ok (handled job s) (serial jobs) h in
      rw first (serial-append jobs more u t rest)

  -- The index is what the jobs so far lead to, one after the other.
  abbrev pub IsSerial : I → List NotificationJob → I → Type 0
  IsSerial start jobs i =
      All IsKept jobs
      × (t : IndexState T I) × (serial jobs (record { index = start; triggered = [] }) ≡ ok t)
      × (t.index ≡ i)

  -- One more job, from an index that is that of a state.
  IsSerial-step :
      (start i j : I) (jobs : List NotificationJob) (job : NotificationJob)
      → ((t : IndexState T I)
          → t.index ≡ i
          → (u : IndexState T I) × (handled job t ≡ ok u) × (u.index ≡ j))
      → IsKept job
      → IsSerial start jobs i
      → IsSerial start (jobs ++ job ∷ []) j
  unfolding handle_notifications
  IsSerial-step start i j jobs job one kept (all_kept, t, done, same) =
      let (u, next_, same') = one t same in
      (
        All-append IsKept jobs (job ∷ []) all_kept (kept, tt),
        u,
        serial-append jobs (job ∷ []) (record { index = start; triggered = [] }) t done
            ∙ rw next_ refl,
        same',
      )

  Act-Serial :
      (start : I) (jobs : List NotificationJob) {a b : Taker} {s t : IndexState T I}
      → Act bleve client parse_time percent_s hex configured a s b t
      → IsApart a
      → IsSerial start jobs s.index
      → IsApart b × IsSerial start (jobs ++ ended a b) t.index
  unfolding trigger_hooks handle handle_push
  Act-Serial start jobs (call_hooks job s t d h) p q = absurd (both d p)
  Act-Serial start jobs (search_hits job s sr h) p q = absurd p
  Act-Serial start jobs (delete_hit job s h hits name e) p q = absurd p
  Act-Serial start jobs (end_delete job s) p q = absurd p
  Act-Serial start jobs (fetch_image job s img d k g) p q =
      ((d, k, g), subst (λ x. IsSerial start x s.index) (sym (append-nil jobs)) q)
  Act-Serial start jobs (miss_image job s e d k g) p q = (
    tt,
    IsSerial-step start s.index s.index jobs job
        (λ t same. (t, rw (d, k, g, handle, handle_push) refl, same)) d q,
  )
  Act-Serial start jobs (write_image job s img) (d, k, g) q = (
    tt,
    IsSerial-step start s.index (index_image bleve img s.index) jobs job
        (λ t same. (
          record (trigger_hooks (get_hooks configured job.action) img t) {
            index = index_image bleve img t.index;
          },
          rw (d, k, g, handle, handle_push) refl,
          ap (index_image bleve img) same,
        ))
        d q,
  )
  Act-Serial start jobs (skip_job job s d k) p q = (
    tt,
    IsSerial-step start s.index s.index jobs job (λ t same. (t, rw (d, k, handle) refl, same)) d q,
  )

  abbrev pub IsSound : I → LoopState T I → Type 0
  IsSound start s =
      All IsKept s.submitting
      × All IsKept s.channel
      × All IsApart s.takers
      × IsSerial start s.finished s.state.index

  Step-IsSound :
      (start : I) {s t : LoopState T I}
      → Step bleve client parse_time percent_s hex configured s t
      → IsSound start s
      → IsSound start t
  Step-IsSound start (submit_job s job jobs h room) (a, b, c, d) =
      let (kept, rest) : All IsKept (job ∷ jobs) = subst (All IsKept) h a in
      (rest, All-append IsKept s.channel (job ∷ []) b (kept, tt), c, d)
  Step-IsSound start (take_job s before after job jobs h k) (a, b, c, d) =
      let (kept, rest) : All IsKept (job ∷ jobs) = subst (All IsKept) k b in
      (
        a,
        rest,
        All-put IsApart before waiting (holding job) after kept (subst (All IsApart) h c),
        d,
      )
  Step-IsSound start (act s before after w w' t h move) (a, b, c, d) =
      let takers = subst (All IsApart) h c in
      let (apart, end) =
        Act-Serial start s.finished move (All-at IsApart before w after takers) d in
      (a, b, All-put IsApart before w w' after apart takers, end)

  pub Run-IsSound :
      (start : I) {s t : LoopState T I}
      → Run bleve client parse_time percent_s hex configured s t
      → IsSound start s
      → IsSound start t
  Run-IsSound start here sound = sound
  Run-IsSound start (next r step) sound = Step-IsSound start step (Run-IsSound start r sound)

  pub Run-IsSerial :
      (jobs : List NotificationJob) (i : I) (s : LoopState T I)
      → All IsKept jobs
      → Run bleve client parse_time percent_s hex configured (opened jobs i) s
      → IsSerial i s.finished s.state.index
  unfolding handle_notifications
  Run-IsSerial jobs i s kept r =
      let (a, b, c, d) =
        Run-IsSound i r (
          kept,
          tt,
          (tt, (tt, (tt, tt))),
          (tt, record { index = i; triggered = [] }, refl, refl),
        ) in
      d

  -- Where no job is a deletion, the three goroutines behave as if one after the other: at every moment of
  -- every schedule, the index is the one that handling the finished jobs one by one leads to, in the order
  -- in which they were finished.
  pub Run-serial :
      (jobs : List NotificationJob) (i : I) (s : LoopState T I)
      → All IsKept jobs
      → Run bleve client parse_time percent_s hex configured (opened jobs i) s
      → (t : IndexState T I) × (serial s.finished (record { index = i; triggered = [] }) ≡ ok t)
        × (t.index ≡ s.state.index)
  Run-serial jobs i s kept r =
      let (all_kept, t, handled_, same) = Run-IsSerial jobs i s kept r in (t, handled_, same)
