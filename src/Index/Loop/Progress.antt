-- ===== src/Index/Loop/Progress.antt =====
-- How long schedules without deletions are, and when one can go on.
use dim.Prelude.{
  ℕ, suc, ◌+◌, ◌*◌, ◌≤◌, ◌<◌, String, ◌≡◌, refl, ap, ◌∙◌, subst, ◌≢◌, ◌⊎◌, inl, inr, Option, List,
  [], ◌∷◌, ◌++◌, arith, ◌==◌, Bool-cases, length, length-append, All,
}
use dim.Prelude.Errors.{panic, Result-cases}
use dim.Prelude.{total, total-append}
use dim.Prelude.Int.{ℤ}
use dim.Types.{Time, NotificationJob, push_action}
use dim.Index.Hooks.{Hook}
use dim.Index.Bleve.{Bleve}
use dim.Index.Store.{RegistryClient, get_image}
use dim.Index.Notifications.{IndexState, handle_notifications}
use dim.Index.Loop.{
  Taker, waiting, holding, searching, deleting, writing, LoopState, loop, opened, Act, call_hooks,
  search_hits, delete_hit, end_delete, fetch_image, miss_image, write_image, skip_job, Step,
  submit_job, take_job, act, Run, here, next,
}
use dim.Index.Loop.Serial.{IsKept, IsApart, IsSound, Run-IsSound, All-at, both}
use dim.Index.Loop.Jobs.{Run-Fits}

-- The steps that a goroutine has before it for its job, where that is no deletion.
abbrev pub steps_of : Taker → ℕ
steps_of (holding job) = 2
steps_of (writing job img) = 1
steps_of _ = 0

abbrev pub all_steps : {T I : Type 0} → LoopState T I → ℕ
all_steps s = 4 * length s.submitting + 3 * length s.channel + total steps_of s.takers

module _ {T I R : Type 0} (bleve : Bleve I) (client : RegistryClient R)
    (parse_time : String → Option Time) (percent_s : ℤ → String) (hex : String → String)
    (configured : List (Hook T)) where
  abbrev TheStep : LoopState T I → LoopState T I → Type 0
  TheStep = Step bleve client parse_time percent_s hex configured

  abbrev TheRun : LoopState T I → LoopState T I → Type 0
  TheRun = Run bleve client parse_time percent_s hex configured

  abbrev Sound : I → LoopState T I → Type 0
  Sound = IsSound bleve client parse_time percent_s hex configured

  abbrev Apart : Taker → Type 0
  Apart = IsApart bleve client parse_time percent_s hex configured

  -- How many steps a schedule has.
  abbrev pub steps : {s t : LoopState T I} → TheRun s t → ℕ
  steps here = 0
  steps (next r step) = suc (steps r)

  Act-steps :
      {a b : Taker} {s t : IndexState T I}
      → Act bleve client parse_time percent_s hex configured a s b t
      → Apart a
      → steps_of b < steps_of a
  Act-steps (call_hooks job s t d h) p = absurd (both d p)
  Act-steps (search_hits job s sr h) p = absurd p
  Act-steps (delete_hit job s h hits name e) p = absurd p
  Act-steps (end_delete job s) p = absurd p
  Act-steps (fetch_image job s img d k g) p = omega arith
  Act-steps (miss_image job s e d k g) p = omega arith
  Act-steps (write_image job s img) p = omega arith
  Act-steps (skip_job job s d k) p = omega arith

  Step-steps : {s t : LoopState T I} (i : I) → TheStep s t → Sound i s → all_steps t < all_steps s
  Step-steps i (submit_job s job jobs h room) sound =
      omega (arith, ap length h, length-append s.channel (job ∷ []))
  Step-steps i (take_job s before after job jobs h k) sound = omega (
    arith,
    ap length k,
    ap (total steps_of) h,
    total-append steps_of before (holding job ∷ after),
    total-append steps_of before (waiting ∷ after),
  )
  Step-steps i (act s before after a b t h move) (x, y, apart, z) = omega (
    arith,
    Act-steps move (All-at Apart before a after (subst (All Apart) h apart)),
    ap (total steps_of) h,
    total-append steps_of before (b ∷ after),
    total-append steps_of before (a ∷ after),
  )

  Run-steps :
      (i : I) {s t : LoopState T I} (r : TheRun s t)
      → Sound i s
      → steps r + all_steps t ≤ all_steps s
  Run-steps i here sound = omega arith
  Run-steps i (next r step) sound =
      let before = Run-IsSound bleve client parse_time percent_s hex configured i r sound in
      omega (arith, Run-steps i r sound, Step-steps i step before)

  -- All jobs were taken, and every goroutine waits.
  abbrev pub IsIdle : LoopState T I → Type 0
  IsIdle s = (s.submitting ≡ []) × (s.channel ≡ []) × (s.takers ≡ loop 3)

  abbrev pub CanStep : LoopState T I → Type 0
  CanStep s = (t : LoopState T I) × TheStep s t

  -- A goroutine that can go on.
  abbrev Busy : IndexState T I → List Taker → Type 0
  Busy s takers =
      (before : List Taker) × (after : List Taker) × (a : Taker) × (b : Taker) × (t : IndexState T
        I)
      × (takers ≡ before ++ a ∷ after)
      × Act bleve client parse_time percent_s hex configured a s b t

  module _
      (lives : (job : NotificationJob)
        → get_image client job.repository job.tag job.digest ≢ panic) where
    holding_acts :
        (job : NotificationJob) (s : IndexState T I)
        → IsKept job
        → (b : Taker) × (t : IndexState T I) × Act bleve client parse_time percent_s hex configured
            (holding job)
            s
            b
            t
    holding_acts job s kept = elim (Bool-cases (job.action == push_action)) [
      | inr k ↦ (_, _, skip_job job s kept k)
      | inl k ↦ elim (Result-cases (get_image client job.repository job.tag job.digest)) [
        | inl (img, g) ↦ (_, _, fetch_image job s img kept k g)
        | inr (inl (e, g)) ↦ (_, _, miss_image job s e kept k g)
        | inr (inr g) ↦ absurd (lives job g)
      ]
    ]

    found_taker :
        (s : IndexState T I) (takers : List Taker)
        → All Apart takers
        → Busy s takers ⊎ (takers ≡ loop (length takers))
    found_taker s [] a = inr refl
    found_taker s (holding job ∷ takers) (p, a) =
        let (b, t, move) = holding_acts job s p in inl ([], takers, holding job, b, t, refl, move)
    found_taker s (writing job img ∷ takers) (p, a) =
        inl ([], takers, writing job img, waiting, _, refl, write_image job s img)
    found_taker s (searching job ∷ takers) (p, a) = absurd p
    found_taker s (deleting job hits ∷ takers) (p, a) = absurd p
    found_taker s (waiting ∷ takers) (p, a) = elim (found_taker s takers a) [
      | inl (before, after, x, y, t, e, move) ↦
          inl (waiting ∷ before, after, x, y, t, ap (λ r. waiting ∷ r) e, move)
      | inr e ↦ inr (ap (λ r. waiting ∷ r) e)
    ]

    List-cases :
        {A : Type 0} (xs : List A) → (xs ≡ []) ⊎ ((x : A) × (rest : List A) × (xs ≡ x ∷ rest))
    List-cases [] = inl refl
    List-cases (x ∷ xs) = inr (x, xs, refl)

    goes_on : (i : I) (s : LoopState T I) → Sound i s → length s.takers ≡ 3 → IsIdle s ⊎ CanStep s
    goes_on i s (x, y, apart, z) three = elim (found_taker s.state s.takers apart) [
      | inl (before, after, a, b, t, e, move) ↦ inr (_, act s before after a b t e move)
      | inr e ↦
          let all_wait = e ∙ ap loop three in
          elim (List-cases s.channel) [
            | inr (job, jobs, c) ↦
                inr (_, take_job s [] (waiting ∷ waiting ∷ []) job jobs all_wait c)
            | inl c ↦ elim (List-cases s.submitting) [
              | inr (job, jobs, d) ↦ inr (_, submit_job s job jobs d (omega (arith, ap length c)))
              | inl d ↦ inl (d, c, all_wait)
            ]
          ]
    ]

    -- Where no job is a deletion and reading an image from the registry never panics, every schedule ends: it
    -- has at most four steps for each job, and at every moment there is a next step or else all jobs were
    -- taken and every goroutine waits.
    pub Run-Progress :
        (jobs : List NotificationJob) (i : I) (s : LoopState T I)
        → All IsKept jobs
        → (r : TheRun (opened jobs i) s) → (steps r ≤ 4 * length jobs) × (IsIdle s ⊎ CanStep s)
    unfolding handle_notifications
    Run-Progress jobs i s kept r =
        let start : Sound i (opened jobs i) = (
          kept,
          tt,
          (tt, (tt, (tt, tt))),
          (tt, record { index = i; triggered = [] }, refl, refl),
        ) in
        let fits =
          Run-Fits bleve client parse_time percent_s hex configured 3 r (omega arith, refl) in
        (
          omega (arith, Run-steps i r start),
          goes_on i s (Run-IsSound bleve client parse_time percent_s hex configured i r start)
              fits.1,
        )
