-- ===== src/Index/Loop/Order.antt =====
-- In which order the jobs take effect.
use dim.Prelude.{String, ◌≡◌, refl, sym, ap, ◌∙◌, subst, Option, List, [], ◌∷◌, ◌++◌, arith}
use dim.Prelude.Errors.{Result, ok}
use dim.Prelude.Int.{ℤ}
use mathlib.Core.List.{append-nil, append_assoc}
use dim.Types.{Time, NotificationJob}
use dim.Index.Hooks.{Hook}
use dim.Index.Bleve.{Bleve}
use dim.Index.Store.{RegistryClient}
use dim.Index.Notifications.{IndexState, handle}
use dim.Index.Loop.{
  Taker, waiting, holding, jobs_of, ended, LoopState, loop, opened, Act, call_hooks, search_hits,
  delete_hit, end_delete, fetch_image, miss_image, write_image, skip_job, submit_job, take_job, act,
  Run, here, next,
}
use dim.Index.Loop.Alone.{Acts, over, onward, handle-Acts}

module _ {T I R : Type 0} (bleve : Bleve I) (client : RegistryClient R)
    (parse_time : String → Option Time) (percent_s : ℤ → String) (hex : String → String)
    (configured : List (Hook T)) where
  abbrev pub Schedule : LoopState T I → LoopState T I → Type 0
  Schedule = Run bleve client parse_time percent_s hex configured

  abbrev pub handled : NotificationJob → IndexState T I → Result (IndexState T I)
  handled = handle bleve client parse_time percent_s hex configured

  abbrev TheActs : Taker → IndexState T I → IndexState T I → Type 0
  TheActs = Acts bleve client parse_time percent_s hex configured

  Act-ended :
      {a b : Taker} {s t : IndexState T I}
      → Act bleve client parse_time percent_s hex configured a s b t
      → ended a b ++ jobs_of b ≡ jobs_of a
  Act-ended (call_hooks job s t d h) = refl
  Act-ended (search_hits job s sr h) = refl
  Act-ended (delete_hit job s h hits name e) = refl
  Act-ended (end_delete job s) = refl
  Act-ended (fetch_image job s img d p g) = refl
  Act-ended (miss_image job s e d p g) = refl
  Act-ended (write_image job s img) = refl
  Act-ended (skip_job job s d p) = refl

  -- The state once the goroutine between some others has done its job.
  abbrev IsAfter :
      LoopState T I → (before after : List Taker) → Taker → IndexState T I → LoopState T I → Type 0
  IsAfter s before after w t u =
      (u.takers ≡ before ++ waiting ∷ after)
      × (u.state ≡ t)
      × (u.finished ≡ s.finished ++ jobs_of w)
      × (u.submitting ≡ s.submitting)
      × (u.channel ≡ s.channel)

  Acts-Run :
      (start s : LoopState T I) (before after : List Taker) {w : Taker} {x t : IndexState T I}
      → Schedule start s
      → TheActs w x t
      → s.state ≡ x
      → s.takers ≡ before ++ w ∷ after
      → (u : LoopState T I) × Schedule start u × IsAfter s before after w t u
  Acts-Run start s before after r (over x) e h =
      (s, r, (h, e, sym (append-nil s.finished), refl, refl))
  Acts-Run start s before after r (onward {a = w} {b = w'} {s = x} {t = y} move rest) e h =
      let first =
        subst (λ z. Act bleve client parse_time percent_s hex configured w z w' y) (sym e) move in
      let s' : LoopState T I = record s {
        takers = before ++ w' ∷ after;
        state = y;
        finished = s.finished ++ ended w w';
      } in
      let (u, r', (tk, st, fin, sub, ch)) =
        Acts-Run start s' before after (next r (act s before after w w' y h first)) rest refl
          refl in
      (
        u,
        r',
        (
          tk,
          st,
          fin
              ∙ append_assoc s.finished (ended w w') (jobs_of w')
              ∙ ap (λ jobs. s.finished ++ jobs) (Act-ended move),
          sub,
          ch,
        ),
      )

  -- Two jobs that are submitted one after the other can take effect in the other order: where `handle`
  -- succeeds on the second and then on the first, some schedule ends with all goroutines waiting and with
  -- what that leads to.
  pub overtaken :
      (a b : NotificationJob) (i : I) (s t : IndexState T I)
      → handled b (record { index = i; triggered = [] }) ≡ ok s
      → handled a s ≡ ok t
      → (u : LoopState T I) × Schedule (opened (a ∷ b ∷ []) i) u
        × (u.takers ≡ loop 3)
        × (u.state ≡ t)
        × (u.finished ≡ b ∷ a ∷ [])
  overtaken a b i s t second first =
      let start : LoopState T I = opened (a ∷ b ∷ []) i in
      let r0 : Schedule start start = here in
      let r1 = next r0 (submit_job _ a (b ∷ []) refl (omega arith)) in
      let r2 = next r1 (submit_job _ b [] refl (omega arith)) in
      let r3 = next r2 (take_job _ [] (waiting ∷ waiting ∷ []) a (b ∷ []) refl refl) in
      let r4 = next r3 (take_job _ (holding a ∷ []) (waiting ∷ []) b [] refl refl) in
      let (u, r5, (tk, st, fin, sub, ch)) =
        Acts-Run start _ (holding a ∷ []) (waiting ∷ []) r4
          (handle-Acts bleve client parse_time percent_s hex configured b _ s second) refl refl in
      let (v, r6, (tk', st', fin', sub', ch')) =
        Acts-Run start u [] (waiting ∷ waiting ∷ []) r5
          (handle-Acts bleve client parse_time percent_s hex configured a s t first) st tk in
      (v, r6, tk', st', fin' ∙ ap (λ jobs. jobs ++ a ∷ []) fin)
