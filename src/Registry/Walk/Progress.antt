-- ===== src/Registry/Walk/Progress.antt =====
-- Progress of the walk through a repository's images (lib/registry/repository.go).
use dim.Prelude.{
  String, ◌≡◌, refl, ap, ◌≢◌, ◌⊎◌, inl, inr, true, Option, none, List, [], ◌∷◌, arith, Bool-cases,
  length, All,
}
use dim.Prelude.Errors.{Result, Result-cases}
use dim.Registry.Walk.{
  Worker, waiting, fetching, checking, sending, leaving, returned, State, at_work, Step, feed,
  close_ch, take_tag, end_range, fetched, go_on, send_image, leave, close_images, receive, Reach,
}
use dim.Registry.Walk.Invariant.{
  total, total-at_work, is_active, fails, failing, holds_failing, Reach-Inv,
}
use dim.Registry.Walk.Deadlock.{CanFetch, at_rest}

List-cases {ℓ} : {A : Type ℓ} (xs : List A) → (xs ≡ []) ⊎ ((x : A) × (ys : List A) × (xs ≡ x ∷ ys))
List-cases [] = inl refl
List-cases (x ∷ xs) = inr (x, xs, refl)

module _ {Image : Type 0} (image : String → Result Image) (partial : String → Option Image) where
  -- A worker that has not returned, if there is one.
  data Active (ws : List (Worker Image)) : Type 0 where
    none_active : total is_active ws ≡ 0 → Active ws
    one_active :
        (before : List (Worker Image)) (w : Worker Image) (after : List (Worker Image))
        → w ≢ returned
        → ws ≡ at_work before w after
        → Active ws

  cons-Active :
      (v : Worker Image) (ws : List (Worker Image)) → Active ws → is_active v ≡ 0 → Active (v ∷ ws)
  cons-Active v ws (none_active n) z = none_active (omega arith)
  cons-Active v ws (one_active before w after live e) z =
      one_active (v ∷ before) w after live (ap (λ vs. v ∷ vs) e)

  find-Active : (ws : List (Worker Image)) → Active ws
  find-Active [] = none_active refl
  find-Active (returned ∷ ws) = cons-Active returned ws (find-Active ws) refl
  find-Active (waiting ∷ ws) = one_active [] waiting ws (λ e. cc) refl
  find-Active (fetching tag ∷ ws) = one_active [] (fetching tag) ws (λ e. cc) refl
  find-Active (checking img ∷ ws) = one_active [] (checking img) ws (λ e. cc) refl
  find-Active (sending img ∷ ws) = one_active [] (sending img) ws (λ e. cc) refl
  find-Active (leaving ∷ ws) = one_active [] leaving ws (λ e. cc) refl

  -- A move of the walk, or its end.
  abbrev pub Progress : State Image → Type 0
  Progress s = (s.images_closed ≡ true) ⊎ ((t : State Image) × Step image partial s t)

  -- The goroutine that feeds the workers can go on, or it has closed the channel.
  feeder_moves :
      (s : State Image)
      → s.ch ≡ []
      → (s.ch_closed ≡ true) ⊎ ((t : State Image) × Step image partial s t)
  feeder_moves s empty = elim (Bool-cases s.ch_closed) [
    | inl shut ↦ inl shut
    | inr open_ ↦ elim (List-cases s.pending) [
      | inl over ↦ inr (_, close_ch over open_)
      | inr (tag, rest, e) ↦ inr (_, feed tag rest e (omega (arith, ap length empty)))
    ]
  ]

  waiting_moves :
      (s : State Image) (before after : List (Worker Image))
      → s.workers ≡ at_work before waiting after
      → (t : State Image) × Step image partial s t
  waiting_moves s before after e = elim (List-cases s.ch) [
    | inr (tag, rest, c) ↦ (_, take_tag before after tag rest e c)
    | inl empty ↦ elim (feeder_moves s empty) [
      | inl shut ↦ (_, end_range before after e empty shut)
      | inr moves ↦ moves
    ]
  ]

  sending_moves :
      (s : State Image) (before after : List (Worker Image)) (img : Option Image)
      → s.workers ≡ at_work before (sending img) after
      → (t : State Image) × Step image partial s t
  sending_moves s before after img e = elim (List-cases s.images) [
    | inr (first, rest, c) ↦ (_, receive first rest c)
    | inl empty ↦ (_, send_image before after img e (omega (arith, ap length empty)))
  ]

  fetching_moves :
      (s : State Image) (before after : List (Worker Image)) (tag : String)
      → s.workers ≡ at_work before (fetching tag) after
      → fails image (image tag) ≡ 0
      → (t : State Image) × Step image partial s t
  fetching_moves s before after tag e fine = elim (Result-cases (image tag)) [
    | inl (img, got) ↦ (_, fetched before after tag img e got)
    | inr (inl (x, bad)) ↦ absurd (let b = ap (fails image) bad in omega arith)
    | inr (inr bad) ↦ absurd (let b = ap (fails image) bad in omega arith)
  ]

  worker_moves :
      (s : State Image) (before : List (Worker Image)) (w : Worker Image)
      (after : List (Worker Image))
      → w ≢ returned
      → s.workers ≡ at_work before w after
      → holds_failing image w ≡ 0
      → s.error ≡ none
      → (t : State Image) × Step image partial s t
  worker_moves s before waiting after live e fine clean = waiting_moves s before after e
  worker_moves s before (fetching tag) after live e fine clean =
      fetching_moves s before after tag e fine
  worker_moves s before (checking img) after live e fine clean = (_, go_on before after img e clean)
  worker_moves s before (sending img) after live e fine clean = sending_moves s before after img e
  worker_moves s before leaving after live e fine clean = (_, leave before after e)
  worker_moves s before returned after live e fine clean = absurd (live refl)

  failing_eq_zero : (tags : List String) → All (CanFetch image) tags → failing image tags ≡ 0
  failing_eq_zero [] h = refl
  failing_eq_zero (tag ∷ tags) ((img, got), rest) =
      omega (arith, ap (fails image) got, failing_eq_zero tags rest)

  -- If the image of every tag can be fetched, then at every state that the goroutines reach the channel
  -- of images is closed or one of the goroutines, or the caller, can move: there is no deadlock.
  pub Reach-Progress :
      (tags : List String) (s : State Image)
      → All (CanFetch image) tags
      → Reach image partial tags s
      → Progress s
  Reach-Progress tags s can r =
      let v = Reach-Inv image partial r in
      let clean = failing_eq_zero tags can in
      let (quiet, stays) : (s.error ≡ none) × (v.lost ≡ 0) = elim v.fine [
        | inl some_ ↦ absurd (omega (arith, clean))
        | inr both ↦ both
      ] in
      elim (find-Active s.workers) [
        | one_active before w after live e ↦ inr (
            worker_moves s before w after live e
              (omega (
                arith,
                v.failures,
                ap (total (holds_failing image)) e,
                total-at_work (holds_failing image) before w after,
              ))
              quiet)
        | none_active n ↦ elim v.range [
          | inl k ↦ absurd (let (b, f, z) = at_rest image s.workers n in omega (arith, stays))
          | inr (empty, shut) ↦ elim (Bool-cases s.images_closed) [
            | inl closed ↦ inl closed
            | inr open_ ↦ inr (_, close_images shut (omega (arith, v.group, stays)) open_)
          ]
        ]
      ]
