-- ===== src/Index/Build/Invariant.antt =====
-- The images that a schedule of `Build` holds, and the order in which it closes the channels.
use dim.Prelude.{
  ℕ, suc, ◌+◌, ◌≡◌, refl, sym, ap, ◌∙◌, subst, ◌≢◌, ◌⊎◌, inl, inr, Bool, true, false, List, [], ◌∷◌,
  ◌++◌, arith, length, length-append,
}
use dim.Prelude.Errors.{Result, ok, err, panic}
use dim.Types.{IndexImage}
use dim.Prelude.{total, total-append}
use dim.Index.Build.{
  RepoImage, RepoWalk, Phase, walks, waits_images, waits_tasks, ended, BuildState, parsers, build,
  parse_image, Step, start_browser, start_parsers, push_image, end_browser, close_images,
  take_image, push_task, end_parser, close_tasks, collect_task, close_done, Reach, begun, later,
}

-- The weight of an image that is still to be parsed is that of its record.
abbrev parsed_weight : (IndexImage → ℕ) → Result IndexImage → ℕ
parsed_weight w (ok task) = w task
parsed_weight w (err e) = 0
parsed_weight w panic = 0

module _ (w : IndexImage → ℕ) where
  abbrev pub weight : RepoImage → ℕ
  weight i = parsed_weight w (parse_image i)

  abbrev pub walk_weight : RepoWalk → ℕ
  walk_weight (images, closes) = total weight images

  -- Of all images, those in the channels and in the hands of the goroutines included.
  abbrev pub held : BuildState → ℕ
  held s =
      total walk_weight s.walking
      + total walk_weight s.browsing
      + total weight s.images
      + total weight s.parsing
      + total w s.tasks
      + total w s.batch

  -- A step moves images and changes none.
  pub Step-held : {s t : BuildState} → Step s t → held t ≡ held s
  Step-held (start_browser s r rs p h) = rw h (omega arith)
  Step-held (start_parsers s p h c) = refl
  Step-held (push_image s others rest i left closes h room) = rw h (
      omega (
        arith,
        total-append walk_weight others ((left, closes) ∷ rest),
        total-append walk_weight others ((i ∷ left, closes) ∷ rest),
        total-append weight s.images (i ∷ []),
      ))
  Step-held (end_browser s others rest h) = rw h (
      omega (
        arith,
        total-append walk_weight others rest,
        total-append walk_weight others (([], true) ∷ rest),
      ))
  Step-held (close_images s p h) = refl
  Step-held (take_image s i left n h k) = rw h (omega arith)
  Step-held (push_task s others rest i task h made room) =
      let same : weight i ≡ w task = ap (parsed_weight w) made in
      rw h (
        omega (
          arith,
          same,
          total-append weight others rest,
          total-append weight others (i ∷ rest),
          total-append w s.tasks (task ∷ []),
        ))
  Step-held (end_parser s n p h k) = refl
  Step-held (close_tasks s p h k) = refl
  Step-held (collect_task s task left h) = rw h (omega (arith, total-append w s.batch (task ∷ [])))
  Step-held (close_done s p h d) = refl

  pub Reach-held :
      {repositories : List RepoWalk} {closes : Bool} {s : BuildState}
      → Reach repositories closes s
      → held s ≡ total walk_weight repositories
  unfolding build
  Reach-held begun = omega arith
  Reach-held (later r step) = Step-held step ∙ Reach-held r

-- What holds of the channels and the parsers while the first goroutine is somewhere.
abbrev pub InPhase : Phase → BuildState → Type 0
InPhase walks s = (s.done ≡ false) × (s.idle ≡ 0) × (s.parsing ≡ [])
InPhase waits_images s = (s.done ≡ false) × (s.walking ≡ []) × (s.idle + length s.parsing ≡ parsers)
InPhase waits_tasks s =
    (s.done ≡ false)
    × (s.walking ≡ [])
    × (s.browsing ≡ [])
    × ((s.idle + length s.parsing ≡ parsers) ⊎ (s.images ≡ []))
InPhase ended s =
    (s.walking ≡ [])
    × (s.browsing ≡ [])
    × (s.images ≡ [])
    × (s.parsing ≡ [])
    × (s.idle ≡ 0)
    × (s.done ≡ true → s.tasks ≡ [])

abbrev pub Inv : BuildState → Type 0
Inv s = InPhase s.phase s

cons_inside : {A : Type 0} (others rest : List A) (x : A) → others ++ x ∷ rest ≢ []
cons_inside [] rest x e = cc
cons_inside (y ∷ others) rest x e = cc

not_empty :
    {A : Type 0} {xs : List A} (others rest : List A) (x : A) → xs ≡ others ++ x ∷ rest → xs ≢ []
not_empty others rest x h e = cons_inside others rest x (sym h ∙ e)

push_image-InPhase :
    (p : Phase) (s : BuildState) (others rest : List RepoWalk) (i : RepoImage)
    (left : List RepoImage) (closes : Bool)
    → s.browsing ≡ others ++ (i ∷ left, closes) ∷ rest
    → InPhase p s
    → InPhase p
        (record s { browsing = others ++ (left, closes) ∷ rest; images = s.images ++ i ∷ [] })
push_image-InPhase walks s others rest i left closes h inv = inv
push_image-InPhase waits_images s others rest i left closes h inv = inv
push_image-InPhase waits_tasks s others rest i left closes h (d, w, b, q) =
    absurd (not_empty others rest (i ∷ left, closes) h b)
push_image-InPhase ended s others rest i left closes h (w, b, c, e, z, f) =
    absurd (not_empty others rest (i ∷ left, closes) h b)

end_browser-InPhase :
    (p : Phase) (s : BuildState) (others rest : List RepoWalk)
    → s.browsing ≡ others ++ ([], true) ∷ rest
    → InPhase p s
    → InPhase p (record s { browsing = others ++ rest })
end_browser-InPhase walks s others rest h inv = inv
end_browser-InPhase waits_images s others rest h inv = inv
end_browser-InPhase waits_tasks s others rest h (d, w, b, q) =
    absurd (not_empty others rest ([], true) h b)
end_browser-InPhase ended s others rest h (w, b, c, e, z, f) =
    absurd (not_empty others rest ([], true) h b)

take_image-InPhase :
    (p : Phase) (s : BuildState) (i : RepoImage) (left : List RepoImage) (n : ℕ)
    → s.images ≡ i ∷ left
    → s.idle ≡ suc n
    → InPhase p s
    → InPhase p (record s { images = left; idle = n; parsing = i ∷ s.parsing })
take_image-InPhase walks s i left n h k (d, z, e) = absurd (omega (arith, z, k))
take_image-InPhase waits_images s i left n h k (d, w, c) = (d, w, omega (arith, k, c))
take_image-InPhase waits_tasks s i left n h k (d, w, b, inl c) =
    (d, w, b, inl (omega (arith, k, c)))
take_image-InPhase waits_tasks s i left n h k (d, w, b, inr c) = cc
take_image-InPhase ended s i left n h k (w, b, c, e, z, f) = absurd (omega (arith, z, k))

moved :
    (s : BuildState) (others rest : List RepoImage) (i : RepoImage)
    → s.parsing ≡ others ++ i ∷ rest
    → s.idle + length s.parsing ≡ parsers
    → suc s.idle + length (others ++ rest) ≡ parsers
moved s others rest i h c =
    omega (arith, ap length h, c, length-append others rest, length-append others (i ∷ rest))

push_task-InPhase :
    (p : Phase) (s : BuildState) (others rest : List RepoImage) (i : RepoImage) (task : IndexImage)
    → s.parsing ≡ others ++ i ∷ rest
    → InPhase p s
    → InPhase p
        (record s { parsing = others ++ rest; idle = suc s.idle; tasks = s.tasks ++ task ∷ [] })
push_task-InPhase walks s others rest i task h (d, z, e) = absurd (not_empty others rest i h e)
push_task-InPhase waits_images s others rest i task h (d, w, c) = (d, w, moved s others rest i h c)
push_task-InPhase waits_tasks s others rest i task h (d, w, b, inl c) =
    (d, w, b, inl (moved s others rest i h c))
push_task-InPhase waits_tasks s others rest i task h (d, w, b, inr c) = (d, w, b, inr c)
push_task-InPhase ended s others rest i task h (w, b, c, e, z, f) =
    absurd (not_empty others rest i h e)

collect_task-InPhase :
    (p : Phase) (s : BuildState) (task : IndexImage) (left : List IndexImage)
    → s.tasks ≡ task ∷ left
    → InPhase p s
    → InPhase p (record s { tasks = left; batch = s.batch ++ task ∷ [] })
collect_task-InPhase walks s task left h inv = inv
collect_task-InPhase waits_images s task left h inv = inv
collect_task-InPhase waits_tasks s task left h inv = inv
collect_task-InPhase ended s task left h (w, b, c, e, z, f) =
    (w, b, c, e, z, λ d. absurd (not_empty [] left task h (f d)))

all_taken :
    (s : BuildState)
    → s.idle ≡ 0
    → s.parsing ≡ []
    → (s.idle + length s.parsing ≡ parsers) ⊎ (s.images ≡ [])
    → s.images ≡ []
all_taken s h k (inl c) = absurd (omega (arith, h, c, ap length k))
all_taken s h k (inr c) = c

Step-Inv : {s t : BuildState} → Step s t → Inv s → Inv t
Step-Inv (start_browser s r rs p h) inv =
    subst (λ ph. InPhase ph (record s { walking = rs; browsing = r ∷ s.browsing })) (sym p)
      (subst (λ ph. InPhase ph s) p inv)
Step-Inv (start_parsers s p h c) inv =
    let (d, z, e) = subst (λ ph. InPhase ph s) p inv in (d, h, rw e refl)
Step-Inv (push_image s others rest i left closes h room) inv =
    push_image-InPhase s.phase s others rest i left closes h inv
Step-Inv (end_browser s others rest h) inv = end_browser-InPhase s.phase s others rest h inv
Step-Inv (close_images s p h) inv =
    let (d, w, c) = subst (λ ph. InPhase ph s) p inv in (d, w, h, inl c)
Step-Inv (take_image s i left n h k) inv = take_image-InPhase s.phase s i left n h k inv
Step-Inv (push_task s others rest i task h made room) inv =
    push_task-InPhase s.phase s others rest i task h inv
Step-Inv (end_parser s n p h k) inv =
    let (d, w, b, c) = subst (λ ph. InPhase ph s) p inv in
    subst (λ ph. InPhase ph (record s { idle = n })) (sym p) (d, w, b, inr h)
Step-Inv (close_tasks s p h k) inv =
    let (d, w, b, c) = subst (λ ph. InPhase ph s) p inv in (w, b, all_taken s h k c, k, h, λ e. cc)
Step-Inv (collect_task s task left h) inv = collect_task-InPhase s.phase s task left h inv
Step-Inv (close_done s p h d) inv =
    let (w, b, c, e, z, f) = subst (λ ph. InPhase ph s) p inv in
    subst (λ ph. InPhase ph (record s { done = true })) (sym p) (w, b, c, e, z, λ is_done. h)

pub Reach-Inv :
    {repositories : List RepoWalk} {closes : Bool} {s : BuildState}
    → Reach repositories closes s
    → Inv s
unfolding build
Reach-Inv begun = (refl, refl, refl)
Reach-Inv (later r step) = Step-Inv step (Reach-Inv r)

done-InPhase :
    (p : Phase) (s : BuildState)
    → InPhase p s
    → s.done ≡ true
    → (w : IndexImage → ℕ) → held w s ≡ total w s.batch
done-InPhase walks s (d, y, z) f w = cc
done-InPhase waits_images s (d, y, z) f w = cc
done-InPhase waits_tasks s (d, x, y, z) f w = cc
done-InPhase ended s (a, b, c, e, z, t) f w = rw (a, b, c, e, t f) (omega arith)

-- When the channel that tells the end is closed, whatever the schedule was, the batch holds the records
-- of all the images of all the repositories, each as often as it occurs there: for every weight, the
-- weights of the batch add up to those of the images.
pub Reach-done :
    {repositories : List RepoWalk} {closes : Bool} {s : BuildState} (w : IndexImage → ℕ)
    → Reach repositories closes s
    → s.done ≡ true
    → total w s.batch ≡ total (walk_weight w) repositories
Reach-done {repositories} {s} w r d =
    sym (done-InPhase s.phase s (Reach-Inv r) d w) ∙ Reach-held w r
