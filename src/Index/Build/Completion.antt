-- ===== src/Index/Build/Completion.antt =====
-- Schedules of `Build` that go on to the end.
use dim.Prelude.{
  ℕ, zero, suc, ◌+◌, ◌≤◌, ◌<◌, ◌≡◌, refl, ap, subst, Bool, true, false, List, [], ◌∷◌, ◌++◌, arith,
  All,
}
use dim.Prelude.Errors.{Result, ok, err, panic}
use dim.Types.{IndexImage}
use dim.Index.Build.{
  RepoImage, RepoWalk, BuildState, build, parse_image, Step, start_browser, start_parsers,
  push_image, end_browser, close_images, take_image, push_task, end_parser, close_tasks,
  collect_task, close_done, Reach, begun, later,
}
use dim.Prelude.{total, total-append}
use dim.Index.Build.Progress.{work, Step-work, Closes, AllClose, Reach-CanStep}

abbrev failures : Result IndexImage → ℕ
failures (ok task) = 0
failures _ = 1

abbrev bad : RepoImage → ℕ
bad i = failures (parse_image i)

-- In a walk.
abbrev walk_bad : RepoWalk → ℕ
walk_bad (images, closes) = total bad images

-- The images that cannot be parsed and still are to be.
abbrev left_bad : BuildState → ℕ
left_bad s =
    total walk_bad s.walking + total walk_bad s.browsing + total bad s.images + total bad s.parsing

Step-left_bad : {s t : BuildState} → Step s t → left_bad t ≤ left_bad s
Step-left_bad (start_browser s r rs p h) = rw h (omega arith)
Step-left_bad (start_parsers s p h c) = omega arith
Step-left_bad (push_image s others rest i left closes h room) = rw h (
    omega (
      arith,
      total-append walk_bad others ((left, closes) ∷ rest),
      total-append walk_bad others ((i ∷ left, closes) ∷ rest),
      total-append bad s.images (i ∷ []),
    ))
Step-left_bad (end_browser s others rest h) = rw h (
    omega
      (arith, total-append walk_bad others rest, total-append walk_bad others (([], true) ∷ rest)))
Step-left_bad (close_images s p h) = omega arith
Step-left_bad (take_image s i left n h k) = rw h (omega arith)
Step-left_bad (push_task s others rest i task h made room) =
    rw h (omega (arith, total-append bad others rest, total-append bad others (i ∷ rest)))
Step-left_bad (end_parser s n p h k) = omega arith
Step-left_bad (close_tasks s p h k) = omega arith
Step-left_bad (collect_task s task left h) = omega arith
Step-left_bad (close_done s p h d) = omega arith

Reach-left_bad :
    {repositories : List RepoWalk} {closes : Bool} {s : BuildState}
    → Reach repositories closes s
    → left_bad s ≤ total walk_bad repositories
unfolding build
Reach-left_bad begun = omega arith
Reach-left_bad (later r step) = omega (arith, Step-left_bad step, Reach-left_bad r)

abbrev pub IsParsed : RepoImage → Type 0
IsParsed i = (task : IndexImage) × (parse_image i ≡ ok task)

parsed_one : (r : Result IndexImage) → failures r ≡ 0 → (task : IndexImage) × (r ≡ ok task)
parsed_one (ok task) h = (task, refl)
parsed_one (err e) h = absurd (omega (arith, h))
parsed_one panic h = absurd (omega (arith, h))

All-IsParsed : (images : List RepoImage) → total bad images ≡ 0 → All IsParsed images
All-IsParsed [] h = tt
All-IsParsed (i ∷ images) h =
    (parsed_one (parse_image i) (omega (arith, h)), All-IsParsed images (omega (arith, h)))

none_bad : (images : List RepoImage) → All IsParsed images → total bad images ≡ 0
none_bad [] all = refl
none_bad (i ∷ images) ((task, made), all) = omega (arith, ap failures made, none_bad images all)

-- A walk whose images can be parsed and that closes its channel.
abbrev pub CanEnd : RepoWalk → Type 0
CanEnd r = All IsParsed r.0 × Closes r

All-Closes : (repositories : List RepoWalk) → All CanEnd repositories → All Closes repositories
All-Closes [] all = tt
All-Closes (r ∷ repositories) (one, all) = (one.1, All-Closes repositories all)

split_walks :
    (others rest : List RepoWalk) (r : RepoWalk)
    → All Closes (others ++ r ∷ rest)
    → All Closes others × Closes r × All Closes rest
split_walks [] rest r (c, all) = (tt, c, all)
split_walks (o ∷ others) rest r (c, all) =
    let (front, one, back) = split_walks others rest r all in ((c, front), one, back)

join_walks :
    (others rest : List RepoWalk)
    → All Closes others
    → All Closes rest
    → All Closes (others ++ rest)
join_walks [] rest front back = back
join_walks (o ∷ others) rest (c, front) back = (c, join_walks others rest front back)

Step-AllClose : {s t : BuildState} → Step s t → AllClose s → AllClose t
Step-AllClose (start_browser s r rs p h) (w, b, e) =
    let (one, rest) = subst (All Closes) h w in (rest, (one, b), e)
Step-AllClose (start_parsers s p h c) all = all
Step-AllClose (push_image s others rest i left closes h room) (w, b, e) =
    let (front, one, back) = split_walks others rest (i ∷ left, closes) (subst (All Closes) h b) in
    (w, join_walks others ((left, closes) ∷ rest) front (one, back), e)
Step-AllClose (end_browser s others rest h) (w, b, e) =
    let (front, one, back) = split_walks others rest ([], true) (subst (All Closes) h b) in
    (w, join_walks others rest front back, e)
Step-AllClose (close_images s p h) all = all
Step-AllClose (take_image s i left n h k) all = all
Step-AllClose (push_task s others rest i task h made room) all = all
Step-AllClose (end_parser s n p h k) all = all
Step-AllClose (close_tasks s p h k) all = all
Step-AllClose (collect_task s task left h) all = all
Step-AllClose (close_done s p h d) all = all

Reach-AllClose :
    {repositories : List RepoWalk} {s : BuildState}
    → All Closes repositories
    → Reach repositories true s
    → AllClose s
unfolding build
Reach-AllClose all begun = (all, tt, refl)
Reach-AllClose all (later r step) = Step-AllClose step (Reach-AllClose all r)

no_bad : (repositories : List RepoWalk) → All CanEnd repositories → total walk_bad repositories ≡ 0
no_bad [] all = refl
no_bad ((images, closes) ∷ repositories) ((one, c), all) =
    omega (arith, none_bad images one, no_bad repositories all)

-- A schedule that goes on from a state.
pub data Run : BuildState → BuildState → Type 0 where
  here : (s : BuildState) → Run s s
  next : {s t u : BuildState} → Step s t → Run t u → Run s u

abbrev pub Completes : BuildState → Type 0
Completes s = (t : BuildState) × Run s t × (t.done ≡ true)

end_in_time :
    (n : ℕ) (repositories : List RepoWalk) (s : BuildState) (d : Bool)
    → All CanEnd repositories
    → Reach repositories true s
    → work s < n
    → s.done ≡ d
    → Completes s
end_in_time zero repositories s d all r h e = absurd (omega (arith, h))
end_in_time (suc n) repositories s true all r h e = (s, here s, e)
end_in_time (suc n) repositories s false all r h e =
    let none_left : total bad s.parsing ≡ 0 =
      omega (arith, Reach-left_bad r, no_bad repositories all) in
    let (t, step) =
      Reach-CanStep r e (Reach-AllClose (All-Closes repositories all) r)
        (All-IsParsed s.parsing none_left) in
    let (u, run, done) =
      end_in_time n repositories t t.done all (later r step) (omega (arith, h, Step-work step))
        refl in
    (u, next step run, done)

-- If every walk of a repository, and the walk through the repositories, closes its channel, and every image
-- that is sent is there and can be parsed, any schedule, wherever it has led, can go on to the end.
pub Reach-Completes :
    {repositories : List RepoWalk} {s : BuildState}
    → All CanEnd repositories
    → Reach repositories true s
    → Completes s
Reach-Completes {repositories} {s} all r =
    end_in_time (suc (work s)) repositories s s.done all r (omega arith) refl
