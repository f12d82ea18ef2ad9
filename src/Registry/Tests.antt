-- ===== src/Registry/Tests.antt =====
-- Runs of the walk through a repository (lib/registry/repository.go).
use dim.Registry.Repository.{
  Distribution, Json, RepositoryState, manifest_service, get_tag_digest, delete_image,
  delete_image_lem,
}
use dim.Registry.Repositories.{Answer, page, failed, walk_repositories, walk, repositories_of}
use dim.Registry.Repositories.Laws.{
  IsPage, behind, walk_repositories-served, walk_repositories-failing,
}
use dim.Prelude.{
  Option, none, some, Bool, true, false, ◌≢◌, ◌⊎◌, if◌then◌else◌, ℕ, zero, suc, ◌-◌, ◌≤◌, ◌<◌,
  String, ◌≡◌, refl, ap, subst, inl, inr, List, [], ◌∷◌, ◌++◌, arith, ◌==◌, eq_iff, replicate,
}
use dim.Prelude.Errors.{Error, message, Result, ok, err}
use dim.Registry.Walk.{
  Worker, waiting, returned, State, feed, close_ch, take_tag, fetched, failed, go_on, send_image,
  receive, Reach, here, next,
}
use dim.Registry.Walk.Race.{masked}
use dim.Registry.Walk.Progress.{Progress, Reach-Progress}

-- An image service that knows the tags "a" and "b".
abbrev test_image : String → Result String
test_image tag =
    if tag == "a"
    then ok "image a"
    else if tag == "b"
    then ok "image b"
    else err (message "manifest unknown")

abbrev unread : String → Option String
unread tag = none

abbrev waits : ℕ → List (Worker String)
waits n = replicate n waiting

abbrev gone : ℕ → List (Worker String)
gone n = replicate n returned

-- The state after `n` workers have returned.
abbrev after_walk : ℕ → State String
after_walk n = record {
  pending = [];
  ch = [];
  ch_closed = true;
  workers = gone n ++ waits (10 - n);
  error = none;
  wait_group = 10 - n;
  images = [];
  images_closed = false;
  received = some "image a" ∷ [];
}

walked : Reach test_image unread ("a" ∷ []) (after_walk 0)
walked =
    next
      (next
        (next
          (next
            (next (next (next here (feed "a" [] refl (omega arith))) (close_ch refl refl))
              (take_tag [] (waits 9) "a" [] refl refl))
            (fetched [] (waits 9) "a" "image a" refl refl))
          (go_on [] (waits 9) (some "image a") refl refl))
        (send_image [] (waits 9) (some "image a") refl (omega arith)))
      (receive (some "image a") [] refl)

masked_example :
    (s : State String) × Reach test_image unread ("c" ∷ "a" ∷ []) s × (s.received ≡ none ∷ [])
masked_example = masked test_image unread "c" "a" (message "manifest unknown") "image a" refl refl

-- A registry that answers no request for an image.
abbrev no_image : String → Result String
no_image tag = err (message "connection refused")

abbrev given_up : State String
given_up = record {
  pending = [];
  ch = [];
  ch_closed = false;
  workers = returned ∷ waits 9;
  error = some (message "connection refused");
  wait_group = 10;
  images = [];
  images_closed = false;
  received = [];
}

Reach-Progress_example : Progress test_image unread (after_walk 0)
Reach-Progress_example =
    Reach-Progress test_image unread ("a" ∷ []) (after_walk 0) (("image a", refl), tt) walked

-- A registry with one tag, whose services answer; a removal empties it.
abbrev test_distribution : Distribution Bool (Unit {0}) String
test_distribution = record {
  all_tags = λ w. ok ("a" ∷ []);
  get_tag = λ tag w. if w then ok "sha256:a" else err (message "unknown");
  manifests = λ w. ok tt;
  get_manifest = λ m digest w. ok "manifest";
  payload = λ mf. ok mf;
  get_blob = λ digest w. ok "config";
  delete = λ m digest w. (ok tt, false);
}

abbrev test_json : Json
test_json = record { config_digest = λ m. ok "sha256:c"; image = λ blob img. ok img }

abbrev test_repository : RepositoryState Bool (Unit {0})
test_repository = record { registry = true; mfs = none }

delete_image_lem_example :
    (((delete_image test_distribution test_json "a" test_repository).0 ≢ ok tt)
      × (((delete_image test_distribution test_json "a" test_repository).1).registry ≡ true))
    ⊎ ((digest : String) × (service : Unit {0}) × (get_tag_digest test_distribution test_json "a"
            true
          ≡ ok digest)
        × ((manifest_service test_distribution test_json test_repository).0 ≡ ok service)
        × ◌≡◌ {A = Result (Unit {0}) × Bool}
            (
              (delete_image test_distribution test_json "a" test_repository).0,
              ((delete_image test_distribution test_json "a" test_repository).1).registry,
            )
            (ok tt, false))
delete_image_lem_example = delete_image_lem test_distribution test_json "a" test_repository

abbrev test_named : String → Result String
test_named name = if name == "" then err (message "invalid name") else ok name

abbrev test_repository_of : String → Result String
test_repository_of name = ok name

-- A registry with the repositories "a" and "b", one on a page, which fails once at first.
abbrev test_page : (first second : Bool) → Answer
test_page true second = page ("a" ∷ []) false
test_page false true = page ("b" ∷ []) true
test_page false false = page [] true

abbrev test_registry : String → ℕ → Answer × ℕ
test_registry last zero = (test_page (last == "") ("a" == last), zero)
test_registry last (suc n) = (failed (message "timeout"), n)

abbrev test_catalog : List String
test_catalog = "a" ∷ "b" ∷ []

walk_run :
    walk_repositories test_named test_repository_of test_registry 4 1
    ≡ record { asked = "" ∷ "" ∷ "a" ∷ []; sent = "a" ∷ "b" ∷ []; is_closed = true }
unfolding walk_repositories walk repositories_of
walk_run = refl

abbrev names_of : Answer → List String
names_of (page names is_last) = names
names_of (failed e) = []

abbrev ends_of : Answer → Bool
ends_of (page names is_last) = is_last
ends_of (failed e) = false

abbrev left_of : (first second third : Bool) → List String
left_of first second third =
    if first then "a" ∷ "b" ∷ [] else if second then "b" ∷ [] else if third then [] else []

test_page-IsPage :
    (first second third : Bool)
    → IsPage
        (left_of first second third)
        (names_of (test_page first second))
        (ends_of (test_page first second))
test_page-IsPage true second third = ("b" ∷ [], refl, inr (refl, omega arith))
test_page-IsPage false true third = ([], refl, inl (refl, refl))
test_page-IsPage false false true = ([], refl, inl (refl, refl))
test_page-IsPage false false false = ([], refl, inl (refl, refl))

failed_page : {e : Error} {names : List String} {is_last : Bool} → failed e ≡ page names is_last → ⊥
failed_page h = cc h

page_failed : (first second : Bool) (e : Error) → test_page first second ≡ failed e → ⊥
page_failed true second e h = cc h
page_failed false true e h = cc h
page_failed false false e h = cc h

test_pages :
    (last : String) (w w' : ℕ) (names : List String) (is_last : Bool)
    → test_registry last w ≡ (page names is_last, w')
    → IsPage (behind last test_catalog) names is_last × (w' ≤ w)
test_pages last zero w' names is_last e =
    let left = behind last test_catalog in
    let here_ = test_page-IsPage (last == "") ("a" == last) ("b" == last) in
    (
      subst (IsPage left names) (ap (λ a. ends_of a.0) e) (
          subst (λ ns. IsPage left ns (ends_of (test_page (last == "") ("a" == last))))
            (ap (λ a. names_of a.0) e) here_),
      omega (arith, ap (λ a. a.1) e),
    )
test_pages last (suc n) w' names is_last e = absurd (failed_page (ap (λ a. a.0) e))

test_errors :
    (last : String) (w w' : ℕ) (e : Error) → test_registry last w ≡ (failed e, w') → w' < w
test_errors last zero w' e h = absurd (page_failed (last == "") ("a" == last) e (ap (λ a. a.0) h))
test_errors last (suc n) w' e h = omega (arith, ap (λ a. a.1) h)

differ : (x y : String) → (x == y) ≡ false → x ≢ y
differ x y apart e = cc (apart, (eq_iff x y).1 e)

walk_repositories-served_example :
    ((walk_repositories test_named test_repository_of test_registry 4 1).sent
      ≡ repositories_of test_named test_repository_of test_catalog)
    × ((walk_repositories test_named test_repository_of test_registry 4 1).is_closed ≡ true)
walk_repositories-served_example =
    walk_repositories-served test_named test_repository_of test_registry test_catalog (λ n. n)
      ((differ "b" "a" refl, tt), (tt, tt)) ((λ e. cc), ((λ e. cc), tt))
      (record { pages = test_pages; errors = test_errors }) 4 1 (omega arith)

walk_repositories-failing_example :
    walk_repositories test_named test_repository_of (λ last w. (failed (message "down"), w)) 3 tt
    ≡ record { asked = "" ∷ "" ∷ "" ∷ []; sent = []; is_closed = false }
walk_repositories-failing_example =
    walk_repositories-failing test_named test_repository_of (λ last w. (failed (message "down"), w))
      (λ last w. (message "down", w, refl)) 3 tt
