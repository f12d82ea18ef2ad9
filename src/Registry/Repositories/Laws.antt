-- ===== src/Registry/Repositories/Laws.antt =====
-- The walk through the repositories of a registry that pages through a list of names, and of one that
-- answers nothing (lib/registry/registry.go).
use dim.Prelude.{
  ℕ, zero, suc, ◌+◌, ◌≤◌, ◌<◌, String, ◌≡◌, refl, sym, ap, ◌∙◌, subst, ◌≢◌, ◌⊎◌, inl, inr, Bool,
  true, false, List, [], ◌∷◌, ◌++◌, arith, ◌==◌, eq_iff, if◌then◌else◌, length, length-append,
  replicate, All,
}
use dim.Prelude.Errors.{Error, Result, ◌>>=◌}
use dim.Registry.Repositories.{
  Answer, page, failed, Walked, found, repositories_of, last_of, after_page, asks, answered, walk,
  walk_repositories,
}

-- The names of a catalog behind a name, and all of them behind the empty name.
abbrev pub after : String → List String → List String
after last [] = []
after last (name ∷ names) = if name == last then names else after last names

abbrev pub behind : String → List String → List String
behind last catalog = if last == "" then catalog else after last catalog

abbrev pub Distinct : List String → Type 0
Distinct [] = Unit
Distinct (name ∷ names) = All (λ m. m ≢ name) names × Distinct names

last_of_other :
    (n m : String) (b rest : List String) → All (λ k. k ≢ n) (m ∷ b ++ rest) → last_of m b ≢ n
last_of_other n m [] rest (h, hs) = h
last_of_other n m (k ∷ b) rest (h, hs) = last_of_other n k b rest hs

after-last_of :
    (n : String) (b rest : List String)
    → Distinct (n ∷ b ++ rest)
    → after (last_of n b) (n ∷ b ++ rest) ≡ rest
after-last_of n [] rest d = ground (arith, eq_iff n n)
after-last_of n (m ∷ b) rest (h, d) =
    let other = last_of_other n m b rest h in
    ground (arith, eq_iff n (last_of m b), after-last_of m b rest d)

behind-last_of :
    (before rest : List String)
    → Distinct (before ++ rest)
    → All (λ n. n ≢ "") (before ++ rest)
    → behind (last_of "" before) (before ++ rest) ≡ rest
behind-last_of [] rest d h = refl
behind-last_of (n ∷ b) rest d h =
    let some_ = last_of_other "" n b rest h in
    ground (arith, eq_iff (last_of n b) "", after-last_of n b rest d)

last_of_append :
    (last : String) (before names : List String)
    → last_of last (before ++ names) ≡ last_of (last_of last before) names
last_of_append last [] names = refl
last_of_append last (n ∷ before) names = last_of_append n before names

-- An answer gives the next names: all that are left together with `io.EOF`, or at least one without.
abbrev pub IsPage : (rest names : List String) → Bool → Type 0
IsPage rest names is_last =
    (left : List String) × (rest ≡ names ++ left)
    × (((is_last ≡ true) × (left ≡ [])) ⊎ ((is_last ≡ false) × (1 ≤ length names)))

-- A registry that answers a request with the names of its catalog behind the name asked after, page by
-- page, or with an error, which is at most `patience` times the case.
pub record Serves {W : Type 0} (repositories : (last : String) → W → Answer × W)
    (catalog : List String) (patience : W → ℕ) : Type 0 where
  pub pages :
      (last : String) (w w' : W) (names : List String) (is_last : Bool)
      → repositories last w ≡ (page names is_last, w')
      → IsPage (behind last catalog) names is_last × (patience w' ≤ patience w)
  pub errors :
      (last : String) (w w' : W) (e : Error)
      → repositories last w ≡ (failed e, w')
      → patience w' < patience w

append_assoc {ℓ} : {A : Type ℓ} (xs ys zs : List A) → (xs ++ ys) ++ zs ≡ xs ++ (ys ++ zs)
append_assoc [] ys zs = refl
append_assoc (x ∷ xs) ys zs = ap (λ l. x ∷ l) (append_assoc xs ys zs)

append_nil : (xs : List String) → xs ++ [] ≡ xs
append_nil [] = refl
append_nil (x ∷ xs) = ap (λ l. x ∷ l) (append_nil xs)

module _ {N R : Type 0} (parse_named : String → Result N) (new_repository : N → Result R) where
  repositories_of_append :
      (xs ys : List String)
      → repositories_of parse_named new_repository (xs ++ ys)
        ≡ repositories_of parse_named new_repository xs
          ++ repositories_of parse_named new_repository ys
  unfolding repositories_of
  repositories_of_append [] ys = refl
  repositories_of_append (x ∷ xs) ys =
      let one = found parse_named new_repository (parse_named x >>= new_repository) in
      ap (λ rs. one ++ rs) (repositories_of_append xs ys)
      ∙ sym (append_assoc one (repositories_of parse_named new_repository xs) _)

  -- What is sent are these repositories, and the channel is closed.
  abbrev Delivers : List R → Walked R → Type 0
  Delivers sent v = (v.sent ≡ sent) × (v.is_closed ≡ true)

  module _ {W : Type 0} (repositories : (last : String) → W → Answer × W) (catalog : List String)
      (patience : W → ℕ) (distinct : Distinct catalog) (named : All (λ n. n ≢ "") catalog)
      (serves : Serves repositories catalog patience) where
    abbrev Served : ℕ → Type 0
    Served fuel =
        (before rest : List String) (w : W)
        → catalog ≡ before ++ rest
        → patience w + length rest < fuel
        → Delivers (repositories_of parse_named new_repository rest)
            (walk parse_named new_repository repositories fuel (last_of "" before) w)

    behind_here :
        (before rest : List String)
        → catalog ≡ before ++ rest
        → behind (last_of "" before) catalog ≡ rest
    behind_here before rest e =
        ap (behind (last_of "" before)) e
        ∙ behind-last_of before rest (subst Distinct e distinct) (subst (All (λ n. n ≢ "")) e named)

    turn_failed :
        (fuel : ℕ) (before rest : List String) (w w' : W) (e : Error)
        → Served fuel
        → catalog ≡ before ++ rest
        → patience w + length rest < suc fuel
        → repositories (last_of "" before) w ≡ (failed e, w')
        → Delivers
            (repositories_of parse_named new_repository rest)
            (walk parse_named new_repository repositories fuel (last_of "" before) w')
    turn_failed fuel before rest w w' e again here_ enough asked =
        again before rest w' here_ (omega (arith, enough, serves.errors _ w w' e asked))

    turn_page :
        (fuel : ℕ) (before rest names left : List String) (w w' : W) (is_last : Bool)
        → Served fuel
        → catalog ≡ before ++ rest
        → patience w + length rest < suc fuel
        → patience w' ≤ patience w
        → rest ≡ names ++ left
        → ((is_last ≡ true) × (left ≡ [])) ⊎ ((is_last ≡ false) × (1 ≤ length names))
        → Delivers (repositories_of parse_named new_repository rest) (
            after_page parse_named new_repository
              (repositories_of parse_named new_repository names)
              is_last
              (walk parse_named new_repository repositories fuel
                (last_of (last_of "" before) names)
                w'))
    turn_page fuel before rest names left w w' is_last again here_ enough calm split
          (inl (end, none_left)) =
        let whole : rest ≡ names = split ∙ ap (λ l. names ++ l) none_left ∙ append_nil names in
        rw (end, whole) (refl, refl)
    turn_page fuel before rest names left w w' is_last again here_ enough calm split
          (inr (more, some_)) =
        let next_ : catalog ≡ (before ++ names) ++ left =
          here_ ∙ ap (λ l. before ++ l) split ∙ sym (append_assoc before names left) in
        let (sent, closed) =
          again (before ++ names) left w' next_
            (omega (arith, enough, calm, ap length split, length-append names left, some_)) in
        rw (more, split, sym (last_of_append "" before names))
          (
            ap (λ rs. repositories_of parse_named new_repository names ++ rs) sent
                ∙ sym (repositories_of_append names left),
            closed,
          )

    turn :
        (fuel : ℕ) (before rest : List String) (w : W) (a : Answer × W)
        → Served fuel
        → catalog ≡ before ++ rest
        → patience w + length rest < suc fuel
        → repositories (last_of "" before) w ≡ a
        → Delivers (repositories_of parse_named new_repository rest) (
            answered parse_named new_repository repositories
              (walk parse_named new_repository repositories fuel)
              (last_of "" before)
              a)
    turn fuel before rest w (failed e, w') again here_ enough asked =
        turn_failed fuel before rest w w' e again here_ enough asked
    turn fuel before rest w (page names is_last, w') again here_ enough asked =
        let ((left, split, cases), calm) = serves.pages _ w w' names is_last asked in
        turn_page fuel before rest names left w w' is_last again here_ enough calm
          (sym (behind_here before rest here_) ∙ split) cases

    walk_catalog : (fuel : ℕ) → Served fuel
    unfolding walk
    walk_catalog zero before rest w here_ enough = absurd (omega (arith, enough))
    walk_catalog (suc fuel) before rest w here_ enough =
        turn fuel before rest w (repositories (last_of "" before) w) (walk_catalog fuel) here_
          enough refl

    -- A registry that pages through a catalog of distinct names, none empty, each time with the names behind
    -- the one asked after or with an error, and with no more errors than `patience` says: the walk
    -- sends every repository of the catalog once and in order, those passed over that cannot be parsed or
    -- had, and closes the channel, within as many requests as there can be errors and names, and one.
    pub walk_repositories-served :
        (fuel : ℕ) (w : W)
        → patience w + length catalog < fuel
        → ((walk_repositories parse_named new_repository repositories fuel w).sent
            ≡ repositories_of parse_named new_repository catalog)
          × ((walk_repositories parse_named new_repository repositories fuel w).is_closed ≡ true)
    unfolding walk_repositories
    walk_repositories-served fuel w enough = walk_catalog fuel [] catalog w refl enough

  module _ {W : Type 0} (repositories : (last : String) → W → Answer × W)
      (down : (last : String) (w : W)
        → (e : Error) × (w' : W) × (repositories last w ≡ (failed e, w'))) where
    walk_failing :
        (fuel : ℕ) (last : String) (w : W)
        → walk parse_named new_repository repositories fuel last w
          ≡ record { asked = replicate fuel last; sent = []; is_closed = false }
    unfolding walk
    walk_failing zero last w = refl
    walk_failing (suc fuel) last w =
        let (e, w', asked) = down last w in
        rw asked (ap (asks parse_named new_repository last) (walk_failing fuel last w'))

    -- A registry that answers every request with an error is asked for its first page again and again:
    -- however many requests there were, nothing is sent and the channel is still open.
    pub walk_repositories-failing :
        (fuel : ℕ) (w : W)
        → walk_repositories parse_named new_repository repositories fuel w
          ≡ record { asked = replicate fuel ""; sent = []; is_closed = false }
    unfolding walk_repositories
    walk_repositories-failing fuel w = walk_failing fuel "" w
