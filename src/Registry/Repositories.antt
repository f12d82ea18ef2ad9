-- ===== src/Registry/Repositories.antt =====
-- `WalkRepositories` of lib/registry/registry.go: the loop that pages through the repositories of a
-- registry, for as many requests as there is fuel. The registry is the client's `Repositories`, a function of
-- the last name that is known and of the registry's state. The channel of repositories is read as the list
-- of what is sent into it.
pub mod Laws
use dim.Prelude.{ℕ, zero, suc, String, Bool, true, false, List, [], ◌∷◌, ◌++◌}
use dim.Prelude.Errors.{Error, Result, ok, ◌>>=◌}

-- What `Repositories` returns: up to 20 names with no error or with `io.EOF`, or another error.
pub data Answer : Type 0 where
  page : List String → (is_last : Bool) → Answer
  failed : Error → Answer

-- `asked` are the names after which a page was asked for.
pub record Walked (R : Type 0) : Type 0 where
  pub asked : List String
  pub sent : List R
  pub is_closed : Bool

abbrev pub last_of : String → List String → String
last_of last [] = last
last_of last (name ∷ names) = last_of name names

-- `parse_named` is `reference.ParseNamed`, `new_repository` the client's `NewRepository`.
module _ {N R : Type 0} (parse_named : String → Result N) (new_repository : N → Result R) where
  -- A name that cannot be parsed, or whose repository cannot be had, is passed over.
  abbrev pub found : Result R → List R
  found (ok repository) = repository ∷ []
  found _ = []

  unfoldable pub repositories_of : List String → List R
  repositories_of [] = []
  repositories_of (name ∷ names) =
      found (parse_named name >>= new_repository) ++ repositories_of names

  abbrev pub after_page : List R → Bool → Walked R → Walked R
  after_page sent true rest = record { asked = []; sent = sent; is_closed = true }
  after_page sent false rest = record rest { sent = sent ++ rest.sent }

  abbrev pub asks : String → Walked R → Walked R
  asks last w = record w { asked = last ∷ w.asked }

  module _ {W : Type 0} (repositories : (last : String) → W → Answer × W) where
    -- One turn of the loop, with the turns that follow it.
    abbrev pub answered : (String → W → Walked R) → String → Answer × W → Walked R
    answered again last (failed e, w) = again last w
    answered again last (page names is_last, w) =
        after_page (repositories_of names) is_last (again (last_of last names) w)

    unfoldable pub walk : (fuel : ℕ) → String → W → Walked R
    walk zero last w = record { asked = []; sent = []; is_closed = false }
    walk (suc fuel) last w = asks last (answered (walk fuel) last (repositories last w))

    unfoldable pub walk_repositories : (fuel : ℕ) → W → Walked R
    walk_repositories fuel = walk fuel ""
