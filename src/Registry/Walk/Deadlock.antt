-- ===== src/Registry/Walk/Deadlock.antt =====
-- When the walk through a repository's images ends (lib/registry/repository.go).
use dim.Prelude.{ℕ, ◌+◌, String, ◌≡◌, refl, ◌≢◌, ◌⊎◌, Option, none, List, [], ◌∷◌, arith, length}
use dim.Prelude.Errors.{Result, ok}
use dim.Registry.Walk.{Worker, waiting, fetching, checking, sending, leaving, returned, State}
use dim.Registry.Walk.Invariant.{total, is_active, is_working, is_busy, holds_failing}

module _ {Image : Type 0} (image : String → Result Image) where
  abbrev pub CanFetch : String → Type 0
  CanFetch tag = (img : Image) × (image tag ≡ ok img)

  -- Nothing is on its way once every worker has returned.
  pub at_rest :
      (ws : List (Worker Image))
      → total is_active ws ≡ 0
      → (total is_busy ws ≡ 0) × (total (holds_failing image) ws ≡ 0) × (total is_working ws ≡ 0)
  at_rest [] h = (refl, refl, refl)
  at_rest (returned ∷ ws) h =
      let (b, f, w) = at_rest ws (omega arith) in (omega arith, omega arith, omega arith)
  at_rest (waiting ∷ ws) h = absurd (omega arith)
  at_rest (fetching tag ∷ ws) h = absurd (omega arith)
  at_rest (checking img ∷ ws) h = absurd (omega arith)
  at_rest (sending img ∷ ws) h = absurd (omega arith)
  at_rest (leaving ∷ ws) h = absurd (omega arith)

module _ {Image : Type 0} (image : String → Result Image) (partial : String → Option Image) where
  abbrev is_sending : Worker Image → ℕ
  is_sending (sending img) = 1
  is_sending _ = 0

  abbrev is_checking : Worker Image → ℕ
  is_checking (checking img) = 1
  is_checking _ = 0

  -- No value has been sent, and `err` is set while a worker is before its test.
  record Silent (s : State Image) : Type 0 where
    pub sent : length s.received + length s.images + total is_sending s.workers ≡ 0
    pub set : (total is_checking s.workers ≡ 0) ⊎ (s.error ≢ none)
