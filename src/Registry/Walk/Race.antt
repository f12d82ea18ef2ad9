-- ===== src/Registry/Walk/Race.antt =====
-- The `err` that the workers of the walk through a repository's images share (lib/registry/repository.go).
use dim.Prelude.{String, ◌≡◌, refl, Option, some, List, [], ◌∷◌, arith, replicate}
use dim.Prelude.Errors.{Error, Result, ok, err}
use dim.Registry.Walk.{
  Worker, waiting, fetching, checking, State, feed, take_tag, fetched, failed, go_on, send_image,
  receive, Reach, here, next,
}

module _ {Image : Type 0} (image : String → Result Image) (partial : String → Option Image) where
  -- If the image of a first tag cannot be fetched and that of a second can, some schedule of the
  -- walk through the two masks the failure: the second worker assigns `err` between the assignment of the
  -- first one and its test, and the first value that the caller receives is what the failed call returned for the image.
  pub masked :
      (bad good : String) (e : Error) (img : Image)
      → image bad ≡ err e
      → image good ≡ ok img
      → (s : State Image) × Reach image partial (bad ∷ good ∷ []) s
        × (s.received ≡ partial bad ∷ [])
  masked bad good e img fails_ works =
      let others : List (Worker Image) = replicate 8 waiting in
      let r1 = next here (feed bad (good ∷ []) refl (omega arith)) in
      let r2 = next r1 (take_tag [] (waiting ∷ others) bad [] refl refl) in
      let r3 = next r2 (feed good [] refl (omega arith)) in
      let r4 = next r3 (take_tag (fetching bad ∷ []) others good [] refl refl) in
      let r5 = next r4 (failed [] (fetching good ∷ others) bad e refl fails_) in
      let r6 = next r5 (fetched (checking (partial bad) ∷ []) others good img refl works) in
      let r7 = next r6 (go_on [] (checking (some img) ∷ others) (partial bad) refl refl) in
      let r8 =
        next r7 (send_image [] (checking (some img) ∷ others) (partial bad) refl (omega arith)) in
      (_, next r8 (receive (partial bad) [] refl), refl)
