-- ===== src/Cmd/Delete.antt =====
-- `delete` of cmd/delete.go: an image, or one on each line of the input, is removed locally and, with
-- `--remote`, on its registry.
use dim.Prelude.{
  String, ◌≡◌, refl, ap, ◌∙◌, ◌≢◌, Bool, false, Option, none, some, List, [], ◌∷◌, if◌then◌else◌,
}
use dim.Prelude.Errors.{Error, message, Result, ok, err, panic}
use dim.Prelude.Exec.{Exec, continue}
use dim.Dim.{Docker, remove}
use dim.Registry.Client.{Named}
use dim.Cmd.Names.{Settings}
use dim.Cmd.Remote.{RegistryClient, connect_registry}

abbrev image_missing : Error
image_missing = message "image name missing"

module _ {W C T O : Type 0} (docker : Docker W) (registry : RegistryClient W C T O)
    (parse_name : String → String → Result Named) (settings : Settings) (remote : Bool) where
  abbrev delete_remote : String → Exec W (Unit {0})
  delete_remote image w =
      let (r, w') = connect_registry registry parse_name settings image w in
      continue r (λ p. registry.delete_image p.0 p.1) w'

  -- The error of the local removal is dropped; a panic in it ends the process.
  abbrev removed_locally : String → Result (Unit {0}) → Exec W (Unit {0})
  removed_locally image panic w = (panic, w)
  removed_locally image _ w = if remote then delete_remote image w else (ok tt, w)

  unfoldable pub do_delete : String → Exec W (Unit {0})
  do_delete image w = let (r, w') = remove docker image w in removed_locally image r w'

  -- The lines of the input, up to the first that fails.
  unfoldable pub delete_lines : List String → Exec W (Unit {0})
  delete_lines [] w = (ok tt, w)
  delete_lines (image ∷ images) w =
      let (r, w') = do_delete image w in continue r (λ _. delete_lines images) w'

  -- `lines` are those of the input where it is a pipe.
  unfoldable pub run_delete :
      (lines : Option (List String)) → (args : List String) → Exec W (Unit {0})
  run_delete lines (image ∷ args) w = do_delete image w
  run_delete (some lines) [] w = delete_lines lines w
  run_delete none [] w = (err image_missing, w)

  -- What is left after every image was removed in turn.
  abbrev pub removed_all : List String → W → W
  removed_all [] w = w
  removed_all (image ∷ images) w = removed_all images (docker.remove image w).1

module _ {W C T O : Type 0} (docker : Docker W) (registry : RegistryClient W C T O)
    (parse_name : String → String → Result Named) (settings : Settings)
    (lives : (image : String) (w : W) → (docker.remove image w).0 ≢ panic) where
  removed_locally-ok :
      (image : String) (r : Result (Unit {0})) (w : W)
      → r ≢ panic
      → removed_locally docker registry parse_name settings false image r w ≡ (ok tt, w)
  removed_locally-ok image (ok done) w safe = refl
  removed_locally-ok image (err e) w safe = refl
  removed_locally-ok image panic w safe = absurd (safe refl)

  -- Where no removal panics, the local deletion of the lines of a pipe removes every one of them in turn
  -- and succeeds, whatever the errors of the removals.
  pub delete_lines-removed_all :
      (images : List String) (w : W)
      → run_delete docker registry parse_name settings false (some images) [] w
        ≡ (ok tt, removed_all docker registry parse_name settings false images w)
  unfolding run_delete delete_lines do_delete
  delete_lines-removed_all [] w = refl
  delete_lines-removed_all (image ∷ images) w =
      let (r, w') = docker.remove image w in
      ap
        (λ p. continue p.0 (λ _. delete_lines docker registry parse_name settings false images) p.1)
        (removed_locally-ok image r w' (lives image w))
      ∙ delete_lines-removed_all images w'
