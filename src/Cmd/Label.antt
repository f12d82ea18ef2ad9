-- ===== src/Cmd/Label.antt =====
-- `label` of cmd/label.go: an image is pulled, labelled, and pushed; the original may be removed.
use dim.Prelude.{
  String, ◌≡◌, refl, sym, ap, ◌∙◌, Bool, true, false, not, ◌&&◌, List, [], ◌∷◌, arith, ◌==◌, eq_iff,
  if◌then◌else◌,
}
use dim.Prelude.Errors.{Error, message, Result, ok, err, panic}
use mathlib.Core.Path.{fun_ext}
use dim.Prelude.Exec.{Exec, continue}
use dim.Utils.{list_contains}
use dim.Dim.{pull, push, remove, Docker, get_image_info, get_image_labels, add_label, remove_label}
use dim.Cmd.Names.{guess_tag}

pub record LabelFlags : Type 0 where
  pub pull_flag : Bool
  pub image_flag : String
  pub override_flag : Bool
  pub delete_flag : Bool
  pub remote_flag : Bool

abbrev missing_argument : Error
missing_argument = message "Missing argument. See help"

module _ {W : Type 0} (docker : Docker W) (flags : LabelFlags) where
  abbrev guarded : Bool → Exec W (Unit {0}) → Exec W (Unit {0})
  guarded b m w = if b then m w else (ok tt, w)

  abbrev pulled : String → Exec W (Unit {0})
  pulled image = guarded flags.pull_flag (pull docker image)

  abbrev pub relabelled : String → List String → String → Exec W (Unit {0})
  relabelled image labels tag w =
      if flags.delete_flag
      then remove_label docker image labels tag w
      else add_label docker image labels tag w

  -- The original goes where it is one of the tags and has not just been written.
  abbrev removed : String → List String → String → Exec W (Unit {0})
  removed image image_tags tag =
      guarded (flags.override_flag && (list_contains image_tags image && not (image == tag)))
        (remove docker image)

  abbrev pushed : String → Exec W (Unit {0})
  pushed tag = guarded flags.remote_flag (push docker tag)

  -- What follows the choice of the tag.
  unfoldable pub apply_labels : String → List String → List String → String → Exec W (Unit {0})
  apply_labels image labels image_tags tag w =
      let (r1, w1) = relabelled image labels tag w in
      let (r2, w2) = continue r1 (λ _. removed image image_tags tag) w1 in
      continue r2 (λ _. pushed tag) w2

  abbrev with_info : String → List String → Result (String × List String) → Exec W (Unit {0})
  with_info image labels info w =
      continue info
        (λ i.
          continue (guess_tag flags.image_flag image i.1 flags.override_flag)
            (apply_labels image labels i.1))
        w

  unfoldable pub run_label : List String → Exec W (Unit {0})
  run_label (image ∷ l ∷ labels) w =
      let (r, w') = pulled image w in
      continue r (λ _ u. with_info image (l ∷ labels) (get_image_info docker image u) u) w'
  run_label _ w = (err missing_argument, w)

module _ {W : Type 0} (docker : Docker W) (other : String → Exec W (Unit {0}))
    (flags : LabelFlags) where
  abbrev changed : Docker W
  changed = record docker { remove = other }

  -- Without a tag of its own, the tag that is chosen for an image among its tags is the image.
  no_original :
      (image : String) (image_tags : List String) (tag : String) (override here : Bool)
      → list_contains image_tags image ≡ here
      → guess_tag "" image image_tags override ≡ ok tag
      → (override && (here && not (image == tag))) ≡ false
  unfolding guess_tag
  no_original image image_tags tag false here c g = refl
  no_original image image_tags tag true false c g = refl
  no_original image image_tags tag true true c g = ground (arith, c, g, eq_iff image tag)

  relabelled-same :
      (image : String) (labels : List String) (tag : String) (w : W)
      → relabelled docker flags image labels tag w ≡ relabelled changed flags image labels tag w
  unfolding add_label remove_label get_image_labels
  relabelled-same image [] tag w = refl
  relabelled-same image (l ∷ labels) tag w = refl

  removed-same :
      (image : String) (image_tags : List String) (tag : String)
      → flags.image_flag ≡ ""
      → guess_tag flags.image_flag image image_tags flags.override_flag ≡ ok tag
      → removed docker flags image image_tags tag ≡ removed changed flags image image_tags tag
  removed-same image image_tags tag blank g =
      let kept =
        no_original image image_tags tag flags.override_flag (list_contains image_tags image) refl
          (ap (λ t. guess_tag t image image_tags flags.override_flag) (sym blank) ∙ g) in
      fun_ext λ w. rw kept

  abbrev finish : String → Exec W (Unit {0}) → Result (Unit {0}) × W → Result (Unit {0}) × W
  finish tag f (r, w) =
      let (r', w') = continue r (λ _. f) w in continue r' (λ _. pushed docker flags tag) w'

  apply_labels-same :
      (image : String) (labels image_tags : List String) (tag : String) (w : W)
      → flags.image_flag ≡ ""
      → guess_tag flags.image_flag image image_tags flags.override_flag ≡ ok tag
      → apply_labels docker flags image labels image_tags tag w
        ≡ apply_labels changed flags image labels image_tags tag w
  unfolding apply_labels
  apply_labels-same image labels image_tags tag w blank g =
      ap (finish tag (removed docker flags image image_tags tag))
        (relabelled-same image labels tag w)
      ∙ ap (λ f. finish tag f (relabelled changed flags image labels tag w))
          (removed-same image image_tags tag blank g)

  guessed_same :
      (image : String) (labels image_tags : List String) (r : Result String) (w : W)
      → flags.image_flag ≡ ""
      → guess_tag flags.image_flag image image_tags flags.override_flag ≡ r
      → continue r (apply_labels docker flags image labels image_tags) w
        ≡ continue r (apply_labels changed flags image labels image_tags) w
  guessed_same image labels image_tags (ok tag) w blank g =
      apply_labels-same image labels image_tags tag w blank g
  guessed_same image labels image_tags (err e) w blank g = refl
  guessed_same image labels image_tags panic w blank g = refl

  info_same :
      (image : String) (labels : List String) (info : Result (String × List String)) (w : W)
      → flags.image_flag ≡ ""
      → with_info docker flags image labels info w ≡ with_info changed flags image labels info w
  info_same image labels (ok (id, tags)) w blank =
      guessed_same image labels tags (guess_tag flags.image_flag image tags flags.override_flag) w
        blank refl
  info_same image labels (err e) w blank = refl
  info_same image labels panic w blank = refl

  -- A command without the `--tag` option never removes an image: it does the same with any other removal
  -- in the place of docker's.
  pub run_label-keeps :
      (args : List String) (w : W)
      → flags.image_flag ≡ ""
      → run_label docker flags args w ≡ run_label changed flags args w
  unfolding run_label get_image_info
  run_label-keeps [] w blank = refl
  run_label-keeps (image ∷ []) w blank = refl
  run_label-keeps (image ∷ l ∷ labels) w blank =
      let (r, w') = pulled docker flags image w in
      ap (λ f. continue r f w')
        (fun_ext
          λ _. fun_ext λ u. info_same image (l ∷ labels) (get_image_info docker image u) u blank)
