-- ===== src/Dim/Images.antt =====
-- What `AsIndexImage` reads from the tags and the environment of an image.
use Prim.Native.Char.{Char}
use dim.Prelude.{String, ◌≡◌, ap, ◌∙◌, false, Option, List, [], ◌∷◌}
use dim.Prelude.Errors.{ok}
use dim.Prelude.Text.{split, contains}
use Prim.Native.String
use dim.Prelude.Text.Laws.{split-append_separator, split-contains}
use dim.Types.{Time}
use dim.Dim.{ImageInspect, Docker, as_index_image, from_tags, image_of}

abbrev colon : Char
colon = ":"

split_tagged :
    (name tag : String)
    → contains name b':' ≡ false
    → contains tag b':' ≡ false
    → split (String.◌++◌ name (String.◌++◌ ":" tag)) b':' ≡ name ∷ tag ∷ []
split_tagged name tag h k =
    split-append_separator colon name tag h ∙ ap (λ r. name ∷ r) (split-contains tag b':' k)

split_port :
    (host port tag : String)
    → contains host b':' ≡ false
    → contains port b':' ≡ false
    → split (String.◌++◌ host (String.◌++◌ ":" (String.◌++◌ port (String.◌++◌ ":" tag)))) b':'
      ≡ host ∷ port ∷ split tag b':'
split_port host port tag h k =
    split-append_separator colon host (String.◌++◌ port (String.◌++◌ ":" tag)) h
    ∙ ap (λ r. host ∷ r) (split-append_separator colon port tag k)

module _ {W : Type 0} (docker : Docker W) (parse_time : String → Option Time) (w : W) where
  inspected :
      (image : String) (i : ImageInspect)
      → docker.inspect image w ≡ ok i
      → as_index_image docker parse_time image w ≡ from_tags docker parse_time i i.repo_tags
  unfolding as_index_image
  inspected image i got = rw (got, as_index_image)

  -- An image whose first tag is "name:tag", with no other colon, is indexed under that name and tag.
  pub as_index_image-tagged :
      (image name tag : String) (others : List String) (i : ImageInspect)
      → docker.inspect image w ≡ ok i
      → i.repo_tags ≡ String.◌++◌ name (String.◌++◌ ":" tag) ∷ others
      → contains name b':' ≡ false
      → contains tag b':' ≡ false
      → as_index_image docker parse_time image w
        ≡ ok (image_of docker parse_time i (String.◌++◌ name (String.◌++◌ ":" tag)) name tag)
  as_index_image-tagged image name tag others i got tags plain plain' =
      inspected image i got
      ∙ ap (from_tags docker parse_time i) tags
      ∙ rw (split_tagged name tag plain plain', from_tags)

  -- Where the first tag names a registry with its port, "host:port/path:tag", the name that is
  -- indexed is the host and the tag is the port with the path.
  pub as_index_image-port :
      (image host port tag : String) (others : List String) (i : ImageInspect)
      → docker.inspect image w ≡ ok i
      → i.repo_tags
        ≡ String.◌++◌ host (String.◌++◌ ":" (String.◌++◌ port (String.◌++◌ ":" tag))) ∷ others
      → contains host b':' ≡ false
      → contains port b':' ≡ false
      → as_index_image docker parse_time image w
        ≡ ok (
            image_of docker parse_time i
              (String.◌++◌ host (String.◌++◌ ":" (String.◌++◌ port (String.◌++◌ ":" tag))))
              host
              port)
  as_index_image-port image host port tag others i got tags plain plain' =
      inspected image i got
      ∙ ap (from_tags docker parse_time i) tags
      ∙ rw (split_port host port tag plain plain', from_tags)
