-- ===== src/Index/Store.antt =====
-- The operations of lib/index/index.go on the index: SearchImages, FindImage, DeleteImage, IndexImage,
-- GetImage. The index of bleve and the client of the registry are interfaces.
pub mod Laws
use dim.Prelude.{String, Option, none, some, List, [], ◌∷◌, ◌++◌, map, ltb, nat_eq, if◌then◌else◌}
use dim.Prelude.Dict.{lookup}
use dim.Prelude.Errors.{Error, error_text, message, Result, ok, err, panic, ◌>>=◌}
use Prim.Native.String
use dim.Prelude.Int.{ℤ}
use dim.Types.{IndexImage, IndexResults, RegistryImage, Time}
use dim.Utils.{list_contains}
use dim.Index.Image.{parse}
use dim.Index.Query.{build_query}
use dim.Index.Documents.{as_text, document_to_image}
use dim.Index.Bleve.{
  term, doc_id, SearchRequest, new_search_request, Scalar, text, number, one, many, DocumentMatch,
  BleveResult, Bleve,
}

abbrev add_field : List String → String → List String
add_field fields f = if list_contains fields f then fields else fields ++ f ∷ []

-- The fields of the second request: those asked for, and always the names.
unfoldable pub detail_fields : List String → List String
detail_fields fields = add_field (add_field (add_field fields "Name") "Tag") "FullName"

-- `percent_s` is what "%s" prints for a number, `hex` what "%x" prints for a text.
module _ {I : Type 0} (bleve : Bleve I) (parse_time : String → Option Time) (percent_s : ℤ → String)
    (hex : String → String) where
  abbrev scalar_name : Scalar → String
  scalar_name (text s) = s
  scalar_name (number n) = percent_s n

  -- "Label.x" for each label x that is stored in the field "Labels", if that field is asked for.
  abbrev sub_fields : String → String → List String → DocumentMatch → List String
  sub_fields field prefix_ fields doc =
      if list_contains fields field
      then elim (lookup field doc.fields) [
        | none ↦ []
        | some (one (text f)) ↦ String.◌++◌ prefix_ f ∷ []
        | some (one (number n)) ↦ []
        | some (many fs) ↦ map (λ f. String.◌++◌ prefix_ (scalar_name f)) fs
      ]
      else []

  abbrev pub details_request : DocumentMatch → List String → SearchRequest
  details_request doc fields = record (new_search_request (doc_id (doc.id ∷ []))) {
    fields =
        fields ++ sub_fields "Labels" "Label." fields doc ++ sub_fields "Envs" "Env." fields doc;
  }

  abbrev first_hit : List DocumentMatch → Result DocumentMatch
  first_hit [] = panic
  first_hit (h ∷ hits) = ok h

  unfoldable pub search_details : DocumentMatch → List String → I → Result DocumentMatch
  search_details doc fields i = elim (bleve.search (details_request doc fields) i) [
    | ok sr ↦ first_hit sr.hits
    | err e ↦ err (message (String.◌++◌ "Failed to fetch all image info : " (error_text e)))
    | panic ↦ panic
  ]

  abbrev detailed : DocumentMatch → List String → I → Result DocumentMatch
  detailed doc fields i = elim (search_details doc fields i) [
    | ok h ↦ ok h
    | err e ↦ err (
        message
          (String.◌++◌ "Error occured while searching details of an image : " (hex (error_text e))))
    | panic ↦ panic
  ]

  unfoldable pub all_details : List DocumentMatch → List String → I → Result (List DocumentMatch)
  all_details [] fields i = ok []
  all_details (h ∷ hits) fields i =
      detailed h fields i >>= λ d. all_details hits fields i >>= λ rest. ok (d ∷ rest)

  unfoldable pub build_images : List DocumentMatch → Result (List IndexImage)
  build_images [] = ok []
  build_images (h ∷ hits) =
      document_to_image parse_time h >>= λ img. build_images hits >>= λ rest. ok (img ∷ rest)

  abbrev pub search_request : String → String → ℤ → ℤ → SearchRequest
  search_request q a offset max_results = record {
    query = build_query q a;
    size = max_results;
    from = offset;
    fields = "Name" ∷ "Tag" ∷ "FullName" ∷ "Labels" ∷ "Envs" ∷ [];
  }

  -- The second loop runs only if fields are asked for.
  abbrev pub with_details : List String → I → List DocumentMatch → Result (List DocumentMatch)
  with_details [] i hits = ok hits
  with_details (f ∷ fields) i hits = all_details hits (detail_fields (f ∷ fields)) i

  unfoldable pub search_images :
      String → String → List String → (offset max_results : ℤ) → I → Result IndexResults
  search_images q a fields offset max_results i =
      elim (bleve.search (search_request q a offset max_results) i) [
        | ok sr ↦ with_details fields i sr.hits >>= λ hits.
            build_images hits >>= λ images. ok (record { total = sr.total; images = images })
        | err e ↦
            err (message (String.◌++◌ "Error occured when processing search : " (error_text e)))
        | panic ↦ panic
      ]

  abbrev pub id_request : String → List String → SearchRequest
  id_request id fields = record (new_search_request (term "ID" id)) { fields = fields }

  abbrev all_fields : List String
  all_fields =
      "ID" ∷ "Name" ∷ "FullName" ∷ "Tag" ∷ "Comment" ∷ "Created" ∷ "Author" ∷ "Label" ∷ "Labels"
      ∷ "Volumes" ∷ "ExposedPorts" ∷ "Env" ∷ "Envs" ∷ "Size" ∷ []

  abbrev only_hit : BleveResult → Result IndexImage
  only_hit sr =
      if nat_eq sr.total 0
      then err (message "No image found for given id : <nil>")
      else if ltb 1 sr.total
      then err (message "Found many images for given id")
      else first_hit sr.hits >>= document_to_image parse_time

  unfoldable pub find_image : String → I → Result IndexImage
  find_image id i = elim (bleve.search (id_request id all_fields) i) [
    | ok sr ↦ only_hit sr
    | err e ↦ err (message (String.◌++◌ "No image found for given id : " (error_text e)))
    | panic ↦ panic
  ]

  unfoldable pub delete_hits : List DocumentMatch → I → Result I
  delete_hits [] i = ok i
  delete_hits (h ∷ hits) i =
      as_text (lookup "FullName" h.fields) >>= λ name. delete_hits hits (bleve.delete name i)

  -- On an error of the search the log entry reads `sr.Total` of a nil result.
  unfoldable pub delete_image : String → I → Result I
  delete_image id i = elim (bleve.search (id_request id ("FullName" ∷ [])) i) [
    | ok sr ↦ if nat_eq sr.total 0 then ok i else delete_hits sr.hits i
    | err e ↦ panic
    | panic ↦ panic
  ]

unfoldable pub index_image : {I : Type 0} → Bleve I → IndexImage → I → I
index_image bleve image i = bleve.index image.full_name image i

-- What `GetImage` uses of the registry client. A name that cannot be parsed is not looked at: it is
-- handed to `NewRepository`.
pub record RegistryClient (R : Type 0) : Type 0 where
  pub new_repository : String → Result R
  pub image_from_manifest : R → (digest tag : String) → Result RegistryImage

unfoldable pub get_image :
    {R : Type 0} → RegistryClient R → (repository tag digest : String) → Result IndexImage
get_image client repository tag digest = do
  repo ← client.new_repository repository
  img ← client.image_from_manifest repo digest tag
  parse repository img
