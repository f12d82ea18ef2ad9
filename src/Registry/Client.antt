-- ===== src/Registry/Client.antt =====
-- The client of lib/registry/registry.go: searching, the version of the server, showing and deleting
-- images. The HTTP client, JSON, and the names and repositories of docker's packages are interfaces;
-- `W` is the state of what is at the other end.
use dim.Prelude.{
  ℕ, String, Bool, ◌&&◌, Option, none, some, List, [], ◌∷◌, ◌==◌, ltb, leb, if◌then◌else◌,
}
use dim.Prelude.Dict.{Dict, insert}
use dim.Prelude.Errors.{Error, error_text, message, Result, ok, err, panic, ◌>>=◌}
use Prim.Native.String
use dim.Prelude.Exec.{Exec}
use dim.Prelude.Int.{ℤ}
use dim.Prelude.Decimal.{itoa}
use dim.Prelude.Text.Trim.{trim_space, trim_slash, behind_slash}
use dim.Types.{SearchResults, Info, RegistryImage, ImageConfig}

-- `http.Response`, its body read.
pub record HttpResponse : Type 0 where
  pub status_code : ℕ
  pub status : String
  pub body : String

-- `http.Client` over the client's transport; `url.Values` is a map to lists.
pub record HttpClient (W : Type 0) : Type 0 where
  pub post_form : String → Dict (List String) → Exec W HttpResponse
  pub get : String → Exec W HttpResponse

-- `fmt.Errorf` around an error.
abbrev pub wrapped : String → Error → Error
wrapped text e = message (String.◌++◌ text (error_text e))

abbrev pub or_wrapped : {A : Type 0} → String → Result A → Result A
or_wrapped text (ok a) = ok a
or_wrapped text (err e) = err (wrapped text e)
or_wrapped text panic = panic

abbrev pub search_fields : List String
search_fields =
    "Name" ∷ "Tag" ∷ "FullName" ∷ "Labels" ∷ "Envs" ∷ "Volumes" ∷ "ExposedPorts" ∷ "Size"
    ∷ "Created" ∷ []

abbrev set_unless_empty : String → String → Dict (List String) → Dict (List String)
set_unless_empty key value values = if value == "" then values else insert key (value ∷ []) values

-- The values that `Search` posts.
unfoldable pub search_values :
    (query advanced : String) → (offset max_results : ℤ) → Dict (List String)
search_values query advanced offset max_results =
    let queries =
      set_unless_empty "q" (trim_space query) (set_unless_empty "a" (trim_space advanced) []) in
    insert "maxResults" (itoa max_results ∷ [])
      (insert "offset" (itoa offset ∷ []) (insert "f" search_fields queries))

abbrev pub is_success : HttpResponse → Bool
is_success resp = leb 200 resp.status_code && ltb resp.status_code 400

module _ {W : Type 0} (http : HttpClient W) (decode_results : String → Result SearchResults)
    (decode_info : String → Result Info) (registry_url : String) where
  abbrev pub read_results : HttpResponse → Result SearchResults
  read_results resp =
      if is_success resp
      then or_wrapped "Failed to parse response : " (decode_results resp.body)
      else err (message (String.◌++◌ "Server returned an error : " resp.body))

  abbrev pub search_endpoint : String
  search_endpoint = String.◌++◌ (trim_slash registry_url) "/v1/search"

  unfoldable pub search :
      (query advanced : String) → (offset max_results : ℤ) → Exec W SearchResults
  search query advanced offset max_results w =
      let (resp, w') =
        http.post_form search_endpoint (search_values query advanced offset max_results) w in
      (or_wrapped "Failed to send request : " resp >>= read_results, w')

  abbrev pub read_info : HttpResponse → Result Info
  read_info resp =
      if is_success resp
      then or_wrapped "Failed to parse response : " (decode_info resp.body)
      else err (message (String.◌++◌ "Server returned an error : " resp.status))

  abbrev pub version_endpoint : String
  version_endpoint = String.◌++◌ (trim_slash registry_url) "/dim/version"

  unfoldable pub server_version : Exec W Info
  server_version w =
      let (resp, w') = http.get version_endpoint w in
      (or_wrapped "Failed to send request : " resp >>= read_info, w')

-- What is behind the name of a `reference.Named`: a tag, a digest, or nothing.
pub data Suffix : Type 0 where
  tagged : String → Suffix
  digested : String → Suffix
  bare : Suffix

pub record Named : Type 0 where
  pub name : String
  pub hostname : String
  pub suffix : Suffix

-- A digest is no `NamedTagged`.
unfoldable pub parse_tag : Named → String
parse_tag n = elim n.suffix [ tagged tag ↦ tag | digested d ↦ "latest" | bare ↦ "latest" ]

-- The repositories of a registry, as the client of docker's distribution makes them. A name that did
-- not parse is nil, and is handed over all the same.
pub record Repositories (W R : Type 0) : Type 0 where
  pub new_repository : Option Named → Result R
  pub image : R → String → W → Result RegistryImage
  pub delete_image : R → String → Exec W (Unit {0})

-- The `ImageInspect` that `PrintImageInfo` hands to the template.
pub record ImageInfo : Type 0 where
  pub repo_tags : List String
  pub id : String
  pub config : Option ImageConfig

-- `parse_named` is `reference.ParseNamed`, `tag_of` is `GetTagFromNamedRef`.
module _ {W R : Type 0} (repositories : Repositories W R) (parse_named : String → Result Named)
    (tag_of : Named → String) where
  abbrev or_nil : Result Named → Result (Option Named)
  or_nil (ok n) = ok (some n)
  or_nil (err e) = ok none
  or_nil panic = panic

  -- The repository of a name without its registry.
  unfoldable pub repository_of : Named → Result R
  repository_of parsed_name =
      or_nil (parse_named (behind_slash parsed_name.name)) >>= repositories.new_repository

  unfoldable pub print_image_info :
      {T : Type 0}
      → (T → ImageInfo → Result String)
      → (image_id : RegistryImage → String) → Named
      → T
      → W
      → Result String
  print_image_info execute image_id parsed_name tpl w = do
    repository ← repository_of parsed_name
    image ← repositories.image repository (parse_tag parsed_name) w
    execute tpl (record { repo_tags = image.tag ∷ []; id = image_id image; config = image.config })

  abbrev latest_if_empty : String → String
  latest_if_empty tag = if tag == "" then "latest" else tag

  unfoldable pub delete_image : Named → Exec W (Unit {0})
  delete_image parsed_name w = elim (repository_of parsed_name) [
    | ok repo ↦ repositories.delete_image repo (latest_if_empty (tag_of parsed_name)) w
    | err e ↦ (err e, w)
    | panic ↦ (panic, w)
  ]
