-- ===== src/Index/Mapping.antt =====
-- `ImageMapping` of lib/index/image.go: how bleve indexes the fields of an image.
use dim.Prelude.{
  String, ◌≡◌, refl, sym, ap, ◌∙◌, subst, Bool, true, false, List, [], ◌∷◌, ◌++◌, arith, ◌==◌,
  eq_iff, if◌then◌else◌, All,
}
use dim.Utils.{list_contains}

-- bleve's `FieldMapping`, with what the source sets of it.
pub record FieldMapping : Type 0 where
  pub analyzer : String
  pub store : Bool
  pub index_field : Bool
  pub include_in_all : Bool
  pub date_format : String

-- What the source calls of bleve to make a document mapping `D`, with bleve's names of its analyzers.
pub record Mappings (D : Type 0) : Type 0 where
  pub new_document_mapping : D
  pub new_text_field_mapping : FieldMapping
  pub new_date_time_field_mapping : FieldMapping
  pub new_numeric_field_mapping : FieldMapping
  pub add_field_mappings_at : String → FieldMapping → D → D
  pub with_default_analyzer : String → D → D
  pub keyword_analyzer : String
  pub simple_analyzer : String
  pub standard_analyzer : String
  pub datetime_optional : String

module _ {D : Type 0} (bleve : Mappings D) where
  abbrev tag_mapping : FieldMapping
  tag_mapping = record bleve.new_text_field_mapping {
    analyzer = bleve.keyword_analyzer;
    include_in_all = true;
    store = true;
  }

  abbrev name_mapping : FieldMapping
  name_mapping = record bleve.new_text_field_mapping {
    analyzer = bleve.simple_analyzer;
    include_in_all = true;
    store = true;
  }

  abbrev id_mapping : FieldMapping
  id_mapping = record bleve.new_text_field_mapping {
    analyzer = bleve.keyword_analyzer;
    store = true;
    include_in_all = false;
    index_field = true;
  }

  abbrev author_mapping : FieldMapping
  author_mapping = record bleve.new_text_field_mapping {
    analyzer = bleve.simple_analyzer;
    include_in_all = false;
    store = true;
  }

  abbrev comment_mapping : FieldMapping
  comment_mapping = record bleve.new_text_field_mapping {
    analyzer = bleve.standard_analyzer;
    include_in_all = true;
    store = true;
  }

  abbrev date_mapping : FieldMapping
  date_mapping = record bleve.new_date_time_field_mapping {
    date_format = bleve.datetime_optional;
    store = true;
    include_in_all = false;
  }

  abbrev ports_mapping : FieldMapping
  ports_mapping = record bleve.new_numeric_field_mapping { store = true; include_in_all = false }

  -- The calls of `AddFieldMappingsAt`, in their order.
  abbrev field_mappings : List (String × FieldMapping)
  field_mappings =
      ("Tag", tag_mapping)
      ∷ ("Name", name_mapping)
      ∷ ("FullName", name_mapping)
      ∷ ("ID", id_mapping)
      ∷ ("Author", author_mapping)
      ∷ ("Volumes", author_mapping)
      ∷ ("Labels", author_mapping)
      ∷ ("Labels", id_mapping)
      ∷ ("Label", author_mapping)
      ∷ ("Envs", author_mapping)
      ∷ ("Envs", id_mapping)
      ∷ ("Env", author_mapping)
      ∷ ("Comment", comment_mapping)
      ∷ ("Created", date_mapping)
      ∷ ("ExposedPorts", ports_mapping)
      ∷ ("Size", ports_mapping)
      ∷ []

  abbrev add_all : List (String × FieldMapping) → D → D
  add_all [] d = d
  add_all ((field, m) ∷ ms) d = add_all ms (bleve.add_field_mappings_at field m d)

  unfoldable pub image_mapping : D
  image_mapping =
      bleve.with_default_analyzer bleve.simple_analyzer
        (add_all field_mappings bleve.new_document_mapping)

  -- What `AddFieldMappingsAt` does: it appends to the mappings at a field.
  pub record Appends (mappings_at : String → D → List FieldMapping) : Type 0 where
    pub of_new : (k : String) → mappings_at k bleve.new_document_mapping ≡ []
    pub of_add :
        (k field : String) (m : FieldMapping) (d : D)
        → mappings_at k (bleve.add_field_mappings_at field m d)
          ≡ mappings_at k d ++ (if field == k then m ∷ [] else [])
    pub of_default :
        (k analyzer : String) (d : D)
        → mappings_at k (bleve.with_default_analyzer analyzer d) ≡ mappings_at k d

-- The fields that a search without a field looks into.
abbrev pub searched_fields : List String
searched_fields = "Tag" ∷ "Name" ∷ "FullName" ∷ "Comment" ∷ []

module _ {D : Type 0} (bleve : Mappings D) (mappings_at : String → D → List FieldMapping)
    (appends : Appends bleve mappings_at) (k : String) where
  All-snoc :
      (P : FieldMapping → Type 0) (ms : List FieldMapping) (b : Bool) (m : FieldMapping)
      → All P ms
      → (b ≡ true → P m)
      → All P (ms ++ (if b then m ∷ [] else []))
  All-snoc P [] true m a p = (p refl, tt)
  All-snoc P [] false m a p = tt
  All-snoc P (x ∷ ms) b m (q, a) p = (q, All-snoc P ms b m a p)

  -- What holds of the mappings that are added, and of those that were there, holds of all.
  All-add_all :
      (P : FieldMapping → Type 0) (ms : List (String × FieldMapping)) (d : D)
      → All (λ e. (e.0 == k) ≡ true → P e.1) ms
      → All P (mappings_at k d)
      → All P (mappings_at k (add_all bleve ms d))
  All-add_all P [] d a b = b
  All-add_all P ((field, m) ∷ ms) d (p, a) b =
      All-add_all P ms (bleve.add_field_mappings_at field m d) a (
        subst (All P) (sym (appends.of_add k field m d))
          (All-snoc P (mappings_at k d) (field == k) m b p))

  abbrev IsAsMapped : FieldMapping → Type 0
  IsAsMapped m = (m.store ≡ true) × (m.include_in_all ≡ list_contains searched_fields k)

  abbrev IsRight : String × FieldMapping → Type 0
  IsRight e = ((e.1).store ≡ true) × ((e.1).include_in_all ≡ list_contains searched_fields e.0)

  at_field :
      (ms : List (String × FieldMapping))
      → All IsRight ms
      → All (λ e. (e.0 == k) ≡ true → IsAsMapped e.1) ms
  at_field [] a = tt
  at_field ((field, m) ∷ ms) ((stored, included), a) = (
    (λ same. (stored, included ∙ ap (list_contains searched_fields) ((eq_iff field k).0 same))),
    at_field ms a,
  )

  field_mappings-IsRight : All IsRight (field_mappings bleve)
  unfolding list_contains
  field_mappings-IsRight = ground arith

  -- Every mapping of a field stores it, so that a search can return it, and a search without a field looks
  -- into it exactly if it is the tag, the name, the full name or the comment.
  pub image_mapping-IsAsMapped : All IsAsMapped (mappings_at k (image_mapping bleve))
  unfolding image_mapping list_contains
  image_mapping-IsAsMapped =
      subst (All IsAsMapped)
        (sym (
          appends.of_default k bleve.simple_analyzer
            (add_all bleve (field_mappings bleve) bleve.new_document_mapping)))
        (All-add_all IsAsMapped (field_mappings bleve) bleve.new_document_mapping
          (at_field (field_mappings bleve) field_mappings-IsRight)
          (subst (All IsAsMapped) (sym (appends.of_new k)) tt))
