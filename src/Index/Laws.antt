-- ===== src/Index/Laws.antt =====
-- How the parts of the index fit together: indexed images, queries for them, and images from hits.
use dim.Prelude.{
  String, ◌≡◌, refl, sym, ap, ◌∙◌, subst, inl, inr, false, Option, none, some, [], ◌∷◌, arith, ◌==◌,
  eq_iff, if◌then◌else◌, Bool-cases, length,
}
use dim.Prelude.Dict.{Dict, lookup, DistinctKeys}
use dim.Prelude.Errors.{ok, >>=-eq-ok, ok_injective}
use dim.Prelude.Text.{split, contains}
use Prim.Native.Char.{Char}
use dim.Prelude.Text.Laws.{split-append_separator, split-contains}
use Prim.Native.String
use dim.Types.{IndexImage, RegistryImage, ImageConfig, Time}
use dim.Utils.{filter_values}
use dim.Utils.Laws.{lookup-filter_values}
use dim.Index.Image.{parse, image_with, full_name_of}
use dim.Index.Bleve.{
  fuzzy, match_text, match_all, should, text, number, FieldValue, one, many, DocumentMatch,
}
use dim.Index.Query.{build_query, name_clauses, name_and_tag, advanced_clauses}
use dim.Index.Documents.{
  as_text, created_of, collect, volumes_of, ports_of, size_of, document_to_image,
}

abbrev colon : Char
colon = ":"

split_full :
    (name tag : String)
    → contains name b':' ≡ false
    → contains tag b':' ≡ false
    → split (full_name_of name tag) b':' ≡ name ∷ tag ∷ []
split_full name tag h k =
    split-append_separator colon name tag h ∙ ap (λ r. name ∷ r) (split-contains tag b':' k)

-- A text with one part is not a full name.
not_one_part :
    (name tag t : String)
    → split (full_name_of name tag) b':' ≡ name ∷ tag ∷ []
    → split t b':' ≡ t ∷ []
    → (full_name_of name tag == t) ≡ false
not_one_part name tag t full single = elim (Bool-cases (full_name_of name tag == t)) [
  | inr other ↦ other
  | inl same ↦ absurd (
      let e = ap (λ s. split s b':') ((eq_iff (full_name_of name tag) t).0 same) in
      let two = sym full ∙ e ∙ single in let lengths = ap length two in omega arith)
]

-- A query "name:tag", with no other colon, looks for the name and for the tag, next to the advanced
-- query if there is one; an advanced query "*" matches everything.
pub build_query-tagged :
    (name tag advanced : String)
    → contains name b':' ≡ false
    → contains tag b':' ≡ false
    → build_query (full_name_of name tag) advanced ≡ (
        if advanced == "*"
        then match_all
        else should (fuzzy "Name" name ∷ match_text "Tag" tag ∷ advanced_clauses advanced))
unfolding build_query
build_query-tagged name tag advanced h k =
    let full = split_full name tag h k in
    let star = not_one_part name tag "*" full (unfold split in refl) in
    let empty = not_one_part name tag "" full (unfold split in refl) in
    rw (star, name_clauses, name_and_tag, full, empty)

-- What an indexed image keeps of an image of the registry.
abbrev pub Indexes : String → RegistryImage → ImageConfig → IndexImage → Type 0
Indexes name img config p =
    (p.id ≡ img.digest)
    × (p.name ≡ name)
    × (p.tag ≡ img.tag)
    × (p.full_name ≡ String.◌++◌ name (String.◌++◌ ":" img.tag))
    × ((m : Dict String) × (p.label ≡ some m)
        × ((k : String)
            → lookup k m ≡ elim (lookup k config.labels) [
              | none ↦ none
              | some v ↦ if v == "" then none else some v
            ]))
    × (build_query p.full_name "" ≡ should (fuzzy "Name" name ∷ match_text "Tag" img.tag ∷ []))

-- If an image of the registry has a configuration, whose labels have distinct keys, neither the name of
-- its repository nor its tag has a colon, and `Parse` returns a record for it: the record has the
-- digest of the image for its identifier, the name of the repository, the tag, and "name:tag" for its
-- full name; it holds each label that has a value and no other; and a query for its full name, with no
-- advanced query, looks for the name and the tag.
pub parse_lem :
    (name : String) (img : RegistryImage) (config : ImageConfig) (p : IndexImage)
    → img.config ≡ some config
    → DistinctKeys config.labels
    → parse name img ≡ ok p
    → contains name b':' ≡ false
    → contains img.tag b':' ≡ false
    → Indexes name img config p
unfolding parse
parse_lem name img config p has d made h k =
    let is : ok (image_with name img config) ≡ ok p = sym (rw (has, parse)) ∙ made in
    subst (Indexes name img config) (ok_injective is) (
      refl,
      refl,
      refl,
      refl,
      (filter_values config.labels "", refl, λ j. lookup-filter_values config.labels "" j d),
      build_query-tagged name img.tag "" h k,
    )

module _ (parse_time : String → Option Time) where
  as_text-eq-ok : (v : Option FieldValue) (s : String) → as_text v ≡ ok s → v ≡ some (one (text s))
  as_text-eq-ok (some (one (text t))) s e = cc
  as_text-eq-ok (some (one (number n))) s e = cc
  as_text-eq-ok (some (many vs)) s e = cc
  as_text-eq-ok none s e = cc

  -- The image that is read from a hit has the stored name, tag and full name, but never an
  -- identifier, an author, a comment, or the lists of its labels and variables, whatever is stored.
  pub document_to_image_lem :
      (h : DocumentMatch) (img : IndexImage)
      → document_to_image parse_time h ≡ ok img
      → (lookup "Name" h.fields ≡ some (one (text img.name)))
        × (lookup "Tag" h.fields ≡ some (one (text img.tag)))
        × (lookup "FullName" h.fields ≡ some (one (text img.full_name)))
        × (img.id ≡ "")
        × (img.author ≡ "")
        × (img.comment ≡ "")
        × (img.labels ≡ [])
        × (img.envs ≡ [])
  unfolding document_to_image
  document_to_image_lem h img e =
      let (name, n, e1) = >>=-eq-ok (as_text (lookup "Name" h.fields)) _ e in
      let (tag, t, e2) = >>=-eq-ok (as_text (lookup "Tag" h.fields)) _ e1 in
      let (full, f, e3) = >>=-eq-ok (as_text (lookup "FullName" h.fields)) _ e2 in
      let (created, _, e4) = >>=-eq-ok (created_of parse_time (lookup "Created" h.fields)) _ e3 in
      let (found, _, e5) = >>=-eq-ok (collect h.fields ([], [])) _ e4 in
      let (volumes, _, e6) = >>=-eq-ok (volumes_of (lookup "Volumes" h.fields)) _ e5 in
      let (ports, _, e7) = >>=-eq-ok (ports_of (lookup "ExposedPorts" h.fields)) _ e6 in
      let (size, _, e8) = >>=-eq-ok (size_of (lookup "Size" h.fields)) _ e7 in
      let is = ok_injective e8 in
      (
        as_text-eq-ok _ name n ∙ ap (λ p. some (one (text p.name))) is,
        as_text-eq-ok _ tag t ∙ ap (λ p. some (one (text p.tag))) is,
        as_text-eq-ok _ full f ∙ ap (λ p. some (one (text p.full_name))) is,
        ap (λ p. p.id) (sym is),
        ap (λ p. p.author) (sym is),
        ap (λ p. p.comment) (sym is),
        ap (λ p. p.labels) (sym is),
        ap (λ p. p.envs) (sym is),
      )
