-- ===== src/Index/Query.antt =====
-- `BuildQuery` of lib/index/index.go.
use dim.Prelude.{String, ◌||◌, List, [], ◌∷◌, ◌++◌, ◌==◌, if◌then◌else◌}
use dim.Prelude.Text.{split}
use dim.Index.Bleve.{Clause, fuzzy, match_text, query_string, Query, match_all, should}

-- The name and the tag that are looked for: the two parts around the only ":", or the text itself.
abbrev pub name_and_tag : String → String × String
name_and_tag name_tag = elim (split name_tag b':') [
  | name ∷ tag ∷ [] ↦ (name, tag)
  | _ ↦ (name_tag, name_tag)
]

abbrev pub name_clauses : String → List Clause
name_clauses name_tag =
    let (name, tag) = name_and_tag name_tag in
    if name_tag == "" then [] else fuzzy "Name" name ∷ match_text "Tag" tag ∷ []

abbrev pub advanced_clauses : String → List Clause
advanced_clauses advanced = if advanced == "" then [] else query_string advanced ∷ []

unfoldable pub build_query : String → String → Query
build_query name_tag advanced =
    if name_tag == "*" || advanced == "*"
    then match_all
    else should (name_clauses name_tag ++ advanced_clauses advanced)
