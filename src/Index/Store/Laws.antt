-- ===== src/Index/Store/Laws.antt =====
-- What the operations do to the documents of the index, which are seen as a map from full names.
use dim.Prelude.{
  String, ◌≡◌, refl, sym, ◌∙◌, ◌≢◌, inl, inr, Bool, true, false, Option, none, some, List, [], ◌∷◌,
  map, arith, ◌==◌, nat_eq, if◌then◌else◌, Bool-cases, length,
}
use dim.Prelude.Dict.{lookup}
use dim.Prelude.Errors.{ok}
use dim.Prelude.Int.{ℤ}
use dim.Types.{IndexImage, Time}
use dim.Utils.{list_contains}
use dim.Index.Documents.{as_text}
use dim.Index.Bleve.{DocumentMatch, BleveResult, Bleve}
use dim.Index.Store.{delete_hits, delete_image, id_request}

-- The full names that the hits carry.
abbrev pub Named : List DocumentMatch → List String → Type 0
Named hits names = map (λ h. as_text (lookup "FullName" h.fields)) hits ≡ map ok names

-- What bleve does on its documents: `docs` reads the one of an identifier.
pub record Keeps {I : Type 0} (bleve : Bleve I) (docs : I → String → Option IndexImage)
    : Type 0 where
  pub of_index :
      (k j : String) (d : IndexImage) (i : I)
      → docs (bleve.index k d i) j ≡ (if k == j then some d else docs i j)
  pub of_delete :
      (k j : String) (i : I) → docs (bleve.delete k i) j ≡ (if k == j then none else docs i j)

-- The answer to the search for an identifier: every document with it has a hit, and no other.
pub record Finds {I : Type 0} (docs : I → String → Option IndexImage) (id : String) (i : I)
    (sr : BleveResult) (names : List String) : Type 0 where
  pub named : Named sr.hits names
  pub counted : sr.total ≡ length sr.hits
  pub complete :
      (k : String) (d : IndexImage) → docs i k ≡ some d → d.id ≡ id → list_contains names k ≡ true
  pub sound :
      (k : String)
      → list_contains names k ≡ true
      → (d : IndexImage) × (docs i k ≡ some d) × (d.id ≡ id)

if_false {ℓ} :
    {A : Type ℓ} {b : Bool} {z y : A} (x : A) → b ≡ false → z ≡ (if b then x else y) → z ≡ y
if_false {b} x off e = ground (arith, off, e)

module _ {I : Type 0} (bleve : Bleve I) (docs : I → String → Option IndexImage)
    (keeps : Keeps bleve docs) (parse_time : String → Option Time) (percent_s : ℤ → String)
    (hex : String → String) where
  delete_hits-Named :
      (hits : List DocumentMatch) (names : List String) (i : I)
      → Named hits names
      → (j : I) × (delete_hits bleve parse_time percent_s hex hits i ≡ ok j)
        × ((k : String) → docs j k ≡ (if list_contains names k then none else docs i k))
  unfolding delete_hits list_contains
  delete_hits-Named [] [] i n = (i, refl, λ k. refl)
  delete_hits-Named [] (name ∷ names) i n = cc
  delete_hits-Named (h ∷ hits) [] i n = cc
  delete_hits-Named (h ∷ hits) (name ∷ names) i n =
      let (j, done, after) = delete_hits-Named hits names (bleve.delete name i) (cc) in
      let head : as_text (lookup "FullName" h.fields) ≡ ok name = cc in
      (j, rw (head, done), λ k. ground (arith, after k, keeps.of_delete name k i))

  no_hits :
      (hits : List DocumentMatch) (i : I)
      → length hits ≡ 0
      → delete_hits bleve parse_time percent_s hex hits i ≡ ok i
  unfolding delete_hits
  no_hits [] i e = refl
  no_hits (h ∷ hits) i e = absurd (omega (arith, e))

  -- The early return where nothing is found is the loop over no hits.
  delete_image-delete_hits :
      (id : String) (i : I) (sr : BleveResult)
      → bleve.search (id_request bleve parse_time percent_s hex id ("FullName" ∷ [])) i ≡ ok sr
      → sr.total ≡ length sr.hits
      → delete_image bleve parse_time percent_s hex id i
        ≡ delete_hits bleve parse_time percent_s hex sr.hits i
  unfolding delete_image
  delete_image-delete_hits id i sr found counted = elim (Bool-cases (nat_eq sr.total 0)) [
    | inl zero_ ↦
        rw (found, zero_, delete_image) (sym (no_hits sr.hits i (ground (arith, counted))))
    | inr some_ ↦ rw (found, some_, delete_image)
  ]

  -- Where bleve keeps its documents as a map and the search finds every document with an
  -- identifier, and no other, `DeleteImage` succeeds; afterwards no
  -- document has that identifier, and every other document is as it was.
  pub delete_image-removes :
      (id : String) (i : I) (sr : BleveResult) (names : List String)
      → bleve.search (id_request bleve parse_time percent_s hex id ("FullName" ∷ [])) i ≡ ok sr
      → Finds docs id i sr names
      → (j : I) × (delete_image bleve parse_time percent_s hex id i ≡ ok j)
        × ((k : String) (d : IndexImage) → docs j k ≡ some d → d.id ≢ id)
        × ((k : String) (d : IndexImage) → docs i k ≡ some d → d.id ≢ id → docs j k ≡ some d)
  delete_image-removes id i sr names found f =
      let (j, done, after) = delete_hits-Named sr.hits names i f.named in
      (
        j,
        delete_image-delete_hits id i sr found f.counted ∙ done,
        (λ k d held same. elim (Bool-cases (list_contains names k)) [
          | inl hit ↦ cc (held, after k, hit)
          | inr miss ↦ absurd (
              let hit = f.complete k d (sym (if_false none miss (after k)) ∙ held) same in
              cc (hit, miss))
        ]),
        λ k d held other. elim (Bool-cases (list_contains names k)) [
          | inl hit ↦
              absurd (let (x, there, same) = f.sound k hit in other (cc (held, there, same)))
          | inr miss ↦ if_false none miss (after k) ∙ held
        ],
      )
