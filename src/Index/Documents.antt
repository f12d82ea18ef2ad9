-- ===== src/Index/Documents.antt =====
-- `DocumentToImage` of lib/index/index.go: the record of an image from a hit. A type assertion on a
-- value of another type panics.
use dim.Prelude.{String, Option, none, some, List, [], ◌∷◌, nat_eq, if◌then◌else◌}
use dim.Prelude.Dict.{Dict, lookup, insert}
use dim.Prelude.Errors.{Result, ok, panic, ◌>>=◌}
use Prim.Native.Char.{code}
use dim.Prelude.Int.{ℤ, pos}
use dim.Types.{IndexImage, Time, empty_image}
use dim.Index.Bleve.{Scalar, text, number, FieldValue, one, many, DocumentMatch}

-- `strings.HasPrefix` and `strings.TrimPrefix`
unfoldable pub without_prefix : String → String → Option String
without_prefix k String.[] = some k
without_prefix String.[] (String.◌∷◌ c p) = none
without_prefix (String.◌∷◌ d k) (String.◌∷◌ c p) =
    let rest = without_prefix k p in if nat_eq (code d) (code c) then rest else none

abbrev pub scalar_text : Scalar → Result String
scalar_text (text s) = ok s
scalar_text (number n) = panic

abbrev pub scalar_number : Scalar → Result ℤ
scalar_number (number n) = ok n
scalar_number (text s) = panic

-- `v.(string)` and `v.(float64)`; a missing field is nil.
abbrev pub as_text : Option FieldValue → Result String
as_text (some (one s)) = scalar_text s
as_text _ = panic

abbrev pub as_number : Option FieldValue → Result ℤ
as_number (some (one s)) = scalar_number s
as_number _ = panic

unfoldable pub all_of : {A : Type 0} → (Scalar → Result A) → List Scalar → Result (List A)
all_of f [] = ok []
all_of f (v ∷ vs) = f v >>= λ a. all_of f vs >>= λ rest. ok (a ∷ rest)

abbrev pub volumes_of : Option FieldValue → Result (List String)
volumes_of (some (one (text s))) = ok (s ∷ [])
volumes_of (some (many vs)) = all_of scalar_text vs
volumes_of _ = ok []

abbrev pub ports_of : Option FieldValue → Result (List ℤ)
ports_of (some (one (number n))) = ok (n ∷ [])
ports_of (some (many vs)) = all_of scalar_number vs
ports_of _ = ok []

abbrev pub size_of : Option FieldValue → Result ℤ
size_of none = ok (pos 0)
size_of v = as_number v

abbrev pub created_of : (String → Option Time) → Option FieldValue → Result Time
created_of parse_time none = ok 0
created_of parse_time (some v) =
    as_text (some v) >>= λ s. ok (elim (parse_time s) [ none ↦ 0 | some t ↦ t ])

-- The loop over the fields collects those under "Label." and "Env.".
abbrev pub Collected : Type 0
Collected = Dict String × Dict String

abbrev pub collect_one : String → FieldValue → Collected → Result Collected
collect_one k v (labels, envs) = elim (without_prefix k "Label.") [
  | some label ↦ as_text (some v) >>= λ s. ok (insert label s labels, envs)
  | none ↦ elim (without_prefix k "Env.") [
    | some env ↦ as_text (some v) >>= λ s. ok (labels, insert env s envs)
    | none ↦ ok (labels, envs)
  ]
]

unfoldable pub collect : Dict FieldValue → Collected → Result Collected
collect [] found = ok found
collect ((k, v) ∷ fields) found = collect_one k v found >>= collect fields

-- An empty map is left nil.
abbrev pub unless_empty : Dict String → Option (Dict String)
unless_empty [] = none
unless_empty (e ∷ m) = some (e ∷ m)

module _ (parse_time : String → Option Time) where
  unfoldable pub document_to_image : DocumentMatch → Result IndexImage
  document_to_image h = do
    name ← as_text (lookup "Name" h.fields)
    tag ← as_text (lookup "Tag" h.fields)
    full_name ← as_text (lookup "FullName" h.fields)
    created ← created_of parse_time (lookup "Created" h.fields)
    found ← collect h.fields ([], [])
    volumes ← volumes_of (lookup "Volumes" h.fields)
    ports ← ports_of (lookup "ExposedPorts" h.fields)
    size ← size_of (lookup "Size" h.fields)
    ok (record empty_image {
      name = name;
      tag = tag;
      full_name = full_name;
      created = created;
      label = unless_empty found.0;
      volumes = volumes;
      exposed_ports = ports;
      env = unless_empty found.1;
      size = size;
    })
