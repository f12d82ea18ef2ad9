-- ===== src/Index/Bleve.antt =====
-- What lib/index uses of bleve: queries, search requests, hits and an index, as an interface.
use dim.Prelude.{ℕ, String, List, []}
use dim.Prelude.Dict.{Dict}
use dim.Prelude.Errors.{Result}
use dim.Prelude.Int.{ℤ, pos}
use dim.Types.{IndexImage}

-- A clause on a field, or a query in bleve's own language.
pub data Clause : Type 0 where
  fuzzy match_text : (field : String) → String → Clause
  query_string : String → Clause

pub data Query : Type 0 where
  match_all : Query
  should : List Clause → Query
  term : (field : String) → String → Query
  doc_id : List String → Query

pub record SearchRequest : Type 0 where
  pub query : Query
  pub size : ℤ
  pub from : ℤ
  pub fields : List String

-- `bleve.NewSearchRequest`: the first ten hits, without stored fields.
abbrev pub new_search_request : Query → SearchRequest
new_search_request q = record { query = q; size = pos 10; from = pos 0; fields = [] }

-- A stored value; the numbers are float64 in Go, and are the integers that the index was given.
pub data Scalar : Type 0 where
  text : String → Scalar
  number : ℤ → Scalar

pub data FieldValue : Type 0 where
  one : Scalar → FieldValue
  many : List Scalar → FieldValue

pub record DocumentMatch : Type 0 where
  pub id : String
  pub fields : Dict FieldValue

pub record BleveResult : Type 0 where
  pub total : ℕ
  pub hits : List DocumentMatch

-- Searching leaves the index as it is; the errors of `Index` and `Delete` are not looked at.
pub record Bleve (I : Type 0) : Type 0 where
  pub search : SearchRequest → I → Result BleveResult
  pub index : String → IndexImage → I → I
  pub delete : String → I → I
