-- ===== src/Query.antt =====
-- src/agent/buffer/query.rs: the query over one table. `serde_json` is not part of the program: its
-- values, the conversion of a field value to one, and `Value::Null` are parameters.
pub mod Scan
use iedb.Base.{
  ℕ, zero, suc, ◌+◌, String, Bool, true, false, ◌&&◌, Option, none, some, List, [], ◌∷◌, ◌++◌,
  length, get_elem?, option_get_or, if◌then◌else◌, ℤ, ltb_ℤ,
}
use mathlib.Core.Option
use iedb.Base.Assoc.{Assoc, get, alter}
use iedb.Chunk.{FieldValue, FieldDef, TableSchema, Row, Chunk}
use iedb.Chunk.Postings.{postings}
use iedb.Table.{Table}
use iedb.Buffer.{Buffer, get_table}

pub record QueryRow (Json : Type 0) : Type 0 where
  pub time : ℤ
  pub tags : Assoc String
  pub fields : Assoc Json

-- The two `continue`s of the time filter.
unfoldable pub in_time : Option ℤ → Option ℤ → Row → Bool
in_time start_ns end_ns row =
    elim start_ns [ none ↦ true | some start ↦ if ltb_ℤ row.time start then false else true ]
    && elim end_ns [ none ↦ true | some end ↦ if ltb_ℤ end row.time then false else true ]

-- `for (i, key) in table.schema.tag_keys.iter().enumerate()`
unfoldable pub row_tags : ℕ → List String → Row → Assoc String → Assoc String
row_tags i [] row m = m
row_tags i (key ∷ keys) row m =
    row_tags (i + 1) keys row
      (elim (get_elem? row.tag_values i) [ none ↦ m | some val ↦ alter key (λ _. val) m ])

unfoldable pub range : ℕ → ℕ → List ℕ
range i zero = []
range i (suc n) = i ∷ range (i + 1) n

unfoldable pub candidates : Option String → Option String → Chunk → List ℕ
candidates (some key) (some val) chunk = postings chunk.tag_index key val
candidates (some key) none chunk = range 0 (length chunk.rows)
candidates none val chunk = range 0 (length chunk.rows)

module _ {Json : Type 0} (to_json : FieldValue → Json) (null : Json) where
  json_of : Option (Option FieldValue) → Json
  json_of (some (some val)) = to_json val
  json_of (some none) = null
  json_of none = null

  -- `for (i, fdef) in table.schema.field_defs.iter().enumerate()`
  unfoldable pub row_fields : ℕ → List FieldDef → Row → Assoc Json → Assoc Json
  unfolding json_of
  row_fields i [] row m = m
  row_fields i (fdef ∷ defs) row m =
      row_fields (i + 1) defs row (alter fdef.name (λ _. json_of (get_elem? row.field_values i)) m)

  unfoldable pub query_row : TableSchema → Row → QueryRow Json
  query_row schema row = record {
    time = row.time;
    tags = row_tags 0 schema.tag_keys row [];
    fields = row_fields 0 schema.field_defs row [];
  }

  -- `for idx in candidates`. `chunk.rows[idx]` panics out of bounds: the result is then `none`.
  unfoldable pub select :
      TableSchema → Option ℤ → Option ℤ → List Row → List ℕ → Option (List (QueryRow Json))
  select schema start_ns end_ns rows [] = some []
  select schema start_ns end_ns rows (idx ∷ rest) = elim (get_elem? rows idx) [
    | none ↦ none
    | some row ↦ elim (select schema start_ns end_ns rows rest) [
      | none ↦ none
      | some out ↦ some (if in_time start_ns end_ns row then query_row schema row ∷ out else out)
    ]
  ]

  -- `for chunk in &table.chunks`
  unfoldable pub query_chunks :
      TableSchema
      → Option ℤ
      → Option ℤ
      → Option String
      → Option String
      → List Chunk
      → Option (List (QueryRow Json))
  query_chunks schema start_ns end_ns tag_key tag_value [] = some []
  query_chunks schema start_ns end_ns tag_key tag_value (c ∷ cs) =
      elim (select schema start_ns end_ns c.rows (candidates tag_key tag_value c)) [
        | none ↦ none
        | some out ↦ elim (query_chunks schema start_ns end_ns tag_key tag_value cs) [
          | none ↦ none
          | some more ↦ some (out ++ more)
        ]
      ]

  unfoldable pub query_table :
      Table → Option ℤ → Option ℤ → Option String → Option String → Option (List (QueryRow Json))
  query_table table start_ns end_ns tag_key tag_value =
      query_chunks table.schema start_ns end_ns tag_key tag_value table.chunks

  -- `Buffer::query`: the outer `none` is the missing table, the inner one a panic.
  unfoldable pub query :
      Buffer
      → String
      → String
      → Option ℤ
      → Option ℤ
      → Option String
      → Option String
      → Option (Option (List (QueryRow Json)))
  query b db table_name start_ns end_ns tag_key tag_value =
      Option.map (λ t. query_table t start_ns end_ns tag_key tag_value) (get_table db table_name b)
