-- ===== src/Tests/Chunk.antt =====
-- The buffer: schema, chunks, the tag index, tables, and the query.
use iedb.Base.{ℕ, ◌≡◌, refl, String, none, some, [], ◌∷◌, ◌++◌, arith, pos, eq_iff}
use mathlib.Core.Bool.{false≢true}
use iedb.Base.Assoc.{get, alter}
use iedb.Chunk.{
  FieldValue, FieldType, TableSchema, ensure_field, ensure_tag_key, Row, Chunk, new_chunk,
  push_posting, index_tags, index_rows, rebuild_tag_index,
}
use iedb.Chunk.Postings.{postings, matching, postings-rebuild}
use iedb.Table.{Table}
use iedb.Query.{query_chunks}
use iedb.Query.Scan.{scan, query_chunks-eq-scan}
use iedb.Wal.{WriteBatch}
use iedb.Wal.Apply.{register_tags, apply_to_table}
use iedb.Wal.Apply.Invariant.{IsTable, apply_to_table-IsTable}
use iedb.Wal.Apply.Misaligned.{one_row, keyed, first_index, misaligned}

abbrev row_of : ℕ → String → Row
row_of t host = record { time = pos t; tag_values = host ∷ []; field_values = [] }

abbrev schema : TableSchema
schema = record {
  tag_keys = "host" ∷ [];
  field_defs = (record { name = "cpu"; value_type = FieldType.f64 }) ∷ [];
}

-- Another type does not make a second field of the name.
ensure_field_again : ensure_field "cpu" FieldType.i64 schema ≡ (schema, 0)
unfolding ensure_field
ensure_field_again = refl

abbrev chunk : Chunk
chunk = record (new_chunk (pos 0)) {
  rows = row_of 100 "srv01" ∷ row_of 200 "srv02" ∷ row_of 300 "srv01" ∷ [];
}

rebuilt : postings (rebuild_tag_index ("host" ∷ []) chunk).tag_index "host" "srv01" ≡ 0 ∷ 2 ∷ []
unfolding rebuild_tag_index index_rows index_tags push_posting alter get
rebuilt = refl

postings-rebuild_example :
    postings (rebuild_tag_index ("host" ∷ []) chunk).tag_index "host" "srv02"
    ≡ matching ("host" ∷ []) "host" "srv02" 0 chunk.rows
postings-rebuild_example = postings-rebuild ("host" ∷ []) chunk "host" "srv02" (tt, tt)

-- `chunk.insert(row, 7)`, as a change of the chunk that was found or made.
abbrev add_row : Chunk → Chunk
add_row c = record c { rows = c.rows ++ (row_of 150 "srv03" ∷ []) }

abbrev two_chunks : Table
two_chunks = record {
  name = "cpu";
  schema = schema;
  chunks = new_chunk (pos 100) ∷ new_chunk (pos 300) ∷ [];
}

abbrev renamed : Table → Table
renamed t = record t { schema = schema }

query_chunks-eq-scan_example :
    query_chunks
      (λ v. v)
      (FieldValue.i64 (pos 0))
      schema
      (some (pos 150))
      none
      (some "host")
      (some "srv01")
      (rebuild_tag_index ("host" ∷ []) chunk ∷ [])
    ≡ some (
        scan
          (λ v. v)
          (FieldValue.i64 (pos 0))
          schema
          (some (pos 150))
          none
          (some "host")
          (some "srv01")
          (rebuild_tag_index ("host" ∷ []) chunk ∷ []))
query_chunks-eq-scan_example =
    query_chunks-eq-scan (λ v. v) (FieldValue.i64 (pos 0)) schema (some (pos 150)) none
      (some "host") (some "srv01") (rebuild_tag_index ("host" ∷ []) chunk ∷ []) (tt, tt)
      (unfold rebuild_tag_index in refl, tt)

abbrev batch : WriteBatch
batch = record {
  db_name = "db";
  table_name = "cpu";
  chunk_time = pos 0;
  field_names = [];
  tag_keys = "host" ∷ "region" ∷ [];
  rows = (record { time = pos 7; tag_values = "srv01" ∷ "eu" ∷ []; field_values = [] }) ∷ [];
}

abbrev fresh : Table
fresh = record {
  name = "cpu";
  schema = schema;
  chunks = rebuild_tag_index ("host" ∷ []) chunk ∷ [];
}

apply_to_table-IsTable_example : IsTable (apply_to_table batch 4 fresh)
unfolding register_tags ensure_tag_key rebuild_tag_index
apply_to_table-IsTable_example =
    apply_to_table-IsTable batch 4 fresh (omega arith) (record {
      distinct = (tt, tt);
      ascending = (tt, tt);
      indexed = (refl, tt);
      fits = omega arith;
    })

misaligned_example :
    (postings
        (first_index (apply_to_table (one_row "region" "eu" (pos 7)) 4 (keyed "host")).chunks)
        "host"
        "eu"
      ≡ 0 ∷ [])
    × (postings
          (first_index (apply_to_table (one_row "region" "eu" (pos 7)) 4 (keyed "host")).chunks)
          "region"
          "eu"
        ≡ [])
misaligned_example =
    misaligned "host" "region" "eu" (pos 7) 4 (λ p. false≢true ((eq_iff "host" "region").1 p))
