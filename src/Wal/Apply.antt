-- ===== src/Wal/Apply.antt =====
-- src/agent/wal/wal_core.rs, `apply_write_batch`: a batch into the in-memory buffer.
pub mod Invariant
pub mod Misaligned
use iedb.Base.{
  ℕ, zero, suc, ◌+◌, String, Option, none, some, List, [], ◌∷◌, length, get_elem?, position,
  option_get_or, str_eq,
}
use iedb.Chunk.{
  FieldValue, FieldType, field_type, TableSchema, ensure_field, ensure_tag_key, Row, Chunk, insert,
  index_tags,
}
use iedb.Table.{Table, with_chunk}
use iedb.Buffer.{Buffer, with_table}
use iedb.Wal.{WriteBatch, WalOp, write, noop}

-- `for key in &batch.tag_keys { table.schema.ensure_tag_key(key); }`
unfoldable pub register_tags : List String → TableSchema → TableSchema
register_tags [] s = s
register_tags (key ∷ keys) s = register_tags keys (ensure_tag_key key s).0

-- `batch.rows.iter().find_map(..)`: the type of the first value that stands in the column.
unfoldable pub first_field_type : ℕ → List Row → Option FieldType
first_field_type idx [] = none
first_field_type idx (row ∷ rows) = elim (get_elem? row.field_values idx) [
  | some (some fv) ↦ some (field_type fv)
  | some none ↦ first_field_type idx rows
  | none ↦ first_field_type idx rows
]

-- `for field_name in &batch.field_names`, over the names that are left.
unfoldable pub register_fields : List String → List String → List Row → TableSchema → TableSchema
register_fields [] all_names rows s = s
register_fields (name ∷ names) all_names rows s =
    let field_idx = option_get_or 0 (position (λ n. str_eq n name) all_names) in
    register_fields names all_names rows
      (elim (first_field_type field_idx rows) [ none ↦ s | some ft ↦ (ensure_field name ft s).0 ])

-- `chunk.insert(row, wal_seq)` and the tag index inline, for the row at `idx`.
unfoldable pub insert_row : List String → ℕ → ℕ → Row → Chunk → Chunk
insert_row keys wal_seq idx row c =
    let c' = insert row wal_seq c in
    record c' { tag_index = index_tags 0 keys idx row.tag_values c'.tag_index }

-- `for (row_idx, row) in batch.rows.iter().enumerate()`
unfoldable pub insert_rows : List String → ℕ → ℕ → ℕ → List Row → Chunk → Chunk
insert_rows keys wal_seq base_idx row_idx [] c = c
insert_rows keys wal_seq base_idx row_idx (row ∷ rows) c =
    insert_rows keys wal_seq base_idx (row_idx + 1) rows
      (insert_row keys wal_seq (base_idx + row_idx) row c)

unfoldable pub batch_schema : WriteBatch → TableSchema → TableSchema
batch_schema batch s =
    register_fields batch.field_names batch.field_names batch.rows (register_tags batch.tag_keys s)

unfoldable pub apply_to_table : WriteBatch → ℕ → Table → Table
apply_to_table batch wal_seq table =
    let schema = batch_schema batch table.schema in
    with_chunk batch.chunk_time
      (λ c. insert_rows schema.tag_keys wal_seq (length c.rows) 0 batch.rows c)
      (record table { schema = schema })

unfoldable pub apply_write_batch : WriteBatch → ℕ → Buffer → Buffer
apply_write_batch batch wal_seq =
    with_table batch.db_name batch.table_name (apply_to_table batch wal_seq)

-- `for op in &ops { if let WalOp::Write(batch) = op { apply_write_batch(..) } }`
unfoldable pub apply_ops : List WalOp → ℕ → Buffer → Buffer
apply_ops [] wal_seq b = b
apply_ops (write batch ∷ ops) wal_seq b = apply_ops ops wal_seq (apply_write_batch batch wal_seq b)
apply_ops (noop ∷ ops) wal_seq b = apply_ops ops wal_seq b
