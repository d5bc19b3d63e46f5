-- ===== src/Wal/Apply/Misaligned.antt =====
-- wal_core.rs, `apply_write_batch`: rows are indexed under the keys of the table, by position, and
-- not under the keys of their batch.
use iedb.Base.{ℕ, String, ◌≡◌, ◌≢◌, List, [], ◌∷◌, arith, ℤ, eq_iff}
use iedb.Base.Assoc.{get, alter}
use iedb.Chunk.{ensure_tag_key, Chunk, insert, index_tags, push_posting}
use iedb.Chunk.Postings.{postings}
use iedb.Table.{Table, with_chunk, search_chunk, change_at, insert_at}
use iedb.Wal.{WriteBatch}
use iedb.Wal.Apply.{
  register_tags, register_fields, insert_row, insert_rows, batch_schema, apply_to_table,
}

abbrev pub one_row : String → String → ℤ → WriteBatch
one_row key value time = record {
  db_name = "default";
  table_name = "cpu";
  chunk_time = time;
  field_names = [];
  tag_keys = key ∷ [];
  rows = (record { time = time; tag_values = value ∷ []; field_values = [] }) ∷ [];
}

abbrev pub keyed : String → Table
keyed key = record {
  name = "cpu";
  schema = record { tag_keys = key ∷ []; field_defs = [] };
  chunks = [];
}

abbrev pub first_index : List Chunk → List (String × List (String × List ℕ))
first_index [] = []
first_index (c ∷ cs) = c.tag_index

-- A batch with one key, applied to a table that knows another key, posts its row under the other
-- key and not under its own.
pub misaligned :
    (known key value : String) (time : ℤ) (seq : ℕ)
    → known ≢ key
    → (postings
          (first_index (apply_to_table (one_row key value time) seq (keyed known)).chunks)
          known
          value
        ≡ 0 ∷ [])
      × (postings
            (first_index (apply_to_table (one_row key value time) seq (keyed known)).chunks)
            key
            value
          ≡ [])
unfolding apply_to_table batch_schema register_fields register_tags ensure_tag_key with_chunk
    search_chunk change_at insert_at insert_rows insert_row insert index_tags push_posting alter get
misaligned known key value time seq h =
    ground (arith, eq_iff known key, eq_iff known known, eq_iff value value)
