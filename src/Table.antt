-- ===== src/Table.antt =====
-- src/agent/buffer/chunk.rs, `Table`: a schema and its chunks, ordered by chunk time.
pub mod Sorted
use iedb.Base.{ℕ, zero, suc, ◌+◌, String, List, [], ◌∷◌, ◌++◌, if◌then◌else◌, ℤ, ltb_ℤ}
use iedb.Chunk.{TableSchema, empty_schema, Row, Chunk, new_chunk, estimated_size, index_tags}

pub record Table : Type 0 where
  pub name : String
  pub schema : TableSchema
  pub chunks : List Chunk

abbrev pub new_table : String → Table
new_table name = record { name = name; schema = empty_schema; chunks = [] }

-- `chunks.binary_search_by(|c| c.chunk_time.cmp(&chunk_time))`. On chunks in ascending order, which
-- `Sorted` proves of every table, its documented answer is determined: the index of the chunk with
-- that time, or the index at which one belongs.
pub data Found : Type 0 where
  found : ℕ → Found
  absent : ℕ → Found

abbrev next_index : Found → Found
next_index (found i) = found (suc i)
next_index (absent i) = absent (suc i)

unfoldable pub search_chunk : ℤ → List Chunk → Found
search_chunk t [] = absent 0
search_chunk t (c ∷ cs) =
    if ltb_ℤ c.chunk_time t
    then next_index (search_chunk t cs)
    else if ltb_ℤ t c.chunk_time
    then absent 0
    else found 0

-- `&mut chunks[idx]`, followed by what the caller does with the chunk.
unfoldable pub change_at : ℕ → (Chunk → Chunk) → List Chunk → List Chunk
change_at i f [] = []
change_at zero f (c ∷ cs) = f c ∷ cs
change_at (suc i) f (c ∷ cs) = c ∷ change_at i f cs

-- `chunks.insert(idx, chunk)`
unfoldable pub insert_at : ℕ → Chunk → List Chunk → List Chunk
insert_at zero x cs = x ∷ cs
insert_at (suc i) x [] = x ∷ []
insert_at (suc i) x (c ∷ cs) = c ∷ insert_at i x cs

abbrev at_found : Found → ℤ → (Chunk → Chunk) → List Chunk → List Chunk
at_found (found idx) t f cs = change_at idx f cs
at_found (absent idx) t f cs = change_at idx f (insert_at idx (new_chunk t) cs)

-- `get_or_create_chunk(chunk_time)`, followed by what the caller does with the chunk, `f`.
unfoldable pub with_chunk : ℤ → (Chunk → Chunk) → Table → Table
with_chunk t f table = record table {
  chunks = at_found (search_chunk t table.chunks) t f table.chunks;
}

sum_sizes : List Chunk → ℕ
sum_sizes [] = 0
sum_sizes (c ∷ cs) = estimated_size c + sum_sizes cs

unfoldable pub table_size : Table → ℕ
unfolding sum_sizes
table_size t = sum_sizes t.chunks

-- `Table::build_tag_index`: the chunk with the entries of one row's tag values.
unfoldable pub build_tag_index : Table → Chunk → ℕ → List String → Chunk
build_tag_index table chunk row_idx tag_values = record chunk {
  tag_index = index_tags 0 table.schema.tag_keys row_idx tag_values chunk.tag_index;
}
