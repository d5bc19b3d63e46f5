-- ===== src/Wal/Apply/Invariant.antt =====
-- wal_core.rs, `apply_write_batch`: the tables stay well formed, and the index that is built row by
-- row is the one that a rebuild makes.
use iedb.Base.{
  ℕ, ◌+◌, String, ◌≡◌, refl, sym, ◌∙◌, ap, Option, none, some, List, [], ◌∷◌, ◌++◌, length, arith,
  All, All-append, Option-cases, inl, inr, position, str_eq, length-append, option_get_or, ℤ,
}
use native.Mathlib.Nat.{add-zero, zero-add}
use mathlib.Core.List.{append-nil, append_assoc}
use iedb.Chunk.{
  FieldType, TableSchema, ensure_field, ensure_tag_key, Row, Chunk, new_chunk, insert, index_tags,
  index_rows, rebuild_tag_index,
}
use iedb.Chunk.Schema.{Distinct, ensure_tag_key-Distinct, tag_keys-ensure_field}
use iedb.Chunk.TagIndex.{IsIndexed, FitsKeys, index_rows-append, IsIndexed-more_keys}
use iedb.Table.{Table, with_chunk}
use iedb.Table.Sorted.{Ascending, with_chunk-Ascending, All-with_chunk}
use iedb.Wal.{WriteBatch}
use iedb.Wal.Apply.{
  register_tags, first_field_type, register_fields, insert_row, insert_rows, batch_schema,
  apply_to_table,
}

pub record IsTable (t : Table) : Type 0 where
  pub distinct : Distinct t.schema.tag_keys
  pub ascending : Ascending t.chunks
  pub indexed : All (IsIndexed t.schema.tag_keys) t.chunks
  pub fits : All (λ (c : Chunk). FitsKeys t.schema.tag_keys c.rows) t.chunks

-- The rows of a chunk after a batch are those before it and the batch's, in order.
pub rows-insert_rows :
    (keys : List String) (seq base i : ℕ) (rows : List Row) (c : Chunk)
    → (insert_rows keys seq base i rows c).rows ≡ c.rows ++ rows
unfolding insert_rows insert_row insert
rows-insert_rows keys seq base i [] c = sym (append-nil c.rows)
rows-insert_rows keys seq base i (row ∷ rows) c =
    rows-insert_rows keys seq base (i + 1) rows (insert_row keys seq (base + i) row c)
    ∙ append_assoc c.rows (row ∷ []) rows

pub chunk_time-insert_rows :
    (keys : List String) (seq base i : ℕ) (rows : List Row) (c : Chunk)
    → (insert_rows keys seq base i rows c).chunk_time ≡ c.chunk_time
unfolding insert_rows insert_row insert
chunk_time-insert_rows keys seq base i [] c = refl
chunk_time-insert_rows keys seq base i (row ∷ rows) c =
    chunk_time-insert_rows keys seq base (i + 1) rows (insert_row keys seq (base + i) row c)

tag_index-insert_rows :
    (keys : List String) (seq base i : ℕ) (rows : List Row) (c : Chunk)
    → (insert_rows keys seq base i rows c).tag_index ≡ index_rows keys (base + i) rows c.tag_index
unfolding insert_rows insert_row insert index_rows
tag_index-insert_rows keys seq base i [] c = refl
tag_index-insert_rows keys seq base i (row ∷ rows) c =
    tag_index-insert_rows keys seq base (i + 1) rows (insert_row keys seq (base + i) row c)
    ∙ ap (λ j. index_rows keys j rows (index_tags 0 keys (base + i) row.tag_values c.tag_index))
        (omega arith)

-- Inserting a batch at the end keeps the index equal to a rebuild.
pub insert_rows-IsIndexed :
    (keys : List String) (seq : ℕ) (rows : List Row) (c : Chunk)
    → IsIndexed keys c
    → IsIndexed keys (insert_rows keys seq (length c.rows) 0 rows c)
unfolding rebuild_tag_index
insert_rows-IsIndexed keys seq rows c e =
    tag_index-insert_rows keys seq (length c.rows) 0 rows c
    ∙ rw (rows-insert_rows, index_rows-append, add-zero, zero-add, e)

-- A schema grows at its end only.
pub Grows : TableSchema → TableSchema → Type 0
Grows s s' = (more : List String) × (s'.tag_keys ≡ s.tag_keys ++ more)

ensure_tag_key-Grows : (key : String) (s : TableSchema) → Grows s (ensure_tag_key key s).0
unfolding ensure_tag_key Grows
ensure_tag_key-Grows key s = elim (Option-cases (position (λ k. str_eq k key) s.tag_keys)) [
  | inl e ↦ (key ∷ [], rw (e, ensure_tag_key))
  | inr (i, e) ↦ ([], rw (e, ensure_tag_key) (sym (append-nil s.tag_keys)))
]

register_tags-Grows : (keys : List String) (s : TableSchema) → Grows s (register_tags keys s)
unfolding register_tags Grows
register_tags-Grows [] s = ([], sym (append-nil s.tag_keys))
register_tags-Grows (key ∷ keys) s =
    let (m, e) = ensure_tag_key-Grows key s in
    let (m', e') = register_tags-Grows keys (ensure_tag_key key s).0 in
    (m ++ m', e' ∙ rw (e, append_assoc))

pub register_tags-Distinct :
    (keys : List String) (s : TableSchema)
    → Distinct s.tag_keys
    → Distinct (register_tags keys s).tag_keys
unfolding register_tags
register_tags-Distinct [] s d = d
register_tags-Distinct (key ∷ keys) s d =
    register_tags-Distinct keys (ensure_tag_key key s).0 (ensure_tag_key-Distinct key s d)

tag_keys-register_fields :
    (names all_names : List String) (rows : List Row) (s : TableSchema)
    → (register_fields names all_names rows s).tag_keys ≡ s.tag_keys
unfolding register_fields
tag_keys-register_fields [] all_names rows s = refl
tag_keys-register_fields (name ∷ names) all_names rows s =
    tag_keys-register_fields names all_names rows _
    ∙ one (first_field_type (option_get_or 0 (position (λ n. str_eq n name) all_names)) rows)
  where
    one :
        (found : Option FieldType)
        → (elim found as (λ _. TableSchema) [
          | none ↦ s
          | some ft ↦ (ensure_field name ft s).0
        ]).tag_keys
          ≡ s.tag_keys
    one none = refl
    one (some ft) = tag_keys-ensure_field name ft s

tag_keys-batch_schema :
    (batch : WriteBatch) (s : TableSchema)
    → (batch_schema batch s).tag_keys ≡ (register_tags batch.tag_keys s).tag_keys
unfolding batch_schema
tag_keys-batch_schema batch s =
    tag_keys-register_fields batch.field_names batch.field_names batch.rows
      (register_tags batch.tag_keys s)

FitsKeys-more :
    (keys more : List String) (rows : List Row) → FitsKeys keys rows → FitsKeys (keys ++ more) rows
FitsKeys-more keys more [] h = tt
FitsKeys-more keys more (row ∷ rows) h =
    (omega (arith, length-append {0} keys more, h.0), FitsKeys-more keys more rows h.1)

-- What a table promises of each of its chunks.
abbrev Chunked : List String → Chunk → Type 0
Chunked keys c = IsIndexed keys c × FitsKeys keys c.rows

All-pair :
    (keys more : List String) (cs : List Chunk)
    → All (IsIndexed keys) cs
    → All (λ (c : Chunk). FitsKeys keys c.rows) cs
    → All (Chunked (keys ++ more)) cs
All-pair keys more [] h k = tt
All-pair keys more (c ∷ cs) h k = (
  (IsIndexed-more_keys keys more c k.0 h.0, FitsKeys-more keys more c.rows k.0),
  All-pair keys more cs h.1 k.1,
)

All-fst : (keys : List String) (cs : List Chunk) → All (Chunked keys) cs → All (IsIndexed keys) cs
All-fst keys [] h = tt
All-fst keys (c ∷ cs) h = (h.0.0, All-fst keys cs h.1)

All-snd :
    (keys : List String) (cs : List Chunk)
    → All (Chunked keys) cs
    → All (λ (c : Chunk). FitsKeys keys c.rows) cs
All-snd keys [] h = tt
All-snd keys (c ∷ cs) h = (h.0.1, All-snd keys cs h.1)

insert_rows-Chunked :
    (keys : List String) (seq : ℕ) (rows : List Row)
    → FitsKeys keys rows
    → (c : Chunk) → Chunked keys c
    → Chunked keys (insert_rows keys seq (length c.rows) 0 rows c)
insert_rows-Chunked keys seq rows f c h = (
  insert_rows-IsIndexed keys seq rows c h.0,
  rw rows-insert_rows (All-append _ c.rows rows h.1 f),
)

new_chunk-Chunked : (keys : List String) (t : ℤ) → Chunked keys (new_chunk t)
unfolding rebuild_tag_index index_rows
new_chunk-Chunked keys t = (refl, tt)

-- A batch whose rows carry no more tag values than the schema has keys, once the batch's are
-- registered, leaves a well-formed table well formed: distinct keys, chunks in order, and every tag
-- index equal to a rebuild.
pub apply_to_table-IsTable :
    (batch : WriteBatch) (seq : ℕ) (t : Table)
    → FitsKeys (register_tags batch.tag_keys t.schema).tag_keys batch.rows
    → IsTable t
    → IsTable (apply_to_table batch seq t)
unfolding apply_to_table Grows with_chunk
apply_to_table-IsTable batch seq t f v =
    let (more, grown) = register_tags-Grows batch.tag_keys t.schema in
    let keys = (batch_schema batch t.schema).tag_keys in
    let same : keys ≡ (register_tags batch.tag_keys t.schema).tag_keys =
      tag_keys-batch_schema batch t.schema in
    let f' : FitsKeys keys batch.rows = rw same f in
    let change = λ (c : Chunk). insert_rows keys seq (length c.rows) 0 batch.rows c in
    let table = record t { schema = batch_schema batch t.schema } in
    let old : All (Chunked keys) t.chunks =
      rw (same, grown) (All-pair t.schema.tag_keys more t.chunks v.indexed v.fits) in
    let all =
      All-with_chunk (Chunked keys) batch.chunk_time change
        (insert_rows-Chunked keys seq batch.rows f') (new_chunk-Chunked keys batch.chunk_time) table
        old in
    record {
      distinct = rw same (register_tags-Distinct batch.tag_keys t.schema v.distinct);
      ascending =
          with_chunk-Ascending batch.chunk_time change
            (λ c. chunk_time-insert_rows keys seq (length c.rows) 0 batch.rows c) table v.ascending;
      indexed = All-fst keys _ all;
      fits = All-snd keys _ all;
    }
