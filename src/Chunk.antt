-- ===== src/Chunk.antt =====
-- src/agent/buffer/chunk.rs: field values, the table schema, rows, and the time-partitioned chunk
-- with its tag index. The proofs are in the modules below.
pub mod Schema
pub mod Bounds
pub mod TagIndex
pub mod Postings
use Prim.Native.Nat.{max}
use Prim.Native.String.{len}
use iedb.Base.{
  ℕ, zero, suc, ◌+◌, ◌-◌, ◌*◌, ◌/◌, String, Bool, Option, none, some, List, [], ◌∷◌, ◌++◌, map,
  length, get_elem?, is_empty, position, option_get_or, ltb, ◌==◌, if◌then◌else◌, ℤ, ltb_ℤ, i64_max,
  i64_min, u64_max, str_eq,
}
use iedb.Base.Assoc.{Assoc, alter}

-- An `f64` is kept as its 64-bit pattern: the agent stores and copies it, and never computes with it.
pub data FieldValue : Type 0 where
  i64 : ℤ → FieldValue
  f64 : ℕ → FieldValue
  u64 : ℕ → FieldValue
  bool : Bool → FieldValue
  string : String → FieldValue

pub data FieldType : Type 0 where
  i64 f64 u64 bool string : FieldType

unfoldable pub field_type : FieldValue → FieldType
field_type (FieldValue.i64 _) = FieldType.i64
field_type (FieldValue.f64 _) = FieldType.f64
field_type (FieldValue.u64 _) = FieldType.u64
field_type (FieldValue.bool _) = FieldType.bool
field_type (FieldValue.string _) = FieldType.string

pub record FieldDef : Type 0 where
  pub name : String
  pub value_type : FieldType

pub record TableSchema : Type 0 where
  pub tag_keys : List String
  pub field_defs : List FieldDef

abbrev pub empty_schema : TableSchema
empty_schema = record { tag_keys = []; field_defs = [] }

-- The changed schema with the index that the method returns.
unfoldable pub ensure_field : String → FieldType → TableSchema → TableSchema × ℕ
ensure_field name value_type s =
    let defs = s.field_defs ++ (record { name = name; value_type = value_type } ∷ []) in
    elim (position (λ f. str_eq f.name name) s.field_defs) [
      | some pos ↦ (s, pos)
      | none ↦ (record s { field_defs = defs }, length defs - 1)
    ]

unfoldable pub ensure_tag_key : String → TableSchema → TableSchema × ℕ
ensure_tag_key key s =
    let keys = s.tag_keys ++ (key ∷ []) in
    elim (position (λ k. str_eq k key) s.tag_keys) [
      | some pos ↦ (s, pos)
      | none ↦ (record s { tag_keys = keys }, length keys - 1)
    ]

pub record Row : Type 0 where
  pub time : ℤ
  pub tag_values : List String
  pub field_values : List (Option FieldValue)

abbrev pub TagIndex : Type 0
TagIndex = Assoc (Assoc (List ℕ))

pub record Chunk : Type 0 where
  pub chunk_time : ℤ
  pub rows : List Row
  pub tag_index : TagIndex
  pub time_min : ℤ
  pub time_max : ℤ
  pub avg_row_bytes : ℕ
  pub min_wal_seq : ℕ
  pub max_wal_seq : ℕ

abbrev pub new_chunk : ℤ → Chunk
new_chunk chunk_time = record {
  chunk_time = chunk_time;
  rows = [];
  tag_index = [];
  time_min = i64_max;
  time_max = i64_min;
  avg_row_bytes = 0;
  min_wal_seq = u64_max;
  max_wal_seq = 0;
}

unfoldable pub estimated_size : Chunk → ℕ
estimated_size c = length c.rows * max c.avg_row_bytes 64

sum : List ℕ → ℕ
sum [] = 0
sum (n ∷ ns) = n + sum ns

-- The sizes count bytes that are in memory, so the additions do not wrap.
unfoldable pub row_bytes : Row → ℕ
unfolding sum
row_bytes row = 8 + sum (map len row.tag_values) + length row.field_values * 16

unfoldable pub insert : Row → ℕ → Chunk → Chunk
insert row wal_seq c = record c {
  time_min = if ltb_ℤ row.time c.time_min then row.time else c.time_min;
  time_max = if ltb_ℤ c.time_max row.time then row.time else c.time_max;
  min_wal_seq = if ltb wal_seq c.min_wal_seq then wal_seq else c.min_wal_seq;
  max_wal_seq = if ltb c.max_wal_seq wal_seq then wal_seq else c.max_wal_seq;
  avg_row_bytes =
      if c.avg_row_bytes == 0 then row_bytes row else (c.avg_row_bytes + row_bytes row) / 2;
  rows = c.rows ++ (row ∷ []);
}

unfoldable pub row_count : Chunk → ℕ
row_count c = length c.rows

unfoldable pub chunk_is_empty : Chunk → Bool
chunk_is_empty c = is_empty c.rows

-- `tag_index.entry(key).or_default().entry(value).or_default().push(idx)`
unfoldable pub push_posting : String → String → ℕ → TagIndex → TagIndex
push_posting key value idx = alter key (λ values.
    alter value (λ found. option_get_or [] found ++ (idx ∷ [])) (option_get_or [] values))

-- `for (key_idx, key) in tag_keys.iter().enumerate()`, for the row at `idx`.
unfoldable pub index_tags : ℕ → List String → ℕ → List String → TagIndex → TagIndex
index_tags key_idx [] idx tag_values m = m
index_tags key_idx (key ∷ keys) idx tag_values m =
    index_tags (key_idx + 1) keys idx tag_values
      (elim (get_elem? tag_values key_idx) [ none ↦ m | some value ↦ push_posting key value idx m ])

-- `for (idx, row) in self.rows.iter().enumerate()`
unfoldable pub index_rows : List String → ℕ → List Row → TagIndex → TagIndex
index_rows keys idx [] m = m
index_rows keys idx (row ∷ rows) m =
    index_rows keys (idx + 1) rows (index_tags 0 keys idx row.tag_values m)

unfoldable pub rebuild_tag_index : List String → Chunk → Chunk
rebuild_tag_index keys c = record c { tag_index = index_rows keys 0 c.rows [] }
