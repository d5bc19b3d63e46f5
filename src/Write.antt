-- ===== src/Write.antt =====
-- src/agent/write.rs: the write handler, and `flush_and_apply` of src/agent/wal/wal_core.rs, which
-- the periodic task calls. The HTTP server, the decoding of the URL and the line-protocol parser are
-- not part of the program: a request is what they make of it.
pub mod Grouping
pub mod Commit
use iedb.Base.{
  ℕ, zero, suc, ◌+◌, ◌-◌, ◌*◌, String, Bool, true, false, Option, none, some, List, [], ◌∷◌, ◌++◌,
  map, length, is_empty, option_get_or, ltb, if◌then◌else◌, ℤ, pos, negsuc, ltb_ℤ,
}
use Prim.Native.Nat.{min, max, Ordering}
use Prim.Native.String.{compare}
use iedb.Base.Assoc.{Assoc, get, alter}
use iedb.Chunk.{FieldValue, Row}
use iedb.Buffer.{Buffer}
use iedb.Wal.{WriteBatch, WalOp, write, WalContents}
use iedb.Wal.Apply.{apply_ops}
use iedb.Wal.Serialize
use iedb.Wal.Manager.{
  Disk, WalManager, WalError, WalResult, ok, err, buffer_op, WriteOutcome, flush,
}
use iedb.Snapshot.{truncate}

-- `influxdb_line_protocol::FieldValue`
pub data LineValue : Type 0 where
  line_i64 : ℤ → LineValue
  line_f64 : ℕ → LineValue
  line_u64 : ℕ → LineValue
  line_boolean : Bool → LineValue
  line_string : String → LineValue

-- `influxdb_line_protocol::ParsedLine`
pub record ParsedLine : Type 0 where
  pub measurement : String
  pub tag_set : Option (List (String × String))
  pub field_set : List (String × LineValue)
  pub timestamp : Option ℤ

unfoldable pub field_value : LineValue → FieldValue
field_value (line_i64 v) = FieldValue.i64 v
field_value (line_f64 v) = FieldValue.f64 v
field_value (line_u64 v) = FieldValue.u64 v
field_value (line_boolean v) = FieldValue.bool v
field_value (line_string v) = FieldValue.string v

-- `tag_pairs.sort_by(|a, b| a.0.cmp(&b.0))`, a stable sort.
unfoldable pub insert_pair : String × String → List (String × String) → List (String × String)
insert_pair (k, v) [] = (k, v) ∷ []
insert_pair (k, v) ((j, w) ∷ pairs) = elim (compare k j) [
  | Ordering.gt ↦ (j, w) ∷ insert_pair (k, v) pairs
  | _ ↦ (k, v) ∷ (j, w) ∷ pairs
]

unfoldable pub sort_pairs : List (String × String) → List (String × String)
sort_pairs [] = []
sort_pairs (p ∷ pairs) = insert_pair p (sort_pairs pairs)

abbrev pub tag_pairs : ParsedLine → List (String × String)
tag_pairs line = sort_pairs (option_get_or [] line.tag_set)

-- `now` is the clock as the line is read.
unfoldable pub line_row : ℤ → ParsedLine → Row
line_row now line = record {
  time = option_get_or now line.timestamp;
  tag_values = map (λ (p : String × String). p.1) (tag_pairs line);
  field_values = map (λ (p : String × LineValue). some (field_value p.1)) line.field_set;
}

-- A value of `rows_by_table`: field names, tag keys and rows.
pub record TableRows : Type 0 where
  pub field_names : List String
  pub tag_keys : List String
  pub rows : List Row

-- The entry of a line's table, after the line: names that the entry lacks are the line's.
unfoldable pub add_line : ℤ → ParsedLine → Option TableRows → TableRows
add_line now line found =
    let names = map (λ (p : String × LineValue). p.0) line.field_set in
    let keys = map (λ (p : String × String). p.0) (tag_pairs line) in
    let entry : TableRows =
      option_get_or (record { field_names = names; tag_keys = keys; rows = [] }) found in
    record {
      field_names = if is_empty entry.field_names then names else entry.field_names;
      tag_keys = if is_empty entry.tag_keys then keys else entry.tag_keys;
      rows = entry.rows ++ (line_row now line ∷ []);
    }

-- The loop over the lines, each with the clock; a line that does not parse is skipped.
unfoldable pub rows_by_table : List (ℤ × Option ParsedLine) → Assoc TableRows → Assoc TableRows
rows_by_table [] m = m
rows_by_table ((now, none) ∷ lines) m = rows_by_table lines m
rows_by_table ((now, some line) ∷ lines) m =
    rows_by_table lines (alter line.measurement (add_line now line) m)

-- `interval_secs.max(1).saturating_mul(1_000_000_000)`
unfoldable pub bucket_ns : ℤ → ℕ
bucket_ns (pos secs) = min (max secs 1 * 1000000000) 0x7fff_ffff_ffff_ffff
bucket_ns (negsuc _) = 1000000000

-- `grouped.entry(chunk_time).or_default().push(row)` on a `BTreeMap`.
unfoldable pub push_row : ℤ → Row → List (ℤ × List Row) → List (ℤ × List Row)
push_row t row [] = (t, row ∷ []) ∷ []
push_row t row ((s, rows) ∷ grouped) =
    if ltb_ℤ t s
    then (t, row ∷ []) ∷ (s, rows) ∷ grouped
    else if ltb_ℤ s t
    then (s, rows) ∷ push_row t row grouped
    else (s, rows ++ (row ∷ [])) ∷ grouped

unfoldable pub group_rows : ℕ → List Row → List (ℤ × List Row) → List (ℤ × List Row)
group_rows interval [] grouped = grouped
group_rows interval (row ∷ rows) grouped =
    group_rows interval rows (push_row (truncate row.time interval) row grouped)

-- The batches of one table.
unfoldable pub table_batches : String → ℕ → String → TableRows → List WriteBatch
table_batches db interval table entry =
    map
      (λ (p : ℤ × List Row). record {
        db_name = db;
        table_name = table;
        chunk_time = p.0;
        field_names = entry.field_names;
        tag_keys = entry.tag_keys;
        rows = p.1;
      })
      (group_rows interval entry.rows [])

unfoldable pub all_batches : String → ℕ → Assoc TableRows → List WriteBatch
all_batches db interval [] = []
all_batches db interval ((table, entry) ∷ m) =
    table_batches db interval table entry ++ all_batches db interval m

unfoldable pub total_rows : List WriteBatch → ℕ
total_rows [] = 0
total_rows (batch ∷ batches) = length batch.rows + total_rows batches

-- `for batch in &batches { if let Err(e) = wal.buffer_op(..) { return .. } }`
unfoldable pub buffer_batches : List WriteBatch → WalManager → WalManager × WalResult (Unit {0})
buffer_batches [] m = (m, ok tt)
buffer_batches (batch ∷ batches) m =
    let r = buffer_op (write batch) m in
    elim r.1 [ err e ↦ (r.0, err e) | ok _ ↦ buffer_batches batches r.0 ]
