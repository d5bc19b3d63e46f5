-- ===== src/Server/Metadata.antt =====
-- src/server/metadata_store.rs: the statistics and the schema that the server keeps of each table, and
-- the tombstones of the compaction.
pub mod Rows
pub mod Recount
pub mod Frame
pub mod Tombstones
use iedb.Base.{
  ℕ, ◌+◌, Bool, true, false, ◌&&◌, ◌||◌, Option, none, some, List, [], ◌∷◌, ◌++◌, map,
  if◌then◌else◌, ◌==◌, ltb_ℤ, ℤ, i64_max, i64_min, eq_bytes, find, keep, is_empty, length,
  option_get_or,
}
use mathlib.Core.Bool.{not}
use iedb.Base.Text.{strip_suffix}
use iedb.Base.Text.Codes.{Chars, codes}
use iedb.Table.Sorted.{eq_ℤ}
use iedb.Staging.{dot_parquet}
use iedb.Server.Db.{AgentRecord, TableRow, FieldRow, Db, sql_min, sql_max, has_text}
use iedb.Server.Footer.{Stats}

-- `INSERT OR IGNORE INTO databases (name) VALUES (?1)`
unfoldable pub ensure_db : Chars → Db → Db
ensure_db name s =
    if has_text name s.databases then s else record s { databases = s.databases ++ (name ∷ []) }

abbrev pub is_table : Chars → Chars → TableRow → Bool
is_table db table t = eq_bytes t.db_name db && eq_bytes t.table_name table

-- `SELECT … FROM tables WHERE db_name=?1 AND table_name=?2`
unfoldable pub table_row : Chars → Chars → Db → Option TableRow
table_row db table s = find (is_table db table) s.tables

abbrev pub new_row : ℕ → Chars → Chars → TableRow
new_row id db table = record {
  id = id;
  db_name = db;
  table_name = table;
  time_min = none;
  time_max = none;
  total_rows = 0;
  updated_at = none;
}

-- `INSERT OR IGNORE INTO tables (db_name, table_name) VALUES (?1, ?2)`
unfoldable pub ensure_table : Chars → Chars → Db → Db
ensure_table db table s = elim (table_row db table s) [
  | some t ↦ s
  | none ↦ record s {
    tables = s.tables ++ (new_row s.next_table db table ∷ []);
    next_table = s.next_table + 1;
  }
]

-- `UPDATE tables SET … WHERE …`
unfoldable pub update_rows :
    (TableRow → Bool) → (TableRow → TableRow) → List TableRow → List TableRow
update_rows p f [] = []
update_rows p f (t ∷ ts) = (if p t then f t else t) ∷ update_rows p f ts

-- `INSERT OR IGNORE INTO fields`, with its UNIQUE(table_id, name, is_tag).
abbrev pub same_flag : Bool → Bool → Bool
same_flag true b = b
same_flag false b = not b

unfoldable pub add_field : FieldRow → Db → Db
add_field f s =
    if is_empty (
      keep
        (λ (g : FieldRow).
          (g.table_id == f.table_id) && (eq_bytes g.name f.name && same_flag g.is_tag f.is_tag))
        s.fields)
    then record s { fields = s.fields ++ (f ∷ []) }
    else s

unfoldable pub add_fields : ℕ → List (Chars × Chars) → Db → Db
add_fields table_id [] s = s
add_fields table_id ((name, value_type) ∷ defs) s = add_fields table_id defs (
    add_field (record { table_id = table_id; name = name; value_type = value_type; is_tag = false })
      s)

unfoldable pub add_tags : ℕ → List Chars → Db → Db
add_tags table_id [] s = s
add_tags table_id (tag_key ∷ keys) s = add_tags table_id keys (
    add_field
      (record { table_id = table_id; name = tag_key; value_type = codes "String"; is_tag = true })
      s)

-- How a statement fails: the row is not there, or a foreign key names no row.
pub data StoreError : Type 0 where
  get_table_id : StoreError
  record_agent_table : StoreError

-- The UPDATE of `update_stats`: it accumulates.
unfoldable pub with_stats : ℤ → Stats → TableRow → TableRow
with_stats now_ms st t = record t {
  time_min = some (sql_min (option_get_or st.time_min t.time_min) st.time_min);
  time_max = some (sql_max (option_get_or st.time_max t.time_max) st.time_max);
  total_rows = t.total_rows + st.row_count;
  updated_at = some now_ms;
}

-- Without an error the second part is `none`.
unfoldable pub update_stats : ℤ → Chars → Chars → Stats → List Chars → Db → Db × Option StoreError
update_stats now_ms db table st tag_keys s =
    let s1 = ensure_table db table (ensure_db db s) in
    elim (table_row db table s1) [
      | none ↦ (s1, some get_table_id)
      | some row ↦ (
        add_tags row.id tag_keys (
            add_fields row.id st.field_defs (record s1 {
              tables =
                  update_rows (λ (t : TableRow). t.id == row.id) (with_stats now_ms st) s1.tables;
            })),
        none,
      )
    ]

-- `INSERT OR IGNORE INTO agent_tables`, whose agent_id references agents(id).
abbrev pub knows_agent : Chars → Db → Bool
knows_agent id s = not (is_empty (keep (λ (a : AgentRecord). eq_bytes a.id id) s.agents))

abbrev pub has_pair : Chars → ℕ → List (Chars × ℕ) → Bool
has_pair id n pairs = not (is_empty (keep (λ p. eq_bytes p.0 id && (p.1 == n)) pairs))

unfoldable pub merge_schema :
    Chars → Chars → Chars → List Chars → List (Chars × Chars) → Db → Db × Option StoreError
merge_schema db table agent_id tag_keys field_defs s =
    let s1 = ensure_table db table (ensure_db db s) in
    elim (table_row db table s1) [
      | none ↦ (s1, some get_table_id)
      | some row ↦
          if has_pair agent_id row.id s1.agent_tables
          then (add_tags row.id tag_keys (add_fields row.id field_defs s1), none)
          else if knows_agent agent_id s1
          then (
            add_tags row.id tag_keys (
                add_fields row.id field_defs
                  (record s1 { agent_tables = s1.agent_tables ++ ((agent_id, row.id) ∷ []) })),
            none,
          )
          else (s1, some record_agent_table)
    ]

abbrev pub tombstone_names : List (Chars × ℤ) → List Chars
tombstone_names = map (λ p. p.0)

unfoldable pub is_tombstoned : Chars → Db → Bool
is_tombstoned file_name s = has_text file_name (tombstone_names s.compaction_tombstones)

unfoldable pub tombstone_files : ℤ → List Chars → Db → Db
tombstone_files now_ms [] s = s
tombstone_files now_ms (name ∷ names) s = tombstone_files now_ms names (
    if is_tombstoned name s
    then s
    else record s { compaction_tombstones = s.compaction_tombstones ++ ((name, now_ms) ∷ []) })

unfoldable pub prune_tombstones : ℤ → Db → Db
prune_tombstones older_than_ms s = record s {
  compaction_tombstones = keep (λ p. not (ltb_ℤ p.1 older_than_ms)) s.compaction_tombstones;
}

-- `path.extension()` is "parquet".
unfoldable pub is_parquet : Chars → Bool
is_parquet name = elim (strip_suffix dot_parquet name) [
  | none ↦ false
  | some stem ↦ not (is_empty stem)
]

-- The variables of the loop of `recount_table`.
abbrev pub Count : Type 0
Count = ℤ × ℤ × ℕ

-- One entry of the directory: its name, and its statistics where they can be read.
unfoldable pub count_file : Chars × Option Stats → Count → Count
count_file (name, stats) (time_min, time_max, total_rows) =
    if is_parquet name
    then elim stats [
      | none ↦ (time_min, time_max, total_rows)
      | some st ↦
          (sql_min time_min st.time_min, sql_max time_max st.time_max, total_rows + st.row_count)
    ]
    else (time_min, time_max, total_rows)

unfoldable pub count_files : List (Chars × Option Stats) → Count → Count
count_files [] count = count
count_files (f ∷ files) count = count_files files (count_file f count)

-- The UPDATE of `recount_table`: it replaces.
unfoldable pub with_count : ℤ → Count → TableRow → TableRow
with_count now_ms (time_min, time_max, total_rows) t = record t {
  time_min = if eq_ℤ time_min i64_max then none else some time_min;
  time_max = if eq_ℤ time_max i64_min then none else some time_max;
  total_rows = total_rows;
  updated_at = some now_ms;
}

-- `files` are the entries of the table's directory, none if it does not exist.
unfoldable pub recount_table : ℤ → Chars → Chars → List (Chars × Option Stats) → Db → Db
recount_table now_ms db table files s =
    let s1 = ensure_table db table (ensure_db db s) in
    let count : Count = count_files files (i64_max, i64_min, 0) in
    record s1 { tables = update_rows (is_table db table) (with_count now_ms count) s1.tables }
