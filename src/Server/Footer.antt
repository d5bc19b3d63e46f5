-- ===== src/Server/Footer.antt =====
-- src/server/metadata_store.rs, `read_parquet_stats`: what a parquet footer says of a file. The parquet
-- crate reads the footer; here it is what that crate's accessors return.
use iedb.Base.{
  ℕ, ◌+◌, ◌*◌, List, [], ◌∷◌, ◌++◌, Option, none, some, length, if◌then◌else◌, ◌==◌, ℤ, pos,
  i64_max, i64_min, eq_bytes,
}
use iedb.Base.Text.Codes.{Chars, codes}
use iedb.Server.Db.{as_i64, sql_min, sql_max}
use iedb.Table.Sorted.{eq_ℤ}

-- A column of a row group: `statistics` are the bytes of its minimum and maximum, where both are set.
pub record Column : Type 0 where
  pub name : Chars
  pub path : Chars
  pub physical_type : Chars
  pub statistics : Option (List ℕ × List ℕ)

pub record Footer : Type 0 where
  pub num_rows : ℕ
  pub row_groups : List (List Column)

unfoldable pub little_endian : List ℕ → ℕ
little_endian [] = 0
little_endian (b ∷ bs) = b + 256 * little_endian bs

-- `i64::from_le_bytes(bytes.try_into().unwrap_or([0; 8]))`
unfoldable pub i64_of_bytes : List ℕ → ℤ
i64_of_bytes bytes = if length bytes == 8 then as_i64 (little_endian bytes) else pos 0

-- The variables of the loops.
pub record Seen : Type 0 where
  pub time_min : ℤ
  pub time_max : ℤ
  pub field_defs : List (Chars × Chars)

abbrev pub nothing_seen : Seen
nothing_seen = record { time_min = i64_max; time_max = i64_min; field_defs = [] }

unfoldable pub read_column : Column → Seen → Seen
read_column col seen =
    if eq_bytes col.path (codes "time")
    then elim col.statistics [
      | none ↦ seen
      | some (min_bytes, max_bytes) ↦ record seen {
        time_min = sql_min seen.time_min (i64_of_bytes min_bytes);
        time_max = sql_max seen.time_max (i64_of_bytes max_bytes);
      }
    ]
    else record seen { field_defs = seen.field_defs ++ ((col.name, col.physical_type) ∷ []) }

unfoldable pub read_columns : List Column → Seen → Seen
read_columns [] seen = seen
read_columns (col ∷ cols) seen = read_columns cols (read_column col seen)

unfoldable pub read_groups : List (List Column) → Seen → Seen
read_groups [] seen = seen
read_groups (group ∷ groups) seen = read_groups groups (read_columns group seen)

pub record Stats : Type 0 where
  pub time_min : ℤ
  pub time_max : ℤ
  pub row_count : ℕ
  pub field_defs : List (Chars × Chars)

unfoldable pub read_parquet_stats : Footer → Stats
read_parquet_stats footer =
    let seen = read_groups footer.row_groups nothing_seen in
    record {
      time_min = if eq_ℤ seen.time_min i64_max then pos 0 else seen.time_min;
      time_max = if eq_ℤ seen.time_max i64_min then pos 0 else seen.time_max;
      row_count = footer.num_rows;
      field_defs = seen.field_defs;
    }
