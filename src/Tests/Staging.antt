-- ===== src/Tests/Staging.antt =====
-- Staging, the snapshot of a table, and its schedule.
use iedb.Base.{
  ℕ, ◌≡◌, refl, Bool, true, false, ◌⊎◌, Option, none, some, List, [], ◌∷◌, ◌++◌, arith, pos, negsuc,
  In, eq_bytes,
}
use iedb.Base.Text.{digits, strip_suffix}
use iedb.Chunk.{Chunk, new_chunk}
use iedb.Table.{Table, new_table}
use iedb.Buffer.{get_table}
use iedb.Snapshot.{capture, meta_written}
use iedb.Snapshot.Cycle.{SnapshotStatus, Cluster, Outcome, upload_for, flush_table}
use iedb.Snapshot.Cycle.Durable.{HasCopy, Unchanged, flush_table_keeps}
use iedb.Staging.{
  saved, staging_name, parse_staging, Upload, staging_save, retry_staging, examine, reaped, is_tmp,
  dot_tmp,
}
use iedb.Staging.Names.{parse_staging-staging_name}
use iedb.Staging.Retry.{staged, upload_of, staged_until_delivered}
use iedb.Tests.Wal.{manager, disk}

name_of_a_window :
    staging_name (negsuc 119) 7
    ≡ b'-' ∷ b'1' ∷ b'2' ∷ b'0' ∷ b'_' ∷ b'7' ∷ b'.' ∷ b'p' ∷ b'a' ∷ b'r' ∷ b'q' ∷ b'u' ∷ b'e'
      ∷ b't' ∷ []
unfolding staging_name digits
name_of_a_window = refl

stale_tmp_goes :
    examine (record {
      db = "db1";
      table = "cpu";
      name = staging_name (pos 5) 0 ++ dot_tmp;
      content = none;
    })
    ≡ reaped
unfolding examine is_tmp strip_suffix staging_name digits eq_bytes
stale_tmp_goes = refl

parse_staging-staging_name_example :
    parse_staging (staging_name (negsuc 119) 7) ≡ some (negsuc 119, 7)
parse_staging-staging_name_example =
    parse_staging-staging_name (negsuc 119) 7 (omega arith, omega arith) (omega arith)

abbrev refuses : Upload → Bool
refuses _ = false

staged_until_delivered_example :
    In
      (upload_of "db1" "cpu" (pos 600) 4 (1 ∷ []))
      (retry_staging refuses (staging_save saved "db1" "cpu" (pos 600) 4 (1 ∷ []) []).0).1
    ⊎ In
        (staged "db1" "cpu" (pos 600) 4 (1 ∷ []))
        (retry_staging refuses (staging_save saved "db1" "cpu" (pos 600) 4 (1 ∷ []) []).0).0
staged_until_delivered_example =
    staged_until_delivered refuses "db1" "cpu" (pos 600) 4 (1 ∷ []) [] (omega arith, omega arith)
      (omega arith)

abbrev seq : ℕ
seq = 4

abbrev idle : SnapshotStatus
idle = record {
  last_at = some (pos 90000);
  upload_ok = true;
  last_size_bytes = 0;
  next_in_secs = pos 0;
}

abbrev window : Chunk
window = record (new_chunk (pos 0)) { min_wal_seq = 3; max_wal_seq = 3 }

abbrev cpu : Table
cpu = record (new_table "cpu") { chunks = window ∷ [] }

abbrev cluster : Cluster
cluster = record {
  buffer = record { databases = ("db1", ("cpu", cpu) ∷ []) ∷ [] };
  wal = manager;
  disk = disk;
  staging = [];
  uploaded = [];
  status = idle;
}

abbrev unreachable : Outcome
unreachable = record { accepted = false; save = saved; meta = meta_written; now_ms = pos 0 }

abbrev parquet : Table → List Chunk → Option (List ℕ)
parquet t cs = some (b'P' ∷ b'A' ∷ b'R' ∷ b'1' ∷ [])

flush_table_keeps_example :
    Unchanged cluster (flush_table parquet unreachable "db1" "cpu" (pos 0 ∷ []) cluster).0
    ⊎ ((t : Table) × (parquet_data : List ℕ) × (get_table "db1" "cpu" cluster.buffer ≡ some t)
        × (parquet t (capture (pos 0 ∷ []) t.chunks) ≡ some parquet_data)
        × HasCopy
            (upload_for "db1" "cpu" (capture (pos 0 ∷ []) t.chunks) parquet_data)
            (flush_table parquet unreachable "db1" "cpu" (pos 0 ∷ []) cluster).0)
flush_table_keeps_example = flush_table_keeps parquet unreachable "db1" "cpu" (pos 0 ∷ []) cluster
