-- ===== src/Snapshot/Cycle.antt =====
-- src/agent/flush/scheduler.rs, `do_snapshot`: each table with closed chunks is serialized, uploaded or
-- staged, and handed off. The parquet writer and the upload are parameters: what the first makes of a
-- table and its chunks, and whether the second succeeds.
pub mod Durable
use iedb.Base.{
  ℕ, ◌+◌, String, Bool, true, false, Option, none, some, List, [], ◌∷◌, ◌++◌, length, option_get_or,
  if◌then◌else◌, ℤ, pos,
}
use Prim.Native.Nat.{max}
use iedb.Chunk.{Chunk}
use iedb.Table.{Table}
use iedb.Buffer.{Buffer, get_table}
use iedb.Wal.Manager.{Disk, WalManager}
use iedb.Snapshot.{
  snapshot_marker, chunks_to_flush, capture, captured_counts, MetaOutcome, complete_chunk_handoff,
}
use iedb.Staging.{StagedFile, SaveOutcome, staging_save, Upload}

pub record SnapshotStatus : Type 0 where
  pub last_at : Option ℤ
  pub upload_ok : Bool
  pub last_size_bytes : ℕ
  pub next_in_secs : ℤ

-- What the scheduler shares with the other tasks, the staging directory, and what the backend has.
pub record Cluster : Type 0 where
  pub buffer : Buffer
  pub wal : WalManager
  pub disk : Disk
  pub staging : List StagedFile
  pub uploaded : List Upload
  pub status : SnapshotStatus

-- What the outside does while one table is flushed.
pub record Outcome : Type 0 where
  pub accepted : Bool
  pub save : SaveOutcome
  pub meta : MetaOutcome
  pub now_ms : ℤ

pub data TableResult : Type 0 where
  uploaded_ok : TableResult
  staged_ok : TableResult
  table_failed : TableResult

abbrev pub first_of : (Chunk → ℤ) → List Chunk → ℤ
first_of f [] = pos 0
first_of f (c ∷ cs) = f c

-- `chunks.iter().map(|c| c.max_wal_seq).max().unwrap_or(0)`
unfoldable pub serialized_max_wal : List Chunk → ℕ
serialized_max_wal [] = 0
serialized_max_wal (c ∷ cs) = max c.max_wal_seq (serialized_max_wal cs)

abbrev pub upload_for : String → String → List Chunk → List ℕ → Upload
upload_for db table chunks parquet_data = record {
  db = db;
  table = table;
  chunk_time = first_of (λ c. c.chunk_time) chunks;
  time_min = first_of (λ c. c.time_min) chunks;
  wal_seq = serialized_max_wal chunks;
  parquet_data = parquet_data;
}

-- The handoff, and the result where it returns `Ok`.
unfoldable pub hand_off :
    MetaOutcome → String → String → List Chunk → TableResult → Cluster → Cluster × TableResult
hand_off meta db table chunks result s =
    let r = complete_chunk_handoff meta db table (captured_counts chunks) s.buffer s.wal s.disk in
    (record s { buffer = r.0; disk = r.1 }, if r.2 then result else table_failed)

abbrev pub status_ok : ℤ → ℕ → SnapshotStatus → SnapshotStatus
status_ok now_ms size status = record status {
  last_at = some now_ms;
  upload_ok = true;
  last_size_bytes = size;
}

abbrev pub status_failed : ℕ → SnapshotStatus → SnapshotStatus
status_failed size status = record status { upload_ok = false; last_size_bytes = size }

-- From the upload's answer on.
unfoldable pub deliver :
    Outcome → String → String → List Chunk → List ℕ → Cluster → Cluster × TableResult
deliver o db table chunks parquet_data s =
    let up = upload_for db table chunks parquet_data in
    let saved = staging_save o.save db table up.chunk_time up.wal_seq parquet_data s.staging in
    if o.accepted
    then hand_off o.meta db table chunks uploaded_ok (record s {
      uploaded = s.uploaded ++ (up ∷ []);
      status = status_ok o.now_ms (length parquet_data) s.status;
    })
    else (let s' : Cluster = record s {
      staging = saved.0;
      status = status_failed (length parquet_data) s.status;
    } in
        if saved.1 then hand_off o.meta db table chunks staged_ok s' else (s', table_failed))

module _ (parquet : Table → List Chunk → Option (List ℕ)) where
  -- One round of the loop over `chunks_to_flush`.
  unfoldable pub flush_table : Outcome → String → String → List ℤ → Cluster → Cluster × TableResult
  flush_table o db table times s = elim (get_table db table s.buffer) [
    | none ↦ (s, table_failed)
    | some t ↦ elim (parquet t (capture times t.chunks)) [
      | none ↦ (s, table_failed)
      | some parquet_data ↦ deliver o db table (capture times t.chunks) parquet_data s
    ]
  ]

  -- The loop, which stops at the first table that fails; `outcome` is what happens at each.
  unfoldable pub flush_tables :
      (String → String → Outcome)
      → List (String × String × List ℤ)
      → ℕ
      → Cluster
      → Cluster × Option ℕ
  flush_tables outcome [] flushed_count s = (s, some flushed_count)
  flush_tables outcome ((db, table, times) ∷ tables) flushed_count s =
      let r = flush_table (outcome db table) db table times s in
      elim r.1 [
        | uploaded_ok ↦ flush_tables outcome tables (flushed_count + 1) r.0
        | staged_ok ↦ flush_tables outcome tables flushed_count r.0
        | table_failed ↦ (r.0, none)
      ]

  -- Without a count it has returned an error, or panicked.
  unfoldable pub do_snapshot : (String → String → Outcome) → ℤ → ℤ → Cluster → Cluster × Option ℕ
  do_snapshot outcome now_ns interval_secs s = elim (snapshot_marker now_ns interval_secs) [
    | none ↦ (s, none)
    | some marker ↦ flush_tables outcome (chunks_to_flush marker s.buffer) 0 s
  ]
