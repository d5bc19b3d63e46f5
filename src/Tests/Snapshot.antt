-- ===== src/Tests/Snapshot.antt =====
-- The snapshot cycle: windows, the drain, the safe sequence, and the race with a write.
use iedb.Base.{
  ℕ, ◌<◌, ◌≡◌, refl, String, All, none, some, [], ◌∷◌, arith, pos, ◌+ℤ◌, ◌-ℤ◌, ◌≤ℤ◌, ◌<ℤ◌, In, inl,
  inr, u64_max,
}
use iedb.Base.Assoc.{get, modify, alter}
use iedb.Chunk.{Row, Chunk, new_chunk, rebuild_tag_index, index_rows, index_tags, push_posting}
use iedb.Table.{Table}
use iedb.Table.Sorted.{eq_ℤ, chunk_at}
use iedb.Buffer.{Buffer, new_buffer, get_table, with_table_mut}
use iedb.Wal.FileName.{file_seq, file_seq-wal_file_name}
use iedb.Wal.Manager.{Disk, written, flush, replay, load_last_snapshot}
use iedb.Snapshot.{
  truncate, snapshot_marker, interval_ns, end_time_marker, drain, drain_first, drain_captured,
  handoff_table, min_wal_databases, meta_written, complete_chunk_handoff,
}
use iedb.HotConfig.{mul_i64}
use iedb.Snapshot.Marker.{closed_window, marker_behind_clock}
use iedb.Snapshot.Handoff.Drain.{after_drain, chunk_at-handoff_captured}
use iedb.Snapshot.Handoff.SafeSeq.{handoff_keeps_files}
use iedb.Snapshot.Handoff.Invariant.{handoff_table-IsTable}
use iedb.Wal.Apply.Invariant.{IsTable}
use iedb.Snapshot.Handoff.Race.{handoff_overtakes_write}
use iedb.Tests.Wal.{manager, disk, disk-DiskBelow, old_file, toy_encode, toy_decode, toy_crc}

-- test_end_time_marker_10m_interval
marker_10m : end_time_marker (pos 1200000000000) 600000000000 ≡ pos 600000000000
unfolding end_time_marker truncate ◌-ℤ◌
marker_10m = refl

marker_early : end_time_marker (pos 590000000000) 600000000000 ≡ pos 0
unfolding end_time_marker truncate ◌-ℤ◌
marker_early = refl

-- 2^55 seconds are 0 nanoseconds on i64.
marker_panics : snapshot_marker (pos 1200000000000) (pos 36028797018963968) ≡ none
unfolding snapshot_marker interval_ns mul_i64
marker_panics = refl

closed_window_example : pos 5 +ℤ pos 10 <ℤ pos 25
closed_window_example = closed_window 25 10 (pos 5) (omega arith) (omega arith) bucket_of_5
  where
    bucket_of_5 : truncate (pos 5) 10 <ℤ end_time_marker (pos 25) 10
    bucket_of_5 = unfold truncate end_time_marker ◌-ℤ◌ in omega arith

marker_behind_clock_example :
    (end_time_marker (pos 25) 10 +ℤ pos 10 ≤ℤ pos 25)
    × (pos 25 <ℤ end_time_marker (pos 25) 10 +ℤ pos 20)
marker_behind_clock_example = marker_behind_clock 25 10 (omega arith) (omega arith)

abbrev row_of : ℕ → String → Row
row_of t host = record { time = pos t; tag_values = host ∷ []; field_values = [] }

-- Two rows of a window that was captured when it had one, and a window that was not captured.
abbrev half_captured : Chunk
half_captured = record (new_chunk (pos 0)) {
  rows = row_of 1 "srv01" ∷ row_of 2 "srv02" ∷ [];
  min_wal_seq = 3;
  max_wal_seq = 5;
}

abbrev untouched : Chunk
untouched = record (new_chunk (pos 10)) {
  rows = row_of 11 "srv01" ∷ [];
  min_wal_seq = 4;
  max_wal_seq = 4;
}

abbrev table : Table
table = record {
  name = "cpu";
  schema = record { tag_keys = "host" ∷ []; field_defs = [] };
  chunks = half_captured ∷ untouched ∷ [];
}

chunk_at-handoff_captured_example :
    chunk_at (pos 0) (handoff_table ((pos 0, 1) ∷ []) table).chunks
    ≡ some (after_drain ("host" ∷ []) (row_of 2 "srv02" ∷ []) half_captured)
unfolding eq_ℤ
chunk_at-handoff_captured_example =
    chunk_at-handoff_captured table (pos 0) half_captured (row_of 1 "srv01" ∷ [])
      (row_of 2 "srv02" ∷ []) [] [] (omega arith) refl refl tt tt

abbrev buffer : Buffer
buffer = record { databases = ("db", ("cpu", table) ∷ []) ∷ [] }

abbrev left_over : Chunk
left_over = record half_captured {
  rows = row_of 2 "srv02" ∷ [];
  tag_index = ("host", ("srv02", 0 ∷ []) ∷ []) ∷ [];
}

abbrev left_table : Table
left_table = record table { chunks = left_over ∷ untouched ∷ [] }

left_in_buffer :
    get_table "db" "cpu"
      (complete_chunk_handoff meta_written "db" "cpu" ((pos 0, 1) ∷ []) buffer manager disk).0
    ≡ some left_table
unfolding complete_chunk_handoff get_table with_table_mut modify get handoff_table drain_captured
    drain_first drain rebuild_tag_index index_rows index_tags push_posting alter eq_ℤ
left_in_buffer = refl

handoff_keeps_files_example :
    In
      (old_file 3)
      (complete_chunk_handoff meta_written "db" "cpu"
        ((pos 0, 1) ∷ [])
        buffer
        manager
        disk).1.wal_files
    × (load_last_snapshot
          (complete_chunk_handoff meta_written "db" "cpu" ((pos 0, 1) ∷ []) buffer manager disk).1
        < 3)
handoff_keeps_files_example =
    handoff_keeps_files "db" "cpu" ((pos 0, 1) ∷ []) buffer manager disk "db" "cpu" left_table
      left_over (old_file 3) 3 left_in_buffer (inl refl) (omega arith) (omega arith)
      (inr (inl refl)) (file_seq-wal_file_name 3 (omega arith)) (omega arith)

emptied :
    min_wal_databases u64_max
      (with_table_mut "db" "cpu" (handoff_table ((pos 0, 2) ∷ (pos 10, 1) ∷ [])) buffer).databases
    ≡ u64_max
unfolding with_table_mut modify handoff_table drain_captured drain_first drain rebuild_tag_index
    min_wal_databases iedb.Snapshot.min_wal_tables iedb.Snapshot.min_wal_chunks eq_ℤ
emptied = refl

abbrev overtaken : Disk
overtaken =
    (complete_chunk_handoff meta_written "db" "cpu" ((pos 0, 2) ∷ (pos 10, 1) ∷ []) buffer
      (flush toy_encode toy_decode toy_crc written (pos 0) manager disk).0
      (flush toy_encode toy_decode toy_crc written (pos 0) manager disk).1).1

handoff_overtakes_write_example :
    (load_last_snapshot overtaken ≡ manager.current_seq)
    × All (λ f. file_seq f.name ≡ none) overtaken.wal_files
    × (replay toy_encode toy_decode toy_crc overtaken new_buffer ≡ new_buffer)
handoff_overtakes_write_example =
    handoff_overtakes_write toy_encode toy_decode toy_crc (pos 0) manager disk "db" "cpu"
      ((pos 0, 2) ∷ (pos 10, 1) ∷ []) buffer new_buffer (disk-DiskBelow 4 (omega arith))
      (omega arith) refl emptied

-- A window of two rows under its index.
abbrev indexed_table : Table
indexed_table = record table { chunks = rebuild_tag_index ("host" ∷ []) half_captured ∷ [] }

handoff_table-IsTable_example : IsTable (handoff_table ((pos 0, 1) ∷ []) indexed_table)
unfolding rebuild_tag_index
handoff_table-IsTable_example =
    handoff_table-IsTable ((pos 0, 1) ∷ []) indexed_table (record {
      distinct = (tt, tt);
      ascending = (tt, tt);
      indexed = (refl, tt);
      fits = omega arith;
    })
