-- ===== src/Tests/Write.antt =====
-- The write path: batches of a request, its commit, and restarts.
use iedb.Base.{◌≡◌, refl, true, none, some, [], ◌∷◌, ◌++◌, arith, ℤ, pos, u64_max, keep}
use iedb.Chunk.{FieldValue, Row}
use iedb.Buffer.{new_buffer}
use iedb.Wal.{write}
use iedb.Wal.Apply.{apply_ops}
use iedb.Wal.Manager.{Disk, written, buffer_full, new_manager, max_seq, load_last_snapshot, replay}
use iedb.Wal.Manager.Order.{DiskBelow}
use iedb.Snapshot.{truncate}
use iedb.Write.{
  ParsedLine, line_i64, line_boolean, rows_by_table, add_line, line_row, field_value, sort_pairs,
  insert_pair, push_row, group_rows, total_rows,
}
use iedb.Write.Grouping.{Buckets, rows_at, in_bucket, group_rows_lem}
use iedb.Write.Commit.{Agent, WriteConfig, Request, no_content, service_unavailable, commit, handle}
use iedb.Write.Commit.Lifecycle.{boot, Run, done, step, request, restart, restart_restores}
use iedb.Write.Commit.Refused.{commit_refused}
use iedb.Write.Commit.Durable.{commit_durable}
use iedb.Base.Assoc.{alter}
use iedb.Tests.Wal.{batch, manager, disk, disk-DiskBelow, toy_crc, toy_crc_fits}
use iedb.Tests.Codec.Contents.{encode, decode, contents_read_back}

-- cpu,region=eu,host=a usage=1i,on=t 15
abbrev line : ParsedLine
line = record {
  measurement = "cpu";
  tag_set = some (("region", "eu") ∷ ("host", "a") ∷ []);
  field_set = ("usage", line_i64 (pos 1)) ∷ ("on", line_boolean true) ∷ [];
  timestamp = some (pos 15);
}

abbrev row : Row
row = record {
  time = pos 15;
  tag_values = "a" ∷ "eu" ∷ [];
  field_values = some (FieldValue.i64 (pos 1)) ∷ some (FieldValue.bool true) ∷ [];
}

-- The tags are sorted by key, and the line that does not parse is skipped.
one_table :
    rows_by_table ((pos 0, some line) ∷ (pos 0, none) ∷ []) []
    ≡ (
      "cpu",
      record {
        field_names = "usage" ∷ "on" ∷ [];
        tag_keys = "host" ∷ "region" ∷ [];
        rows = row ∷ [];
      },
    )
      ∷ []
unfolding rows_by_table add_line line_row field_value sort_pairs insert_pair alter
one_table = refl

abbrev at : ℤ → Row
at t = record row { time = t }

two_buckets :
    group_rows 10 (at (pos 15) ∷ at (pos 3) ∷ at (pos 19) ∷ []) []
    ≡ (pos 0, at (pos 3) ∷ []) ∷ (pos 10, at (pos 15) ∷ at (pos 19) ∷ []) ∷ []
unfolding group_rows push_row truncate
two_buckets = refl

group_rows_lem_example :
    Buckets (group_rows 10 (at (pos 15) ∷ at (pos 3) ∷ at (pos 19) ∷ []) [])
    × (rows_at (pos 10) (group_rows 10 (at (pos 15) ∷ at (pos 3) ∷ at (pos 19) ∷ []) [])
        ≡ keep (in_bucket 10 (pos 10)) (at (pos 15) ∷ at (pos 3) ∷ at (pos 19) ∷ []))
group_rows_lem_example = group_rows_lem 10 (pos 10) (at (pos 15) ∷ at (pos 3) ∷ at (pos 19) ∷ [])

abbrev agent : Agent
agent = record { wal = manager; disk = disk; buffer = new_buffer }

-- Two ops wait, and five fit.
commit_refused_example :
    ((commit encode decode toy_crc written (pos 0) (batch ∷ batch ∷ batch ∷ batch ∷ []) agent).1
      ≡ service_unavailable (buffer_full 5))
    × ((commit encode decode toy_crc written
          (pos 0)
          (batch ∷ batch ∷ batch ∷ batch ∷ [])
          agent).0.disk
        ≡ disk)
    × ((commit encode decode toy_crc written
          (pos 0)
          (batch ∷ batch ∷ batch ∷ batch ∷ [])
          agent).0.buffer
        ≡ new_buffer)
    × ((commit encode decode toy_crc written
          (pos 0)
          (batch ∷ batch ∷ batch ∷ batch ∷ [])
          agent).0.wal.pending_ops
        ≡ manager.pending_ops ++ (write batch ∷ write batch ∷ write batch ∷ []))
commit_refused_example =
    commit_refused encode decode toy_crc written (pos 0) (batch ∷ batch ∷ batch ∷ batch ∷ []) agent
      refl (omega arith) (omega arith)

commit_durable_example :
    ((commit encode decode toy_crc written (pos 0) (batch ∷ batch ∷ []) agent).1
      ≡ no_content (total_rows (batch ∷ batch ∷ [])))
    × (replay encode decode toy_crc
          (commit encode decode toy_crc written (pos 0) (batch ∷ batch ∷ []) agent).0.disk
          new_buffer
        ≡ apply_ops
            (manager.pending_ops ++ (write batch ∷ write batch ∷ []))
            4
            (replay encode decode toy_crc disk new_buffer))
commit_durable_example =
    commit_durable encode decode toy_crc (pos 0) batch (batch ∷ []) agent new_buffer refl
      (omega arith) (disk-DiskBelow 4 (omega arith)) (omega arith)
      (contents_read_back toy_crc toy_crc_fits)

abbrev flushed_disk : Disk
flushed_disk = record { wal_files = []; last_snapshot = some 2 }

abbrev config : WriteConfig
config = record { max_body_bytes = 1000; snapshot_interval_secs = pos 600; hot = none }

abbrev post : Request
post = record {
  is_post = true;
  content_length = none;
  query = some (("db", "metrics") ∷ []);
  body = some (record { size = 40; lines = some ((pos 0, some line) ∷ []) });
}

flushed_disk-DiskBelow : DiskBelow u64_max flushed_disk
unfolding load_last_snapshot
flushed_disk-DiskBelow = (tt, omega arith)

abbrev booted : Agent
booted = boot encode decode toy_crc 5 5 flushed_disk

-- A restart, and then a request.
two_steps :
    Run encode decode toy_crc booted
      (handle encode decode toy_crc written (pos 0) config post booted).0
unfolding boot new_manager max_seq load_last_snapshot
two_steps =
    step (restart 5 5 flushed_disk-DiskBelow)
      (step (request written (pos 0) config post tt (omega arith)) done)

restart_restores_example :
    (boot encode decode toy_crc 9 9
      (handle encode decode toy_crc written (pos 0) config post booted).0.disk).buffer
    ≡ (handle encode decode toy_crc written (pos 0) config post booted).0.buffer
restart_restores_example =
    restart_restores encode decode toy_crc 5 5 9 9 flushed_disk
      (handle encode decode toy_crc written (pos 0) config post booted).0
      (contents_read_back toy_crc toy_crc_fits) flushed_disk-DiskBelow two_steps
