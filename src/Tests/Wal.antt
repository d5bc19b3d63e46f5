-- ===== src/Tests/Wal.antt =====
-- The write-ahead log: names, files, the manager and the replay.
use iedb.Base.{
  ℕ, ◌+◌, ◌<◌, ◌^◌, ◌%◌, ◌≡◌, refl, none, some, List, [], ◌∷◌, ◌++◌, take, arith, IsU64, pos,
  eq_bytes,
}
use iedb.Chunk.{Row}
use iedb.Buffer.{new_buffer}
use iedb.Wal.{WriteBatch, write, noop, WalContents}
use iedb.Wal.Apply.{apply_ops}
use iedb.Wal.FileName.{
  wal_file_name, file_seq, strip_wal, parse_u64, parse_digits, padded, file_seq-wal_file_name,
}
use iedb.Wal.Serialize
use iedb.Wal.Serialize.{
  crc_mismatch, too_short, file_type_identifier, to_le_bytes, from_le_bytes, serialize_to_file,
  deserialize_from_file,
}
use iedb.Wal.Serialize.Laws.{deserialize-serialize, corrupted_payload}
use iedb.Wal.Manager.{File, Disk, WalManager, written, load_last_snapshot, flush, replay, cleanup}
use iedb.Wal.Manager.Order.{SeqBelow, DiskBelow}
use iedb.Wal.Manager.Replay.{ReadsBack, replay-flush, replay-cleanup}

-- The forms of a number that `parse::<u64>` accepts and refuses.
parse_plus : parse_u64 (b'+' ∷ b'7' ∷ []) ≡ some 7
unfolding parse_u64 parse_digits eq_bytes
parse_plus = refl

parse_lone_plus : parse_u64 (b'+' ∷ []) ≡ none
unfolding parse_u64 parse_digits eq_bytes
parse_lone_plus = refl

not_a_wal_name : file_seq (b'1' ∷ b'.' ∷ b't' ∷ b'm' ∷ b'p' ∷ []) ≡ none
unfolding file_seq strip_wal eq_bytes
not_a_wal_name = refl

name_of_7 : take 19 (wal_file_name 7) ≡ take 19 (padded 19 0)
unfolding wal_file_name padded
name_of_7 = refl

file_seq-wal_file_name_example :
    file_seq (wal_file_name 18446744073709551615) ≡ some 18446744073709551615
file_seq-wal_file_name_example = file_seq-wal_file_name 18446744073709551615 (omega arith)

abbrev pub row : Row
row = record { time = pos 100; tag_values = "srv01" ∷ []; field_values = [] }

abbrev pub batch : WriteBatch
batch = record {
  db_name = "db1";
  table_name = "tbl1";
  chunk_time = pos 0;
  field_names = [];
  tag_keys = "host" ∷ [];
  rows = row ∷ [];
}

abbrev pub contents : WalContents
contents = record {
  wal_file_number = 4;
  ops = write batch ∷ noop ∷ [];
  persist_timestamp_ms = pos 1700000000000;
}

-- A codec that knows one content, and a checksum.
abbrev pub toy_encode : WalContents → List ℕ
toy_encode _ = 1 ∷ 2 ∷ 3 ∷ []

abbrev pub toy_decode : List ℕ → Serialize.Result WalContents
toy_decode _ = Serialize.ok contents

pub sum_bytes : List ℕ → ℕ
sum_bytes [] = 0
sum_bytes (b ∷ bs) = b + sum_bytes bs

abbrev pub toy_crc : List ℕ → ℕ
toy_crc p = sum_bytes p % 2 ^ 32

pub toy_crc_fits : (p : List ℕ) → toy_crc p < 2 ^ 32
toy_crc_fits p = omega arith

deserialize-serialize_example :
    deserialize_from_file toy_encode toy_decode toy_crc
      (serialize_to_file toy_encode toy_decode toy_crc contents)
    ≡ Serialize.ok contents
deserialize-serialize_example =
    deserialize-serialize toy_encode toy_decode toy_crc toy_crc_fits contents refl

corrupted_payload_example :
    deserialize_from_file toy_encode toy_decode toy_crc
      (take 12 (serialize_to_file toy_encode toy_decode toy_crc contents) ++ (1 ∷ 2 ∷ 4 ∷ []))
    ≡ Serialize.err (crc_mismatch (toy_crc (1 ∷ 2 ∷ 3 ∷ [])) (toy_crc (1 ∷ 2 ∷ 4 ∷ [])))
unfolding sum_bytes
corrupted_payload_example =
    corrupted_payload toy_encode toy_decode toy_crc toy_crc_fits contents (1 ∷ 2 ∷ 4 ∷ [])
      (omega arith)

short_file :
    deserialize_from_file toy_encode toy_decode toy_crc (1 ∷ 2 ∷ []) ≡ Serialize.err too_short
unfolding deserialize_from_file
short_file = refl

abbrev good_file : List ℕ
good_file = file_type_identifier ++ (6 ∷ 0 ∷ 0 ∷ 0 ∷ 1 ∷ 2 ∷ 3 ∷ [])

good_file_reads :
    deserialize_from_file toy_encode toy_decode toy_crc good_file ≡ Serialize.ok contents
unfolding deserialize_from_file eq_bytes from_le_bytes sum_bytes
good_file_reads = refl

abbrev pub manager : WalManager
manager = record {
  current_seq = 4;
  op_count = 2;
  op_limit = 5;
  pending_ops = write batch ∷ noop ∷ [];
  hot = none;
}

abbrev pub old_file : ℕ → File
old_file seq = record { name = wal_file_name seq; content = some (1 ∷ []) }

abbrev pub disk : Disk
disk = record { wal_files = old_file 2 ∷ old_file 3 ∷ []; last_snapshot = some 2 }

old_file-SeqBelow : (n seq : ℕ) → IsU64 seq → seq < n → SeqBelow n (old_file seq)
old_file-SeqBelow n seq u h s e = ground (arith, file_seq-wal_file_name seq u)

pub disk-DiskBelow : (n : ℕ) → 3 < n → DiskBelow n disk
unfolding load_last_snapshot
disk-DiskBelow n h = (
  (old_file-SeqBelow n 2 (omega arith) (omega arith), (old_file-SeqBelow n 3 (omega arith) h, tt)),
  omega arith,
)

reads_back : ReadsBack toy_encode toy_decode toy_crc contents
reads_back = deserialize-serialize toy_encode toy_decode toy_crc toy_crc_fits contents refl

replay-flush_example :
    replay toy_encode toy_decode toy_crc
      (flush toy_encode toy_decode toy_crc written (pos 1700000000000) manager disk).1
      new_buffer
    ≡ apply_ops (write batch ∷ noop ∷ []) 4 (replay toy_encode toy_decode toy_crc disk new_buffer)
replay-flush_example =
    replay-flush toy_encode toy_decode toy_crc (pos 1700000000000) manager disk new_buffer
      (disk-DiskBelow 4 (omega arith)) (omega arith) refl reads_back

replay-cleanup_example :
    replay toy_encode toy_decode toy_crc (cleanup 2 disk) new_buffer
    ≡ replay toy_encode toy_decode toy_crc disk new_buffer
unfolding load_last_snapshot
replay-cleanup_example =
    replay-cleanup toy_encode toy_decode toy_crc 2 disk new_buffer (omega arith)
