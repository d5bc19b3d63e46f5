-- ===== src/Wal/Manager.antt =====
-- src/agent/wal/wal_core.rs, `WalManager`: the files of the log, the ops that wait for a flush, the
-- replay at startup and the cleanup. The disk outlives the manager, so it is a state of its own.
pub mod Limit
pub mod Order
pub mod Replay
pub mod Covered
pub mod Flushed
use iedb.Base.{
  ℕ, zero, suc, ◌+◌, Bool, true, false, Option, none, some, List, [], ◌∷◌, ◌++◌, length,
  option_get_or, ltb, leb, if◌then◌else◌, is_empty, keep, ℤ, eq_bytes, wrapping_add,
}
use Prim.Native.Nat.{max}
use iedb.Buffer.{Buffer}
use iedb.Wal.{WalOp, WalContents}
use iedb.Wal.Apply.{apply_ops}
use iedb.Wal.FileName.{wal_file_name, file_seq}
use iedb.Wal.Serialize
use iedb.Wal.Serialize.{serialize_to_file, deserialize_from_file}

-- `content` is what reading the file returns: `none` is a read error.
pub record File : Type 0 where
  pub name : List ℕ
  pub content : Option (List ℕ)

-- The directory `wal`, in the order of `read_dir`, and the `flushed_wal_seq` of
-- `meta/last_snapshot.json`: `none` if the file is missing or does not parse.
pub record Disk : Type 0 where
  pub wal_files : List File
  pub last_snapshot : Option ℕ

-- `hot` is the `wal_max_buffer_ops` of an attached HotConfig.
pub record WalManager : Type 0 where
  pub current_seq : ℕ
  pub op_count : ℕ
  pub op_limit : ℕ
  pub pending_ops : List WalOp
  pub hot : Option ℕ

pub data WalError : Type 0 where
  buffer_full : ℕ → WalError
  write_error : WalError

pub data WalResult (A : Type 0) : Type 0 where
  ok : A → WalResult A
  err : WalError → WalResult A

unfoldable pub load_last_snapshot : Disk → ℕ
load_last_snapshot d = option_get_or 0 d.last_snapshot

-- `max_seq.map_or(seq, |m| m.max(seq))`, where the name of the file gives a number.
abbrev pub seen : Option ℕ → Option ℕ → Option ℕ
seen acc none = acc
seen none (some seq) = some seq
seen (some m) (some seq) = some (max m seq)

-- The loop of `max_wal_seq`, from the maximum so far.
unfoldable pub max_seq : Option ℕ → List File → Option ℕ
max_seq acc [] = acc
max_seq acc (f ∷ files) = max_seq (seen acc (file_seq f.name)) files

-- `WalManager::new`, where both directories could be made.
unfoldable pub new_manager : ℕ → Disk → WalManager
new_manager op_limit d = record {
  current_seq =
      wrapping_add (max (option_get_or 0 (max_seq none d.wal_files)) (load_last_snapshot d)) 1;
  op_count = 0;
  op_limit = op_limit;
  pending_ops = [];
  hot = none;
}

abbrev pub set_hot_config : ℕ → WalManager → WalManager
set_hot_config limit m = record m { hot = some limit }

abbrev pub limit_of : WalManager → ℕ
limit_of m = elim m.hot [ none ↦ m.op_limit | some limit ↦ limit ]

unfoldable pub buffer_op : WalOp → WalManager → WalManager × WalResult (Unit {0})
buffer_op op m =
    if leb (limit_of m) m.op_count
    then (m, err (buffer_full m.op_count))
    else (record m { op_count = m.op_count + 1; pending_ops = m.pending_ops ++ (op ∷ []) }, ok tt)

-- How a write of a file ends: it is written, or it fails and may leave some bytes under the name.
pub data WriteOutcome : Type 0 where
  written : WriteOutcome
  failed : Option (List ℕ) → WriteOutcome

-- `fs::write` replaces a file of the name, or makes one.
unfoldable pub write_file : List ℕ → List ℕ → List File → List File
write_file name bytes [] = (record { name = name; content = some bytes }) ∷ []
write_file name bytes (f ∷ files) =
    if eq_bytes f.name name
    then (record { name = f.name; content = some bytes }) ∷ files
    else f ∷ write_file name bytes files

unfoldable pub after_write : List ℕ → List ℕ → WriteOutcome → List File → List File
after_write name bytes written files = write_file name bytes files
after_write name bytes (failed none) files = files
after_write name bytes (failed (some torn)) files = write_file name torn files

-- A stable sort by key: `wal_files.sort_by_key(|(seq, _)| *seq)`.
unfoldable pub insert_sorted : ℕ × File → List (ℕ × File) → List (ℕ × File)
insert_sorted (s, f) [] = (s, f) ∷ []
insert_sorted (s, f) ((t, g) ∷ l) =
    if leb s t then (s, f) ∷ (t, g) ∷ l else (t, g) ∷ insert_sorted (s, f) l

unfoldable pub sort_by_seq : List (ℕ × File) → List (ℕ × File)
sort_by_seq [] = []
sort_by_seq (p ∷ l) = insert_sorted p (sort_by_seq l)

-- The files that `replay` collects.
unfoldable pub unflushed : ℕ → List File → List (ℕ × File)
unflushed flushed_seq [] = []
unflushed flushed_seq (f ∷ files) = elim (file_seq f.name) [
  | none ↦ unflushed flushed_seq files
  | some seq ↦
      if ltb flushed_seq seq
      then (seq, f) ∷ unflushed flushed_seq files
      else unflushed flushed_seq files
]

module _ (encode : WalContents → List ℕ) (decode : List ℕ → Serialize.Result WalContents)
    (crc32 : List ℕ → ℕ) where
  -- The outcome of the write and the time come from outside.
  unfoldable pub flush :
      WriteOutcome → ℤ → WalManager → Disk → WalManager × Disk × WalResult (List WalOp)
  flush outcome now m d =
      if is_empty m.pending_ops
      then (m, d, ok [])
      else (let contents : WalContents = record {
        wal_file_number = m.current_seq;
        ops = m.pending_ops;
        persist_timestamp_ms = now;
      } in
          let file = serialize_to_file encode decode crc32 contents in
          let taken = record m { pending_ops = []; op_count = 0 } in
          let d' = record d {
            wal_files = after_write (wal_file_name m.current_seq) file outcome d.wal_files;
          } in
          elim outcome [
            | written ↦
                (record taken { current_seq = wrapping_add m.current_seq 1 }, d', ok m.pending_ops)
            | failed _ ↦ (taken, d', err write_error)
          ])

  -- One file of the replay: an unreadable or corrupted file is skipped.
  unfoldable pub replay_file : ℕ × File → Buffer → Buffer
  replay_file (seq, f) b = elim f.content [
    | none ↦ b
    | some bytes ↦ elim (deserialize_from_file encode decode crc32 bytes) [
      | Serialize.ok contents ↦ apply_ops contents.ops seq b
      | Serialize.err _ ↦ b
    ]
  ]

  unfoldable pub replay_files : List (ℕ × File) → Buffer → Buffer
  replay_files [] b = b
  replay_files (p ∷ l) b = replay_files l (replay_file p b)

  -- `replay`, where `read_dir` succeeds.
  unfoldable pub replay : Disk → Buffer → Buffer
  replay d b = replay_files (sort_by_seq (unflushed (load_last_snapshot d) d.wal_files)) b

-- `cleanup(through_seq)`: a file goes if its name gives a sequence number up to that.
abbrev pub survives : ℕ → File → Bool
survives through_seq f = elim (file_seq f.name) [
  | none ↦ true
  | some seq ↦ if leb seq through_seq then false else true
]

unfoldable pub cleanup : ℕ → Disk → Disk
cleanup through_seq d = record d { wal_files = keep (survives through_seq) d.wal_files }
