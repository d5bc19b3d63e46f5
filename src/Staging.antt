-- ===== src/Staging.antt =====
-- src/agent/flush/http_upload.rs, `staging_save`, and scheduler.rs, `retry_staging`: parquet files that
-- could not be uploaded wait in a directory, under names that the retry takes apart again.
pub mod Names
pub mod Retry
pub mod Target
use iedb.Base.{
  ℕ, ◌+◌, String, Bool, true, false, ◌&&◌, Option, none, some, List, [], ◌∷◌, ◌++◌, ltb,
  if◌then◌else◌, ℤ, eq_bytes, str_eq,
}
use iedb.Base.Parse.{parse_i64}
use iedb.Base.Text.{nat_text, int_text, strip_suffix, split_once}
use iedb.Wal.FileName.{parse_u64}

abbrev pub dot_parquet : List ℕ
dot_parquet = b'.' ∷ b'p' ∷ b'a' ∷ b'r' ∷ b'q' ∷ b'u' ∷ b'e' ∷ b't' ∷ []

abbrev pub dot_tmp : List ℕ
dot_tmp = b'.' ∷ b't' ∷ b'm' ∷ b'p' ∷ []

unfoldable pub staging_name : ℤ → ℕ → List ℕ
staging_name chunk_time wal_seq =
    if ltb 0 wal_seq
    then int_text chunk_time ++ ((b'_' ∷ nat_text wal_seq) ++ dot_parquet)
    else int_text chunk_time ++ dot_parquet

-- The closure of `retry_staging`, on the name without `.parquet`.
abbrev pub stem_parts : List ℕ → Option (ℤ × ℕ)
stem_parts s = elim (split_once b'_' s) [
  | some (a, b) ↦ elim (parse_i64 a) [
    | none ↦ none
    | some ct ↦ elim (parse_u64 b) [ none ↦ none | some wal ↦ some (ct, wal) ]
  ]
  | none ↦ elim (parse_i64 s) [ none ↦ none | some ct ↦ some (ct, 0) ]
]

unfoldable pub parse_staging : List ℕ → Option (ℤ × ℕ)
parse_staging name = elim (strip_suffix dot_parquet name) [ none ↦ none | some s ↦ stem_parts s ]

-- A file of the directory `staging/<db>/<table>`; `content` is what reading it returns.
pub record StagedFile : Type 0 where
  pub db : String
  pub table : String
  pub name : List ℕ
  pub content : Option (List ℕ)

-- How a save ends: it is complete, or it fails and may leave a `.tmp` file with some bytes.
pub data SaveOutcome : Type 0 where
  saved : SaveOutcome
  save_failed : Option (List ℕ) → SaveOutcome

-- A file under a name in the directory of its table, which replaces one of that name.
unfoldable pub put : StagedFile → List StagedFile → List StagedFile
put file [] = file ∷ []
put file (f ∷ files) =
    if str_eq f.db file.db && (str_eq f.table file.table && eq_bytes f.name file.name)
    then file ∷ files
    else f ∷ put file files

-- `staging_save`: the `.tmp` file is renamed once it is complete and synced.
unfoldable pub staging_save :
    SaveOutcome → String → String → ℤ → ℕ → List ℕ → List StagedFile → List StagedFile × Bool
staging_save saved db table chunk_time wal_seq parquet_data files = (
  put
      (record {
        db = db;
        table = table;
        name = staging_name chunk_time wal_seq;
        content = some parquet_data;
      })
      files,
  true,
)
staging_save (save_failed none) db table chunk_time wal_seq parquet_data files = (files, false)
staging_save (save_failed (some part)) db table chunk_time wal_seq parquet_data files = (
  put
      (record {
        db = db;
        table = table;
        name = staging_name chunk_time wal_seq ++ dot_tmp;
        content = some part;
      })
      files,
  false,
)

-- What an upload carries: `time_min` is what the s3 backend builds its key from.
pub record Upload : Type 0 where
  pub db : String
  pub table : String
  pub chunk_time : ℤ
  pub time_min : ℤ
  pub wal_seq : ℕ
  pub parquet_data : List ℕ

-- What becomes of one file of the directory.
pub data Retried : Type 0 where
  reaped : Retried
  kept : Retried
  offered : Upload → Retried

-- `name.ends_with(".parquet.tmp")`
unfoldable pub is_tmp : List ℕ → Bool
is_tmp name = elim (strip_suffix (dot_parquet ++ dot_tmp) name) [ none ↦ false | some _ ↦ true ]

-- The body of the innermost loop up to the upload.
unfoldable pub examine : StagedFile → Retried
examine f = if is_tmp f.name then reaped else elim (parse_staging f.name) [
  | none ↦ kept
  | some (ct, wal) ↦ elim f.content [
    | none ↦ kept
    | some parquet_data ↦ offered (record {
      db = f.db;
      table = f.table;
      chunk_time = ct;
      time_min = ct;
      wal_seq = wal;
      parquet_data = parquet_data;
    })
  ]
]

-- The files that stay, the uploads that the backend accepted, and their number.
abbrev pub Round : Type 0
Round = List StagedFile × List Upload × ℕ

-- The upload, and what becomes of the file; `accepts` is the backend's answer.
unfoldable pub place : (Upload → Bool) → StagedFile → Retried → Round → Round
place accepts f reaped (stay, sent, delivered) = (stay, sent, delivered)
place accepts f kept (stay, sent, delivered) = (f ∷ stay, sent, delivered)
place accepts f (offered up) (stay, sent, delivered) =
    if accepts up then (stay, up ∷ sent, delivered + 1) else (f ∷ stay, sent, delivered)

-- `retry_staging`, where the directories can be read.
unfoldable pub retry_staging : (Upload → Bool) → List StagedFile → Round
retry_staging accepts [] = ([], [], 0)
retry_staging accepts (f ∷ files) = place accepts f (examine f) (retry_staging accepts files)
