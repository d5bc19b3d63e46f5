-- ===== src/Staging/Target.antt =====
-- src/agent/flush/scheduler.rs, `upload_bytes`: where a backend puts a batch.
use iedb.Base.{
  ℕ, ◌≡◌, sym, ◌∙◌, ap, String, Option, some, option_get_or, List, [], ◌∷◌, ◌++◌, drop,
  if◌then◌else◌, ℤ, IsI64, IsU64, str_eq,
}
use iedb.Staging.{staging_name, parse_staging, Upload}
use iedb.Staging.Names.{parse_staging-staging_name}

-- A file below the data directory, an object of the time that its key is built from, or the
-- parameters of the ingest URL.
pub data Target : Type 0 where
  local_file : String → String → List ℕ → Target
  s3_object : String → String → ℤ → Target
  http_ingest : String → String → ℤ → ℕ → Target

-- `local_{chunk_time}_{wal_seq}.parquet`, or `local_{chunk_time}.parquet` without a sequence number:
-- the staging name behind a prefix.
unfoldable pub local_name : ℤ → ℕ → List ℕ
local_name chunk_time wal_seq =
    (b'l' ∷ b'o' ∷ b'c' ∷ b'a' ∷ b'l' ∷ b'_' ∷ []) ++ staging_name chunk_time wal_seq

unfoldable pub target : String → Upload → Target
target backend up =
    if str_eq backend "local"
    then local_file up.db up.table (local_name up.chunk_time up.wal_seq)
    else if str_eq backend "s3"
    then s3_object up.db up.table up.time_min
    else http_ingest up.db up.table up.chunk_time up.wal_seq

parsed_local :
    (chunk_time : ℤ) (wal_seq : ℕ)
    → IsI64 chunk_time
    → IsU64 wal_seq
    → parse_staging (drop 6 (local_name chunk_time wal_seq)) ≡ some (chunk_time, wal_seq)
unfolding local_name
parsed_local chunk_time wal_seq i u = parse_staging-staging_name chunk_time wal_seq i u

-- Two batches of a table that the local backend writes to one file have the same chunk time and the
-- same WAL sequence number: a later flush of a window, with a higher number, overwrites no earlier one.
pub local_name_distinct :
    (t t' : ℤ) (w w' : ℕ)
    → IsI64 t
    → IsU64 w
    → IsI64 t'
    → IsU64 w'
    → local_name t w ≡ local_name t' w'
    → (t ≡ t') × (w ≡ w')
local_name_distinct t t' w w' i u i' u' e =
    let same : some (t, w) ≡ some (t', w') =
      sym (parsed_local t w i u)
      ∙ ap (λ name. parse_staging (drop 6 name)) e
      ∙ parsed_local t' w' i' u' in
    (
      ap (λ (o : Option (ℤ × ℕ)). (option_get_or (t', w') o).0) same,
      ap (λ (o : Option (ℤ × ℕ)). (option_get_or (t', w') o).1) same,
    )
