-- ===== src/Wal.antt =====
-- src/agent/wal/mod.rs: what the write-ahead log holds. The operations are in the modules below.
pub mod Apply
pub mod FileName
pub mod Serialize
pub mod Manager
use iedb.Base.{ℕ, String, List, ℤ}
use iedb.Chunk.{Row}

-- A batch of writes for one table.
pub record WriteBatch : Type 0 where
  pub db_name : String
  pub table_name : String
  pub chunk_time : ℤ
  pub field_names : List String
  pub tag_keys : List String
  pub rows : List Row

pub data WalOp : Type 0 where
  write : WriteBatch → WalOp
  noop : WalOp

-- The content of one WAL file.
pub record WalContents : Type 0 where
  pub wal_file_number : ℕ
  pub ops : List WalOp
  pub persist_timestamp_ms : ℤ
