-- ===== src/Write/Commit.antt =====
-- src/agent/write.rs, `WriteHandler::handle`, and wal_core.rs, `flush_and_apply`: ops go to the log
-- and, if the log has them, to the buffer.
pub mod Recover
pub mod Requests
pub mod Refused
pub mod Durable
pub mod Lifecycle
use iedb.Base.{
  ℕ, ◌-◌, String, Bool, true, false, Option, none, some, List, [], length, is_empty, option_get_or,
  ltb, if◌then◌else◌, ℤ,
}
use iedb.Base.Assoc.{get}
use iedb.Buffer.{Buffer}
use iedb.Wal.{WriteBatch, WalContents}
use iedb.Wal.Apply.{apply_ops}
use iedb.Wal.Serialize
use iedb.Wal.Manager.{Disk, WalManager, WalError, WalResult, ok, err, WriteOutcome, flush}
use iedb.Write.{ParsedLine, rows_by_table, bucket_ns, all_batches, total_rows, buffer_batches}

-- What the handler and the background tasks share.
pub record Agent : Type 0 where
  pub wal : WalManager
  pub disk : Disk
  pub buffer : Buffer

-- The configuration that the handler reads: `hot` is the interval of an attached HotConfig.
pub record WriteConfig : Type 0 where
  pub max_body_bytes : ℕ
  pub snapshot_interval_secs : ℤ
  pub hot : Option ℤ

-- A body that was read: its size, and its parsed lines if it is UTF-8.
pub record Body : Type 0 where
  pub size : ℕ
  pub lines : Option (List (ℤ × Option ParsedLine))

-- `content_length` is `none` where the header is missing or no number; `body` where reading fails.
pub record Request : Type 0 where
  pub is_post : Bool
  pub content_length : Option ℕ
  pub query : Option (List (String × String))
  pub body : Option Body

-- The status with what its body reports.
pub data Response : Type 0 where
  method_not_allowed : Response
  payload_too_large : ℕ → Response
  bad_request : Response
  no_content : ℕ → Response
  service_unavailable : WalError → Response

abbrev pub interval_of : WriteConfig → ℕ
interval_of config = bucket_ns (option_get_or config.snapshot_interval_secs config.hot)

abbrev pub db_of : Request → String
db_of req = option_get_or "default" (get "db" (option_get_or [] req.query))

module _ (encode : WalContents → List ℕ) (decode : List ℕ → Serialize.Result WalContents)
    (crc32 : List ℕ → ℕ) where
  -- The flush under the lock of the log, and then the ops into the buffer.
  unfoldable pub flush_into_buffer : WriteOutcome → ℤ → Agent → Agent × WalResult ℕ
  flush_into_buffer outcome now a =
      let r = flush encode decode crc32 outcome now a.wal a.disk in
      elim r.2 [
        | err e ↦ (record a { wal = r.0; disk = r.1 }, err e)
        | ok ops ↦ (
          record a { wal = r.0; disk = r.1; buffer = apply_ops ops (r.0.current_seq - 1) a.buffer },
          ok (length ops),
        )
      ]

  -- The handler from its batches on.
  unfoldable pub commit : WriteOutcome → ℤ → List WriteBatch → Agent → Agent × Response
  commit outcome now batches a =
      let buffered = buffer_batches batches a.wal in
      elim buffered.1 [
        | err e ↦ (record a { wal = buffered.0 }, service_unavailable e)
        | ok _ ↦
            let flushed = flush_into_buffer outcome now (record a { wal = buffered.0 }) in
            (
              flushed.0,
              elim flushed.1 [
                | err e ↦ service_unavailable e
                | ok _ ↦ no_content (total_rows batches)
              ],
            )
      ]

  unfoldable pub handle_lines :
      WriteOutcome
      → ℤ
      → WriteConfig
      → String
      → List (ℤ × Option ParsedLine)
      → Agent
      → Agent × Response
  handle_lines outcome now config db lines a =
      let tables = rows_by_table lines [] in
      if is_empty tables
      then (a, no_content 0)
      else commit outcome now (all_batches db (interval_of config) tables) a

  -- `handle`: `none` is the `hyper::Error` of a body that cannot be read.
  unfoldable pub handle : WriteOutcome → ℤ → WriteConfig → Request → Agent → Agent × Option Response
  handle outcome now config req a =
      if req.is_post
      then if ltb config.max_body_bytes (option_get_or 0 req.content_length)
        then (a, some (payload_too_large config.max_body_bytes))
        else elim req.body [
          | none ↦ (a, none)
          | some body ↦
              if ltb config.max_body_bytes body.size
              then (a, some (payload_too_large config.max_body_bytes))
              else elim body.lines [
                | none ↦ (a, some bad_request)
                | some lines ↦
                    let r = handle_lines outcome now config (db_of req) lines a in (r.0, some r.1)
              ]
        ]
      else (a, some method_not_allowed)
