-- ===== src/Tests/Ingest.antt =====
-- Uploads to the server, its statistics, and the heartbeats of the agents.
use iedb.Base.{
  ℕ, Bool, All, is_empty, ◌≡◌, refl, true, false, Option, none, some, List, [], ◌∷◌, arith, ℤ, pos,
  inl,
}
use iedb.Base.Text.Codes.{Chars, codes}
use iedb.Table.{new_table}
use iedb.Buffer.{Buffer}
use iedb.Staging.{Upload, examine, offered}
use iedb.Staging.Retry.{staged}
use iedb.Base.{eq_bytes}
use iedb.Base.Text.{digits, strip_suffix}
use iedb.Base.Text.Codes.{starts_with}
use iedb.Base.Parse.{parse_i64, parse_magnitude}
use iedb.Wal.FileName.{parse_u64, parse_digits}
use iedb.Server.Db.{has_text, AgentRecord, Db, new_db}
use iedb.Server.Footer.{Footer}
use iedb.Server.Agents.{get, find_agent}
use iedb.Server.AgentApi.{SchemaEntry, pending_config}
use iedb.Server.AgentApi.Beats.{beats, config_reaches_agent}
use iedb.Server.AgentApi.Changes.{compute_schema_changes, KeysApart, all_tables, tables_of}
use iedb.Server.AgentApi.Rounds.{Task, heartbeat_round, carried, failed_heartbeat_lem}
use iedb.Server.Metadata.{is_parquet, table_row, recount_table, is_tombstoned, tombstone_files}
use iedb.Server.Metadata.Recount.{uploads, listed, summary, recount_table-update_stats}
use iedb.Server.Ingest.{
  Server, IngestRequest, IngestEnv, written, write_failed, ok, write_error, db_param, table_param,
  name_of, chunk_time_param, refusal, file_at, ingest, is_safe_segment, param, contains,
  declared_length, store_file,
}
use iedb.Server.Ingest.Client.{ingest_params, upload_parquet, upload_once}
use iedb.Server.Ingest.Paths.{IsSegment, ingest-IsSegment}
use iedb.Server.Ingest.Retry.{partial_upload_acknowledged, foreign_tombstone}

abbrev no_footer : List ℕ → Option Footer
no_footer _ = none

abbrev pub env : IngestEnv
env = record {
  max_body_bytes = 100;
  clock_ns = some (pos 5);
  now_ms = pos 5;
  mkdir_ok = true;
  file_outcome = written;
  has_engine = false;
  registers = true;
}

abbrev full_disk : IngestEnv
full_disk = record env { file_outcome = write_failed (7 ∷ []) }

abbrev pub up : Upload
up = record {
  db = "db";
  table = "cpu";
  chunk_time = pos 600;
  time_min = pos 601;
  wal_seq = 4;
  parquet_data = 7 ∷ 8 ∷ [];
}

abbrev pub request : IngestRequest
request = upload_parquet (codes "a1") up

abbrev pub fresh_server : Server
fresh_server = record { files = []; store = new_db; engine_tables = [] }

pub guards_pass : refusal 100 request ≡ none
unfolding refusal eq_bytes upload_parquet is_safe_segment db_param param ingest_params contains
    starts_with table_param declared_length parse_u64 digits parse_digits
guards_pass = refl

accepted_first : (ingest no_footer env request fresh_server).1 ≡ ok
unfolding ingest refusal eq_bytes upload_parquet is_safe_segment db_param param ingest_params
    contains starts_with table_param declared_length parse_u64 digits parse_digits store_file
    file_at is_tombstoned has_text
accepted_first = refl

pub timed : chunk_time_param request ≡ some (pos 600)
unfolding chunk_time_param param upload_parquet ingest_params eq_bytes parse_i64 parse_magnitude
    digits
timed = refl

nothing_there : file_at (db_param request) (table_param request) (name_of env request) [] ≡ none
unfolding file_at
nothing_there = refl

alive : is_tombstoned (name_of full_disk request) new_db ≡ false
unfolding is_tombstoned has_text
alive = refl

upload_once_example :
    (again : Upload) × (examine (staged "db" "cpu" (pos 600) 4 (7 ∷ 8 ∷ [])) ≡ offered again)
    × (ingest no_footer full_disk
          (upload_parquet (codes "a1") again)
          (ingest no_footer env request fresh_server).0
        ≡ ((ingest no_footer env request fresh_server).0, ok))
upload_once_example =
    upload_once no_footer env full_disk (codes "a1") up fresh_server (omega arith, omega arith)
      (omega arith) refl refl accepted_first

partial_upload_acknowledged_example :
    ((ingest no_footer full_disk request fresh_server).1 ≡ write_error)
    × (ingest no_footer env request (ingest no_footer full_disk request fresh_server).0
        ≡ ((ingest no_footer full_disk request fresh_server).0, ok))
    × (file_at
          (db_param request)
          (table_param request)
          (name_of full_disk request)
          (ingest no_footer full_disk request fresh_server).0.files
        ≡ some (record {
          db = db_param request;
          table = table_param request;
          name = name_of full_disk request;
          content = 7 ∷ [];
        }))
partial_upload_acknowledged_example =
    partial_upload_acknowledged no_footer full_disk env request (pos 600) fresh_server (7 ∷ [])
      timed guards_pass refl nothing_there alive refl refl refl

foreign_tombstone_example :
    (ingest no_footer env request
        (record fresh_server { store = tombstone_files (pos 1) (name_of env request ∷ []) new_db })
      ≡ (
        record fresh_server { store = tombstone_files (pos 1) (name_of env request ∷ []) new_db },
        ok,
      ))
    × (file_at
          (db_param request)
          (table_param request)
          (name_of env request)
          (ingest no_footer env request (record fresh_server {
            store = tombstone_files (pos 1) (name_of env request ∷ []) new_db;
          })).0.files
        ≡ none)
foreign_tombstone_example =
    foreign_tombstone no_footer env env request (pos 600) fresh_server (pos 1)
      (name_of env request ∷ []) timed guards_pass refl nothing_there (inl refl)

ingest-IsSegment_example :
    IsSegment (db_param request) × IsSegment (table_param request) × IsSegment (name_of env request)
ingest-IsSegment_example = ingest-IsSegment env request guards_pass

-- Two files of a table, the second without a time range.
abbrev footers : List (Chars × Footer)
footers =
    (
      codes "a.parquet",
      record {
        num_rows = 3;
        row_groups =
            (record {
              name = codes "time";
              path = codes "time";
              physical_type = codes "INT64";
              statistics =
                  some (5 ∷ 0 ∷ 0 ∷ 0 ∷ 0 ∷ 0 ∷ 0 ∷ 0 ∷ [], 9 ∷ 0 ∷ 0 ∷ 0 ∷ 0 ∷ 0 ∷ 0 ∷ 0 ∷ []);
            }
              ∷ [])
            ∷ [];
      },
    )
    ∷ (codes "b.parquet", record { num_rows = 2; row_groups = [] })
    ∷ []

no_row : table_row (codes "db") (codes "cpu") new_db ≡ none
unfolding table_row
no_row = refl

both_parquet : (is_parquet (codes "a.parquet") ≡ true) × (is_parquet (codes "b.parquet") ≡ true)
unfolding is_parquet strip_suffix eq_bytes
both_parquet = (refl, refl)

recount_table-update_stats_example :
    summary (
      table_row
        (codes "db")
        (codes "cpu")
        (uploads (pos 1) (codes "db") (codes "cpu") footers new_db))
    ≡ summary (
        table_row
          (codes "db")
          (codes "cpu")
          (recount_table (pos 2) (codes "db") (codes "cpu") (listed footers) new_db))
recount_table-update_stats_example =
    recount_table-update_stats (pos 1) (pos 2) (codes "db") (codes "cpu") footers new_db new_db
      no_row (both_parquet.0, (both_parquet.1, tt))

-- An agent two versions behind the configuration of the server.
abbrev agent : AgentRecord
agent = record {
  id = codes "a1";
  hostname = codes "h";
  arch = none;
  version = none;
  config_json = some (codes "{}");
  config_version = pos 1;
  target_config_version = pos 3;
  registered_at = pos 0;
  last_seen_at = none;
  listen_addr = none;
}

abbrev with_agent : Db
with_agent = record new_db { agents = agent ∷ [] }

abbrev rounds : List (ℤ × List SchemaEntry)
rounds = (pos 10, []) ∷ (pos 20, []) ∷ []

-- Take the empty text for the JSON null.
abbrev is_null : Chars → Bool
is_null = is_empty

abbrev no_version : Chars → Option ℕ
no_version _ = none

agent_found : get (codes "a1") with_agent ≡ some agent
unfolding get find_agent eq_bytes
agent_found = refl

config_reaches_agent_example :
    ((beats {V = Chars} some [] is_null no_version (codes "a1") rounds (1, with_agent)).0 ≡ 3)
    × (pending_config {V = Chars} some []
          (codes "a1")
          3
          (beats {V = Chars} some [] is_null no_version (codes "a1") rounds (1, with_agent)).1
        ≡ none)
config_reaches_agent_example =
    config_reaches_agent {V = Chars} some [] is_null no_version (codes "a1") (codes "{}") 3 rounds 1
      (codes "{}") with_agent
      (record { agent = agent; found = agent_found; config = refl; target = refl }) refl refl refl
      (omega arith) (omega arith)

abbrev buffer : Buffer
buffer = record { databases = ("db", ("cpu", new_table "cpu") ∷ []) ∷ [] }

one_key : KeysApart (all_tables buffer.databases)
unfolding all_tables tables_of
one_key = (tt, tt)

abbrev task : Task
task = record { config_version = 1; last_schema = [] }

failed_heartbeat_lem_example :
    ((heartbeat_round buffer none task).1 ≡ (compute_schema_changes buffer []).0)
    × ((heartbeat_round buffer none task).0.config_version ≡ 1)
    × All
        (λ changes. changes ≡ [])
        (carried buffer (some 1 ∷ none ∷ []) (heartbeat_round buffer none task).0)
failed_heartbeat_lem_example = failed_heartbeat_lem buffer (some 1 ∷ none ∷ []) task one_key
