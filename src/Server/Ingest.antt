-- ===== src/Server/Ingest.antt =====
-- src/server/ingest_api.rs: an agent uploads a parquet file, which the server stores below
-- {data_dir}/{db}/{table} and whose statistics it records.
pub mod Settled
pub mod Retry
pub mod Paths
pub mod Client
use iedb.Base.{
  ℕ, ◌+◌, Bool, true, false, ◌&&◌, ◌||◌, Option, none, some, List, [], ◌∷◌, ◌++◌, map,
  if◌then◌else◌, ◌==◌, leb, ltb, length, ℤ, pos, eq_bytes, find, is_empty, option_get_or,
}
use mathlib.Core.Bool.{not}
use iedb.Base.Parse.{parse_i64}
use iedb.Base.Text.{nat_text, int_text}
use iedb.Base.Text.Codes.{Chars, codes, starts_with}
use iedb.Wal.FileName.{parse_u64}
use iedb.Staging.{dot_parquet}
use iedb.Server.Db.{Db}
use iedb.Server.Footer.{Footer, read_parquet_stats}
use iedb.Server.Metadata.{update_stats, merge_schema, is_tombstoned}

-- A file of the directory `{data_dir}/{db}/{table}`.
pub record DataFile : Type 0 where
  pub db : Chars
  pub table : Chars
  pub name : Chars
  pub content : List ℕ

-- The files, the metadata, and the tables that the query engine has registered.
pub record Server : Type 0 where
  pub files : List DataFile
  pub store : Db
  pub engine_tables : List (Chars × Chars)

-- What hyper and the URL decoder make of a request.
pub record IngestRequest : Type 0 where
  pub path : Chars
  pub is_post : Bool
  pub query : List (Chars × Chars)
  pub agent_header : Option Chars
  pub content_length : Option Chars
  pub body : List ℕ

-- How the file is created, written and synced: a failed write leaves the bytes that it got to.
pub data FileOutcome : Type 0 where
  written : FileOutcome
  create_failed : FileOutcome
  write_failed : List ℕ → FileOutcome
  sync_failed : FileOutcome

-- The handler's surroundings: its limit, the clock, and how its I/O ends.
pub record IngestEnv : Type 0 where
  pub max_body_bytes : ℕ
  pub clock_ns : Option ℤ
  pub now_ms : ℤ
  pub mkdir_ok : Bool
  pub file_outcome : FileOutcome
  pub has_engine : Bool
  pub registers : Bool

pub data IngestReply : Type 0 where
  ok : IngestReply
  not_found : IngestReply
  method_not_allowed : IngestReply
  bad_request : IngestReply
  payload_too_large : IngestReply
  mkdir_error : IngestReply
  write_error : IngestReply
  sync_error : IngestReply

unfoldable pub param : Chars → List (Chars × Chars) → Option Chars
param key query = elim (find (λ p. eq_bytes p.0 key) query) [ none ↦ none | some p ↦ some p.1 ]

-- `s.contains(part)`
unfoldable pub contains : Chars → Chars → Bool
contains part [] = is_empty part
contains part (c ∷ cs) = starts_with part (c ∷ cs) || contains part cs

unfoldable pub is_safe_segment : Chars → Bool
is_safe_segment name =
    not (is_empty name)
    && (not (eq_bytes name (codes "."))
        && (not (eq_bytes name (codes ".."))
            && (not (contains (b'/' ∷ []) name)
                && (not (contains (92 ∷ []) name) && not (contains (codes "..") name)))))

abbrev pub is_ascii_alphanumeric : ℕ → Bool
is_ascii_alphanumeric c =
    (leb b'0' c && leb c b'9') || ((leb b'A' c && leb c b'Z') || (leb b'a' c && leb c b'z'))

unfoldable pub sanitize_filename_part : Chars → Chars
sanitize_filename_part [] = []
sanitize_filename_part (c ∷ cs) =
    (if is_ascii_alphanumeric c || ((c == b'-') || ((c == b'_') || (c == b'.'))) then c else b'_')
    ∷ sanitize_filename_part cs

-- The parameters of the query, with their defaults.
unfoldable pub db_param : IngestRequest → Chars
db_param req = option_get_or (codes "default") (param (codes "db") req.query)

unfoldable pub table_param : IngestRequest → Chars
table_param req = option_get_or (codes "unknown") (param (codes "measurement") req.query)

unfoldable pub chunk_time_param : IngestRequest → Option ℤ
chunk_time_param req = elim (param (codes "chunk_time") req.query) [
  | none ↦ none
  | some v ↦ parse_i64 v
]

unfoldable pub wal_param : IngestRequest → ℕ
wal_param req = elim (param (codes "wal") req.query) [
  | none ↦ 0
  | some v ↦ option_get_or 0 (parse_u64 v)
]

unfoldable pub agent_of : IngestRequest → Chars
agent_of req = elim req.agent_header [ none ↦ codes "unknown" | some v ↦ sanitize_filename_part v ]

unfoldable pub declared_length : IngestRequest → ℕ
declared_length req = elim req.content_length [ none ↦ 0 | some v ↦ option_get_or 0 (parse_u64 v) ]

-- The guards in front of the first I/O: the answer of the one that fails.
unfoldable pub refusal : ℕ → IngestRequest → Option IngestReply
refusal max_body_bytes req =
    if not (eq_bytes req.path (codes "/api/v1/ingest/parquet"))
    then some not_found
    else if not req.is_post
    then some method_not_allowed
    else if not (is_safe_segment (db_param req)) || not (is_safe_segment (table_param req))
    then some bad_request
    else if ltb max_body_bytes (declared_length req)
    then some payload_too_large
    else if ltb max_body_bytes (length req.body)
    then some payload_too_large
    else none

unfoldable pub ingest_name : Chars → ℤ → ℕ → Chars
ingest_name agent_id chunk_time wal_seq =
    if ltb 0 wal_seq
    then agent_id ++ (b'_' ∷ (int_text chunk_time ++ ((b'_' ∷ nat_text wal_seq) ++ dot_parquet)))
    else agent_id ++ (b'_' ∷ (int_text chunk_time ++ dot_parquet))

-- The chunk time of the request, or the clock, or 0.
abbrev pub time_of : IngestEnv → IngestRequest → ℤ
time_of env req = option_get_or (option_get_or (pos 0) env.clock_ns) (chunk_time_param req)

abbrev pub name_of : IngestEnv → IngestRequest → Chars
name_of env req = ingest_name (agent_of req) (time_of env req) (wal_param req)

abbrev pub is_at : Chars → Chars → Chars → DataFile → Bool
is_at db table name f = eq_bytes f.db db && (eq_bytes f.table table && eq_bytes f.name name)

unfoldable pub file_at : Chars → Chars → Chars → List DataFile → Option DataFile
file_at db table name files = find (is_at db table name) files

-- `File::create`: a file of this name is truncated.
unfoldable pub put_file : DataFile → List DataFile → List DataFile
put_file file [] = file ∷ []
put_file file (f ∷ files) =
    if is_at file.db file.table file.name f then file ∷ files else f ∷ put_file file files

abbrev pub has_table : Chars → Chars → List (Chars × Chars) → Bool
has_table db table tables = elim (find (λ p. eq_bytes p.0 db && eq_bytes p.1 table) tables) [
  | none ↦ false
  | some _ ↦ true
]

-- `footer` is the parquet crate's reading of a file.
module _ (footer : List ℕ → Option Footer) where
  -- After the file is durable: the statistics, the agent of the table, the registration.
  unfoldable pub record_upload : IngestEnv → Chars → Chars → Chars → List ℕ → Server → Server
  record_upload env db table agent_id body s =
      let counted : Db = elim (footer body) [
        | none ↦ s.store
        | some meta ↦ (update_stats env.now_ms db table (read_parquet_stats meta) [] s.store).0
      ] in
      record s {
        store = (merge_schema db table agent_id [] [] counted).0;
        engine_tables =
            if env.has_engine && (env.registers && not (has_table db table s.engine_tables))
            then s.engine_tables ++ ((db, table) ∷ [])
            else s.engine_tables;
      }

  unfoldable pub store_file :
      IngestEnv → Chars → Chars → Chars → Chars → List ℕ → Server → Server × IngestReply
  store_file env db table agent_id name body s =
      let file : List ℕ → DataFile =
        λ bytes. record { db = db; table = table; name = name; content = bytes } in
      elim (file_at db table name s.files) [
        | some _ ↦ (s, ok)
        | none ↦ if is_tombstoned name s.store then (s, ok) else elim env.file_outcome [
          | create_failed ↦ (s, write_error)
          | write_failed part ↦ (record s { files = put_file (file part) s.files }, write_error)
          | sync_failed ↦ (record s { files = put_file (file body) s.files }, sync_error)
          | written ↦ (
            record_upload env db table agent_id body
                (record s { files = put_file (file body) s.files }),
            ok,
          )
        ]
      ]

  -- `handle`
  unfoldable pub ingest : IngestEnv → IngestRequest → Server → Server × IngestReply
  ingest env req s = elim (refusal env.max_body_bytes req) [
    | some reply ↦ (s, reply)
    | none ↦
        if env.mkdir_ok
        then store_file env (db_param req) (table_param req) (agent_of req) (name_of env req)
            req.body s
        else (s, mkdir_error)
  ]
