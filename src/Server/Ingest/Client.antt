-- ===== src/Server/Ingest/Client.antt =====
-- src/agent/flush/http_upload.rs, `build_ingest_url` and `upload_parquet`, against the handler that
-- receives the request: the names of uploads, and the retry of a staged file.
use iedb.Base.{
  ℕ, ◌≡◌, refl, sym, ◌∙◌, ap, true, Option, none, some, List, [], ◌∷◌, ◌++◌, if◌then◌else◌, arith,
  ltb, ltb-false→le, length, drop, drop-append, ℤ, pos, IsI64, IsU64, eq_bytes, option_get_or,
  Bool-cases, inl, inr,
}
use iedb.Base.Text.{nat_text, int_text}
use iedb.Base.Text.Codes.{Chars, codes}
use iedb.Base.Text.Laws.{parse_i64-int_text}
use iedb.Staging.{Upload, staging_name, parse_staging, examine, offered}
use iedb.Staging.Names.{parse_staging-staging_name, parse_u64-nat_text}
use iedb.Staging.Retry.{staged, upload_of, examine-staged}
use iedb.Server.Footer.{Footer}
use iedb.Server.Ingest.{
  Server, IngestRequest, IngestEnv, ok, param, db_param, table_param, chunk_time_param, wal_param,
  agent_of, sanitize_filename_part, name_of, ingest_name, ingest,
}
use iedb.Server.Ingest.Paths.{ingest_name_lem}
use iedb.Server.Ingest.Retry.{ingest-ingest}

-- The pairs that the query of `build_ingest_url` encodes; the encoding is the url crate's, and so is the
-- decoding on the server.
unfoldable pub ingest_params : Chars → Chars → Option ℤ → ℕ → List (Chars × Chars)
ingest_params db table chunk_time wal_seq =
    (codes "db", db)
    ∷ (codes "measurement", table)
    ∷ ((elim chunk_time [ none ↦ [] | some ct ↦ (codes "chunk_time", int_text ct) ∷ [] ])
        ++ (if ltb 0 wal_seq then (codes "wal", nat_text wal_seq) ∷ [] else []))

-- The request of `upload_parquet`, as the server receives it; `http_ingest` of `upload_bytes` passes the
-- chunk time of the batch.
unfoldable pub upload_parquet : Chars → Upload → IngestRequest
upload_parquet agent_id up = record {
  path = codes "/api/v1/ingest/parquet";
  is_post = true;
  query = ingest_params (codes up.db) (codes up.table) (some up.chunk_time) up.wal_seq;
  agent_header = some agent_id;
  content_length = some (nat_text (length up.parquet_data));
  body = up.parquet_data;
}

chunk_time-upload :
    (agent_id : Chars) (up : Upload)
    → IsI64 up.chunk_time
    → chunk_time_param (upload_parquet agent_id up) ≡ some up.chunk_time
unfolding upload_parquet ingest_params chunk_time_param param eq_bytes
chunk_time-upload agent_id up i = parse_i64-int_text up.chunk_time i

wal-upload :
    (agent_id : Chars) (up : Upload)
    → IsU64 up.wal_seq
    → wal_param (upload_parquet agent_id up) ≡ up.wal_seq
unfolding upload_parquet ingest_params wal_param param eq_bytes
wal-upload agent_id up u = elim (Bool-cases (ltb 0 up.wal_seq)) [
  | inl e ↦ rw e (rw (parse_u64-nat_text up.wal_seq u) refl)
  | inr e ↦ rw e (omega (arith, ltb-false→le 0 up.wal_seq e))
]

-- The server reads back from the request of an upload what the agent put into it: the database, the table,
-- and a file name that is the agent's id, without characters a file name may not have, with the chunk time
-- and the log number of the batch as the staging directory spells them. This holds for every i64 and u64,
-- and whatever the server's clock says.
pub name_of-upload_parquet :
    (env : IngestEnv) (agent_id : Chars) (up : Upload)
    → IsI64 up.chunk_time
    → IsU64 up.wal_seq
    → (db_param (upload_parquet agent_id up) ≡ codes up.db)
      × (table_param (upload_parquet agent_id up) ≡ codes up.table)
      × (name_of env (upload_parquet agent_id up)
          ≡ sanitize_filename_part agent_id ++ (b'_' ∷ staging_name up.chunk_time up.wal_seq))
unfolding db_param table_param agent_of upload_parquet ingest_params param eq_bytes
name_of-upload_parquet env agent_id up i u = (
  refl,
  refl,
  ap
        (λ o.
          ingest_name (sanitize_filename_part agent_id)
            (option_get_or (option_get_or (pos 0) env.clock_ns) o)
            (wal_param (upload_parquet agent_id up)))
        (chunk_time-upload agent_id up i)
      ∙ ap (ingest_name (sanitize_filename_part agent_id) up.chunk_time) (wal-upload agent_id up u)
      ∙ ingest_name_lem (sanitize_filename_part agent_id) up.chunk_time up.wal_seq,
)

cancel : (a b c : Chars) → a ++ b ≡ a ++ c → b ≡ c
cancel a b c e = sym (drop-append a b) ∙ ap (drop (length a)) e ∙ drop-append a c

-- Two uploads of one agent that the server stores under one name carry the same window and the same log
-- number: a later batch of a window is never taken for the retry of an earlier one.
pub name_of_distinct :
    (env env' : IngestEnv) (agent_id : Chars) (up up' : Upload)
    → IsI64 up.chunk_time
    → IsU64 up.wal_seq
    → IsI64 up'.chunk_time
    → IsU64 up'.wal_seq
    → name_of env (upload_parquet agent_id up) ≡ name_of env' (upload_parquet agent_id up')
    → (up.chunk_time ≡ up'.chunk_time) × (up.wal_seq ≡ up'.wal_seq)
name_of_distinct env env' agent_id up up' i u i' u' e =
    let a = sanitize_filename_part agent_id in
    let one = (name_of-upload_parquet env agent_id up i u).2 in
    let two = (name_of-upload_parquet env' agent_id up' i' u').2 in
    let same =
      cancel a (b'_' ∷ staging_name up.chunk_time up.wal_seq)
        (b'_' ∷ staging_name up'.chunk_time up'.wal_seq) (sym one ∙ e ∙ two) in
    let names : staging_name up.chunk_time up.wal_seq ≡ staging_name up'.chunk_time up'.wal_seq =
      ap (drop 1) same in
    let parts : some (up.chunk_time, up.wal_seq) ≡ some (up'.chunk_time, up'.wal_seq) =
      sym (parse_staging-staging_name up.chunk_time up.wal_seq i u)
      ∙ ap parse_staging names
      ∙ parse_staging-staging_name up'.chunk_time up'.wal_seq i' u' in
    (
      ap (λ (o : Option (ℤ × ℕ)). (option_get_or (up'.chunk_time, up'.wal_seq) o).0) parts,
      ap (λ (o : Option (ℤ × ℕ)). (option_get_or (up'.chunk_time, up'.wal_seq) o).1) parts,
    )

-- The request of a retry does not depend on what the retry has lost, the smallest time of the batch.
retry_request :
    (agent_id : Chars) (up up' : Upload)
    → up.db ≡ up'.db
    → up.table ≡ up'.table
    → up.chunk_time ≡ up'.chunk_time
    → up.wal_seq ≡ up'.wal_seq
    → up.parquet_data ≡ up'.parquet_data
    → upload_parquet agent_id up ≡ upload_parquet agent_id up'
unfolding upload_parquet
retry_request agent_id up up' d t c w b = rw d (rw t (rw c (rw w (rw b refl))))

-- An upload whose answer is lost is stored once. Take an upload that the server has accepted; the agent,
-- which has seen an error, stages it under the chunk time and the log number of the batch. What the retry
-- makes of the staged file is a request that the server answers without an error and without any change to
-- its files, statistics or tables, with the same limit and an existing directory, at any time.
pub upload_once :
    (footer : List ℕ → Option Footer) (env env' : IngestEnv) (agent_id : Chars) (up : Upload)
    (s : Server)
    → IsI64 up.chunk_time
    → IsU64 up.wal_seq
    → env'.max_body_bytes ≡ env.max_body_bytes
    → env'.mkdir_ok ≡ true
    → (ingest footer env (upload_parquet agent_id up) s).1 ≡ ok
    → (again : Upload) × (examine (staged up.db up.table up.chunk_time up.wal_seq up.parquet_data)
        ≡ offered again)
      × (ingest footer env'
            (upload_parquet agent_id again)
            (ingest footer env (upload_parquet agent_id up) s).0
          ≡ ((ingest footer env (upload_parquet agent_id up) s).0, ok))
upload_once footer env env' agent_id up s i u limit made fine =
    let again = upload_of up.db up.table up.chunk_time up.wal_seq up.parquet_data in
    (
      again,
      examine-staged up.db up.table up.chunk_time up.wal_seq up.parquet_data i u,
      ap (λ req. ingest footer env' req (ingest footer env (upload_parquet agent_id up) s).0)
            (retry_request agent_id again up refl refl refl refl refl)
          ∙ ingest-ingest footer env env' (upload_parquet agent_id up) up.chunk_time s
              (chunk_time-upload agent_id up i) limit made fine,
    )
