-- ===== src/Server/Ingest/Retry.antt =====
-- ingest_api.rs: an upload that is sent again, after an answer that was lost or an error.
use iedb.Base.{
  ℕ, ◌≡◌, refl, sym, ◌∙◌, ap, true, false, ◌⊎◌, Option, none, some, List, ℤ, In, inl, inr,
}
use iedb.Base.Text.Codes.{Chars}
use iedb.Server.Footer.{Footer}
use iedb.Server.Metadata.{is_tombstoned, tombstone_files}
use iedb.Server.Metadata.Tombstones.{tombstone_files_adds}
use iedb.Server.Ingest.{
  DataFile, Server, IngestRequest, write_failed, IngestEnv, ok, write_error, db_param, table_param,
  chunk_time_param, agent_of, refusal, name_of, file_at, put_file, store_file, ingest,
}
use iedb.Server.Ingest.Settled.{
  file_at-put_file, Settled-idle, ingest_accepted, passed, store_file_settles,
}

module _ (footer : List ℕ → Option Footer) where
  module _ (env env' : IngestEnv) (req : IngestRequest) (t : ℤ) (s : Server) where
    -- Take a request that names a chunk time, and was answered without an error. If it is sent again (the
    -- agent did not see the answer), with the same limit and an existing directory, the answer is again
    -- without an error and nothing changes: no file, no statistics, so that no row is counted twice. The
    -- clock and the I/O of the second run are arbitrary.
    pub ingest-ingest :
        chunk_time_param req ≡ some t
        → env'.max_body_bytes ≡ env.max_body_bytes
        → env'.mkdir_ok ≡ true
        → (ingest footer env req s).1 ≡ ok
        → ingest footer env' req (ingest footer env req s).0 ≡ ((ingest footer env req s).0, ok)
    ingest-ingest timed limit made fine =
        let p = passed footer env req s fine in
        let first = ingest_accepted footer env req s p.guards p.made in
        let settled =
          store_file_settles footer env (db_param req) (table_param req) (agent_of req)
            (name_of env req) req.body s (sym (ap (λ r. r.1) first) ∙ fine) in
        rw first (
          Settled-idle footer env env' req t _ timed (ap (λ n. refusal n req) limit ∙ p.guards) made
            settled)

    -- What an answer without an error says to an agent that then discards its copies: below the directory
    -- of the table there is a file of the request's name, or that name is a tombstone of the compaction.
    pub acknowledged :
        (ingest footer env req s).1 ≡ ok
        → ((f : DataFile) × (file_at
                (db_param req)
                (table_param req)
                (name_of env req)
                (ingest footer env req s).0.files
              ≡ some f))
          ⊎ (is_tombstoned (name_of env req) (ingest footer env req s).0.store ≡ true)
    acknowledged fine =
        let p = passed footer env req s fine in
        let first = ingest_accepted footer env req s p.guards p.made in
        rw first (
          store_file_settles footer env (db_param req) (table_param req) (agent_of req)
            (name_of env req) req.body s (sym (ap (λ r. r.1) first) ∙ fine))

    -- A code bug: a partial file is acknowledged. Take a request that names a chunk time, passes the guards
    -- and finds its directory, with no file of its name and no tombstone, and whose write fails after some
    -- bytes (a full disk). It is answered with an error, but the part stays under the final name: when the
    -- agent sends the request again, with the same limit and an existing directory, the answer has no error,
    -- nothing is written, and the file still holds the part.
    pub partial_upload_acknowledged :
        (part : List ℕ)
        → chunk_time_param req ≡ some t
        → refusal env.max_body_bytes req ≡ none
        → env.mkdir_ok ≡ true
        → file_at (db_param req) (table_param req) (name_of env req) s.files ≡ none
        → is_tombstoned (name_of env req) s.store ≡ false
        → env.file_outcome ≡ write_failed part
        → env'.max_body_bytes ≡ env.max_body_bytes
        → env'.mkdir_ok ≡ true
        → ((ingest footer env req s).1 ≡ write_error)
          × (ingest footer env' req (ingest footer env req s).0 ≡ ((ingest footer env req s).0, ok))
          × (file_at
                (db_param req)
                (table_param req)
                (name_of env req)
                (ingest footer env req s).0.files
              ≡ some (record {
                db = db_param req;
                table = table_param req;
                name = name_of env req;
                content = part;
              }))
    unfolding store_file
    partial_upload_acknowledged part timed guards made absent alive broken limit made' =
        let left : DataFile = record {
          db = db_param req;
          table = table_param req;
          name = name_of env req;
          content = part;
        } in
        let s' : Server = record s { files = put_file left s.files } in
        let first : ingest footer env req s ≡ (s', write_error) =
          ingest_accepted footer env req s guards made
          ∙ rw (absent, store_file) (rw alive (rw broken refl)) in
        let there = file_at-put_file left s.files in
        rw first (
          refl,
          Settled-idle footer env env' req t s' timed (ap (λ n. refusal n req) limit ∙ guards) made'
              (inl (left, there)),
          there,
        )

    -- A code bug: a tombstone holds for the tables of every database. Take a request that names a chunk time,
    -- passes the guards and finds its directory, with no file of its name in the directory of its table. If
    -- a compaction, of whatever table, has merged away a file of that name (the name has the agent, the
    -- window and the log number, which the tables of one agent share), the upload is answered without an
    -- error and stored nowhere, so that the agent discards its rows.
    pub foreign_tombstone :
        (now_ms : ℤ) (merged : List Chars)
        → chunk_time_param req ≡ some t
        → refusal env.max_body_bytes req ≡ none
        → env.mkdir_ok ≡ true
        → file_at (db_param req) (table_param req) (name_of env req) s.files ≡ none
        → In (name_of env req) merged
        → (ingest footer env req (record s { store = tombstone_files now_ms merged s.store })
            ≡ (record s { store = tombstone_files now_ms merged s.store }, ok))
          × (file_at
                (db_param req)
                (table_param req)
                (name_of env req)
                (ingest footer env req
                  (record s { store = tombstone_files now_ms merged s.store })).0.files
              ≡ none)
    foreign_tombstone now_ms merged timed guards made absent m =
        let s' : Server = record s { store = tombstone_files now_ms merged s.store } in
        let idle =
          Settled-idle footer env env req t s' timed guards made
            (inr (tombstone_files_adds now_ms merged (name_of env req) s.store m)) in
        (idle, rw idle absent)
