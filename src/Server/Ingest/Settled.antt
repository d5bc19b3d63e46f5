-- ===== src/Server/Ingest/Settled.antt =====
-- ingest_api.rs: what an upload leaves, and the handler where the file is there or its name is a tombstone.
use iedb.Base.{
  ℕ, ◌≡◌, refl, sym, ◌∙◌, ap, true, false, ◌⊎◌, Option, none, some, List, [], ◌∷◌, arith, ℤ, pos,
  option_get_or, eq_bytes_refl, Bool-cases, Option-cases, inl, inr,
}
use iedb.Base.Text.Codes.{Chars}
use iedb.Server.Footer.{Footer}
use iedb.Server.Metadata.{is_tombstoned}
use iedb.Server.Ingest.{
  DataFile, Server, IngestRequest, FileOutcome, written, create_failed, write_failed, sync_failed,
  IngestEnv, IngestReply, ok, write_error, sync_error, mkdir_error, db_param, table_param,
  chunk_time_param, wal_param, agent_of, refusal, ingest_name, name_of, is_at, file_at, put_file,
  record_upload, store_file, ingest,
}

pub is_at_self : (f : DataFile) → is_at f.db f.table f.name f ≡ true
is_at_self f = rw (eq_bytes_refl f.db) (rw (eq_bytes_refl f.table) (eq_bytes_refl f.name))

pub file_at-put_file :
    (f : DataFile) (files : List DataFile) → file_at f.db f.table f.name (put_file f files) ≡ some f
unfolding file_at put_file
file_at-put_file f [] = rw (is_at_self f) refl
file_at-put_file f (g ∷ files) = elim (Bool-cases (is_at f.db f.table f.name g)) [
  | inl e ↦ rw e (rw (is_at_self f) refl)
  | inr e ↦ rw e (rw e (file_at-put_file f files))
]

module _ (footer : List ℕ → Option Footer) where
  module _ (env : IngestEnv) (db table agent_id name : Chars) (body : List ℕ) (s : Server) where
    abbrev file : List ℕ → DataFile
    file bytes = record { db = db; table = table; name = name; content = bytes }

    -- The file is there or its name is a tombstone.
    abbrev pub Settled : Server → Type 0
    Settled s' =
        ((f : DataFile) × (file_at db table name s'.files ≡ some f))
        ⊎ (is_tombstoned name s'.store ≡ true)

    settled_written :
        (o : FileOutcome)
        → env.file_outcome ≡ o
        → file_at db table name s.files ≡ none
        → is_tombstoned name s.store ≡ false
        → (store_file footer env db table agent_id name body s).1 ≡ ok
        → file_at db table name (store_file footer env db table agent_id name body s).0.files
          ≡ some (file body)
    unfolding record_upload store_file
    settled_written written e absent alive fine =
        rw (absent, store_file) (rw alive (rw e (file_at-put_file (file body) s.files)))
    settled_written create_failed e absent alive fine =
        let answer : (store_file footer env db table agent_id name body s).1 ≡ write_error =
          rw (absent, store_file) (rw alive (rw e refl)) in
        cc (answer, fine)
    settled_written (write_failed part) e absent alive fine =
        let answer : (store_file footer env db table agent_id name body s).1 ≡ write_error =
          rw (absent, store_file) (rw alive (rw e refl)) in
        cc (answer, fine)
    settled_written sync_failed e absent alive fine =
        let answer : (store_file footer env db table agent_id name body s).1 ≡ sync_error =
          rw (absent, store_file) (rw alive (rw e refl)) in
        cc (answer, fine)

    -- What an answer without an error leaves.
    pub store_file_settles :
        (store_file footer env db table agent_id name body s).1 ≡ ok
        → Settled (store_file footer env db table agent_id name body s).0
    unfolding store_file
    store_file_settles fine = elim (Option-cases (file_at db table name s.files)) [
      | inr (f, there) ↦ inl (f, rw (there, store_file) there)
      | inl absent ↦ elim (Bool-cases (is_tombstoned name s.store)) [
        | inl dead ↦ inr (rw (absent, store_file) (rw dead dead))
        | inr alive ↦ inl (file body, settled_written env.file_outcome refl absent alive fine)
      ]
    ]

    -- Where the name is settled, another call answers without an error and changes nothing.
    store_file_idle : Settled s → store_file footer env db table agent_id name body s ≡ (s, ok)
    unfolding store_file
    store_file_idle (inl (f, there)) = rw (there, store_file) refl
    store_file_idle (inr dead) = elim (Option-cases (file_at db table name s.files)) [
      | inr (f, there) ↦ rw (there, store_file) refl
      | inl absent ↦ rw (absent, store_file) (rw dead refl)
    ]

  -- The handler behind its guards.
  pub ingest_accepted :
      (env : IngestEnv) (req : IngestRequest) (s : Server)
      → refusal env.max_body_bytes req ≡ none
      → env.mkdir_ok ≡ true
      → ingest footer env req s
        ≡ store_file footer env
            (db_param req)
            (table_param req)
            (agent_of req)
            (name_of env req)
            req.body
            s
  unfolding ingest
  ingest_accepted env req s open_ made = rw (open_, ingest) (rw made refl)

  ingest_refused :
      (env : IngestEnv) (req : IngestRequest) (s : Server) (reply : IngestReply)
      → refusal env.max_body_bytes req ≡ some reply
      → ingest footer env req s ≡ (s, reply)
  unfolding ingest
  ingest_refused env req s reply e = rw (e, ingest) refl

  refusal-ne-ok : (limit : ℕ) (req : IngestRequest) → ¬ (refusal limit req ≡ some ok)
  unfolding refusal
  refusal-ne-ok limit req e = ground arith

  -- The guards of a request that is answered without an error.
  pub record Passed (env : IngestEnv) (req : IngestRequest) : Type 0 where
    pub guards : refusal env.max_body_bytes req ≡ none
    pub made : env.mkdir_ok ≡ true

  pub passed :
      (env : IngestEnv) (req : IngestRequest) (s : Server)
      → (ingest footer env req s).1 ≡ ok
      → Passed env req
  unfolding ingest
  passed env req s fine = elim (Option-cases (refusal env.max_body_bytes req)) [
    | inr (reply, e) ↦
        let answer : (ingest footer env req s).1 ≡ reply = rw (e, ingest) refl in
        absurd (refusal-ne-ok env.max_body_bytes req (e ∙ ap some (sym answer ∙ fine)))
    | inl e ↦ elim (Bool-cases env.mkdir_ok) [
      | inl made ↦ record { guards = e; made = made }
      | inr not_made ↦
          let answer : (ingest footer env req s).1 ≡ mkdir_error =
            rw (e, ingest) (rw not_made refl) in
          cc (answer, fine)
    ]
  ]

  name-time :
      (env env' : IngestEnv) (req : IngestRequest) (t : ℤ)
      → chunk_time_param req ≡ some t
      → name_of env' req ≡ name_of env req
  name-time env env' req t e =
      let timed = λ (x : IngestEnv). ap (option_get_or (option_get_or (pos 0) x.clock_ns)) e in
      ap (λ time. ingest_name (agent_of req) time (wal_param req)) (timed env' ∙ sym (timed env))

  -- A request whose name is settled is answered without an error, and changes nothing.
  pub Settled-idle :
      (env env' : IngestEnv) (req : IngestRequest) (t : ℤ) (s : Server)
      → chunk_time_param req ≡ some t
      → refusal env'.max_body_bytes req ≡ none
      → env'.mkdir_ok ≡ true
      → Settled env (db_param req) (table_param req) (agent_of req) (name_of env req) req.body s s
      → ingest footer env' req s ≡ (s, ok)
  Settled-idle env env' req t s timed guards made settled =
      ingest_accepted env' req s guards made
      ∙ ap
          (λ n. store_file footer env' (db_param req) (table_param req) (agent_of req) n req.body s)
          (name-time env env' req t timed)
      ∙ store_file_idle env' (db_param req) (table_param req) (agent_of req) (name_of env req)
          req.body s settled
