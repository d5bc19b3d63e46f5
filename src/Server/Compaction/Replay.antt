-- ===== src/Server/Compaction/Replay.antt =====
-- compaction.rs: a crash in the middle of a merge, and an upload that comes again after it.
use iedb.Base.{
  ℕ, ◌≡◌, refl, ◌∙◌, ap, Bool, true, false, Option, none, some, List, [], ◌∷◌, arith, ℤ, In,
  Bool-cases, inl, inr,
}
use iedb.Base.Text.Codes.{Chars}
use iedb.Server.Db.{Db}
use iedb.Server.Footer.{Footer, Stats}
use iedb.Server.Metadata.{ensure_db, ensure_table, is_tombstoned, tombstone_files, recount_table}
use iedb.Server.Metadata.Tombstones.{tombstone_files_adds}
use iedb.Server.Ingest.{
  DataFile, Server, IngestRequest, IngestEnv, ok, is_at, put_file, name_of, chunk_time_param,
  refusal, ingest,
}
use iedb.Server.Ingest.Settled.{is_at_self, Settled-idle}
use iedb.Server.Compaction.{
  CompactionConfig, small_files, sort_by_name, merge_ok, names_of, skips, output, finish,
  compact_table,
}
use iedb.Server.Compaction.Originals.{candidates-put_file}

put_file-put_file :
    (f : DataFile) (files : List DataFile) → put_file f (put_file f files) ≡ put_file f files
unfolding put_file
put_file-put_file f [] = rw (is_at_self f) refl
put_file-put_file f (g ∷ files) = elim (Bool-cases (is_at f.db f.table f.name g)) [
  | inl e ↦ rw e (rw (is_at_self f) refl)
  | inr e ↦ rw e (rw e (ap (λ l. g ∷ l) (put_file-put_file f files)))
]

tombstoned-recount_table :
    (now_ms : ℤ) (db table name : Chars) (files : List (Chars × Option Stats)) (s : Db)
    → is_tombstoned name (recount_table now_ms db table files s) ≡ is_tombstoned name s
unfolding is_tombstoned recount_table ensure_table ensure_db
tombstoned-recount_table now_ms db table name files s = ground arith

module _ (footer : List ℕ → Option Footer) (merge : List (List ℕ) → List ℕ) where
  module _ (config : CompactionConfig) (now_ms : ℤ) (db table : Chars) (removes : Chars → Bool)
      (s : Server) where
    -- Crash safety of the deterministic name: take a merge that crashes after the rename of its output and
    -- before it removes any original. The next run, on what the crash has left, ends in the very state that
    -- the run would have reached without the crash, with one output and the same statistics.
    pub compact_table_replay :
        skips config (small_files config db table s.files) ≡ false
        → compact_table footer merge config now_ms db table (merge_ok removes) (record s {
          files = put_file (output merge db table (small_files config db table s.files)) s.files;
        })
          ≡ compact_table footer merge config now_ms db table (merge_ok removes) s
    unfolding compact_table
    compact_table_replay some_work =
        let small = small_files config db table s.files in
        let out = output merge db table small in
        let same : small_files config db table (put_file out s.files) ≡ small =
          unfold small_files in
          ap sort_by_name (candidates-put_file config db table s.files merge) in
        rw same (rw some_work (rw (put_file-put_file out s.files) refl))

    -- A late retry stores nothing twice: take an upload that names a chunk time, passes the guards and finds
    -- its directory. If its file is among those that a merge has read, the request is answered without an
    -- error after the merge, and changes nothing.
    pub merged_upload :
        (env : IngestEnv) (req : IngestRequest) (t : ℤ)
        → skips config (small_files config db table s.files) ≡ false
        → chunk_time_param req ≡ some t
        → refusal env.max_body_bytes req ≡ none
        → env.mkdir_ok ≡ true
        → In (name_of env req) (names_of (small_files config db table s.files))
        → ingest footer env req
            (compact_table footer merge config now_ms db table (merge_ok removes) s).0
          ≡ ((compact_table footer merge config now_ms db table (merge_ok removes) s).0, ok)
    unfolding compact_table finish
    merged_upload env req t some_work timed guards made m =
        let small = small_files config db table s.files in
        let s1 =
          finish footer merge now_ms db table removes small
            (record s { files = put_file (output merge db table small) s.files }) in
        let first : compact_table footer merge config now_ms db table (merge_ok removes) s
            ≡ (s1, true) =
          rw (some_work, compact_table) refl in
        let dead : is_tombstoned (name_of env req) s1.store ≡ true =
          tombstoned-recount_table now_ms db table (name_of env req) _
            (tombstone_files now_ms (names_of small) s.store)
          ∙ tombstone_files_adds now_ms (names_of small) (name_of env req) s.store m in
        rw first (Settled-idle footer env env req t s1 timed guards made (inr dead))
