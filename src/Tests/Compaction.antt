-- ===== src/Tests/Compaction.antt =====
-- The compaction of two small files.
use iedb.Base.{
  ℕ, ◌+◌, ◌≡◌, refl, sym, ◌∙◌, Bool, true, false, ◌&&◌, Option, none, List, [], ◌∷◌, ◌++◌, arith,
  pos, length, length-append, In, keep, eq_bytes, inl, inr,
}
use mathlib.Core.Bool.{not}
use iedb.Base.Text.{digits, strip_suffix}
use iedb.Base.Text.Codes.{Chars, codes, starts_with}
use iedb.Server.Db.{new_db}
use iedb.Server.Footer.{Footer}
use iedb.Server.Metadata.{is_parquet}
use iedb.Server.Ingest.{
  DataFile, Server, is_at, file_at, put_file, ingest, ok, name_of, ingest_name, agent_of,
  sanitize_filename_part, chunk_time_param, wal_param, param,
}
use iedb.Server.Ingest.Client.{upload_parquet, ingest_params}
use iedb.Base.Parse.{parse_i64, parse_magnitude}
use iedb.Wal.FileName.{parse_u64, parse_digits}
use iedb.Server.Compaction.{
  CompactionConfig, is_candidate, small_files, sort_by_name, insert_by_name, le_bytes, skips,
  total_small, compacted_name, merge_ok, merge_failed, output, compact_table, names_of,
}
use iedb.Server.Compaction.Originals.{OneEach, all_removed}
use iedb.Server.Compaction.Rows.{total, rows_in, rows_in-compact_table, compact_table-compact_table}
use iedb.Server.Compaction.Replay.{compact_table_replay, merged_upload}
use iedb.Server.Compaction.Schedule.{parse_schedule_hours, interval_secs, split_words, first_hours}
use iedb.Tests.Ingest.{env, request, guards_pass, timed}

abbrev no_footer : List ℕ → Option Footer
no_footer _ = none

-- A merge that writes the contents one after the other, and a row for each byte.
abbrev joined : List (List ℕ) → List ℕ
joined [] = []
joined (c ∷ cs) = c ++ joined cs

joined_rows : (cs : List (List ℕ)) → length (joined cs) ≡ total length cs
joined_rows [] = refl
joined_rows (c ∷ cs) = omega (arith, length-append {0} c (joined cs), joined_rows cs)

abbrev config : CompactionConfig
config = record { min_file_size_mb = 1; target_file_size_mb = 2 }

-- The file of the upload of the tests, and another one.
abbrev one : DataFile
one = record {
  db = codes "db";
  table = codes "cpu";
  name = codes "a1_600_4.parquet";
  content = 7 ∷ 8 ∷ [];
}

abbrev two : DataFile
two = record {
  db = codes "db";
  table = codes "cpu";
  name = codes "a1_300_2.parquet";
  content = 5 ∷ [];
}

abbrev server : Server
server = record { files = one ∷ two ∷ []; store = new_db; engine_tables = [] }

apart : is_at one.db one.table one.name two ≡ false
unfolding eq_bytes
apart = refl

apart' : is_at two.db two.table two.name one ≡ false
unfolding eq_bytes
apart' = refl

one_each : OneEach (one ∷ two ∷ [])
one_each f g (inl e) (inl h) same = sym e ∙ h
one_each f g (inl e) (inr (inl h)) same =
    let clash : false ≡ true =
      sym apart ∙ (λ i. is_at (e i).db (e i).table (e i).name (h i)) ∙ same in
    cc clash
one_each f g (inr (inl e)) (inl h) same =
    let clash : false ≡ true =
      sym apart' ∙ (λ i. is_at (e i).db (e i).table (e i).name (h i)) ∙ same in
    cc clash
one_each f g (inr (inl e)) (inr (inl h)) same = sym e ∙ h
one_each f g (inl e) (inr (inr h)) same = elim h [ ]
one_each f g (inr (inl e)) (inr (inr h)) same = elim h [ ]
one_each f g (inr (inr e)) m same = elim e [ ]

-- A removal that fails for the second file.
abbrev keeps_two : Chars → Bool
keeps_two name = not (eq_bytes name (codes "a1_300_2.parquet"))

some_work : skips config (small_files config (codes "db") (codes "cpu") (one ∷ two ∷ [])) ≡ false
unfolding skips small_files sort_by_name insert_by_name le_bytes is_candidate total_small is_parquet
    strip_suffix eq_bytes starts_with
some_work = refl

no_output_yet :
    file_at
      (codes "db")
      (codes "cpu")
      (compacted_name (small_files config (codes "db") (codes "cpu") (one ∷ two ∷ [])))
      (one ∷ two ∷ [])
    ≡ none
unfolding file_at compacted_name eq_bytes
no_output_yet = refl

rows_in-compact_table_example :
    rows_in length
      (compact_table no_footer joined config
        (pos 1)
        (codes "db")
        (codes "cpu")
        (merge_ok keeps_two)
        server).0.files
    ≡ rows_in length server.files
      + rows_in length (
          keep
            (λ f. is_candidate config (codes "db") (codes "cpu") f && not (keeps_two f.name))
            server.files)
rows_in-compact_table_example =
    rows_in-compact_table length no_footer joined joined_rows config (pos 1) (codes "db")
      (codes "cpu") keeps_two server one_each no_output_yet some_work

compact_table-compact_table_example :
    compact_table no_footer joined config
      (pos 2)
      (codes "db")
      (codes "cpu")
      (merge_failed none)
      (compact_table no_footer joined config
        (pos 1)
        (codes "db")
        (codes "cpu")
        (merge_ok all_removed)
        server).0
    ≡ (
      (compact_table no_footer joined config
          (pos 1)
          (codes "db")
          (codes "cpu")
          (merge_ok all_removed)
          server).0,
      true,
    )
compact_table-compact_table_example =
    compact_table-compact_table no_footer joined config (pos 1) (pos 2) (codes "db") (codes "cpu")
      (merge_failed none) server one_each

compact_table_replay_example :
    compact_table no_footer joined config
      (pos 1)
      (codes "db")
      (codes "cpu")
      (merge_ok all_removed)
      (record server {
        files =
            put_file
              (output joined
                (codes "db")
                (codes "cpu")
                (small_files config (codes "db") (codes "cpu") (one ∷ two ∷ [])))
              (one ∷ two ∷ []);
      })
    ≡ compact_table no_footer joined config
        (pos 1)
        (codes "db")
        (codes "cpu")
        (merge_ok all_removed)
        server
compact_table_replay_example =
    compact_table_replay no_footer joined config (pos 1) (codes "db") (codes "cpu") all_removed
      server some_work

read_by_merge :
    In
      (name_of env request)
      (names_of (small_files config (codes "db") (codes "cpu") (one ∷ two ∷ [])))
unfolding small_files sort_by_name insert_by_name le_bytes is_candidate is_parquet strip_suffix
    eq_bytes starts_with ingest_name agent_of sanitize_filename_part chunk_time_param wal_param
    param upload_parquet ingest_params parse_i64 parse_magnitude parse_u64 parse_digits digits
read_by_merge = inr (inl refl)

merged_upload_example :
    ingest no_footer env request
      (compact_table no_footer joined config
        (pos 1)
        (codes "db")
        (codes "cpu")
        (merge_ok all_removed)
        server).0
    ≡ (
      (compact_table no_footer joined config
          (pos 1)
          (codes "db")
          (codes "cpu")
          (merge_ok all_removed)
          server).0,
      ok,
    )
merged_upload_example =
    merged_upload no_footer joined config (pos 1) (codes "db") (codes "cpu") all_removed server env
      request (pos 600) some_work timed guards_pass refl read_by_merge

-- The schedule "0 */0 * * *" sleeps for no time at all between two runs.
no_pause : interval_secs (codes "0 */0 * * *") ≡ 0
unfolding interval_secs parse_schedule_hours split_words first_hours starts_with parse_u64
    parse_digits eq_bytes
no_pause = refl
