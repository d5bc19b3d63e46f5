-- ===== src/Snapshot/Cycle/Durable.antt =====
-- scheduler.rs, `do_snapshot`: rows leave the buffer only when a copy of them is elsewhere.
use iedb.Base.{
  ℕ, ◌≡◌, refl, String, true, ◌⊎◌, Option, none, some, List, [], ◌∷◌, ℤ, In, In-append_right,
  Bool-cases, Option-cases, inl, inr,
}
use iedb.Chunk.{Chunk}
use iedb.Table.{Table}
use iedb.Buffer.{get_table}
use iedb.Snapshot.{capture}
use iedb.Snapshot.Cycle.{Cluster, Outcome, upload_for, hand_off, deliver, flush_table}
use iedb.Staging.{StagedFile, SaveOutcome, saved, save_failed, staging_save, Upload}
use iedb.Staging.Retry.{staged, In-put}

-- The batch is at the backend, or in staging under the name that a retry reads.
abbrev pub HasCopy : Upload → Cluster → Type 0
HasCopy up s =
    In up s.uploaded ⊎ In (staged up.db up.table up.chunk_time up.wal_seq up.parquet_data) s.staging

abbrev pub Unchanged : Cluster → Cluster → Type 0
Unchanged s s' = (s'.buffer ≡ s.buffer) × (s'.disk ≡ s.disk)

save_keeps :
    (o : SaveOutcome) (db table : String) (t : ℤ) (w : ℕ) (parquet_data : List ℕ)
    (files : List StagedFile)
    → (staging_save o db table t w parquet_data files).1 ≡ true
    → In (staged db table t w parquet_data) (staging_save o db table t w parquet_data files).0
unfolding staging_save
save_keeps saved db table t w parquet_data files e = In-put (staged db table t w parquet_data) files
save_keeps (save_failed none) db table t w parquet_data files e = cc
save_keeps (save_failed (some part)) db table t w parquet_data files e = cc

deliver_safe :
    (o : Outcome) (db table : String) (chunks : List Chunk) (parquet_data : List ℕ) (s : Cluster)
    → Unchanged s (deliver o db table chunks parquet_data s).0
      ⊎ HasCopy
          (upload_for db table chunks parquet_data)
          (deliver o db table chunks parquet_data s).0
unfolding deliver hand_off
deliver_safe o db table chunks parquet_data s =
    let up = upload_for db table chunks parquet_data in
    elim (Bool-cases o.accepted) [
      | inl e ↦ rw (e, deliver) (inr (inl (In-append_right up s.uploaded (up ∷ []) (inl refl))))
      | inr e ↦
          elim (Bool-cases
            (staging_save o.save db table up.chunk_time up.wal_seq parquet_data s.staging).1) [
              | inl k ↦
                  rw (e, deliver)
                    (rw k (
                      inr (
                        inr (
                          save_keeps o.save db table up.chunk_time up.wal_seq parquet_data s.staging
                            k))))
              | inr k ↦ rw (e, deliver) (rw k (inl (refl, refl)))
            ]
    ]

-- Flushing one table, whatever fails on the way, leaves the buffer and the log's disk as they were, or
-- the backend has the parquet data of exactly the captured chunks, or staging has it under a name that
-- a retry reads.
pub flush_table_keeps :
    (parquet : Table → List Chunk → Option (List ℕ)) (o : Outcome) (db table : String)
    (times : List ℤ) (s : Cluster)
    → Unchanged s (flush_table parquet o db table times s).0
      ⊎ ((t : Table) × (parquet_data : List ℕ) × (get_table db table s.buffer ≡ some t)
          × (parquet t (capture times t.chunks) ≡ some parquet_data)
          × HasCopy
              (upload_for db table (capture times t.chunks) parquet_data)
              (flush_table parquet o db table times s).0)
unfolding flush_table
flush_table_keeps parquet o db table times s = elim (Option-cases (get_table db table s.buffer)) [
  | inl e ↦ rw (e, flush_table) (inl (refl, refl))
  | inr (t, e) ↦ elim (Option-cases (parquet t (capture times t.chunks))) [
    | inl q ↦ rw (e, flush_table) (rw q (inl (refl, refl)))
    | inr (parquet_data, q) ↦
        elim (deliver_safe o db table (capture times t.chunks) parquet_data s) [
          | inl same ↦ inl (rw (e, flush_table) (rw q same))
          | inr copy ↦ inr (t, parquet_data, e, q, rw (e, flush_table) (rw q copy))
        ]
  ]
]
