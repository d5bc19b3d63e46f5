-- ===== src/Snapshot/Handoff/Race.antt =====
-- scheduler.rs and wal_core.rs together: a handoff between the flush of a write and its entry into
-- the buffer.
use iedb.Base.{
  suc, none, [], ◌∷◌, refl, true, All, Option-cases, inl, inr, leb, keep, ℕ, ◌+◌, ◌<◌, ◌≡◌, ◌∙◌, ap,
  false, String, List, arith, u64_max, is_empty, ℤ,
}
use iedb.Buffer.{Buffer, with_table_mut}
use iedb.Wal.{WalContents}
use iedb.Wal.Serialize
use iedb.Wal.FileName.{file_seq}
use iedb.Wal.Manager.{
  File, survives, cleanup, Disk, WalManager, written, flush, replay, load_last_snapshot,
}
use iedb.Wal.Manager.Order.{DiskBelow, SeqBelow}
use iedb.Wal.Manager.Replay.{replay-cleanup}
use iedb.Wal.Manager.Covered.{replay_covered}
use iedb.Wal.Manager.Flushed.{current_seq-flush, wal_files-flush}
use iedb.Snapshot.{
  min_wal_databases, safe_wal_seq, meta_written, write_meta, handoff_table, complete_chunk_handoff,
}

-- A cleanup removes every file of the log whose number is not above its own.
none_survive :
    (n : ℕ) (files : List File)
    → All (SeqBelow (suc n)) files
    → All (λ f. file_seq f.name ≡ none) (keep (survives n) files)
none_survive n [] h = tt
none_survive n (f ∷ files) h = elim (Option-cases (file_seq f.name)) [
  | inl e ↦ rw (e, survives) (rw e refl, none_survive n files h.1)
  | inr (s, e) ↦
      let low : leb s n ≡ true = ground (arith, h.0 s e) in
      rw (e, survives) (rw low (none_survive n files h.1))
]

module _ (encode : WalContents → List ℕ) (decode : List ℕ → Serialize.Result WalContents)
    (crc32 : List ℕ → ℕ) where
  safe_wal_seq-empty :
      (b : Buffer) (n : ℕ)
      → min_wal_databases u64_max b.databases ≡ u64_max
      → safe_wal_seq b (n + 1) ≡ n
  unfolding safe_wal_seq
  safe_wal_seq-empty b n e = rw (e, safe_wal_seq) (omega arith)

  -- A code bug: a write that has flushed its ops to the log and not yet applied them is lost from the
  -- log if a handoff runs that empties the buffer. The handoff records the number of the write's own file
  -- as flushed, no file of the log is left, and a replay of the disk rebuilds nothing. The manager's
  -- number lies above those on the disk and below the end of the range, and some ops wait.
  pub handoff_overtakes_write :
      (now : ℤ) (m : WalManager) (d : Disk)
      → (db table : String) (captured : List (ℤ × ℕ)) (b restart : Buffer)
      → DiskBelow m.current_seq d
      → m.current_seq < u64_max
      → is_empty m.pending_ops ≡ false
      → min_wal_databases u64_max (with_table_mut db table (handoff_table captured) b).databases
        ≡ u64_max
      → (load_last_snapshot
            (complete_chunk_handoff meta_written db table captured b
              (flush encode decode crc32 written now m d).0
              (flush encode decode crc32 written now m d).1).1
          ≡ m.current_seq)
        × All
            (λ f. file_seq f.name ≡ none)
            (complete_chunk_handoff meta_written db table captured b
              (flush encode decode crc32 written now m d).0
              (flush encode decode crc32 written now m d).1).1.wal_files
        × (replay encode decode crc32
              (complete_chunk_handoff meta_written db table captured b
                (flush encode decode crc32 written now m d).0
                (flush encode decode crc32 written now m d).1).1
              restart
            ≡ restart)
  unfolding complete_chunk_handoff
  handoff_overtakes_write now m d db table captured b restart below fits some_ops empty =
      let m' = (flush encode decode crc32 written now m d).0 in
      let d' = (flush encode decode crc32 written now m d).1 in
      let b' = with_table_mut db table (handoff_table captured) b in
      let seq = safe_wal_seq b' m'.current_seq in
      let d'' = write_meta meta_written seq d' in
      let at : seq ≡ m.current_seq =
        ap (safe_wal_seq b') (current_seq-flush encode decode crc32 now m d fits some_ops)
        ∙ safe_wal_seq-empty b' m.current_seq empty in
      let old = wal_files-flush encode decode crc32 now m d below fits some_ops in
      (
        (unfold load_last_snapshot write_meta cleanup in at),
        (unfold write_meta cleanup in rw at (none_survive m.current_seq d'.wal_files old)),
        replay-cleanup encode decode crc32 seq d'' restart
              (unfold load_last_snapshot write_meta in omega arith)
            ∙ replay_covered encode decode crc32 d'' restart
                (unfold load_last_snapshot write_meta in rw at old),
      )
