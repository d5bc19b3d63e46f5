-- ===== src/Wal/Manager/Flushed.antt =====
-- wal_core.rs, `flush`: the manager and the disk after a write that succeeded.
use iedb.Base.{
  none, refl, true, [], ℕ, suc, ◌+◌, ◌<◌, ◌≡◌, false, List, All, arith, u64_max, is_empty, ℤ,
}
use iedb.Wal.{WalContents}
use iedb.Wal.Serialize
use iedb.Wal.Manager.{
  Disk, WalManager, WriteOutcome, failed, ok, err, write_error, written, flush, load_last_snapshot,
  after_write,
}
use iedb.Wal.Manager.Order.{SeqBelow, DiskBelow, SeqBelow-mono}
use iedb.Wal.Manager.Covered.{write_file-SeqBelow}

module _ (encode : WalContents → List ℕ) (decode : List ℕ → Serialize.Result WalContents)
    (crc32 : List ℕ → ℕ) where
  pub current_seq-flush :
      (now : ℤ) (m : WalManager) (d : Disk)
      → m.current_seq < u64_max
      → is_empty m.pending_ops ≡ false
      → (flush encode decode crc32 written now m d).0.current_seq ≡ m.current_seq + 1
  unfolding flush
  current_seq-flush now m d fits some_ops = rw (some_ops, flush) (omega arith)

  pub wal_files-flush :
      (now : ℤ) (m : WalManager) (d : Disk)
      → DiskBelow m.current_seq d
      → m.current_seq < u64_max
      → is_empty m.pending_ops ≡ false
      → All (SeqBelow (suc m.current_seq)) (flush encode decode crc32 written now m d).1.wal_files
  unfolding flush after_write
  wal_files-flush now m d below fits some_ops =
      rw (some_ops, flush) (write_file-SeqBelow m.current_seq _ d.wal_files (omega arith) below.0)

  load_last_snapshot-flush :
      (now : ℤ) (m : WalManager) (d : Disk)
      → is_empty m.pending_ops ≡ false
      → load_last_snapshot (flush encode decode crc32 written now m d).1 ≡ load_last_snapshot d
  unfolding flush load_last_snapshot
  load_last_snapshot-flush now m d some_ops = rw (some_ops, flush) refl

  -- The number of the next file lies above those on the disk again.
  pub DiskBelow-flush :
      (now : ℤ) (m : WalManager) (d : Disk)
      → DiskBelow m.current_seq d
      → m.current_seq < u64_max
      → is_empty m.pending_ops ≡ false
      → DiskBelow
          (flush encode decode crc32 written now m d).0.current_seq
          (flush encode decode crc32 written now m d).1
  DiskBelow-flush now m d below fits some_ops =
      let next = current_seq-flush now m d fits some_ops in
      (
        SeqBelow-mono (suc m.current_seq) _ _ (omega (arith, next))
            (wal_files-flush now m d below fits some_ops),
        omega (arith, below.1, next, load_last_snapshot-flush now m d some_ops),
      )

  pub flush_returns :
      (now : ℤ) (m : WalManager) (d : Disk)
      → is_empty m.pending_ops ≡ false
      → (flush encode decode crc32 written now m d).2 ≡ ok m.pending_ops
  unfolding flush
  flush_returns now m d some_ops = rw (some_ops, flush) refl

  pub flush_nothing :
      (outcome : WriteOutcome) (now : ℤ) (m : WalManager) (d : Disk)
      → is_empty m.pending_ops ≡ true
      → flush encode decode crc32 outcome now m d ≡ (m, d, ok [])
  unfolding flush
  flush_nothing outcome now m d none_wait = rw (none_wait, flush) refl

  pub flush_failed :
      (now : ℤ) (m : WalManager) (d : Disk)
      → is_empty m.pending_ops ≡ false
      → flush encode decode crc32 (failed none) now m d
        ≡ (record m { pending_ops = []; op_count = 0 }, d, err write_error)
  unfolding flush after_write
  flush_failed now m d some_ops = rw (some_ops, flush) refl
