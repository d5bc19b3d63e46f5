-- ===== src/Wal/Manager/Covered.antt =====
-- wal_core.rs, `replay`: files that the snapshot covers are not replayed.
use iedb.Base.{
  ℕ, suc, ◌≡◌, refl, false, List, [], ◌∷◌, All, All-append, arith, ltb, IsU64, Option-cases, inl,
  inr, le→ltb-false,
}
use iedb.Buffer.{Buffer}
use iedb.Wal.{WalContents}
use iedb.Wal.FileName.{wal_file_name, file_seq, file_seq-wal_file_name}
use iedb.Wal.Serialize
use iedb.Wal.Manager.{
  File, Disk, load_last_snapshot, write_file, unflushed, sort_by_seq, replay_files, replay,
}
use iedb.Wal.Manager.Order.{SeqBelow, SeqBelow-mono}
use iedb.Wal.Manager.Replay.{write_file_fresh}

unflushed_none : (n : ℕ) (files : List File) → All (SeqBelow (suc n)) files → unflushed n files ≡ []
unfolding unflushed
unflushed_none n [] h = refl
unflushed_none n (f ∷ files) h = elim (Option-cases (file_seq f.name)) [
  | inl e ↦ rw (e, unflushed) (unflushed_none n files h.1)
  | inr (s, e) ↦
      let low : ltb n s ≡ false = le→ltb-false n s (omega (arith, h.0 s e)) in
      rw (e, unflushed) (rw low (unflushed_none n files h.1))
]

-- If the snapshot covers every file, a replay leaves the buffer as it is.
pub replay_covered :
    (encode : WalContents → List ℕ) (decode : List ℕ → Serialize.Result WalContents)
    (crc32 : List ℕ → ℕ) (d : Disk) (b : Buffer)
    → All (SeqBelow (suc (load_last_snapshot d))) d.wal_files
    → replay encode decode crc32 d b ≡ b
unfolding replay
replay_covered encode decode crc32 d b h =
    rw (unflushed_none (load_last_snapshot d) d.wal_files h)
      (unfold sort_by_seq replay_files in refl)

pub write_file-SeqBelow :
    (seq : ℕ) (bytes : List ℕ) (files : List File)
    → IsU64 seq
    → All (SeqBelow seq) files
    → All (SeqBelow (suc seq)) (write_file (wal_file_name seq) bytes files)
write_file-SeqBelow seq bytes files u h = rw (write_file_fresh seq bytes files u h) (
    All-append _ files _ (SeqBelow-mono seq (suc seq) files (omega arith) h)
      (λ s e. ground (arith, file_seq-wal_file_name seq u), tt))
