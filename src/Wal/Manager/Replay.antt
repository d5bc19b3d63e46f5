-- ===== src/Wal/Manager/Replay.antt =====
-- wal_core.rs, `flush`, `replay` and `cleanup` together: what a replay after a crash rebuilds.
use iedb.Base.{
  ℕ, ◌≤◌, ◌<◌, ◌≡◌, refl, ◌∙◌, ap, false, none, some, List, [], ◌∷◌, ◌++◌, All, arith, IsU64,
  Option-cases, Bool-cases, inl, inr, ltb, lt→ltb, keep, ℤ, eq_bytes, eq_bytes→eq, is_empty,
}
use iedb.Buffer.{Buffer}
use iedb.Wal.{WalContents}
use iedb.Wal.Apply.{apply_ops}
use iedb.Wal.FileName.{wal_file_name, file_seq, file_seq-wal_file_name}
use iedb.Wal.Serialize
use iedb.Wal.Serialize.{serialize_to_file, deserialize_from_file}
use iedb.Wal.Manager.{
  File, Disk, WalManager, written, failed, load_last_snapshot, write_file, after_write,
  insert_sorted, sort_by_seq, unflushed, flush, replay_file, replay_files, replay, survives,
  cleanup,
}
use iedb.Wal.Manager.Order.{SeqBelow, DiskBelow}

-- A file of a name that no file on the disk has goes to the end.
pub write_file_fresh :
    (seq : ℕ) (bytes : List ℕ) (files : List File)
    → IsU64 seq
    → All (SeqBelow seq) files
    → write_file (wal_file_name seq) bytes files
      ≡ files ++ ((record { name = wal_file_name seq; content = some bytes }) ∷ [])
unfolding write_file
write_file_fresh seq bytes [] u h = refl
write_file_fresh seq bytes (f ∷ files) u h =
    elim (Bool-cases (eq_bytes f.name (wal_file_name seq))) [
      | inl e ↦
          let same : f.name ≡ wal_file_name seq = eq_bytes→eq f.name (wal_file_name seq) e in
          absurd (omega (arith, h.0 seq (ap file_seq same ∙ file_seq-wal_file_name seq u)))
      | inr e ↦ rw e (ap (λ l. f ∷ l) (write_file_fresh seq bytes files u h.1))
    ]

unflushed-append :
    (n : ℕ) (xs ys : List File) → unflushed n (xs ++ ys) ≡ unflushed n xs ++ unflushed n ys
unfolding unflushed
unflushed-append n [] ys = refl
unflushed-append n (f ∷ xs) ys = ground (arith, unflushed-append n xs ys)

abbrev FirstBelow : ℕ → List (ℕ × File) → Type 0
FirstBelow n = All (λ (p : ℕ × File). p.0 < n)

unflushed-FirstBelow :
    (m n : ℕ) (files : List File) → All (SeqBelow n) files → FirstBelow n (unflushed m files)
unfolding unflushed
unflushed-FirstBelow m n [] h = tt
unflushed-FirstBelow m n (f ∷ files) h = elim (Option-cases (file_seq f.name)) [
  | inl e ↦ rw (e, unflushed) (unflushed-FirstBelow m n files h.1)
  | inr (s, e) ↦ elim (Bool-cases (ltb m s)) [
    | inl t ↦ rw (e, unflushed) (rw t (h.0 s e, unflushed-FirstBelow m n files h.1))
    | inr t ↦ rw (e, unflushed) (rw t (unflushed-FirstBelow m n files h.1))
  ]
]

insert_sorted-snoc :
    (s n : ℕ) (f g : File) (l : List (ℕ × File))
    → s < n
    → insert_sorted (s, f) (l ++ ((n, g) ∷ [])) ≡ insert_sorted (s, f) l ++ ((n, g) ∷ [])
unfolding insert_sorted
insert_sorted-snoc s n f g [] h = ground arith
insert_sorted-snoc s n f g ((t, k) ∷ l) h = ground (arith, insert_sorted-snoc s n f g l h)

sort_by_seq-snoc :
    (n : ℕ) (g : File) (l : List (ℕ × File))
    → FirstBelow n l
    → sort_by_seq (l ++ ((n, g) ∷ [])) ≡ sort_by_seq l ++ ((n, g) ∷ [])
unfolding sort_by_seq
sort_by_seq-snoc n g [] h = unfold insert_sorted in refl
sort_by_seq-snoc n g ((s, f) ∷ l) h =
    rw (sort_by_seq-snoc n g l h.1) (insert_sorted-snoc s n f g (sort_by_seq l) h.0)

unflushed_one :
    (m seq : ℕ) (bytes : List ℕ)
    → IsU64 seq
    → m < seq
    → unflushed m ((record { name = wal_file_name seq; content = some bytes }) ∷ [])
      ≡ (seq, record { name = wal_file_name seq; content = some bytes }) ∷ []
unfolding unflushed
unflushed_one m seq bytes u lt = rw (file_seq-wal_file_name seq u, unflushed) (rw (lt→ltb m seq lt))

-- The unflushed files, once a file of a higher number is written: it is replayed last.
sorted_after_write :
    (m seq : ℕ) (bytes : List ℕ) (files : List File)
    → IsU64 seq
    → m < seq
    → All (SeqBelow seq) files
    → sort_by_seq (unflushed m (write_file (wal_file_name seq) bytes files))
      ≡ sort_by_seq (unflushed m files)
        ++ ((seq, record { name = wal_file_name seq; content = some bytes }) ∷ [])
sorted_after_write m seq bytes files u lt h =
    rw (write_file_fresh seq bytes files u h, unflushed-append, unflushed_one m seq bytes u lt)
      (sort_by_seq-snoc seq _ (unflushed m files) (unflushed-FirstBelow m seq files h))

-- Cleaning up files that the snapshot covers leaves the unflushed files as they are.
unflushed-keep :
    (m through : ℕ) (files : List File)
    → through ≤ m
    → unflushed m (keep (survives through) files) ≡ unflushed m files
unfolding unflushed
unflushed-keep m through [] h = refl
unflushed-keep m through (f ∷ files) h = ground (arith, unflushed-keep m through files h)

module _ (encode : WalContents → List ℕ) (decode : List ℕ → Serialize.Result WalContents)
    (crc32 : List ℕ → ℕ) where
  replay_files-snoc :
      (l : List (ℕ × File)) (p : ℕ × File) (b : Buffer)
      → replay_files encode decode crc32 (l ++ (p ∷ [])) b
        ≡ replay_file encode decode crc32 p (replay_files encode decode crc32 l b)
  unfolding replay_files
  replay_files-snoc [] p b = refl
  replay_files-snoc (q ∷ l) p b = replay_files-snoc l p (replay_file encode decode crc32 q b)

  -- What reading a flushed file back gives: the encoder, the decoder and the checksum fit together.
  abbrev pub ReadsBack : WalContents → Type 0
  ReadsBack c =
      deserialize_from_file encode decode crc32 (serialize_to_file encode decode crc32 c)
      ≡ Serialize.ok c

  -- After a flush that wrote its file, a replay of the disk does what it did before, and then applies
  -- the flushed ops, in order, under the number of that file. The new file has to read back, and the
  -- manager's number, a u64, has to lie above those on the disk.
  pub replay-flush :
      (now : ℤ) (m : WalManager) (d : Disk) (b : Buffer)
      → DiskBelow m.current_seq d
      → IsU64 m.current_seq
      → is_empty m.pending_ops ≡ false
      → ReadsBack (record {
        wal_file_number = m.current_seq;
        ops = m.pending_ops;
        persist_timestamp_ms = now;
      })
      → replay encode decode crc32 (flush encode decode crc32 written now m d).1 b
        ≡ apply_ops m.pending_ops m.current_seq (replay encode decode crc32 d b)
  unfolding replay flush after_write replay_file load_last_snapshot
  replay-flush now m d b below u some_ops back =
      rw
        (
          some_ops,
          sorted_after_write (load_last_snapshot d) m.current_seq _ d.wal_files u below.1 below.0,
          replay_files-snoc,
        )
        (rw (back, replay_file))

  -- A cleanup up to a sequence number that the snapshot covers changes no replay.
  pub replay-cleanup :
      (through_seq : ℕ) (d : Disk) (b : Buffer)
      → through_seq ≤ load_last_snapshot d
      → replay encode decode crc32 (cleanup through_seq d) b ≡ replay encode decode crc32 d b
  unfolding replay cleanup load_last_snapshot
  replay-cleanup through_seq d b h = rw (unflushed-keep _ through_seq d.wal_files h)

  -- A failed write that leaves a file which does not read back changes no replay, whatever bytes it
  -- holds; one that leaves no file changes none either. The manager's number, a u64, has to lie
  -- above those on the disk.
  pub replay-failed_flush :
      (torn : List ℕ) (e : Serialize.Error) (now : ℤ) (m : WalManager) (d : Disk) (b : Buffer)
      → DiskBelow m.current_seq d
      → IsU64 m.current_seq
      → deserialize_from_file encode decode crc32 torn ≡ Serialize.err e
      → (replay encode decode crc32 (flush encode decode crc32 (failed (some torn)) now m d).1 b
          ≡ replay encode decode crc32 d b)
        × (replay encode decode crc32 (flush encode decode crc32 (failed none) now m d).1 b
            ≡ replay encode decode crc32 d b)
  unfolding replay flush after_write replay_file load_last_snapshot
  replay-failed_flush torn e now m d b below u bad = elim (Bool-cases (is_empty m.pending_ops)) [
    | inl nothing ↦ rw nothing (refl, refl)
    | inr some_ops ↦ rw some_ops (
      rw
          (
            sorted_after_write (load_last_snapshot d) m.current_seq torn d.wal_files u below.1
                below.0,
            replay_files-snoc,
          )
          (rw (bad, replay_file)),
      refl,
    )
  ]
