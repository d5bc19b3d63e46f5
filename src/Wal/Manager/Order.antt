-- ===== src/Wal/Manager/Order.antt =====
-- wal_core.rs, `WalManager::new` and `flush`: a sequence number is new on the disk, and lies above
-- the flushed one, so a replay does not skip the file.
use iedb.Base.{
  ℕ, suc, ◌≤◌, ◌<◌, ◌≡◌, refl, Option, none, some, List, [], ◌∷◌, All, arith, option_get_or,
  u64_max,
}
use iedb.Wal.FileName.{file_seq}
use iedb.Wal.Manager.{File, Disk, load_last_snapshot, seen, max_seq, new_manager}

-- Every sequence number on the disk lies below `n`.
abbrev pub SeqBelow : ℕ → File → Type 0
SeqBelow n f = (s : ℕ) → file_seq f.name ≡ some s → s < n

abbrev pub DiskBelow : ℕ → Disk → Type 0
DiskBelow n d = All (SeqBelow n) d.wal_files × (load_last_snapshot d < n)

seen-le : (acc found : Option ℕ) → option_get_or 0 acc ≤ option_get_or 0 (seen acc found)
seen-le acc none = omega arith
seen-le none (some seq) = omega arith
seen-le (some m) (some seq) = omega arith

seen-covers : (acc found : Option ℕ) (s : ℕ) → found ≡ some s → s ≤ option_get_or 0 (seen acc found)
seen-covers acc none s e = cc
seen-covers none (some seq) s e = ground arith
seen-covers (some m) (some seq) s e = ground arith

seen-lt :
    (n : ℕ) (acc found : Option ℕ)
    → option_get_or 0 acc < n
    → ((s : ℕ) → found ≡ some s → s < n)
    → option_get_or 0 (seen acc found) < n
seen-lt n acc none h k = h
seen-lt n none (some seq) h k = k seq refl
seen-lt n (some m) (some seq) h k = omega (arith, k seq refl)

max_seq-ge :
    (acc : Option ℕ) (files : List File) → option_get_or 0 acc ≤ option_get_or 0 (max_seq acc files)
unfolding max_seq
max_seq-ge acc [] = omega arith
max_seq-ge acc (f ∷ files) =
    omega (arith, seen-le acc (file_seq f.name), max_seq-ge (seen acc (file_seq f.name)) files)

max_seq-covers :
    (acc : Option ℕ) (files : List File)
    → All (SeqBelow (suc (option_get_or 0 (max_seq acc files)))) files
unfolding max_seq
max_seq-covers acc [] = tt
max_seq-covers acc (f ∷ files) = (
  λ s e.
      omega (
        arith,
        seen-covers acc (file_seq f.name) s e,
        max_seq-ge (seen acc (file_seq f.name)) files,
      ),
  max_seq-covers (seen acc (file_seq f.name)) files,
)

max_seq-lt :
    (n : ℕ) (acc : Option ℕ) (files : List File)
    → option_get_or 0 acc < n
    → All (SeqBelow n) files
    → option_get_or 0 (max_seq acc files) < n
unfolding max_seq
max_seq-lt n acc [] h k = h
max_seq-lt n acc (f ∷ files) h k =
    max_seq-lt n (seen acc (file_seq f.name)) files (seen-lt n acc (file_seq f.name) h k.0) k.1

pub SeqBelow-mono :
    (n m : ℕ) (files : List File) → n ≤ m → All (SeqBelow n) files → All (SeqBelow m) files
SeqBelow-mono n m [] h k = tt
SeqBelow-mono n m (f ∷ files) h k = ((λ s e. omega (arith, k.0 s e)), SeqBelow-mono n m files h k.1)

-- Where no sequence number is at the end of the range, a new manager starts above every file of the
-- disk and above the flushed sequence.
pub new_manager-DiskBelow :
    (op_limit : ℕ) (d : Disk)
    → DiskBelow u64_max d
    → DiskBelow (new_manager op_limit d).current_seq d
unfolding new_manager
new_manager-DiskBelow op_limit d h =
    let top : option_get_or 0 (max_seq none d.wal_files) < u64_max =
      max_seq-lt u64_max none d.wal_files (omega arith) h.0 in
    (
      SeqBelow-mono (suc (option_get_or 0 (max_seq none d.wal_files))) _ d.wal_files (omega arith)
          (max_seq-covers none d.wal_files),
      omega arith,
    )
