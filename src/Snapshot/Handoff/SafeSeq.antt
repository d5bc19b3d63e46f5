-- ===== src/Snapshot/Handoff/SafeSeq.antt =====
-- scheduler.rs, the safe WAL sequence of the handoff: no chunk that remains needs a file up to it.
use iedb.Base.{
  ℕ, ◌≤◌, ◌<◌, ◌≡◌, true, some, String, List, [], ◌∷◌, All, In, arith, keep, u64_max, str_eq,
  Bool-cases, inl, inr, ℤ,
}
use mathlib.Core.Path.{subst}
use native.Mathlib.Nat.{le_trans}
use iedb.Base.{Option-cases}
use iedb.Base.Assoc.{Assoc, get, get-nil}
use iedb.Chunk.{Chunk}
use iedb.Table.{Table}
use iedb.Buffer.{Buffer, get_table, with_table_mut}
use iedb.Wal.FileName.{file_seq}
use iedb.Wal.Manager.{File, Disk, WalManager, load_last_snapshot, survives, cleanup}
use iedb.Snapshot.{
  lower, min_wal_chunks, min_wal_tables, min_wal_databases, safe_wal_seq, meta_written, write_meta,
  complete_chunk_handoff, handoff_table,
}

min_wal_chunks-le : (m : ℕ) (cs : List Chunk) → min_wal_chunks m cs ≤ m
unfolding min_wal_chunks
min_wal_chunks-le m [] = omega arith
min_wal_chunks-le m (c ∷ cs) = ground (arith, min_wal_chunks-le (lower m c) cs)

min_wal_tables-le : (m : ℕ) (ts : Assoc Table) → min_wal_tables m ts ≤ m
unfolding min_wal_tables
min_wal_tables-le m [] = omega arith
min_wal_tables-le m ((k, t) ∷ ts) =
    omega (arith, min_wal_tables-le (min_wal_chunks m t.chunks) ts, min_wal_chunks-le m t.chunks)

min_wal_databases-le : (m : ℕ) (dbs : Assoc (Assoc Table)) → min_wal_databases m dbs ≤ m
unfolding min_wal_databases
min_wal_databases-le m [] = omega arith
min_wal_databases-le m ((k, ts) ∷ dbs) =
    omega (arith, min_wal_databases-le (min_wal_tables m ts) dbs, min_wal_tables-le m ts)

-- A number that no chunk of a list undercuts.
abbrev pub NoneBelow : ℕ → List Chunk → Type 0
NoneBelow n = All (λ (c : Chunk). n ≤ c.min_wal_seq)

min_wal_chunks-NoneBelow : (n m : ℕ) (cs : List Chunk) → n ≤ min_wal_chunks m cs → NoneBelow n cs
unfolding min_wal_chunks
min_wal_chunks-NoneBelow n m [] h = tt
min_wal_chunks-NoneBelow n m (c ∷ cs) h =
    (ground (arith, min_wal_chunks-le (lower m c) cs), min_wal_chunks-NoneBelow n (lower m c) cs h)

min_wal_tables-NoneBelow :
    (n m : ℕ) (ts : Assoc Table) (name : String) (t : Table)
    → n ≤ min_wal_tables m ts
    → get name ts ≡ some t
    → NoneBelow n t.chunks
unfolding min_wal_tables get
min_wal_tables-NoneBelow n m [] name t h e = cc
min_wal_tables-NoneBelow n m ((k, u) ∷ ts) name t h e = elim (Bool-cases (str_eq k name)) [
  | inl b ↦
      let same : u ≡ t = ground arith in
      let least : n ≤ min_wal_chunks m u.chunks =
        omega (arith, min_wal_tables-le (min_wal_chunks m u.chunks) ts) in
      subst (λ (x : Table). NoneBelow n x.chunks) same (min_wal_chunks-NoneBelow n m u.chunks least)
  | inr b ↦ min_wal_tables-NoneBelow n (min_wal_chunks m u.chunks) ts name t h (ground arith)
]

min_wal_databases-NoneBelow :
    (n m : ℕ) (dbs : Assoc (Assoc Table)) (db name : String) (ts : Assoc Table) (t : Table)
    → n ≤ min_wal_databases m dbs
    → get db dbs ≡ some ts
    → get name ts ≡ some t
    → NoneBelow n t.chunks
unfolding min_wal_databases
min_wal_databases-NoneBelow n m [] db name ts t h e e' = cc (get-nil {V = Assoc Table} db)
min_wal_databases-NoneBelow n m ((k, us) ∷ dbs) db name ts t h e e' =
    elim (Bool-cases (str_eq k db)) [
      | inl b ↦
          let same : us ≡ ts = unfold get in ground arith in
          let least : n ≤ min_wal_tables m us =
            omega (arith, min_wal_databases-le (min_wal_tables m us) dbs) in
          min_wal_tables-NoneBelow n m us name t least (rw same e')
      | inr b ↦
          let deeper : get db dbs ≡ some ts = unfold get in ground arith in
          min_wal_databases-NoneBelow n (min_wal_tables m us) dbs db name ts t h deeper e'
    ]

-- The scan of the whole buffer finds a number that no chunk of any table undercuts.
pub min_wal-NoneBelow :
    (b : Buffer) (db name : String) (t : Table)
    → get_table db name b ≡ some t
    → NoneBelow (min_wal_databases u64_max b.databases) t.chunks
unfolding get_table
min_wal-NoneBelow b db name t e = elim (Option-cases (get db b.databases)) [
  | inl gone ↦ cc (rw (gone, get_table) at e)
  | inr (ts, found) ↦
      min_wal_databases-NoneBelow _ u64_max b.databases db name ts t (omega arith) found
        (rw (found, get_table) at e)
]

survives_above :
    (through s : ℕ) (f : File) → file_seq f.name ≡ some s → through < s → survives through f ≡ true
survives_above through s f e lt = ground arith

-- A file above the cleanup's sequence stays.
In-keep :
    (through s : ℕ) (f : File) (files : List File)
    → file_seq f.name ≡ some s
    → through < s
    → In f files
    → In f (keep (survives through) files)
In-keep through s f [] e lt h = h
In-keep through s f (g ∷ files) e lt (inl same) =
    let at_g : file_seq g.name ≡ some s = rw same e in
    rw (survives_above through s g at_g lt) (inl same)
In-keep through s f (g ∷ files) e lt (inr h) = elim (Bool-cases (survives through g)) [
  | inl b ↦ rw b (inr (In-keep through s f files e lt h))
  | inr b ↦ rw b (In-keep through s f files e lt h)
]

All-In : (P : Chunk → Type 0) (c : Chunk) (cs : List Chunk) → All P cs → In c cs → P c
All-In P c [] h m = absurd m
All-In P c (x ∷ cs) h (inl e) = subst P e h.0
All-In P c (x ∷ cs) h (inr m) = All-In P c cs h.1 m

-- A chunk that took rows bounds the safe sequence from above.
safe_wal_seq-lt :
    (b : Buffer) (current_seq n : ℕ)
    → min_wal_databases u64_max b.databases ≤ n
    → 1 ≤ n
    → n < u64_max
    → safe_wal_seq b current_seq < n
unfolding safe_wal_seq
safe_wal_seq-lt b current_seq n h one lt = ground arith

-- After a handoff that wrote its meta file, whichever chunk is still in the buffer, with a first
-- sequence number that is neither 0 nor the end of the range, and whatever file of the log is at or
-- above that number: the file is still on the disk, and it lies above the recorded snapshot, so a
-- replay reads it.
pub handoff_keeps_files :
    (db table : String) (captured : List (ℤ × ℕ)) (b : Buffer) (wal : WalManager) (d : Disk)
    → (q name : String) (t : Table) (c : Chunk) (f : File) (s : ℕ)
    → get_table q name (complete_chunk_handoff meta_written db table captured b wal d).0 ≡ some t
    → In c t.chunks
    → 1 ≤ c.min_wal_seq
    → c.min_wal_seq < u64_max
    → In f d.wal_files
    → file_seq f.name ≡ some s
    → c.min_wal_seq ≤ s
    → In f (complete_chunk_handoff meta_written db table captured b wal d).1.wal_files
      × (load_last_snapshot (complete_chunk_handoff meta_written db table captured b wal d).1 < s)
unfolding complete_chunk_handoff write_meta cleanup load_last_snapshot
handoff_keeps_files db table captured b wal d q name t c f s found mem one lt file num le =
    let b' = with_table_mut db table (handoff_table captured) b in
    let least : min_wal_databases u64_max b'.databases ≤ c.min_wal_seq =
      All-In _ c t.chunks (min_wal-NoneBelow b' q name t found) mem in
    let safe : safe_wal_seq b' wal.current_seq < s =
      le_trans (safe_wal_seq-lt b' wal.current_seq c.min_wal_seq least one lt) le in
    (In-keep (safe_wal_seq b' wal.current_seq) s f d.wal_files num safe file, safe)
