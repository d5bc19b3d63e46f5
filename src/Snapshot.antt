-- ===== src/Snapshot.antt =====
-- src/agent/flush/scheduler.rs: the snapshot cycle. Closed chunks are captured, serialized and
-- uploaded or staged; then the captured rows leave the buffer and the log is cleaned up to the
-- sequence that no remaining chunk needs.
pub mod Marker
pub mod Handoff
pub mod Cycle
pub mod Schedule
use iedb.Base.{
  ℕ, zero, suc, ◌+◌, ◌-◌, ◌*◌, ◌/◌, String, Bool, true, false, Option, none, some, List, [], ◌∷◌,
  ◌++◌, length, drop, keep, find, map, is_empty, option_get_or, ltb, leb, ◌==◌, if◌then◌else◌, ℤ,
  pos, negsuc, ◌-ℤ◌, ◌+ℤ◌, ltb_ℤ, u64_max,
}
use Prim.Native.Nat.{min, max}
use iedb.Base.Assoc.{Assoc}
use iedb.Chunk.{Row, Chunk, rebuild_tag_index}
use iedb.Table.{Table}
use iedb.Table.Sorted.{eq_ℤ, chunk_at}
use iedb.Buffer.{Buffer, get_table, with_table_mut}
use iedb.HotConfig.{mul_i64}
use iedb.Wal.Manager.{Disk, WalManager, cleanup}

-- `(t / n) * n` on i64 with a positive `n`: the division rounds towards zero.
unfoldable pub truncate : ℤ → ℕ → ℤ
truncate (pos t) n = pos (t / n * n)
truncate (negsuc t) n = if suc t / n == 0 then pos 0 else negsuc (suc t / n * n - 1)

-- `interval_secs.max(1) * 1_000_000_000` on i64, which wraps in a release build.
unfoldable pub interval_ns : ℤ → ℤ
interval_ns (pos secs) = mul_i64 (pos (max secs 1)) 1000000000
interval_ns (negsuc _) = pos 1000000000

-- The boundary below which a window is closed.
unfoldable pub end_time_marker : ℤ → ℕ → ℤ
end_time_marker now_ns interval = truncate (now_ns -ℤ pos interval) interval

-- The marker of `do_snapshot`: an interval that wrapped to 0 is a division by zero, a panic (`none`); the
-- quotient by a negative one, times it again, is the multiple of its absolute value.
unfoldable pub snapshot_marker : ℤ → ℤ → Option ℤ
snapshot_marker now_ns interval_secs = elim (interval_ns interval_secs) [
  | pos n ↦ if n == 0 then none else some (end_time_marker now_ns n)
  | negsuc n ↦ some (truncate (now_ns +ℤ pos (suc n)) (suc n))
]

unfoldable pub closed_chunk_times : ℤ → List Chunk → List ℤ
closed_chunk_times marker cs = map (λ c. c.chunk_time) (keep (λ c. ltb_ℤ c.chunk_time marker) cs)

-- The loops over the tables that collect what to flush.
collect_tables : ℤ → String → Assoc Table → List (String × String × List ℤ)
collect_tables marker db [] = []
collect_tables marker db ((name, t) ∷ tables) =
    let times = closed_chunk_times marker t.chunks in
    let rest = collect_tables marker db tables in
    if is_empty times then rest else (db, name, times) ∷ rest

collect_databases : ℤ → Assoc (Assoc Table) → List (String × String × List ℤ)
collect_databases marker [] = []
collect_databases marker ((db, tables) ∷ m) =
    collect_tables marker db tables ++ collect_databases marker m

unfoldable pub chunks_to_flush : ℤ → Buffer → List (String × String × List ℤ)
unfolding collect_tables collect_databases
chunks_to_flush marker b = collect_databases marker b.databases

-- `filter_map(|ct| table.chunks.iter().find(|c| c.chunk_time == *ct).cloned())`
unfoldable pub capture : List ℤ → List Chunk → List Chunk
capture [] cs = []
capture (t ∷ times) cs =
    let rest = capture times cs in elim (chunk_at t cs) [ none ↦ rest | some c ↦ c ∷ rest ]

-- (chunk_time, captured row count)
unfoldable pub captured_counts : List Chunk → List (ℤ × ℕ)
captured_counts = map (λ c. (c.chunk_time, length c.rows))

-- `chunk.rows.drain(0..captured_len.min(chunk.rows.len()))`, and the rebuilt tag index.
unfoldable pub drain : List String → ℕ → Chunk → Chunk
drain tag_keys captured_len c =
    rebuild_tag_index tag_keys (record c { rows = drop (min captured_len (length c.rows)) c.rows })

-- `if let Some(chunk) = table.chunks.iter_mut().find(..)`
unfoldable pub drain_first : List String → ℤ → ℕ → List Chunk → List Chunk
drain_first tag_keys chunk_time captured_len [] = []
drain_first tag_keys chunk_time captured_len (c ∷ cs) =
    if eq_ℤ c.chunk_time chunk_time
    then drain tag_keys captured_len c ∷ cs
    else c ∷ drain_first tag_keys chunk_time captured_len cs

unfoldable pub drain_captured : List String → List (ℤ × ℕ) → List Chunk → List Chunk
drain_captured tag_keys [] cs = cs
drain_captured tag_keys ((t, n) ∷ captured) cs =
    drain_captured tag_keys captured (drain_first tag_keys t n cs)

abbrev has_rows : Chunk → Bool
has_rows c = if is_empty c.rows then false else true

-- Drains the captured rows and drops the chunks that are empty then.
unfoldable pub handoff_table : List (ℤ × ℕ) → Table → Table
handoff_table captured t = record t {
  chunks = keep has_rows (drain_captured t.schema.tag_keys captured t.chunks);
}

-- `if c.min_wal_seq < min_wal { min_wal = c.min_wal_seq; }`
abbrev pub lower : ℕ → Chunk → ℕ
lower m c = if ltb c.min_wal_seq m then c.min_wal_seq else m

unfoldable pub min_wal_chunks : ℕ → List Chunk → ℕ
min_wal_chunks m [] = m
min_wal_chunks m (c ∷ cs) = min_wal_chunks (lower m c) cs

unfoldable pub min_wal_tables : ℕ → Assoc Table → ℕ
min_wal_tables m [] = m
min_wal_tables m ((_, t) ∷ tables) = min_wal_tables (min_wal_chunks m t.chunks) tables

unfoldable pub min_wal_databases : ℕ → Assoc (Assoc Table) → ℕ
min_wal_databases m [] = m
min_wal_databases m ((_, tables) ∷ dbs) = min_wal_databases (min_wal_tables m tables) dbs

-- The sequence up to which no remaining chunk needs the log; an empty buffer needs none of it.
unfoldable pub safe_wal_seq : Buffer → ℕ → ℕ
safe_wal_seq b current_seq =
    let min_wal = min_wal_databases u64_max b.databases in
    if min_wal == u64_max then current_seq - 1 else min_wal - 1

-- How far the writes to `meta/last_snapshot.json` get: each error returns before the cleanup. A
-- failed write after `File::create` leaves a truncated file, which does not parse; after a failed
-- `sync_all` the file is complete.
pub data MetaOutcome : Type 0 where
  meta_written : MetaOutcome
  meta_create_failed : MetaOutcome
  meta_write_failed : MetaOutcome
  meta_sync_failed : MetaOutcome

unfoldable pub write_meta : MetaOutcome → ℕ → Disk → Disk
write_meta meta_written seq d = record d { last_snapshot = some seq }
write_meta meta_create_failed seq d = d
write_meta meta_write_failed seq d = record d { last_snapshot = none }
write_meta meta_sync_failed seq d = record d { last_snapshot = some seq }

-- `complete_chunk_handoff`; the last component says whether it returned `Ok`.
unfoldable pub complete_chunk_handoff :
    MetaOutcome → String → String → List (ℤ × ℕ) → Buffer → WalManager → Disk → Buffer × Disk × Bool
complete_chunk_handoff outcome db table captured b wal d =
    let b' = with_table_mut db table (handoff_table captured) b in
    let seq = safe_wal_seq b' wal.current_seq in
    elim outcome [
      | meta_written ↦ (b', cleanup seq (write_meta meta_written seq d), true)
      | meta_create_failed ↦ (b', write_meta meta_create_failed seq d, false)
      | meta_write_failed ↦ (b', write_meta meta_write_failed seq d, false)
      | meta_sync_failed ↦ (b', write_meta meta_sync_failed seq d, false)
    ]
