-- ===== src/Snapshot/Handoff/Invariant.antt =====
-- scheduler.rs, the drain of `complete_chunk_handoff`: the tables stay well formed.
use iedb.Base.{
  ℕ, String, refl, Bool, List, [], ◌∷◌, length, keep, All, All-drop, ℤ, ◌<ℤ◌, Bool-cases, inl, inr,
}
use Prim.Native.Nat.{min}
use iedb.Chunk.{Row, Chunk, rebuild_tag_index}
use iedb.Chunk.TagIndex.{IsIndexed, FitsKeys}
use iedb.Table.{Table}
use iedb.Table.Sorted.{Ascending, eq_ℤ}
use iedb.Wal.Apply.Invariant.{IsTable}
use iedb.Snapshot.{drain, drain_first, drain_captured, has_rows, handoff_table}

-- What a drain keeps of a chunk holds of all chunks after a drain of one, and after all drains.
module _ {κ} (P : Chunk → Type κ) (keys : List String)
    (kept : (n : ℕ) (c : Chunk) → P c → P (drain keys n c)) where
  All-drain_first : (t : ℤ) (n : ℕ) (cs : List Chunk) → All P cs → All P (drain_first keys t n cs)
  unfolding drain_first
  All-drain_first t n [] h = h
  All-drain_first t n (c ∷ cs) h = elim (Bool-cases (eq_ℤ c.chunk_time t)) [
    | inl e ↦ rw e (kept n c h.0, h.1)
    | inr e ↦ rw e (h.0, All-drain_first t n cs h.1)
  ]

  All-drain_captured :
      (captured : List (ℤ × ℕ)) (cs : List Chunk)
      → All P cs
      → All P (drain_captured keys captured cs)
  unfolding drain_captured
  All-drain_captured [] cs h = h
  All-drain_captured ((t, n) ∷ captured) cs h =
      All-drain_captured captured (drain_first keys t n cs) (All-drain_first t n cs h)

All-keep {κ} :
    (P : Chunk → Type κ) (p : Chunk → Bool) (cs : List Chunk) → All P cs → All P (keep p cs)
All-keep P p [] h = h
All-keep P p (c ∷ cs) h = elim (Bool-cases (p c)) [
  | inl e ↦ rw e (h.0, All-keep P p cs h.1)
  | inr e ↦ rw e (All-keep P p cs h.1)
]

drain-later :
    (b : ℤ) (keys : List String) (n : ℕ) (c : Chunk)
    → b <ℤ c.chunk_time
    → b <ℤ (drain keys n c).chunk_time
unfolding drain rebuild_tag_index
drain-later b keys n c h = h

drain_first-Ascending :
    (keys : List String) (t : ℤ) (n : ℕ) (cs : List Chunk)
    → Ascending cs
    → Ascending (drain_first keys t n cs)
unfolding drain_first drain rebuild_tag_index
drain_first-Ascending keys t n [] h = h
drain_first-Ascending keys t n (c ∷ cs) h = elim (Bool-cases (eq_ℤ c.chunk_time t)) [
  | inl e ↦ rw e h
  | inr e ↦ rw e (
    All-drain_first (λ (d : Chunk). c.chunk_time <ℤ d.chunk_time) keys
        (drain-later c.chunk_time keys) t n cs h.0,
    drain_first-Ascending keys t n cs h.1,
  )
]

drain_captured-Ascending :
    (keys : List String) (captured : List (ℤ × ℕ)) (cs : List Chunk)
    → Ascending cs
    → Ascending (drain_captured keys captured cs)
unfolding drain_captured
drain_captured-Ascending keys [] cs h = h
drain_captured-Ascending keys ((t, n) ∷ captured) cs h =
    drain_captured-Ascending keys captured (drain_first keys t n cs)
      (drain_first-Ascending keys t n cs h)

keep-Ascending : (p : Chunk → Bool) (cs : List Chunk) → Ascending cs → Ascending (keep p cs)
keep-Ascending p [] h = h
keep-Ascending p (c ∷ cs) h = elim (Bool-cases (p c)) [
  | inl e ↦
      rw e
        (All-keep (λ (d : Chunk). c.chunk_time <ℤ d.chunk_time) p cs h.0, keep-Ascending p cs h.1)
  | inr e ↦ rw e (keep-Ascending p cs h.1)
]

drain-IsIndexed : (keys : List String) (n : ℕ) (c : Chunk) → IsIndexed keys (drain keys n c)
unfolding drain rebuild_tag_index
drain-IsIndexed keys n c = refl

drain-FitsKeys :
    (keys : List String) (n : ℕ) (c : Chunk)
    → FitsKeys keys c.rows
    → FitsKeys keys (drain keys n c).rows
unfolding drain rebuild_tag_index
drain-FitsKeys keys n c h = All-drop (λ (row : Row). _) (min n (length c.rows)) c.rows h

-- Whatever was captured, the handoff leaves a well-formed table well formed: distinct keys, chunks in
-- order, no tag value beyond the keys, and every tag index equal to a rebuild, also of the chunks that
-- keep rows which came while the upload was in flight.
pub handoff_table-IsTable :
    (captured : List (ℤ × ℕ)) (t : Table) → IsTable t → IsTable (handoff_table captured t)
unfolding handoff_table
handoff_table-IsTable captured t h =
    let keys = t.schema.tag_keys in
    let cs = drain_captured keys captured t.chunks in
    record {
      distinct = h.distinct;
      ascending =
          keep-Ascending has_rows cs (drain_captured-Ascending keys captured t.chunks h.ascending);
      indexed = All-keep (IsIndexed keys) has_rows cs (
          All-drain_captured (IsIndexed keys) keys (λ n c _. drain-IsIndexed keys n c) captured
            t.chunks h.indexed);
      fits =
          All-keep (λ (c : Chunk). FitsKeys keys c.rows) has_rows cs
            (All-drain_captured (λ (c : Chunk). FitsKeys keys c.rows) keys (drain-FitsKeys keys)
              captured t.chunks h.fits);
    }
