-- ===== src/Snapshot/Handoff/Drain.antt =====
-- scheduler.rs, the drain of the handoff: exactly the captured rows leave the buffer.
use iedb.Base.{
  ℕ, ◌≡◌, refl, sym, ◌∙◌, ap, true, false, Option, none, some, String, List, [], ◌∷◌, ◌++◌, length,
  length-append, drop, drop-append, keep, All, arith, is_empty, if◌then◌else◌, ℤ, ◌<ℤ◌, Bool-cases,
  inl, inr,
}
use Prim.Native.Nat.{min}
use iedb.Chunk.{Row, Chunk, rebuild_tag_index}
use iedb.Table.{Table}
use iedb.Table.Sorted.{Ascending, Above-eq, absent_below, eq_ℤ, eq_ℤ→eq, eq_ℤ-refl, chunk_at}
use iedb.Snapshot.{drain, drain_first, drain_captured, has_rows, handoff_table}

-- Later rows of a chunk: what is left when the captured ones have left.
abbrev pub after_drain : List String → List Row → Chunk → Chunk
after_drain keys later c = rebuild_tag_index keys (record c { rows = later })

drain_exact :
    (keys : List String) (c : Chunk) (old later : List Row)
    → c.rows ≡ old ++ later
    → drain keys (length old) c ≡ after_drain keys later c
unfolding drain
drain_exact keys c old later e =
    let enough : min (length old) (length c.rows) ≡ length old =
      omega (arith, ap length e, length-append {0} old later) in
    ap (λ l. after_drain keys l c) (rw enough (ap (drop (length old)) e ∙ drop-append old later))

chunk_time-drain :
    (keys : List String) (n : ℕ) (c : Chunk) → (drain keys n c).chunk_time ≡ c.chunk_time
unfolding drain rebuild_tag_index
chunk_time-drain keys n c = refl

abbrev drained : List String → ℕ → Option Chunk → Option Chunk
drained keys n none = none
drained keys n (some c) = some (drain keys n c)

other_time : (a s t : ℤ) → eq_ℤ a t ≡ false → eq_ℤ a s ≡ true → eq_ℤ t s ≡ false
other_time a s t e e' = ground (arith, eq_ℤ→eq t s)

-- A drain at one time changes the first chunk of that time and no other.
chunk_at-drain_first :
    (keys : List String) (s t : ℤ) (n : ℕ) (cs : List Chunk)
    → chunk_at s (drain_first keys t n cs)
      ≡ (if eq_ℤ t s then drained keys n (chunk_at s cs) else chunk_at s cs)
unfolding drain_first
chunk_at-drain_first keys s t n [] = ground arith
chunk_at-drain_first keys s t n (c ∷ cs) = elim (Bool-cases (eq_ℤ c.chunk_time t)) [
  | inl e ↦ rw e (ground (arith, chunk_time-drain keys n c, eq_ℤ→eq c.chunk_time t))
  | inr e ↦ rw e (ground (arith, other_time c.chunk_time s t, chunk_at-drain_first keys s t n cs))
]

-- Entries for other times leave the chunk alone.
chunk_at-drain_others :
    (keys : List String) (s : ℤ) (captured : List (ℤ × ℕ)) (cs : List Chunk)
    → All (λ (p : ℤ × ℕ). eq_ℤ p.0 s ≡ false) captured
    → chunk_at s (drain_captured keys captured cs) ≡ chunk_at s cs
unfolding drain_captured
chunk_at-drain_others keys s [] cs h = refl
chunk_at-drain_others keys s ((t, n) ∷ captured) cs h =
    chunk_at-drain_others keys s captured (drain_first keys t n cs) h.1
    ∙ chunk_at-drain_first keys s t n cs
    ∙ rw h.0

drain_captured-append :
    (keys : List String) (xs ys : List (ℤ × ℕ)) (cs : List Chunk)
    → drain_captured keys (xs ++ ys) cs ≡ drain_captured keys ys (drain_captured keys xs cs)
unfolding drain_captured
drain_captured-append keys [] ys cs = refl
drain_captured-append keys ((t, n) ∷ xs) ys cs =
    drain_captured-append keys xs ys (drain_first keys t n cs)

Above-drain_first :
    (keys : List String) (b t : ℤ) (n : ℕ) (cs : List Chunk)
    → All (λ (d : Chunk). b <ℤ d.chunk_time) cs
    → All (λ (d : Chunk). b <ℤ d.chunk_time) (drain_first keys t n cs)
unfolding drain_first
Above-drain_first keys b t n [] h = tt
Above-drain_first keys b t n (c ∷ cs) h = elim (Bool-cases (eq_ℤ c.chunk_time t)) [
  | inl e ↦ rw e (rw (chunk_time-drain keys n c) h.0, h.1)
  | inr e ↦ rw e (h.0, Above-drain_first keys b t n cs h.1)
]

Ascending-drain_first :
    (keys : List String) (t : ℤ) (n : ℕ) (cs : List Chunk)
    → Ascending cs
    → Ascending (drain_first keys t n cs)
unfolding drain_first
Ascending-drain_first keys t n [] h = tt
Ascending-drain_first keys t n (c ∷ cs) h = elim (Bool-cases (eq_ℤ c.chunk_time t)) [
  | inl e ↦ rw e (Above-eq (chunk_time-drain keys n c) cs h.0, h.1)
  | inr e ↦
      rw e (Above-drain_first keys c.chunk_time t n cs h.0, Ascending-drain_first keys t n cs h.1)
]

pub Ascending-drain_captured :
    (keys : List String) (captured : List (ℤ × ℕ)) (cs : List Chunk)
    → Ascending cs
    → Ascending (drain_captured keys captured cs)
unfolding drain_captured
Ascending-drain_captured keys [] cs h = h
Ascending-drain_captured keys ((t, n) ∷ captured) cs h =
    Ascending-drain_captured keys captured (drain_first keys t n cs)
      (Ascending-drain_first keys t n cs h)

abbrev pub kept : Option Chunk → Option Chunk
kept none = none
kept (some c) = if has_rows c then some c else none

-- Dropping empty chunks, where the times are distinct.
chunk_at-keep :
    (s : ℤ) (cs : List Chunk) → Ascending cs → chunk_at s (keep has_rows cs) ≡ kept (chunk_at s cs)
chunk_at-keep s [] h = refl
chunk_at-keep s (c ∷ cs) h = elim (Bool-cases (eq_ℤ c.chunk_time s)) [
  | inl e ↦
      let gone : chunk_at s cs ≡ none =
        absent_below s cs (Above-eq (sym (eq_ℤ→eq c.chunk_time s e)) cs h.0) in
      rw e (elim (Bool-cases (has_rows c)) [
        | inl b ↦ rw b (rw e)
        | inr b ↦ rw b (chunk_at-keep s cs h.1 ∙ rw gone)
      ])
  | inr e ↦ rw e (elim (Bool-cases (has_rows c)) [
    | inl b ↦ rw b (rw e (chunk_at-keep s cs h.1))
    | inr b ↦ rw b (chunk_at-keep s cs h.1)
  ])
]

at_entry :
    (keys : List String) (s : ℤ) (n : ℕ) (behind : List (ℤ × ℕ)) (cs : List Chunk)
    → All (λ (p : ℤ × ℕ). eq_ℤ p.0 s ≡ false) behind
    → chunk_at s (drain_captured keys ((s, n) ∷ behind) cs) ≡ drained keys n (chunk_at s cs)
at_entry keys s n behind cs h =
    unfold drain_captured in
    chunk_at-drain_others keys s behind (drain_first keys s n cs) h
    ∙ chunk_at-drain_first keys s s n cs
    ∙ rw (eq_ℤ-refl s)

kept-after_drain :
    (keys : List String) (later : List Row) (c : Chunk)
    → kept (some (after_drain keys later c))
      ≡ (if is_empty later then none else some (after_drain keys later c))
unfolding rebuild_tag_index
kept-after_drain keys [] c = refl
kept-after_drain keys (r ∷ later) c = refl

-- The handoff takes from a captured chunk exactly the rows that were captured. Rows that came later
-- stay, in order, under a rebuilt index; a chunk with none of these is dropped.
pub chunk_at-handoff_captured :
    (table : Table) (s : ℤ) (c : Chunk) (old later : List Row) (before behind : List (ℤ × ℕ))
    → Ascending table.chunks
    → chunk_at s table.chunks ≡ some c
    → c.rows ≡ old ++ later
    → All (λ (p : ℤ × ℕ). eq_ℤ p.0 s ≡ false) before
    → All (λ (p : ℤ × ℕ). eq_ℤ p.0 s ≡ false) behind
    → chunk_at s (handoff_table (before ++ ((s, length old) ∷ behind)) table).chunks
      ≡ (if is_empty later then none else some (after_drain table.schema.tag_keys later c))
unfolding handoff_table
chunk_at-handoff_captured table s c old later before behind asc at_s rows nb na =
    let keys = table.schema.tag_keys in
    let captured = before ++ ((s, length old) ∷ behind) in
    let left : List Chunk = drain_captured keys before table.chunks in
    chunk_at-keep s (drain_captured keys captured table.chunks)
      (Ascending-drain_captured keys captured table.chunks asc)
    ∙ ap kept (
        ap (chunk_at s) (drain_captured-append keys before ((s, length old) ∷ behind) table.chunks)
        ∙ at_entry keys s (length old) behind left na
        ∙ ap (drained keys (length old))
            (chunk_at-drain_others keys s before table.chunks nb ∙ at_s)
        ∙ ap some (drain_exact keys c old later rows))
    ∙ kept-after_drain keys later c

-- A chunk that was not captured keeps its rows and its index; only an empty one is dropped.
pub chunk_at-handoff_other :
    (table : Table) (s : ℤ) (captured : List (ℤ × ℕ))
    → Ascending table.chunks
    → All (λ (p : ℤ × ℕ). eq_ℤ p.0 s ≡ false) captured
    → chunk_at s (handoff_table captured table).chunks ≡ kept (chunk_at s table.chunks)
unfolding handoff_table
chunk_at-handoff_other table s captured asc h =
    let keys = table.schema.tag_keys in
    chunk_at-keep s (drain_captured keys captured table.chunks)
      (Ascending-drain_captured keys captured table.chunks asc)
    ∙ ap kept (chunk_at-drain_others keys s captured table.chunks h)
