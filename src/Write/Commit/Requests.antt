-- ===== src/Write/Commit/Requests.antt =====
-- write.rs, `handle`: however a request ends, the buffer stays what a replay of the disk builds.
use iedb.Base.{
  ℕ, ◌<◌, ◌≡◌, refl, String, Option, List, [], ◌∷◌, arith, u64_max, is_empty, ℤ, Bool-cases,
  Option-cases, option_get_or, ltb, inl, inr, ◌⊎◌,
}
use iedb.Wal.{WriteBatch, WalOp, write, WalContents}
use iedb.Wal.Serialize
use iedb.Wal.Manager.{WalManager, WalResult, WalError, ok, err, buffer_op, WriteOutcome}
use iedb.Wal.Manager.Replay.{ReadsBack}
use iedb.Write.{ParsedLine, rows_by_table, buffer_batches}
use iedb.Write.Commit.{Agent, WriteConfig, Request, commit, handle_lines, handle, db_of}
use iedb.Write.Commit.Recover.{IsAtomic, IsRecovered, flush_into_buffer-IsRecovered}

WalResult-cases :
    {A : Type 0} (r : WalResult A) → ((x : A) × (r ≡ ok x)) ⊎ ((e : WalError) × (r ≡ err e))
WalResult-cases (ok x) = inl (x, refl)
WalResult-cases (err e) = inr (e, refl)

current_seq-buffer_op :
    (op : WalOp) (m : WalManager) → (buffer_op op m).0.current_seq ≡ m.current_seq
unfolding buffer_op
current_seq-buffer_op op m = ground arith

pub current_seq-buffer_batches :
    (batches : List WriteBatch) (m : WalManager)
    → (buffer_batches batches m).0.current_seq ≡ m.current_seq
unfolding buffer_batches
current_seq-buffer_batches [] m = refl
current_seq-buffer_batches (batch ∷ batches) m = ground (
  arith,
  current_seq-buffer_op (write batch) m,
  current_seq-buffer_batches batches (buffer_op (write batch) m).0,
)

module _ (encode : WalContents → List ℕ) (decode : List ℕ → Serialize.Result WalContents)
    (crc32 : List ℕ → ℕ) where
  commit-IsRecovered :
      (outcome : WriteOutcome) (now : ℤ) (batches : List WriteBatch) (a : Agent)
      → ((c : WalContents) → ReadsBack encode decode crc32 c)
      → IsAtomic outcome
      → a.wal.current_seq < u64_max
      → IsRecovered encode decode crc32 a
      → IsRecovered encode decode crc32 (commit encode decode crc32 outcome now batches a).0
  unfolding commit
  commit-IsRecovered outcome now batches a codec whole fits h =
      let buffered = buffer_batches batches a.wal in
      let a' = record a { wal = buffered.0 } in
      let seq = current_seq-buffer_batches batches a.wal in
      let h' : IsRecovered encode decode crc32 a' = rw seq h in
      elim (WalResult-cases buffered.1) [
        | inl (_, e) ↦
            rw (e, commit)
              (flush_into_buffer-IsRecovered encode decode crc32 outcome now a' codec whole
                (omega (arith, seq)) h')
        | inr (_, e) ↦ rw (e, commit) h'
      ]

  handle_lines-IsRecovered :
      (outcome : WriteOutcome) (now : ℤ) (config : WriteConfig) (db : String)
      → (lines : List (ℤ × Option ParsedLine)) (a : Agent)
      → ((c : WalContents) → ReadsBack encode decode crc32 c)
      → IsAtomic outcome
      → a.wal.current_seq < u64_max
      → IsRecovered encode decode crc32 a
      → IsRecovered encode decode crc32
          (handle_lines encode decode crc32 outcome now config db lines a).0
  unfolding handle_lines
  handle_lines-IsRecovered outcome now config db lines a codec whole fits h =
      elim (Bool-cases (is_empty (rows_by_table lines []))) [
        | inl e ↦ rw (e, handle_lines) h
        | inr e ↦ rw (e, handle_lines) (commit-IsRecovered outcome now _ a codec whole fits h)
      ]

  -- A request leaves the state alone, or its lines are handled.
  handle_cases :
      (outcome : WriteOutcome) (now : ℤ) (config : WriteConfig) (req : Request) (a : Agent)
      → ((handle encode decode crc32 outcome now config req a).0 ≡ a)
        ⊎ ((lines : List (ℤ × Option ParsedLine)) × ((handle encode decode crc32 outcome now config
                req a).0
              ≡ (handle_lines encode decode crc32 outcome now config (db_of req) lines a).0))
  unfolding handle
  handle_cases outcome now config req a = elim (Bool-cases req.is_post) [
    | inr e ↦ inl (rw (e, handle) refl)
    | inl e ↦ elim (Bool-cases (ltb config.max_body_bytes (option_get_or 0 req.content_length))) [
      | inl e1 ↦ inl (rw (e, handle) (rw e1 refl))
      | inr e1 ↦ elim (Option-cases req.body) [
        | inl e2 ↦ inl (rw (e, handle) (rw (e1, e2) refl))
        | inr (body, e2) ↦ elim (Bool-cases (ltb config.max_body_bytes body.size)) [
          | inl e3 ↦ inl (rw (e, handle) (rw (e1, e2, e3) refl))
          | inr e3 ↦ elim (Option-cases body.lines) [
            | inl e4 ↦ inl (rw (e, handle) (rw (e1, e2, e3, e4) refl))
            | inr (lines, e4) ↦ inr (lines, rw (e, handle) (rw (e1, e2, e3, e4) refl))
          ]
        ]
      ]
    ]
  ]

  -- Whatever a request holds and however it ends, it keeps the agent recovered.
  pub handle-IsRecovered :
      (outcome : WriteOutcome) (now : ℤ) (config : WriteConfig) (req : Request) (a : Agent)
      → ((c : WalContents) → ReadsBack encode decode crc32 c)
      → IsAtomic outcome
      → a.wal.current_seq < u64_max
      → IsRecovered encode decode crc32 a
      → IsRecovered encode decode crc32 (handle encode decode crc32 outcome now config req a).0
  handle-IsRecovered outcome now config req a codec whole fits h =
      elim (handle_cases outcome now config req a) [
        | inl e ↦ rw e h
        | inr (lines, e) ↦
            rw e
              (handle_lines-IsRecovered outcome now config (db_of req) lines a codec whole fits h)
      ]
