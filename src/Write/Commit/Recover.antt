-- ===== src/Write/Commit/Recover.antt =====
-- wal_core.rs, `flush_and_apply`: what the buffer holds stays what a replay of the disk builds.
use iedb.Base.{
  ℕ, ◌-◌, ◌<◌, ◌≡◌, refl, sym, ◌∙◌, ap, true, false, none, some, List, [], arith, u64_max, is_empty,
  length, ℤ, Bool-cases, inl, inr,
}
use iedb.Buffer.{new_buffer}
use iedb.Wal.{WalOp, WalContents}
use iedb.Wal.Apply.{apply_ops}
use iedb.Wal.Serialize
use iedb.Wal.Manager.{WalError, ok, err, write_error, WriteOutcome, written, failed, flush, replay}
use iedb.Wal.Manager.Order.{DiskBelow}
use iedb.Wal.Manager.Replay.{ReadsBack, replay-flush}
use iedb.Wal.Manager.Flushed.{
  current_seq-flush, DiskBelow-flush, flush_returns, flush_nothing, flush_failed,
}
use iedb.Write.Commit.{Agent, flush_into_buffer}

-- The write of a file happens as a whole or not at all.
abbrev pub IsAtomic : WriteOutcome → Type 0
IsAtomic written = Unit
IsAtomic (failed none) = Unit
IsAtomic (failed (some _)) = ⊥

module _ (encode : WalContents → List ℕ) (decode : List ℕ → Serialize.Result WalContents)
    (crc32 : List ℕ → ℕ) where
  -- The buffer is what a replay of the disk would build, and the next file is new there.
  abbrev pub IsRecovered : Agent → Type 0
  IsRecovered a =
      DiskBelow a.wal.current_seq a.disk × (a.buffer ≡ replay encode decode crc32 a.disk new_buffer)

  pub flush_into_buffer_ok :
      (outcome : WriteOutcome) (now : ℤ) (a : Agent) (ops : List WalOp)
      → (flush encode decode crc32 outcome now a.wal a.disk).2 ≡ ok ops
      → (flush_into_buffer encode decode crc32 outcome now a).0 ≡ (record {
        wal = (flush encode decode crc32 outcome now a.wal a.disk).0;
        disk = (flush encode decode crc32 outcome now a.wal a.disk).1;
        buffer =
            apply_ops ops
              ((flush encode decode crc32 outcome now a.wal a.disk).0.current_seq - 1)
              a.buffer;
      })
  unfolding flush_into_buffer
  flush_into_buffer_ok outcome now a ops e = rw (e, flush_into_buffer) refl

  pub flush_into_buffer_answers :
      (outcome : WriteOutcome) (now : ℤ) (a : Agent) (ops : List WalOp)
      → (flush encode decode crc32 outcome now a.wal a.disk).2 ≡ ok ops
      → (flush_into_buffer encode decode crc32 outcome now a).1 ≡ ok (length ops)
  unfolding flush_into_buffer
  flush_into_buffer_answers outcome now a ops e = rw (e, flush_into_buffer) refl

  flush_into_buffer_err :
      (outcome : WriteOutcome) (now : ℤ) (a : Agent) (e : WalError)
      → (flush encode decode crc32 outcome now a.wal a.disk).2 ≡ err e
      → (flush_into_buffer encode decode crc32 outcome now a).0 ≡ (record a {
        wal = (flush encode decode crc32 outcome now a.wal a.disk).0;
        disk = (flush encode decode crc32 outcome now a.wal a.disk).1;
      })
  unfolding flush_into_buffer
  flush_into_buffer_err outcome now a e h = rw (h, flush_into_buffer) refl

  nothing_waits :
      (outcome : WriteOutcome) (now : ℤ) (a : Agent)
      → is_empty a.wal.pending_ops ≡ true
      → (flush_into_buffer encode decode crc32 outcome now a).0 ≡ a
  unfolding apply_ops
  nothing_waits outcome now a e =
      let same = flush_nothing encode decode crc32 outcome now a.wal a.disk e in
      flush_into_buffer_ok outcome now a [] (ap (λ r. r.2) same)
      ∙ ap (λ r. record a { wal = r.0; disk = r.1 }) same

  flush_written :
      (now : ℤ) (a : Agent)
      → ((c : WalContents) → ReadsBack encode decode crc32 c)
      → a.wal.current_seq < u64_max
      → is_empty a.wal.pending_ops ≡ false
      → IsRecovered a
      → IsRecovered (flush_into_buffer encode decode crc32 written now a).0
  flush_written now a codec fits some_ops (below, same) =
      let next = current_seq-flush encode decode crc32 now a.wal a.disk fits some_ops in
      let seq : (flush encode decode crc32 written now a.wal a.disk).0.current_seq - 1
          ≡ a.wal.current_seq =
        omega (arith, next) in
      rw
        (flush_into_buffer_ok written now a a.wal.pending_ops
          (flush_returns encode decode crc32 now a.wal a.disk some_ops))
        (
          DiskBelow-flush encode decode crc32 now a.wal a.disk below fits some_ops,
          rw (seq, same)
              (sym (
                replay-flush encode decode crc32 now a.wal a.disk new_buffer below (omega arith)
                  some_ops (codec _))),
        )

  flush_refused :
      (now : ℤ) (a : Agent)
      → is_empty a.wal.pending_ops ≡ false
      → IsRecovered a
      → IsRecovered (flush_into_buffer encode decode crc32 (failed none) now a).0
  flush_refused now a some_ops h =
      let same = flush_failed encode decode crc32 now a.wal a.disk some_ops in
      rw (flush_into_buffer_err (failed none) now a write_error (ap (λ r. r.2) same), same) h

  some_wait :
      (outcome : WriteOutcome) (now : ℤ) (a : Agent)
      → ((c : WalContents) → ReadsBack encode decode crc32 c)
      → IsAtomic outcome
      → a.wal.current_seq < u64_max
      → is_empty a.wal.pending_ops ≡ false
      → IsRecovered a
      → IsRecovered (flush_into_buffer encode decode crc32 outcome now a).0
  some_wait written now a codec whole fits e h = flush_written now a codec fits e h
  some_wait (failed none) now a codec whole fits e h = flush_refused now a e h
  some_wait (failed (some _)) now a codec whole fits e h = absurd whole

  -- The periodic flush keeps the agent recovered.
  pub flush_into_buffer-IsRecovered :
      (outcome : WriteOutcome) (now : ℤ) (a : Agent)
      → ((c : WalContents) → ReadsBack encode decode crc32 c)
      → IsAtomic outcome
      → a.wal.current_seq < u64_max
      → IsRecovered a
      → IsRecovered (flush_into_buffer encode decode crc32 outcome now a).0
  flush_into_buffer-IsRecovered outcome now a codec whole fits h =
      elim (Bool-cases (is_empty a.wal.pending_ops)) [
        | inl e ↦ rw (nothing_waits outcome now a e) h
        | inr e ↦ some_wait outcome now a codec whole fits e h
      ]
