-- ===== src/Write/Commit/Durable.antt =====
-- write.rs, `handle` from its batches on: what an accepted request has put on the disk.
use iedb.Base.{
  ℕ, ◌+◌, ◌≤◌, ◌<◌, ◌≡◌, refl, ◌∙◌, ap, false, List, ◌∷◌, ◌++◌, map, length, arith, ℤ, u64_max,
  is_empty, take_all, is_empty-append, length-map,
}
use iedb.Buffer.{Buffer}
use iedb.Wal.{WriteBatch, write, WalContents}
use iedb.Wal.Apply.{apply_ops}
use iedb.Wal.Serialize
use iedb.Wal.Manager.{WalManager, ok, limit_of, written, replay}
use iedb.Wal.Manager.Limit.{IsCounted, buffer_all_lem}
use iedb.Wal.Manager.Order.{DiskBelow}
use iedb.Wal.Manager.Replay.{ReadsBack, replay-flush}
use iedb.Wal.Manager.Flushed.{flush_returns}
use iedb.Write.{buffer_batches, total_rows}
use iedb.Write.Commit.{Agent, no_content, commit}
use iedb.Write.Commit.Recover.{flush_into_buffer_ok, flush_into_buffer_answers}
use iedb.Write.Commit.Requests.{current_seq-buffer_batches}
use iedb.Write.Commit.Refused.{buffer_batches_accepted}

pending_ops-buffer_batches :
    (batches : List WriteBatch) (m : WalManager)
    → IsCounted m
    → m.op_count + length batches ≤ limit_of m
    → (buffer_batches batches m).0.pending_ops ≡ m.pending_ops ++ map write batches
pending_ops-buffer_batches batches m counted room =
    ap (λ r. r.0.pending_ops) (buffer_batches_accepted batches m room)
    ∙ (buffer_all_lem (map write batches) m counted).0
    ∙ ap (λ l. m.pending_ops ++ l)
        (take_all _ (map write batches) (omega (arith, room, length-map write batches)))

module _ (encode : WalContents → List ℕ) (decode : List ℕ → Serialize.Result WalContents)
    (crc32 : List ℕ → ℕ) where
  -- A request of at least one batch that the log has room for is answered with 204 and its number of
  -- rows once its file is written, and its batches are durable then: a replay of the disk does what
  -- it did before, and then applies the ops that waited and the request's batches, in order. The
  -- file has to read back, the counter to be right, and the manager's number to lie above those on
  -- the disk and below the end of the range.
  pub commit_durable :
      (now : ℤ) (batch : WriteBatch) (batches : List WriteBatch) (a : Agent) (b : Buffer)
      → IsCounted a.wal
      → a.wal.op_count + length (batch ∷ batches) ≤ limit_of a.wal
      → DiskBelow a.wal.current_seq a.disk
      → a.wal.current_seq < u64_max
      → ((c : WalContents) → ReadsBack encode decode crc32 c)
      → ((commit encode decode crc32 written now (batch ∷ batches) a).1
          ≡ no_content (total_rows (batch ∷ batches)))
        × (replay encode decode crc32
              (commit encode decode crc32 written now (batch ∷ batches) a).0.disk
              b
            ≡ apply_ops
                (a.wal.pending_ops ++ map write (batch ∷ batches))
                a.wal.current_seq
                (replay encode decode crc32 a.disk b))
  unfolding commit
  commit_durable now batch batches a b counted room below fits codec =
      let all = batch ∷ batches in
      let rebuilt = replay encode decode crc32 a.disk b in
      let m' = (buffer_batches all a.wal).0 in
      let a' = record a { wal = m' } in
      let waits = pending_ops-buffer_batches all a.wal counted room in
      let seq : m'.current_seq ≡ a.wal.current_seq = current_seq-buffer_batches all a.wal in
      let some_ops : is_empty m'.pending_ops ≡ false =
        ap is_empty waits ∙ is_empty-append a.wal.pending_ops (map write all) refl in
      let back = flush_returns encode decode crc32 now m' a.disk some_ops in
      let e : (buffer_batches all a.wal).1 ≡ ok tt =
        ap (λ r. r.1) (buffer_batches_accepted all a.wal room) in
      rw (e, commit)
        (
          rw (flush_into_buffer_answers encode decode crc32 written now a' m'.pending_ops back)
              refl,
          ap (λ (x : Agent). replay encode decode crc32 x.disk b)
                (flush_into_buffer_ok encode decode crc32 written now a' m'.pending_ops back)
              ∙ replay-flush encode decode crc32 now m' a.disk b (rw seq below)
                  (omega (arith, seq, fits)) some_ops (codec _)
              ∙ ap (λ ops. apply_ops ops m'.current_seq rebuilt) waits
              ∙ ap (λ n. apply_ops (a.wal.pending_ops ++ map write all) n rebuilt) seq,
        )
