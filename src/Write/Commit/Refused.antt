-- ===== src/Write/Commit/Refused.antt =====
-- write.rs, the loop of `handle` over `buffer_op`: a request that the log refuses midway.
use iedb.Base.{
  ℕ, ◌+◌, ◌-◌, ◌≤◌, ◌<◌, ◌≡◌, refl, sym, ◌∙◌, ap, List, [], ◌∷◌, ◌++◌, map, length, take, arith, ℤ,
}
use iedb.Wal.{WriteBatch, write, WalContents}
use iedb.Wal.Serialize
use iedb.Wal.Manager.{WalManager, ok, err, buffer_full, limit_of, WriteOutcome}
use iedb.Wal.Manager.Limit.{
  IsCounted, buffer_op_refused, buffer_op_accepted, buffer_all, buffer_all_full, buffer_all-cons,
  buffer_all_lem,
}
use iedb.Write.{buffer_batches}
use iedb.Write.Commit.{Agent, service_unavailable, commit}
use native.Mathlib.Decide.{dec_lt}

-- One batch too many: the error reports the full limit, and the manager is as if all were offered.
buffer_batches_refused :
    (batches : List WriteBatch) (m : WalManager)
    → m.op_count ≤ limit_of m
    → limit_of m < m.op_count + length batches
    → buffer_batches batches m ≡ (buffer_all (map write batches) m, err (buffer_full (limit_of m)))
unfolding buffer_batches
buffer_batches_refused [] m room many = absurd (omega (arith, room, many))
buffer_batches_refused (batch ∷ batches) m room many = elim (dec_lt m.op_count (limit_of m)) [
  | yes h ↦
      let e = buffer_op_accepted (write batch) m h in
      let m' = record m {
        op_count = m.op_count + 1;
        pending_ops = m.pending_ops ++ (write batch ∷ []);
      } in
      rw (e, buffer_batches)
        (ap (λ r. buffer_batches batches r.0) e
          ∙ buffer_batches_refused batches m' (omega arith) (omega (arith, many))
          ∙ ap (λ x. (x, err (buffer_full (limit_of m))))
              (sym (buffer_all-cons (write batch) (map write batches) m m' (ok tt) e)))
  | no h ↦
      let e = buffer_op_refused (write batch) m (omega arith) in
      let full : m.op_count ≡ limit_of m = omega (arith, room) in
      rw (e, buffer_batches)
        (ap (λ r. (r.0, err (buffer_full m.op_count))) e
          ∙ ap (λ n. (m, err (buffer_full n))) full
          ∙ ap (λ x. (x, err (buffer_full (limit_of m))))
              (sym (buffer_all_full (map write (batch ∷ batches)) m (omega arith))))
]

pub buffer_batches_accepted :
    (batches : List WriteBatch) (m : WalManager)
    → m.op_count + length batches ≤ limit_of m
    → buffer_batches batches m ≡ (buffer_all (map write batches) m, ok tt)
unfolding buffer_batches buffer_all
buffer_batches_accepted [] m room = refl
buffer_batches_accepted (batch ∷ batches) m room =
    let e = buffer_op_accepted (write batch) m (omega (arith, room)) in
    let m' = record m {
      op_count = m.op_count + 1;
      pending_ops = m.pending_ops ++ (write batch ∷ []);
    } in
    rw (e, buffer_batches)
      (ap (λ r. buffer_batches batches r.0) e
        ∙ buffer_batches_accepted batches m' (omega (arith, room))
        ∙ ap (λ x. (x, ok tt))
            (sym (buffer_all-cons (write batch) (map write batches) m m' (ok tt) e)))

module _ (encode : WalContents → List ℕ) (decode : List ℕ → Serialize.Result WalContents)
    (crc32 : List ℕ → ℕ) where
  -- A request of more batches than the log has room for is answered with 503 and the limit, and
  -- neither the disk nor the buffer changes. But the batches that fit stay in the log's queue, for
  -- the next flush to write and apply. The counter has to be right and within the limit.
  pub commit_refused :
      (outcome : WriteOutcome) (now : ℤ) (batches : List WriteBatch) (a : Agent)
      → IsCounted a.wal
      → a.wal.op_count ≤ limit_of a.wal
      → limit_of a.wal < a.wal.op_count + length batches
      → ((commit encode decode crc32 outcome now batches a).1
          ≡ service_unavailable (buffer_full (limit_of a.wal)))
        × ((commit encode decode crc32 outcome now batches a).0.disk ≡ a.disk)
        × ((commit encode decode crc32 outcome now batches a).0.buffer ≡ a.buffer)
        × ((commit encode decode crc32 outcome now batches a).0.wal.pending_ops
            ≡ a.wal.pending_ops ++ take (limit_of a.wal - a.wal.op_count) (map write batches))
  unfolding commit
  commit_refused outcome now batches a counted room many =
      let e = buffer_batches_refused batches a.wal room many in
      rw (e, commit)
        (
          refl,
          refl,
          refl,
          ap (λ r. r.0.pending_ops) e ∙ (buffer_all_lem (map write batches) a.wal counted).0,
        )
