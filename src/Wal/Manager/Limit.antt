-- ===== src/Wal/Manager/Limit.antt =====
-- wal_core.rs, `buffer_op`: the limit on the ops that wait for a flush.
use iedb.Base.{
  ℕ, zero, suc, ◌+◌, ◌-◌, ◌≤◌, ◌<◌, ◌≡◌, refl, sym, ◌∙◌, ap, List, [], ◌∷◌, ◌++◌, length,
  length-append, take, arith, leb, Bool-cases, inl, inr,
}
use native.Mathlib.Decide.{dec_lt}
use mathlib.Core.List.{append-nil, append_assoc}
use iedb.Wal.{WalOp}
use iedb.Wal.Manager.{WalManager, WalResult, ok, err, buffer_full, limit_of, buffer_op}

-- The counter is the number of ops that wait.
abbrev pub IsCounted : WalManager → Type 0
IsCounted m = m.op_count ≡ length m.pending_ops

pub buffer_op-IsCounted : (op : WalOp) (m : WalManager) → IsCounted m → IsCounted (buffer_op op m).0
unfolding buffer_op
buffer_op-IsCounted op m h = elim (Bool-cases (leb (limit_of m) m.op_count)) [
  | inl e ↦ rw e h
  | inr e ↦ rw e (omega (arith, h, length-append {0} m.pending_ops (op ∷ [])))
]

-- An op is refused exactly when the limit is reached; the error names the count, and nothing changes.
pub buffer_op_refused :
    (op : WalOp) (m : WalManager)
    → limit_of m ≤ m.op_count
    → buffer_op op m ≡ (m, err (buffer_full m.op_count))
unfolding buffer_op
buffer_op_refused op m h = ground arith

pub buffer_op_accepted :
    (op : WalOp) (m : WalManager)
    → m.op_count < limit_of m
    → buffer_op op m
      ≡ (record m { op_count = m.op_count + 1; pending_ops = m.pending_ops ++ (op ∷ []) }, ok tt)
unfolding buffer_op
buffer_op_accepted op m h = ground arith

-- The ops of one request, offered one after the other.
unfoldable pub buffer_all : List WalOp → WalManager → WalManager
buffer_all [] m = m
buffer_all (op ∷ ops) m = buffer_all ops (buffer_op op m).0

take-nil {ℓ} : {A : Type ℓ} (n : ℕ) → take {A = A} n [] ≡ []
take-nil zero = refl
take-nil (suc n) = refl

pub buffer_all_full :
    (ops : List WalOp) (m : WalManager) → limit_of m ≤ m.op_count → buffer_all ops m ≡ m
unfolding buffer_all
buffer_all_full [] m h = refl
buffer_all_full (op ∷ ops) m h = rw (buffer_op_refused op m h) (buffer_all_full ops m h)

pub buffer_all-cons :
    (op : WalOp) (ops : List WalOp) (m m' : WalManager) (r : WalResult (Unit {0}))
    → buffer_op op m ≡ (m', r)
    → buffer_all (op ∷ ops) m ≡ buffer_all ops m'
unfolding buffer_all
buffer_all-cons op ops m m' r e = ap (λ p. buffer_all ops p.0) e

-- Whatever ops are offered, those that wait afterwards are the old ones and then, in order, as many
-- of the offered ones as fit the limit. The counter, if it was right before, counts them.
pub buffer_all_lem :
    (ops : List WalOp) (m : WalManager)
    → IsCounted m
    → ((buffer_all ops m).pending_ops ≡ m.pending_ops ++ take (limit_of m - m.op_count) ops)
      × IsCounted (buffer_all ops m)
buffer_all_lem [] m h = unfold buffer_all in (rw take-nil (sym (append-nil m.pending_ops)), h)
buffer_all_lem (op ∷ ops) m h = elim (dec_lt m.op_count (limit_of m)) [
  | no full ↦
      let none_fit : limit_of m - m.op_count ≡ 0 = omega arith in
      rw (buffer_all_full (op ∷ ops) m (omega arith), none_fit) (sym (append-nil m.pending_ops), h)
  | yes room ↦
      let m' = record m { op_count = m.op_count + 1; pending_ops = m.pending_ops ++ (op ∷ []) } in
      let one_fits : limit_of m - m.op_count ≡ suc (limit_of m - (m.op_count + 1)) = omega arith in
      let (waits, counted) =
        buffer_all_lem ops m' (omega (arith, h, length-append {0} m.pending_ops (op ∷ []))) in
      rw (buffer_all-cons op ops m m' (ok tt) (buffer_op_accepted op m room), one_fits)
        (
          waits ∙ append_assoc m.pending_ops (op ∷ []) (take (limit_of m - (m.op_count + 1)) ops),
          counted,
        )
]
