-- ===== src/Snapshot/Schedule.antt =====
-- src/agent/flush/scheduler.rs, `run` and `last_snapshot_status`: when a snapshot is due.
use iedb.Base.{
  ℕ, suc, ◌+◌, ◌-◌, ◌/◌, ◌%◌, ◌<◌, Bool, ◌||◌, Option, none, some, option_get_or, leb, ◌==◌,
  if◌then◌else◌, ℤ, pos, negsuc, ◌-ℤ◌, ◌≤ℤ◌, ◌<ℤ◌, ltb_ℤ, arith, Bool-cases, inl, inr,
}
use native.Mathlib.Nat.{mod-lt}
use Prim.Native.Nat.{max}
use iedb.Snapshot.Cycle.{SnapshotStatus}

-- The hot value where a HotConfig is attached, else the static one.
abbrev pub current {ℓ} : {A : Type ℓ} → Option A → A → A
current hot static = option_get_or static hot

-- What one round of the loop of `run` does: the number of its tick, whether staging is retried, and
-- whether a snapshot is taken.
pub record LoopRound : Type 0 where
  pub tick : ℕ
  pub retries_staging : Bool
  pub snapshots : Bool

-- `.max(1)` on i64, as a number of seconds.
abbrev pub at_least_one : ℤ → ℕ
at_least_one (pos n) = max n 1
at_least_one (negsuc _) = 1

unfoldable pub run_round : ℕ → ℕ → ℕ → ℤ → ℕ → LoopRound
run_round tick total_bytes memory_limit snapshot_interval elapsed_secs = record {
  tick = tick + 1;
  retries_staging = (tick + 1) % 6 == 0;
  snapshots = leb memory_limit total_bytes || leb (at_least_one snapshot_interval) elapsed_secs;
}

-- `a % n` on i64 for a positive `n`: the remainder has the sign of `a`.
abbrev pub rem : ℤ → ℕ → ℤ
rem (pos a) n = pos (a % n)
rem (negsuc a) n = if suc a % n == 0 then pos 0 else negsuc (suc a % n - 1)

-- `a / 1000` on i64, which rounds towards zero.
abbrev pub to_secs : ℤ → ℤ
to_secs (pos a) = pos (a / 1000)
to_secs (negsuc a) = if suc a / 1000 == 0 then pos 0 else negsuc (suc a / 1000 - 1)

abbrev pub max_zero : ℤ → ℤ
max_zero z = if ltb_ℤ z (pos 0) then pos 0 else z

unfoldable pub since_last : ℤ → ℕ → SnapshotStatus → ℤ
since_last now_ms elapsed_secs status = elim status.last_at [
  | none ↦ pos elapsed_secs
  | some ts ↦ to_secs (now_ms -ℤ ts)
]

unfoldable pub last_snapshot_status : ℤ → ℕ → ℤ → SnapshotStatus → SnapshotStatus
last_snapshot_status now_ms elapsed_secs snapshot_interval status =
    let interval = at_least_one snapshot_interval in
    record status {
      next_in_secs =
          max_zero (pos interval -ℤ rem (since_last now_ms elapsed_secs status) interval);
    }

positive : (z : ℤ) → 0 < at_least_one z
positive (pos n) = omega arith
positive (negsuc n) = omega arith

-- The seconds to the next snapshot, from a remainder of either sign.
after_pos :
    (r n : ℕ)
    → r < n
    → (pos 1 ≤ℤ max_zero (pos n -ℤ pos r)) × (max_zero (pos n -ℤ pos r) <ℤ pos (n + n))
unfolding ◌-ℤ◌
after_pos r n h = (ground (arith, h), ground (arith, h))

after_neg :
    (r n : ℕ)
    → suc r < n
    → (pos 1 ≤ℤ max_zero (pos n -ℤ negsuc r)) × (max_zero (pos n -ℤ negsuc r) <ℤ pos (n + n))
unfolding ◌-ℤ◌
after_neg r n h = (ground (arith, h), ground (arith, h))

next_bounds :
    (z : ℤ) (n : ℕ)
    → 0 < n
    → (pos 1 ≤ℤ max_zero (pos n -ℤ rem z n)) × (max_zero (pos n -ℤ rem z n) <ℤ pos (n + n))
next_bounds (pos a) n h = after_pos (a % n) n (mod-lt a h)
next_bounds (negsuc a) n h = elim (Bool-cases (suc a % n == 0)) [
  | inl e ↦ rw e (after_pos 0 n h)
  | inr e ↦ rw e (after_neg (suc a % n - 1) n (ground (arith, e, mod-lt (suc a) h)))
]

-- The status names a next snapshot at least one second and less than two intervals ahead, however the
-- clock went since the last one, backwards included, and whatever interval is configured.
pub next_in_secs_lem :
    (now_ms : ℤ) (elapsed_secs : ℕ) (snapshot_interval : ℤ) (status : SnapshotStatus)
    → (pos 1 ≤ℤ (last_snapshot_status now_ms elapsed_secs snapshot_interval status).next_in_secs)
      × ((last_snapshot_status now_ms elapsed_secs snapshot_interval status).next_in_secs
          <ℤ pos (at_least_one snapshot_interval + at_least_one snapshot_interval))
unfolding last_snapshot_status
next_in_secs_lem now_ms elapsed_secs snapshot_interval status =
    next_bounds (since_last now_ms elapsed_secs status) (at_least_one snapshot_interval)
      (positive snapshot_interval)
