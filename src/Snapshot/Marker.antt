-- ===== src/Snapshot/Marker.antt =====
-- scheduler.rs and src/agent/write.rs: the windows of chunk times, and which of them are closed.
use iedb.Base.{ℕ, suc, ◌+◌, ◌-◌, ◌*◌, ◌/◌, ◌≤◌, ◌<◌, arith, ℤ, pos, negsuc, ◌-ℤ◌, ◌+ℤ◌, ◌≤ℤ◌, ◌<ℤ◌}
use native.Mathlib.Nat.{div-add-mod, mod-lt}
use native.Mathlib.Decide.{dec_lt}
use iedb.Snapshot.{truncate, end_time_marker}

-- `x / n * n` is the multiple of `n` at or below `x`.
floor_le : (x n : ℕ) → x / n * n ≤ x
floor_le x n = omega (arith, div-add-mod x n)

lt_next : (x n : ℕ) → 0 < n → x < x / n * n + n
lt_next x n h = omega (arith, div-add-mod x n, mod-lt x h)

mul_mono : (a b n : ℕ) → a ≤ b → a * n ≤ b * n
mul_mono a b n h = grind arith

multiples_apart : (a b n : ℕ) → a * n < b * n → a * n + n ≤ b * n
multiples_apart a b n h = elim (dec_lt a b) [
  | yes p ↦ omega (arith, mul_mono (suc a) b n p)
  | no q ↦ absurd (omega (arith, mul_mono b a n (omega arith)))
]

-- Buckets that lie below another bucket hold only times below it.
below_floor : (t y n : ℕ) → 0 < n → t / n * n < y / n * n → t < y / n * n
below_floor t y n p h = omega (arith, lt_next t n p, multiples_apart (t / n) (y / n) n h)

truncate_order : (t y : ℤ) (n : ℕ) → 0 < n → truncate t n <ℤ truncate y n → t <ℤ truncate y n
unfolding truncate
truncate_order (pos t) (pos y) n p h = omega (arith, below_floor t y n p (omega arith))
truncate_order (pos t) (negsuc y) n p h = ground arith
truncate_order (negsuc t) (pos y) n p h = ground arith
truncate_order (negsuc t) (negsuc y) n p h = ground (arith, floor_le (suc t) n, lt_next (suc t) n p)

-- For a clock that is at least one interval past the epoch, the marker lies a whole interval behind
-- the clock, and less than two.
pub marker_behind_clock :
    (now n : ℕ)
    → 0 < n
    → n ≤ now
    → (end_time_marker (pos now) n +ℤ pos n ≤ℤ pos now)
      × (pos now <ℤ end_time_marker (pos now) n +ℤ pos (n + n))
unfolding end_time_marker truncate ◌-ℤ◌ ◌+ℤ◌
marker_behind_clock now n p h = ground (arith, floor_le (now - n) n, lt_next (now - n) n p)

below_marker :
    (now_ns t : ℤ) (n : ℕ)
    → 0 < n
    → truncate t n <ℤ end_time_marker now_ns n
    → t <ℤ end_time_marker now_ns n
unfolding end_time_marker
below_marker now_ns t n p h = truncate_order t (now_ns -ℤ pos n) n p h

older : (t m c : ℤ) (n : ℕ) → t <ℤ m → m +ℤ pos n ≤ℤ c → t +ℤ pos n <ℤ c
unfolding ◌+ℤ◌
older (pos t) (pos m) c n h k = ground arith
older (pos t) (negsuc m) c n h k = ground arith
older (negsuc t) (pos m) c n h k = ground arith
older (negsuc t) (negsuc m) c n h k = ground arith

-- A window is captured only when it is over: for an interval above zero and a clock that is at least one
-- interval past the epoch, every row time whose bucket lies below the marker, on either side of the epoch, is more than a whole
-- interval older than the clock.
pub closed_window :
    (now n : ℕ) (t : ℤ)
    → 0 < n
    → n ≤ now
    → truncate t n <ℤ end_time_marker (pos now) n
    → t +ℤ pos n <ℤ pos now
closed_window now n t p late h =
    older t (end_time_marker (pos now) n) (pos now) n (below_marker (pos now) t n p h)
      (marker_behind_clock now n p late).0

-- The bucket that a row goes to is less than one interval away from its time, on either side of the
-- epoch.
pub bucket_near :
    (t : ℤ) (n : ℕ) → 0 < n → (t <ℤ truncate t n +ℤ pos n) × (truncate t n <ℤ t +ℤ pos n)
unfolding truncate ◌+ℤ◌
bucket_near (pos t) n p = ground (arith, floor_le t n, lt_next t n p)
bucket_near (negsuc t) n p = ground (arith, floor_le (suc t) n, lt_next (suc t) n p)
