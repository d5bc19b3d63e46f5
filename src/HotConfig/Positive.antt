-- ===== src/HotConfig/Positive.antt =====
-- hot_config.rs, `apply_update`: what an update can do to the settings.
use iedb.Base.{
  ◌≡◌, refl, IsU64, arith, ℕ, ◌<◌, String, Option, none, some, List, Bool-cases, Option-cases, inl,
  inr, ltb, ltb→lt, pos, ◌<ℤ◌, ltb_ℤ, ltb_ℤ→<ℤ,
}
use iedb.HotConfig.{
  HotConfig, parse_duration_opt, parse_bytes_opt, store_interval, store_memory, store_flush,
  store_ops, as_usize, apply_flush, apply_wal, text_at, number_at, apply_update,
}

pub record IsPositive (h : HotConfig) : Type 0 where
  pub interval : pos 0 <ℤ h.snapshot_interval_secs
  pub memory : 0 < h.memory_limit_bytes
  pub flush : 0 < h.wal_flush_interval
  pub ops : 0 < h.wal_max_buffer_ops

store_interval-IsPositive :
    (o : Option (List ℕ)) (h : HotConfig) → IsPositive h → IsPositive (store_interval o h)
store_interval-IsPositive none h p = p
store_interval-IsPositive (some s) h p = elim (Option-cases (parse_duration_opt s)) [
  | inl e ↦ rw (e, store_interval) p
  | inr (secs, e) ↦ elim (Bool-cases (ltb_ℤ (pos 0) secs)) [
    | inl q ↦
        rw (e, store_interval)
          (rw q (record {
            interval = ltb_ℤ→<ℤ (pos 0) secs q;
            memory = p.memory;
            flush = p.flush;
            ops = p.ops;
          }))
    | inr q ↦ rw (e, store_interval) (rw q p)
  ]
]

store_memory-IsPositive :
    (o : Option (List ℕ)) (h : HotConfig) → IsPositive h → IsPositive (store_memory o h)
store_memory-IsPositive none h p = p
store_memory-IsPositive (some s) h p = elim (Option-cases (parse_bytes_opt s)) [
  | inl e ↦ rw (e, store_memory) p
  | inr (bytes, e) ↦ elim (Bool-cases (ltb 0 bytes)) [
    | inl q ↦
        rw (e, store_memory)
          (rw q (record {
            interval = p.interval;
            memory = ltb→lt 0 bytes q;
            flush = p.flush;
            ops = p.ops;
          }))
    | inr q ↦ rw (e, store_memory) (rw q p)
  ]
]

store_flush-IsPositive :
    (o : Option ℕ) (h : HotConfig) → IsPositive h → IsPositive (store_flush o h)
store_flush-IsPositive none h p = p
store_flush-IsPositive (some v) h p = elim (Bool-cases (ltb 0 v)) [
  | inl q ↦
      rw q (record { interval = p.interval; memory = p.memory; flush = ltb→lt 0 v q; ops = p.ops })
  | inr q ↦ rw q p
]

as_usize_lem : (v : ℕ) → IsU64 v → as_usize v ≡ v
unfolding as_usize
as_usize_lem v u = omega arith

store_ops-IsPositive :
    (o : Option ℕ) (h : HotConfig)
    → ((v : ℕ) → o ≡ some v → IsU64 v)
    → IsPositive h
    → IsPositive (store_ops o h)
store_ops-IsPositive none h fits p = p
store_ops-IsPositive (some v) h fits p = elim (Bool-cases (ltb 0 v)) [
  | inl q ↦ rw q (record {
    interval = p.interval;
    memory = p.memory;
    flush = p.flush;
    ops = rw (as_usize_lem v (fits v refl)) (ltb→lt 0 v q);
  })
  | inr q ↦ rw q p
]

module _ {Value : Type 0} (lookup : Value → String → Option Value)
    (as_str : Value → Option (List ℕ)) (as_u64 : Value → Option ℕ) where
  number_fits :
      (w : Value) (key : String)
      → ((x : Value) (v : ℕ) → as_u64 x ≡ some v → IsU64 v)
      → (v : ℕ) → number_at lookup as_str as_u64 w key ≡ some v
      → IsU64 v
  number_fits w key fits v e = elim (Option-cases (lookup w key)) [
    | inl n ↦ let nothing : none ≡ some v = rw (n, number_at) at e in cc nothing
    | inr (x, n) ↦ let there : as_u64 x ≡ some v = rw (n, number_at) at e in fits x v there
  ]

  apply_flush-IsPositive :
      (o : Option Value) (h : HotConfig)
      → IsPositive h
      → IsPositive (apply_flush lookup as_str as_u64 o h)
  apply_flush-IsPositive none h p = p
  apply_flush-IsPositive (some flush) h p =
      store_memory-IsPositive (text_at lookup as_str as_u64 flush "memory_limit") _
        (store_interval-IsPositive (text_at lookup as_str as_u64 flush "snapshot_interval") h p)

  apply_wal-IsPositive :
      (o : Option Value) (h : HotConfig)
      → ((x : Value) (v : ℕ) → as_u64 x ≡ some v → IsU64 v)
      → IsPositive h
      → IsPositive (apply_wal lookup as_str as_u64 o h)
  apply_wal-IsPositive none h fits p = p
  apply_wal-IsPositive (some wal) h fits p =
      store_ops-IsPositive (number_at lookup as_str as_u64 wal "max_write_buffer_ops") _
        (number_fits wal "max_write_buffer_ops" fits)
        (store_flush-IsPositive (number_at lookup as_str as_u64 wal "flush_interval_secs") h p)

  -- Whatever JSON the server sends, the four settings, the interval in seconds among them, stay positive
  -- if they were, on a target whose usize has 64 bits. The numbers that `as_u64` reads have to be u64s.
  pub apply_update-IsPositive :
      (update : Value) (h : HotConfig)
      → ((x : Value) (v : ℕ) → as_u64 x ≡ some v → IsU64 v)
      → IsPositive h
      → IsPositive (apply_update lookup as_str as_u64 update h)
  unfolding apply_update
  apply_update-IsPositive update h fits p =
      apply_wal-IsPositive (lookup update "wal") _ fits
        (apply_flush-IsPositive (lookup update "flush") h p)
