-- ===== src/HotConfig.antt =====
-- src/agent/hot_config.rs and the parsers of src/config.rs: the four settings that the server changes
-- while the agent runs. A text is the list of its characters' numbers. `serde_json` is not part of the
-- program: `Value` and its accessors are parameters.
pub mod Positive
use iedb.Base.Parse.{parse_i64}
use iedb.Base.{
  ℕ, suc, ◌+◌, ◌-◌, ◌*◌, ◌%◌, String, Bool, true, false, ◌&&◌, ◌||◌, Option, none, some, List, [],
  ◌∷◌, ◌++◌, map, is_empty, option_get_or, ltb, leb, ◌==◌, if◌then◌else◌, ℤ, pos, negsuc, ltb_ℤ,
}
use iedb.Wal.FileName.{parse_u64}

-- `char::is_whitespace`
abbrev pub is_whitespace : ℕ → Bool
is_whitespace c =
    (leb 9 c && leb c 13)
    || (c == 32)
    || (c == 0x85)
    || (c == 0xa0)
    || (c == 0x1680)
    || (leb 0x2000 c && leb c 0x200a)
    || (c == 0x2028)
    || (c == 0x2029)
    || (c == 0x202f)
    || (c == 0x205f)
    || (c == 0x3000)

unfoldable pub trim_start : List ℕ → List ℕ
trim_start [] = []
trim_start (c ∷ cs) = let rest = trim_start cs in if is_whitespace c then rest else c ∷ cs

unfoldable pub trim_end : List ℕ → List ℕ
trim_end [] = []
trim_end (c ∷ cs) =
    let rest = trim_end cs in if is_empty rest && is_whitespace c then [] else c ∷ rest

abbrev pub trim : List ℕ → List ℕ
trim s = trim_end (trim_start s)

-- `if s.ends_with(suffix)`, and then `s[..s.len() - suffix.len()]`.
unfoldable pub strip_last : ℕ → List ℕ → Option (List ℕ)
strip_last x [] = none
strip_last x (c ∷ []) = if c == x then some [] else none
strip_last x (c ∷ d ∷ cs) = elim (strip_last x (d ∷ cs)) [ none ↦ none | some s ↦ some (c ∷ s) ]

abbrev pub strip_two : ℕ → ℕ → List ℕ → Option (List ℕ)
strip_two x y s = elim (strip_last y s) [ none ↦ none | some s' ↦ strip_last x s' ]

-- `v * n` on i64 and on usize, as a release build computes them; the first in two's complement.
abbrev product_bits : ℤ → ℕ → ℕ
product_bits (pos a) n = a * n % 0x1_0000_0000_0000_0000
product_bits (negsuc a) n =
    (0x1_0000_0000_0000_0000 - suc a * n % 0x1_0000_0000_0000_0000) % 0x1_0000_0000_0000_0000

unfoldable pub mul_i64 : ℤ → ℕ → ℤ
mul_i64 v n =
    let m = product_bits v n in
    if ltb m 0x8000_0000_0000_0000 then pos m else negsuc (0xffff_ffff_ffff_ffff - m)

unfoldable pub mul_usize : ℕ → ℕ → ℕ
mul_usize v n = v * n % 0x1_0000_0000_0000_0000

unfoldable pub parse_duration_opt : List ℕ → Option ℤ
parse_duration_opt s = elim (strip_last b'm' (trim s)) [
  | some digits ↦ elim (parse_i64 digits) [ none ↦ none | some v ↦ some (mul_i64 v 60) ]
  | none ↦ elim (strip_last b's' (trim s)) [ none ↦ none | some digits ↦ parse_i64 digits ]
]

-- `to_uppercase`, as far as the parse depends on it: no character but an ASCII letter has M, B or G,
-- a sign or a digit in its upper case.
abbrev to_uppercase : List ℕ → List ℕ
to_uppercase = map (λ c. if leb 97 c && leb c 122 then c - 32 else c)

unfoldable pub parse_bytes_opt : List ℕ → Option ℕ
parse_bytes_opt s = elim (strip_two b'M' b'B' (to_uppercase (trim s))) [
  | some digits ↦ elim (parse_u64 digits) [
    | none ↦ none
    | some v ↦ some (mul_usize (mul_usize v 1024) 1024)
  ]
  | none ↦ elim (strip_two b'G' b'B' (to_uppercase (trim s))) [
    | none ↦ none
    | some digits ↦ elim (parse_u64 digits) [
      | none ↦ none
      | some v ↦ some (mul_usize (mul_usize (mul_usize v 1024) 1024) 1024)
    ]
  ]
]

abbrev pub parse_duration : List ℕ → ℤ
parse_duration s = option_get_or (pos 600) (parse_duration_opt s)

abbrev pub parse_bytes : List ℕ → ℕ
parse_bytes s = option_get_or (512 * 1024 * 1024) (parse_bytes_opt s)

-- The part of `Config` that the settings start from.
pub record Config : Type 0 where
  pub snapshot_interval : List ℕ
  pub memory_limit : List ℕ
  pub flush_interval_secs : ℕ
  pub max_write_buffer_ops : ℕ

pub record HotConfig : Type 0 where
  pub snapshot_interval_secs : ℤ
  pub memory_limit_bytes : ℕ
  pub wal_flush_interval : ℕ
  pub wal_max_buffer_ops : ℕ

abbrev pub from_config : Config → HotConfig
from_config c = record {
  snapshot_interval_secs = parse_duration c.snapshot_interval;
  memory_limit_bytes = parse_bytes c.memory_limit;
  wal_flush_interval = c.flush_interval_secs;
  wal_max_buffer_ops = c.max_write_buffer_ops;
}

-- The four updates, each of the value that the update gives for the setting, if any.
abbrev pub store_interval : Option (List ℕ) → HotConfig → HotConfig
store_interval none h = h
store_interval (some s) h = elim (parse_duration_opt s) [
  | none ↦ h
  | some secs ↦ if ltb_ℤ (pos 0) secs then record h { snapshot_interval_secs = secs } else h
]

abbrev pub store_memory : Option (List ℕ) → HotConfig → HotConfig
store_memory none h = h
store_memory (some m) h = elim (parse_bytes_opt m) [
  | none ↦ h
  | some bytes ↦ if ltb 0 bytes then record h { memory_limit_bytes = bytes } else h
]

abbrev pub store_flush : Option ℕ → HotConfig → HotConfig
store_flush none h = h
store_flush (some v) h = if ltb 0 v then record h { wal_flush_interval = v } else h

-- `v as usize`, of 64 bits.
unfoldable pub as_usize : ℕ → ℕ
as_usize v = v % 0x1_0000_0000_0000_0000

abbrev pub store_ops : Option ℕ → HotConfig → HotConfig
store_ops none h = h
store_ops (some v) h = if ltb 0 v then record h { wal_max_buffer_ops = as_usize v } else h

module _ {Value : Type 0} (lookup : Value → String → Option Value)
    (as_str : Value → Option (List ℕ)) (as_u64 : Value → Option ℕ) where
  abbrev pub text_at : Value → String → Option (List ℕ)
  text_at v key = elim (lookup v key) [ none ↦ none | some w ↦ as_str w ]

  abbrev pub number_at : Value → String → Option ℕ
  number_at v key = elim (lookup v key) [ none ↦ none | some w ↦ as_u64 w ]

  abbrev pub apply_flush : Option Value → HotConfig → HotConfig
  apply_flush none h = h
  apply_flush (some flush) h =
      store_memory (text_at flush "memory_limit")
        (store_interval (text_at flush "snapshot_interval") h)

  abbrev pub apply_wal : Option Value → HotConfig → HotConfig
  apply_wal none h = h
  apply_wal (some wal) h =
      store_ops (number_at wal "max_write_buffer_ops")
        (store_flush (number_at wal "flush_interval_secs") h)

  unfoldable pub apply_update : Value → HotConfig → HotConfig
  apply_update update h = apply_wal (lookup update "wal") (apply_flush (lookup update "flush") h)
