-- ===== src/Tests/Settings.antt =====
-- The settings and the time filter: texts that are parsed, an update, and a WHERE expression.
use iedb.Base.{
  str_eq, if◌then◌else◌, ℕ, ◌≡◌, refl, String, Bool, true, Option, none, some, List, [], ◌∷◌, arith,
  pos, ltb, IsU64,
}
use iedb.Base.Parse.{parse_i64, parse_magnitude}
use iedb.Wal.FileName.{parse_u64, parse_digits}
use iedb.Base.{eq_bytes}
use iedb.HotConfig.{
  HotConfig, trim_start, trim_end, strip_last, mul_i64, mul_usize, parse_duration_opt,
  parse_bytes_opt, as_usize, apply_update,
}
use iedb.HotConfig.Positive.{IsPositive, apply_update-IsPositive}
use iedb.TimeFilter.{
  Expr, binary_op, op_and, gt, lt, identifier, compound_identifier, value, other_expr, number,
  single_quoted_string, or_unbounded, is_time_column, last_is_time, parse_const, merge_max,
  merge_min, extract_time_range,
}
use iedb.TimeFilter.Sound.{holds, Within, extract_time_range_lem}

ten_minutes : parse_duration_opt (b' ' ∷ b'1' ∷ b'0' ∷ b'm' ∷ []) ≡ some (pos 600)
unfolding parse_duration_opt strip_last trim_start trim_end parse_i64 parse_magnitude mul_i64
ten_minutes = refl

thirty_seconds : parse_duration_opt (b'3' ∷ b'0' ∷ b's' ∷ []) ≡ some (pos 30)
unfolding parse_duration_opt strip_last trim_start trim_end parse_i64 parse_magnitude
thirty_seconds = refl

no_unit : parse_duration_opt (b'3' ∷ b'0' ∷ []) ≡ none
unfolding parse_duration_opt strip_last trim_start trim_end
no_unit = refl

-- 60 times a number that fits wraps around.
wraps : mul_i64 (pos 307445734561825861) 60 ≡ pos 44
unfolding mul_i64
wraps = refl

half_a_gigabyte : parse_bytes_opt (b'5' ∷ b'1' ∷ b'2' ∷ b'm' ∷ b'B' ∷ []) ≡ some 536870912
unfolding parse_bytes_opt strip_last trim_start trim_end parse_u64 parse_digits eq_bytes mul_usize
half_a_gigabyte = refl

-- An update as a tree: objects field by field, texts and numbers.
data Json : Type 0 where
  empty : Json
  field : String → Json → Json → Json
  string : List ℕ → Json
  num : ℕ → Json

lookup : Json → String → Option Json
lookup empty key = none
lookup (field name v more) key =
    let rest = lookup more key in if str_eq name key then some v else rest
lookup (string _) key = none
lookup (num _) key = none

abbrev as_str : Json → Option (List ℕ)
as_str empty = none
as_str (field name v more) = none
as_str (string s) = some s
as_str (num _) = none

abbrev as_u64 : Json → Option ℕ
as_u64 empty = none
as_u64 (field name v more) = none
as_u64 (string _) = none
as_u64 (num n) = if ltb n 0x1_0000_0000_0000_0000 then some n else none

abbrev settings : HotConfig
settings = record {
  snapshot_interval_secs = pos 600;
  memory_limit_bytes = 536870912;
  wal_flush_interval = 1;
  wal_max_buffer_ops = 100000;
}

abbrev update : Json
update = field "flush" (field "snapshot_interval" (string (b'2' ∷ b'm' ∷ [])) empty) (
    field "wal"
      (field "flush_interval_secs" (num 0) (field "max_write_buffer_ops" (num 5000) empty)) empty)

updated :
    apply_update lookup as_str as_u64 update settings
    ≡ record settings { snapshot_interval_secs = pos 120; wal_max_buffer_ops = 5000 }
unfolding as_usize apply_update lookup parse_duration_opt strip_last trim_start trim_end parse_i64
    parse_magnitude mul_i64
updated = refl

as_u64_fits : (x : Json) (v : ℕ) → as_u64 x ≡ some v → IsU64 v
as_u64_fits empty v e = cc
as_u64_fits (field name w more) v e = cc
as_u64_fits (string s) v e = cc
as_u64_fits (num n) v e = ground (arith, e)

apply_update-IsPositive_example : IsPositive (apply_update lookup as_str as_u64 update settings)
apply_update-IsPositive_example =
    apply_update-IsPositive lookup as_str as_u64 update settings as_u64_fits (record {
      interval = omega arith;
      memory = omega arith;
      flush = omega arith;
      ops = omega arith;
    })

-- time > 100 AND db.time < '200' AND (host = 'a')
abbrev where_clause : Expr
where_clause =
    binary_op (binary_op (identifier "time") gt (value (number (b'1' ∷ b'0' ∷ b'0' ∷ [])))) op_and (
      binary_op
        (binary_op (compound_identifier ("db" ∷ "time" ∷ [])) lt
          (value (single_quoted_string (b'2' ∷ b'0' ∷ b'0' ∷ []))))
        op_and other_expr)

its_range :
    extract_time_range where_clause
    ≡ some (record { start_ns = some (pos 101); end_ns = some (pos 199) })
unfolding extract_time_range is_time_column last_is_time parse_const parse_i64 parse_magnitude
    merge_max merge_min
its_range = refl

abbrev rest : Expr → Bool
rest _ = true

extract_time_range_lem_example : Within (pos 150) (or_unbounded (extract_time_range where_clause))
unfolding holds is_time_column last_is_time parse_const parse_i64 parse_magnitude
extract_time_range_lem_example =
    extract_time_range_lem rest (pos 150) where_clause (omega arith, omega arith) refl
