-- ===== src/TimeFilter.antt =====
-- src/server/federation/time_filter.rs: the time range that a WHERE expression implies. The syntax
-- tree is that of the crate `sqlparser`, as far as the code looks into it.
pub mod Sound
use iedb.Base.Parse.{parse_i64}
use iedb.Base.{
  ℕ, suc, ◌+◌, ◌-◌, ◌*◌, String, Bool, true, false, ◌&&◌, Option, none, some, List, [], ◌∷◌, leb,
  ◌==◌, if◌then◌else◌, ℤ, pos, negsuc, ltb_ℤ, i64_max, i64_min, str_eq,
}

-- `sqlparser::ast::Value`; a text is its list of bytes, and other values are not looked into.
pub data Value : Type 0 where
  number : List ℕ → Value
  single_quoted_string : List ℕ → Value
  double_quoted_string : List ℕ → Value
  other_value : Value

pub data BinaryOperator : Type 0 where
  op_and op_or gt gt_eq lt lt_eq other_op : BinaryOperator

pub data Expr : Type 0 where
  binary_op : Expr → BinaryOperator → Expr → Expr
  identifier : String → Expr
  compound_identifier : List String → Expr
  value : Value → Expr
  other_expr : Expr

pub record TimeRange : Type 0 where
  pub start_ns : Option ℤ
  pub end_ns : Option ℤ

unfoldable pub last_is_time : List String → Bool
last_is_time [] = false
last_is_time (p ∷ []) = str_eq p "time"
last_is_time (p ∷ q ∷ parts) = last_is_time (q ∷ parts)

unfoldable pub is_time_column : Expr → Bool
is_time_column (identifier id) = str_eq id "time"
is_time_column (compound_identifier parts) = last_is_time parts
is_time_column (binary_op l op r) = false
is_time_column (value v) = false
is_time_column other_expr = false

unfoldable pub parse_const : Expr → Option ℤ
parse_const (value (number s)) = parse_i64 s
parse_const (value (single_quoted_string s)) = parse_i64 s
parse_const (value (double_quoted_string s)) = parse_i64 s
parse_const (value other_value) = none
parse_const (binary_op l op r) = none
parse_const (identifier id) = none
parse_const (compound_identifier parts) = none
parse_const other_expr = none

abbrev pub max_ℤ : ℤ → ℤ → ℤ
max_ℤ x y = if ltb_ℤ x y then y else x

abbrev pub min_ℤ : ℤ → ℤ → ℤ
min_ℤ x y = if ltb_ℤ y x then y else x

unfoldable pub merge_max : Option ℤ → Option ℤ → Option ℤ
merge_max (some x) (some y) = some (max_ℤ x y)
merge_max (some x) none = some x
merge_max none (some y) = some y
merge_max none none = none

unfoldable pub merge_min : Option ℤ → Option ℤ → Option ℤ
merge_min (some x) (some y) = some (min_ℤ x y)
merge_min (some x) none = some x
merge_min none (some y) = some y
merge_min none none = none

-- `value.saturating_add(1)` and `value.saturating_sub(1)` on i64.
abbrev pub next : ℤ → ℤ
next (pos n) = if leb 0x7fff_ffff_ffff_ffff n then i64_max else pos (n + 1)
next (negsuc n) = if n == 0 then pos 0 else negsuc (n - 1)

abbrev pub prev : ℤ → ℤ
prev (pos n) = if n == 0 then negsuc 0 else pos (n - 1)
prev (negsuc n) = if leb 0x7fff_ffff_ffff_ffff n then i64_min else negsuc (n + 1)

abbrev pub unbounded : TimeRange
unbounded = record { start_ns = none; end_ns = none }

abbrev pub or_unbounded : Option TimeRange → TimeRange
or_unbounded none = unbounded
or_unbounded (some r) = r

-- `None` where the merged range has no bound.
abbrev pub bounded : TimeRange → Option TimeRange
bounded r = elim r.start_ns [
  | some _ ↦ some r
  | none ↦ elim r.end_ns [ none ↦ none | some _ ↦ some r ]
]

-- The comparison of a time column with a constant; the other operators give no bound.
abbrev pub comparison : BinaryOperator → ℤ → Option TimeRange
comparison gt v = some (record { start_ns = some (next v); end_ns = none })
comparison gt_eq v = some (record { start_ns = some v; end_ns = none })
comparison lt v = some (record { start_ns = none; end_ns = some (prev v) })
comparison lt_eq v = some (record { start_ns = none; end_ns = some v })
comparison op_and v = none
comparison op_or v = none
comparison other_op v = none

abbrev pub compared : Expr → BinaryOperator → Expr → Option TimeRange
compared left op right =
    if is_time_column left
    then elim (parse_const right) [ none ↦ none | some v ↦ comparison op v ]
    else none

abbrev pub merged : TimeRange → TimeRange → TimeRange
merged l r = record {
  start_ns = merge_max l.start_ns r.start_ns;
  end_ns = merge_min l.end_ns r.end_ns;
}

unfoldable pub extract_time_range : Expr → Option TimeRange
extract_time_range (binary_op left op_and right) =
    bounded
      (merged (or_unbounded (extract_time_range left)) (or_unbounded (extract_time_range right)))
extract_time_range (binary_op left op_or right) = none
extract_time_range (binary_op left gt right) = compared left gt right
extract_time_range (binary_op left gt_eq right) = compared left gt_eq right
extract_time_range (binary_op left lt right) = compared left lt right
extract_time_range (binary_op left lt_eq right) = compared left lt_eq right
extract_time_range (binary_op left other_op right) = none
extract_time_range (identifier id) = none
extract_time_range (compound_identifier parts) = none
extract_time_range (value v) = none
extract_time_range other_expr = none
