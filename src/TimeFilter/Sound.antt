-- ===== src/TimeFilter/Sound.antt =====
-- time_filter.rs: the extracted range leaves out no row that the WHERE expression accepts.
use iedb.Base.{
  ◌≡◌, Bool, true, false, ◌&&◌, ◌||◌, Option, none, some, arith, if◌then◌else◌, ℤ, ◌≤ℤ◌, ltb_ℤ,
  IsI64, Bool-cases, Option-cases, inl, inr,
}
use iedb.TimeFilter.{
  BinaryOperator, op_and, op_or, gt, gt_eq, lt, lt_eq, other_op, Expr, binary_op, identifier,
  compound_identifier, value, other_expr, TimeRange, is_time_column, parse_const, merge_max,
  merge_min, next, prev, or_unbounded, bounded, comparison, compared, merged, extract_time_range,
}

-- What an operator says of a time and a constant.
abbrev pub compares : BinaryOperator → ℤ → ℤ → Bool
compares gt t v = ltb_ℤ v t
compares gt_eq t v = if ltb_ℤ t v then false else true
compares lt t v = ltb_ℤ t v
compares lt_eq t v = if ltb_ℤ v t then false else true
compares op_and t v = true
compares op_or t v = true
compares other_op t v = true

-- Whether a comparison holds of a row: `rest` says it where no time column meets a constant.
abbrev pub holds_compared : (Expr → Bool) → ℤ → Expr → BinaryOperator → Expr → Bool
holds_compared rest t l op r =
    if is_time_column l
    then elim (parse_const r) [ none ↦ rest (binary_op l op r) | some v ↦ compares op t v ]
    else rest (binary_op l op r)

-- Whether an expression holds of a row of time `t`, whose other columns are in `rest`.
unfoldable pub holds : (Expr → Bool) → ℤ → Expr → Bool
holds rest t (binary_op l op_and r) = holds rest t l && holds rest t r
holds rest t (binary_op l op_or r) = holds rest t l || holds rest t r
holds rest t (binary_op l gt r) = holds_compared rest t l gt r
holds rest t (binary_op l gt_eq r) = holds_compared rest t l gt_eq r
holds rest t (binary_op l lt r) = holds_compared rest t l lt r
holds rest t (binary_op l lt_eq r) = holds_compared rest t l lt_eq r
holds rest t (binary_op l other_op r) = rest (binary_op l other_op r)
holds rest t (identifier id) = rest (identifier id)
holds rest t (compound_identifier parts) = rest (compound_identifier parts)
holds rest t (value v) = rest (value v)
holds rest t other_expr = rest other_expr

abbrev pub FromStart : Option ℤ → ℤ → Type 0
FromStart none t = Unit {0}
FromStart (some s) t = s ≤ℤ t

abbrev pub ToEnd : Option ℤ → ℤ → Type 0
ToEnd none t = Unit {0}
ToEnd (some e) t = t ≤ℤ e

abbrev pub Within : ℤ → TimeRange → Type 0
Within t r = FromStart r.start_ns t × ToEnd r.end_ns t

FromStart-merge_max :
    (a b : Option ℤ) (t : ℤ) → FromStart a t → FromStart b t → FromStart (merge_max a b) t
unfolding merge_max
FromStart-merge_max (some x) (some y) t h k = elim (Bool-cases (ltb_ℤ x y)) [
  | inl e ↦ rw e k
  | inr e ↦ rw e h
]
FromStart-merge_max (some x) none t h k = h
FromStart-merge_max none (some y) t h k = k
FromStart-merge_max none none t h k = tt

ToEnd-merge_min : (a b : Option ℤ) (t : ℤ) → ToEnd a t → ToEnd b t → ToEnd (merge_min a b) t
unfolding merge_min
ToEnd-merge_min (some x) (some y) t h k = elim (Bool-cases (ltb_ℤ y x)) [
  | inl e ↦ rw e k
  | inr e ↦ rw e h
]
ToEnd-merge_min (some x) none t h k = h
ToEnd-merge_min none (some y) t h k = k
ToEnd-merge_min none none t h k = tt

Within-merged : (l r : TimeRange) (t : ℤ) → Within t l → Within t r → Within t (merged l r)
Within-merged l r t h k = (
  FromStart-merge_max l.start_ns r.start_ns t h.0 k.0,
  ToEnd-merge_min l.end_ns r.end_ns t h.1 k.1,
)

Within-bounded :
    (a b : Option ℤ) (t : ℤ)
    → FromStart a t
    → ToEnd b t
    → Within t (or_unbounded (bounded (record { start_ns = a; end_ns = b })))
Within-bounded (some s) b t h k = (h, k)
Within-bounded none (some e) t h k = (h, k)
Within-bounded none none t h k = (h, k)

next_le : (v t : ℤ) → IsI64 t → ltb_ℤ v t ≡ true → next v ≤ℤ t
next_le v t i h = ground arith

le_prev : (v t : ℤ) → IsI64 t → ltb_ℤ t v ≡ true → t ≤ℤ prev v
le_prev v t i h = ground arith

Within-comparison :
    (op : BinaryOperator) (t v : ℤ)
    → IsI64 t
    → compares op t v ≡ true
    → Within t (or_unbounded (comparison op v))
Within-comparison gt t v i h = (next_le v t i h, tt)
Within-comparison gt_eq t v i h = ground arith
Within-comparison lt t v i h = (tt, le_prev v t i h)
Within-comparison lt_eq t v i h = ground arith
Within-comparison op_and t v i h = (tt, tt)
Within-comparison op_or t v i h = (tt, tt)
Within-comparison other_op t v i h = (tt, tt)

Within-compared :
    (rest : Expr → Bool) (t : ℤ) (l : Expr) (op : BinaryOperator) (r : Expr)
    → IsI64 t
    → holds_compared rest t l op r ≡ true
    → Within t (or_unbounded (compared l op r))
Within-compared rest t l op r i h = elim (Bool-cases (is_time_column l)) [
  | inr e ↦ rw e (tt, tt)
  | inl e ↦ elim (Option-cases (parse_const r)) [
    | inl e' ↦ rw (e, e') (tt, tt)
    | inr (v, e') ↦ rw (e, e') (Within-comparison op t v i (rw (e, e') at h))
  ]
]

and_left : (a b : Bool) → (a && b) ≡ true → a ≡ true
and_left a b h = ground arith

and_right : (a b : Bool) → (a && b) ≡ true → b ≡ true
and_right a b h = ground arith

-- A row that the WHERE expression accepts lies in the extracted range, whatever the expression says
-- of other columns: a source that is asked for the range alone misses no row of the answer.
pub extract_time_range_lem :
    (rest : Expr → Bool) (t : ℤ) (e : Expr)
    → IsI64 t
    → holds rest t e ≡ true
    → Within t (or_unbounded (extract_time_range e))
unfolding holds extract_time_range
extract_time_range_lem rest t (binary_op l op_and r) i h =
    let a = or_unbounded (extract_time_range l) in
    let b = or_unbounded (extract_time_range r) in
    let w =
      Within-merged a b t
        (extract_time_range_lem rest t l i (and_left (holds rest t l) (holds rest t r) h))
        (extract_time_range_lem rest t r i (and_right (holds rest t l) (holds rest t r) h)) in
    Within-bounded (merged a b).start_ns (merged a b).end_ns t w.0 w.1
extract_time_range_lem rest t (binary_op l op_or r) i h = (tt, tt)
extract_time_range_lem rest t (binary_op l gt r) i h = Within-compared rest t l gt r i h
extract_time_range_lem rest t (binary_op l gt_eq r) i h = Within-compared rest t l gt_eq r i h
extract_time_range_lem rest t (binary_op l lt r) i h = Within-compared rest t l lt r i h
extract_time_range_lem rest t (binary_op l lt_eq r) i h = Within-compared rest t l lt_eq r i h
extract_time_range_lem rest t (binary_op l other_op r) i h = (tt, tt)
extract_time_range_lem rest t (identifier id) i h = (tt, tt)
extract_time_range_lem rest t (compound_identifier parts) i h = (tt, tt)
extract_time_range_lem rest t (value v) i h = (tt, tt)
extract_time_range_lem rest t other_expr i h = (tt, tt)
