-- ===== src/Server/Federation/Range.antt =====
-- federation/mod.rs, `engine_time_range`: the time range that a query sends to the agents.
use iedb.Base.{
  ◌≡◌, refl, ◌∙◌, ap, sym, Option, none, some, List, [], ◌∷◌, arith, if◌then◌else◌, ℤ, ◌≤ℤ◌, ltb_ℤ,
  ltb_ℤ-false→≤ℤ, Bool-cases, Option-cases, inl, inr,
}
use iedb.TimeFilter.{Expr, TimeRange, unbounded, extract_time_range}
use iedb.Server.Federation.{
  query_body, SetExpr, select_from, nested, set_operation, other_expr, Statement, query_statement,
  other_statement,
}

-- The WHERE of the first statement that is a SELECT and has one.
unfoldable pub selection_of : SetExpr → Option Expr
selection_of (select_from froms selection subqueries) = selection
selection_of (nested q) = none
selection_of (set_operation left right) = none
selection_of other_expr = none

unfoldable pub first_selection : List Statement → Option Expr
first_selection [] = none
first_selection (query_statement (query_body with body) ∷ stmts) =
    let rest = first_selection stmts in elim (selection_of body) [ some e ↦ some e | none ↦ rest ]
first_selection (other_statement ∷ stmts) = first_selection stmts

-- A range that ends before it begins is not sent.
unfoldable pub neutralized : TimeRange → TimeRange
neutralized r = elim r.start_ns [
  | none ↦ r
  | some s ↦ elim r.end_ns [ none ↦ r | some e ↦ if ltb_ℤ e s then unbounded else r ]
]

-- On a text that parses to these statements.
unfoldable pub engine_time_range : List Statement → TimeRange
engine_time_range stmts = elim (first_selection stmts) [
  | none ↦ unbounded
  | some e ↦ elim (extract_time_range e) [ none ↦ unbounded | some r ↦ neutralized r ]
]

ordered :
    (start end_ : Option ℤ) (lo hi : ℤ)
    → (neutralized (record { start_ns = start; end_ns = end_ })).start_ns ≡ some lo
    → (neutralized (record { start_ns = start; end_ns = end_ })).end_ns ≡ some hi
    → lo ≤ℤ hi
unfolding neutralized
ordered none end_ lo hi hs he = cc
ordered (some s) none lo hi hs he = cc
ordered (some s) (some e) lo hi hs he = elim (Bool-cases (ltb_ℤ e s)) [
  | inl q ↦ let nothing : none ≡ some lo = rw q at hs in cc nothing
  | inr q ↦
      let same_lo : some s ≡ some lo = rw q at hs in
      let same_hi : some e ≡ some hi = rw q at he in
      ground (arith, same_lo, same_hi, ltb_ℤ-false→≤ℤ e s q)
]

neutralized_order :
    (r : TimeRange) (s e : ℤ)
    → (neutralized r).start_ns ≡ some s
    → (neutralized r).end_ns ≡ some e
    → s ≤ℤ e
unfolding neutralized
neutralized_order r s e hs he = ordered r.start_ns r.end_ns s e hs he

-- The range is never inverted: where it has both bounds, the start is not after the end.
pub engine_time_range_order :
    (stmts : List Statement) (lo hi : ℤ)
    → (engine_time_range stmts).start_ns ≡ some lo
    → (engine_time_range stmts).end_ns ≡ some hi
    → lo ≤ℤ hi
unfolding engine_time_range
engine_time_range_order stmts lo hi hl hh = elim (Option-cases (first_selection stmts)) [
  | inl n ↦ let nothing : none ≡ some lo = rw (n, engine_time_range) at hl in cc nothing
  | inr (e, n) ↦ elim (Option-cases (extract_time_range e)) [
    | inl m ↦
        let open_ : engine_time_range stmts ≡ unbounded = rw (n, engine_time_range) (rw m refl) in
        let nothing : none ≡ some lo = ap (λ (r : TimeRange). r.start_ns) (sym open_) ∙ hl in
        cc nothing
    | inr (r, m) ↦
        let same : engine_time_range stmts ≡ neutralized r =
          rw (n, engine_time_range) (rw m refl) in
        neutralized_order r lo hi (ap (λ (x : TimeRange). x.start_ns) (sym same) ∙ hl)
          (ap (λ (x : TimeRange). x.end_ns) (sym same) ∙ hh)
  ]
]
