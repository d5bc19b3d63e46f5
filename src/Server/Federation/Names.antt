-- ===== src/Server/Federation/Names.antt =====
-- federation/mod.rs, `extract_table_names`: which names it reports.
use iedb.Base.{
  ◌≡◌, refl, ◌∙◌, false, ◌&&◌, ◌||◌, List, [], ◌∷◌, ◌++◌, arith, eq_bytes, Bool-cases, inl, inr,
}
use iedb.Base.Text.Codes.{Chars}
use iedb.Server.Db.{has_text}
use iedb.Server.Federation.{
  Query, query_body, Ctes, no_ctes, cte, SetExpr, select_from, nested, set_operation, other_expr,
  Froms, no_from, from, TableWithJoins, joined, Joins, no_join, join, TableFactor, table, derived,
  nested_join, other_factor, Pair, has_table_name, add_name, walk_name, cte_names, walk_query,
  walk_ctes, walk_set_expr, walk_froms, walk_table_with_joins, walk_joins, walk_table_factor,
  Statement, query_statement, other_statement, walk_statements, extract_table_names,
}

-- No pair stands twice.
abbrev pub Distinct : List Pair → Type 0
Distinct [] = Unit {0}
Distinct (p ∷ ps) = (has_table_name p ps ≡ false) × Distinct ps

pub has_table_name-snoc :
    (p q : Pair) (ps : List Pair)
    → has_table_name p (ps ++ (q ∷ []))
      ≡ (has_table_name p ps || (eq_bytes q.0 p.0 && eq_bytes q.1 p.1))
unfolding has_table_name
has_table_name-snoc p q [] = ground arith
has_table_name-snoc p q (r ∷ ps) = ground (arith, has_table_name-snoc p q ps)

pub eq_bytes_sym : (a b : Chars) → eq_bytes a b ≡ eq_bytes b a
unfolding eq_bytes
eq_bytes_sym [] [] = refl
eq_bytes_sym [] (y ∷ ys) = refl
eq_bytes_sym (x ∷ xs) [] = refl
eq_bytes_sym (x ∷ xs) (y ∷ ys) = ground (arith, eq_bytes_sym xs ys)

Distinct-snoc :
    (p : Pair) (ps : List Pair)
    → has_table_name p ps ≡ false
    → Distinct ps
    → Distinct (ps ++ (p ∷ []))
unfolding has_table_name
Distinct-snoc p [] e d = (refl, tt)
Distinct-snoc p (q ∷ ps) e d =
    let apart : (eq_bytes p.0 q.0 && eq_bytes p.1 q.1) ≡ false =
      ground (arith, e, eq_bytes_sym p.0 q.0, eq_bytes_sym p.1 q.1) in
    (has_table_name-snoc q p ps ∙ rw d.0 apart, Distinct-snoc p ps (ground (arith, e)) d.1)

add_name-Distinct :
    (db name : Chars) (ctes : List Chars) (tables : List Pair)
    → Distinct tables
    → Distinct (add_name db name ctes tables)
unfolding add_name
add_name-Distinct db name ctes tables d = elim (Bool-cases (has_text name ctes)) [
  | inl e ↦ rw e d
  | inr e ↦ elim (Bool-cases (has_table_name (db, name) tables)) [
    | inl h ↦ rw e (rw h d)
    | inr h ↦ rw e (rw h (Distinct-snoc (db, name) tables h d))
  ]
]

walk_name-Distinct :
    (parts ctes : List Chars) (tables : List Pair)
    → Distinct tables
    → Distinct (walk_name parts ctes tables)
unfolding walk_name
walk_name-Distinct [] ctes tables d = d
walk_name-Distinct (db ∷ []) ctes tables d = d
walk_name-Distinct (db ∷ name ∷ []) ctes tables d = add_name-Distinct db name ctes tables d
walk_name-Distinct (db ∷ name ∷ more ∷ parts) ctes tables d = d

mutual
  unfolding walk_query

  query-Distinct :
      (q : Query) (ctes : List Chars) (tables : List Pair)
      → Distinct tables
      → Distinct (walk_query q ctes tables)
  query-Distinct (query_body with body) ctes tables d =
      expr-Distinct body (ctes ++ cte_names with) (walk_ctes with ctes tables)
        (ctes-Distinct with ctes tables d)

  ctes-Distinct :
      (c : Ctes) (ctes : List Chars) (tables : List Pair)
      → Distinct tables
      → Distinct (walk_ctes c ctes tables)
  ctes-Distinct no_ctes ctes tables d = d
  ctes-Distinct (cte name q rest) ctes tables d =
      ctes-Distinct rest (ctes ++ (name ∷ [])) _ (query-Distinct q (ctes ++ (name ∷ [])) tables d)

  expr-Distinct :
      (x : SetExpr) (ctes : List Chars) (tables : List Pair)
      → Distinct tables
      → Distinct (walk_set_expr x ctes tables)
  expr-Distinct (select_from froms selection subqueries) ctes tables d =
      froms-Distinct froms ctes tables d
  expr-Distinct (nested q) ctes tables d = query-Distinct q ctes tables d
  expr-Distinct (set_operation left right) ctes tables d =
      expr-Distinct right ctes (walk_set_expr left ctes tables) (expr-Distinct left ctes tables d)
  expr-Distinct other_expr ctes tables d = d

  froms-Distinct :
      (x : Froms) (ctes : List Chars) (tables : List Pair)
      → Distinct tables
      → Distinct (walk_froms x ctes tables)
  froms-Distinct no_from ctes tables d = d
  froms-Distinct (from tw rest) ctes tables d =
      froms-Distinct rest ctes (walk_table_with_joins tw ctes tables)
        (with_joins-Distinct tw ctes tables d)

  with_joins-Distinct :
      (x : TableWithJoins) (ctes : List Chars) (tables : List Pair)
      → Distinct tables
      → Distinct (walk_table_with_joins x ctes tables)
  with_joins-Distinct (joined relation joins) ctes tables d =
      joins-Distinct joins ctes (walk_table_factor relation ctes tables)
        (factor-Distinct relation ctes tables d)

  joins-Distinct :
      (x : Joins) (ctes : List Chars) (tables : List Pair)
      → Distinct tables
      → Distinct (walk_joins x ctes tables)
  joins-Distinct no_join ctes tables d = d
  joins-Distinct (join relation rest) ctes tables d =
      joins-Distinct rest ctes (walk_table_factor relation ctes tables)
        (factor-Distinct relation ctes tables d)

  factor-Distinct :
      (x : TableFactor) (ctes : List Chars) (tables : List Pair)
      → Distinct tables
      → Distinct (walk_table_factor x ctes tables)
  factor-Distinct (table parts) ctes tables d = walk_name-Distinct parts ctes tables d
  factor-Distinct (derived q) ctes tables d = query-Distinct q ctes tables d
  factor-Distinct (nested_join tw) ctes tables d = with_joins-Distinct tw ctes tables d
  factor-Distinct other_factor ctes tables d = d

statements-Distinct :
    (stmts : List Statement) (tables : List Pair)
    → Distinct tables
    → Distinct (walk_statements stmts tables)
unfolding walk_statements
statements-Distinct [] tables d = d
statements-Distinct (query_statement q ∷ stmts) tables d =
    statements-Distinct stmts (walk_query q [] tables) (query-Distinct q [] tables d)
statements-Distinct (other_statement ∷ stmts) tables d = statements-Distinct stmts tables d

-- A query names a table once in the result, however often it reads it, and in whatever subqueries.
pub extract_table_names-Distinct : (stmts : List Statement) → Distinct (extract_table_names stmts)
unfolding extract_table_names
extract_table_names-Distinct stmts = statements-Distinct stmts [] tt
