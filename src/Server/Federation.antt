-- ===== src/Server/Federation.antt =====
-- src/server/federation/mod.rs, `extract_table_names`: the qualified tables that a query names, over the
-- part of sqlparser's syntax tree that the walk looks into, and the subqueries of expressions, which it does
-- not enter. Another node that it does not enter is `other`.
pub mod Names
pub mod Walk
pub mod Occurrences
pub mod Catalog
pub mod Plan
pub mod Range
use iedb.Base.{
  ℕ, Bool, true, false, ◌&&◌, ◌||◌, Option, List, [], ◌∷◌, ◌++◌, if◌then◌else◌, eq_bytes,
}
use mathlib.Core.Bool.{not}
use iedb.TimeFilter.{Expr}
use iedb.Base.Text.Codes.{Chars, codes}
use iedb.Server.Db.{has_text}

mutual
  -- `WITH` and its common table expressions, and the body.
  pub data Query : Type 0 where
    query_body : Ctes → SetExpr → Query

  pub data Ctes : Type 0 where
    no_ctes : Ctes
    cte : Chars → Query → Ctes → Ctes

  -- A SELECT: its FROM clause, its WHERE expression, and the queries that stand in its expressions.
  pub data SetExpr : Type 0 where
    select_from : Froms → Option Expr → Subqueries → SetExpr
    nested : Query → SetExpr
    set_operation : SetExpr → SetExpr → SetExpr
    other_expr : SetExpr

  -- As in `x IN (SELECT …)` and EXISTS, of the SELECT list, the WHERE, the ON of a join or the HAVING.
  pub data Subqueries : Type 0 where
    no_subquery : Subqueries
    subquery : Query → Subqueries → Subqueries

  pub data Froms : Type 0 where
    no_from : Froms
    from : TableWithJoins → Froms → Froms

  pub data TableWithJoins : Type 0 where
    joined : TableFactor → Joins → TableWithJoins

  pub data Joins : Type 0 where
    no_join : Joins
    join : TableFactor → Joins → Joins

  -- A name is its list of identifiers.
  pub data TableFactor : Type 0 where
    table : List Chars → TableFactor
    derived : Query → TableFactor
    nested_join : TableWithJoins → TableFactor
    other_factor : TableFactor

abbrev pub Pair : Type 0
Pair = Chars × Chars

unfoldable pub has_table_name : Pair → List Pair → Bool
has_table_name p [] = false
has_table_name p (q ∷ qs) = (eq_bytes q.0 p.0 && eq_bytes q.1 p.1) || has_table_name p qs

-- `tables.push(pair)`, unless the pair is there or its table is the name of a CTE.
unfoldable pub add_name : Chars → Chars → List Chars → List Pair → List Pair
add_name db name ctes tables =
    if not (has_text name ctes) && not (has_table_name (db, name) tables)
    then tables ++ ((db, name) ∷ [])
    else tables

unfoldable pub walk_name : List Chars → List Chars → List Pair → List Pair
walk_name (db ∷ name ∷ []) ctes tables = add_name db name ctes tables
walk_name (db ∷ name ∷ more ∷ parts) ctes tables = tables
walk_name (db ∷ []) ctes tables = tables
walk_name [] ctes tables = tables

-- The names of the CTEs of a `WITH`, in order.
unfoldable pub cte_names : Ctes → List Chars
cte_names no_ctes = []
cte_names (cte name q rest) = name ∷ cte_names rest

unfoldable mutual
  pub walk_query : Query → List Chars → List Pair → List Pair
  walk_query (query_body with body) ctes tables =
      walk_set_expr body (ctes ++ cte_names with) (walk_ctes with ctes tables)

  -- The scope of a CTE has its own name and those in front of it.
  pub walk_ctes : Ctes → List Chars → List Pair → List Pair
  walk_ctes no_ctes ctes tables = tables
  walk_ctes (cte name q rest) ctes tables =
      walk_ctes rest (ctes ++ (name ∷ [])) (walk_query q (ctes ++ (name ∷ [])) tables)

  pub walk_set_expr : SetExpr → List Chars → List Pair → List Pair
  walk_set_expr (select_from froms selection subqueries) ctes tables = walk_froms froms ctes tables
  walk_set_expr (nested q) ctes tables = walk_query q ctes tables
  walk_set_expr (set_operation left right) ctes tables =
      walk_set_expr right ctes (walk_set_expr left ctes tables)
  walk_set_expr other_expr ctes tables = tables

  pub walk_froms : Froms → List Chars → List Pair → List Pair
  walk_froms no_from ctes tables = tables
  walk_froms (from tw rest) ctes tables =
      walk_froms rest ctes (walk_table_with_joins tw ctes tables)

  pub walk_table_with_joins : TableWithJoins → List Chars → List Pair → List Pair
  walk_table_with_joins (joined relation joins) ctes tables =
      walk_joins joins ctes (walk_table_factor relation ctes tables)

  pub walk_joins : Joins → List Chars → List Pair → List Pair
  walk_joins no_join ctes tables = tables
  walk_joins (join relation rest) ctes tables =
      walk_joins rest ctes (walk_table_factor relation ctes tables)

  pub walk_table_factor : TableFactor → List Chars → List Pair → List Pair
  walk_table_factor (table parts) ctes tables = walk_name parts ctes tables
  walk_table_factor (derived q) ctes tables = walk_query q ctes tables
  walk_table_factor (nested_join tw) ctes tables = walk_table_with_joins tw ctes tables
  walk_table_factor other_factor ctes tables = tables

-- A statement of the text: only queries are walked.
pub data Statement : Type 0 where
  query_statement : Query → Statement
  other_statement : Statement

unfoldable pub walk_statements : List Statement → List Pair → List Pair
walk_statements [] tables = tables
walk_statements (query_statement q ∷ stmts) tables = walk_statements stmts (walk_query q [] tables)
walk_statements (other_statement ∷ stmts) tables = walk_statements stmts tables

-- On a text that parses to these statements.
unfoldable pub extract_table_names : List Statement → List Pair
extract_table_names stmts = walk_statements stmts []

pub data QueryMode : Type 0 where
  history_mode buffer_mode all_mode : QueryMode

unfoldable pub parse_query_mode : Chars → QueryMode
parse_query_mode s =
    if eq_bytes s (codes "buffer")
    then buffer_mode
    else if eq_bytes s (codes "all")
    then all_mode
    else history_mode
