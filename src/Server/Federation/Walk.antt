-- ===== src/Server/Federation/Walk.antt =====
-- federation/mod.rs, `walk_query`: the walk over a query adds the names that it comes by, in order.
use iedb.Base.{◌≡◌, refl, sym, ◌∙◌, ap, List, [], ◌∷◌, ◌++◌}
use iedb.Base.Text.Codes.{Chars}
use iedb.Server.Federation.{
  Query, query_body, Ctes, no_ctes, cte, SetExpr, select_from, nested, set_operation, other_expr,
  Froms, no_from, from, TableWithJoins, joined, Joins, no_join, join, TableFactor, table, derived,
  nested_join, other_factor, Pair, walk_name, cte_names, walk_query, walk_ctes, walk_set_expr,
  walk_froms, walk_table_with_joins, walk_joins, walk_table_factor, Statement, query_statement,
  other_statement, walk_statements,
}

-- A name that a query reads, with the names of the CTEs in whose scope it stands.
abbrev pub Occurrence : Type 0
Occurrence = List Chars × List Chars

-- The occurrences in the FROM clauses of a query, from left to right, a CTE before the body. The
-- subqueries of expressions are left out.
unfoldable mutual
  pub in_query : Query → List Chars → List Occurrence
  in_query (query_body with body) ctes =
      in_ctes with ctes ++ in_set_expr body (ctes ++ cte_names with)

  pub in_ctes : Ctes → List Chars → List Occurrence
  in_ctes no_ctes ctes = []
  in_ctes (cte name q rest) ctes =
      in_query q (ctes ++ (name ∷ [])) ++ in_ctes rest (ctes ++ (name ∷ []))

  pub in_set_expr : SetExpr → List Chars → List Occurrence
  in_set_expr (select_from froms selection subqueries) ctes = in_froms froms ctes
  in_set_expr (nested q) ctes = in_query q ctes
  in_set_expr (set_operation left right) ctes = in_set_expr left ctes ++ in_set_expr right ctes
  in_set_expr other_expr ctes = []

  pub in_froms : Froms → List Chars → List Occurrence
  in_froms no_from ctes = []
  in_froms (from tw rest) ctes = in_table_with_joins tw ctes ++ in_froms rest ctes

  pub in_table_with_joins : TableWithJoins → List Chars → List Occurrence
  in_table_with_joins (joined relation joins) ctes =
      in_table_factor relation ctes ++ in_joins joins ctes

  pub in_joins : Joins → List Chars → List Occurrence
  in_joins no_join ctes = []
  in_joins (join relation rest) ctes = in_table_factor relation ctes ++ in_joins rest ctes

  pub in_table_factor : TableFactor → List Chars → List Occurrence
  in_table_factor (table parts) ctes = (parts, ctes) ∷ []
  in_table_factor (derived q) ctes = in_query q ctes
  in_table_factor (nested_join tw) ctes = in_table_with_joins tw ctes
  in_table_factor other_factor ctes = []

unfoldable pub in_statements : List Statement → List Occurrence
in_statements [] = []
in_statements (query_statement q ∷ stmts) = in_query q [] ++ in_statements stmts
in_statements (other_statement ∷ stmts) = in_statements stmts

-- A walk adds the names one after the other.
unfoldable pub add_all : List Occurrence → List Pair → List Pair
add_all [] tables = tables
add_all (o ∷ os) tables = add_all os (walk_name o.0 o.1 tables)

add_all-append :
    (xs ys : List Occurrence) (tables : List Pair)
    → add_all (xs ++ ys) tables ≡ add_all ys (add_all xs tables)
unfolding add_all
add_all-append [] ys tables = refl
add_all-append (x ∷ xs) ys tables = add_all-append xs ys (walk_name x.0 x.1 tables)

then_walk :
    (xs ys : List Occurrence) (tables t1 t2 : List Pair)
    → t1 ≡ add_all xs tables
    → t2 ≡ add_all ys t1
    → t2 ≡ add_all (xs ++ ys) tables
then_walk xs ys tables t1 t2 e1 e2 = e2 ∙ ap (add_all ys) e1 ∙ sym (add_all-append xs ys tables)

mutual
  unfolding walk_query in_query add_all

  query_adds :
      (q : Query) (ctes : List Chars) (tables : List Pair)
      → walk_query q ctes tables ≡ add_all (in_query q ctes) tables
  query_adds (query_body with body) ctes tables =
      then_walk (in_ctes with ctes) (in_set_expr body (ctes ++ cte_names with)) tables
        (walk_ctes with ctes tables) _ (ctes_add with ctes tables)
        (expr_adds body (ctes ++ cte_names with) (walk_ctes with ctes tables))

  ctes_add :
      (c : Ctes) (ctes : List Chars) (tables : List Pair)
      → walk_ctes c ctes tables ≡ add_all (in_ctes c ctes) tables
  ctes_add no_ctes ctes tables = refl
  ctes_add (cte name q rest) ctes tables =
      let scope = ctes ++ (name ∷ []) in
      then_walk (in_query q scope) (in_ctes rest scope) tables (walk_query q scope tables) _
        (query_adds q scope tables) (ctes_add rest scope (walk_query q scope tables))

  expr_adds :
      (x : SetExpr) (ctes : List Chars) (tables : List Pair)
      → walk_set_expr x ctes tables ≡ add_all (in_set_expr x ctes) tables
  expr_adds (select_from froms selection subqueries) ctes tables = froms_add froms ctes tables
  expr_adds (nested q) ctes tables = query_adds q ctes tables
  expr_adds (set_operation left right) ctes tables =
      then_walk (in_set_expr left ctes) (in_set_expr right ctes) tables
        (walk_set_expr left ctes tables) _ (expr_adds left ctes tables)
        (expr_adds right ctes (walk_set_expr left ctes tables))
  expr_adds other_expr ctes tables = refl

  froms_add :
      (x : Froms) (ctes : List Chars) (tables : List Pair)
      → walk_froms x ctes tables ≡ add_all (in_froms x ctes) tables
  froms_add no_from ctes tables = refl
  froms_add (from tw rest) ctes tables =
      then_walk (in_table_with_joins tw ctes) (in_froms rest ctes) tables
        (walk_table_with_joins tw ctes tables) _ (with_joins_add tw ctes tables)
        (froms_add rest ctes (walk_table_with_joins tw ctes tables))

  with_joins_add :
      (x : TableWithJoins) (ctes : List Chars) (tables : List Pair)
      → walk_table_with_joins x ctes tables ≡ add_all (in_table_with_joins x ctes) tables
  with_joins_add (joined relation joins) ctes tables =
      then_walk (in_table_factor relation ctes) (in_joins joins ctes) tables
        (walk_table_factor relation ctes tables) _ (factor_adds relation ctes tables)
        (joins_add joins ctes (walk_table_factor relation ctes tables))

  joins_add :
      (x : Joins) (ctes : List Chars) (tables : List Pair)
      → walk_joins x ctes tables ≡ add_all (in_joins x ctes) tables
  joins_add no_join ctes tables = refl
  joins_add (join relation rest) ctes tables =
      then_walk (in_table_factor relation ctes) (in_joins rest ctes) tables
        (walk_table_factor relation ctes tables) _ (factor_adds relation ctes tables)
        (joins_add rest ctes (walk_table_factor relation ctes tables))

  factor_adds :
      (x : TableFactor) (ctes : List Chars) (tables : List Pair)
      → walk_table_factor x ctes tables ≡ add_all (in_table_factor x ctes) tables
  factor_adds (table parts) ctes tables = refl
  factor_adds (derived q) ctes tables = query_adds q ctes tables
  factor_adds (nested_join tw) ctes tables = with_joins_add tw ctes tables
  factor_adds other_factor ctes tables = refl

pub statements_add :
    (stmts : List Statement) (tables : List Pair)
    → walk_statements stmts tables ≡ add_all (in_statements stmts) tables
unfolding walk_statements in_statements add_all
statements_add [] tables = refl
statements_add (query_statement q ∷ stmts) tables =
    then_walk (in_query q []) (in_statements stmts) tables (walk_query q [] tables) _
      (query_adds q [] tables) (statements_add stmts (walk_query q [] tables))
statements_add (other_statement ∷ stmts) tables = statements_add stmts tables
