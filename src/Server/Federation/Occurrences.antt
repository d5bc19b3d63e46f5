-- ===== src/Server/Federation/Occurrences.antt =====
-- federation/mod.rs, `extract_table_names`: exactly which names it reports.
use iedb.Base.{
  ◌≡◌, refl, sym, ◌∙◌, ap, Bool, true, false, ◌&&◌, ◌||◌, List, [], ◌∷◌, arith, eq_bytes,
  eq_bytes_refl, eq_bytes→eq, none, Bool-cases, inl, inr,
}
use mathlib.Core.Bool.{not}
use iedb.Base.Text.Codes.{Chars}
use iedb.Server.Db.{has_text}
use iedb.Server.Federation.{
  query_body, no_ctes, cte, select_from, no_subquery, no_from, from, joined, no_join, table, Pair,
  has_table_name, add_name, walk_name, walk_query, Statement, query_statement, walk_statements,
  extract_table_names,
}
use iedb.Server.Federation.Names.{has_table_name-snoc}
use iedb.Server.Federation.Walk.{Occurrence, in_statements, add_all, statements_add}

-- The occurrence is a name of two parts, this pair, outside the scope of a CTE that is named like the table.
unfoldable pub reads : Pair → List Chars → List Chars → Bool
reads p [] ctes = false
reads p (db ∷ []) ctes = false
reads p (db ∷ name ∷ []) ctes = (eq_bytes db p.0 && eq_bytes name p.1) && not (has_text name ctes)
reads p (db ∷ name ∷ more ∷ parts) ctes = false

unfoldable pub some_reads : Pair → List Occurrence → Bool
some_reads p [] = false
some_reads p (o ∷ os) = reads p o.0 o.1 || some_reads p os

eq_parts :
    (p : Pair) (db name : Chars) → (eq_bytes db p.0 && eq_bytes name p.1) ≡ true → (db, name) ≡ p
eq_parts p db name e =
    λ i. (eq_bytes→eq db p.0 (ground (arith, e)) i, eq_bytes→eq name p.1 (ground (arith, e)) i)

has-add_name :
    (p : Pair) (db name : Chars) (ctes : List Chars) (tables : List Pair)
    → has_table_name p (add_name db name ctes tables) ≡ (
        has_table_name p tables
        || ((eq_bytes db p.0 && eq_bytes name p.1) && not (has_text name ctes)))
unfolding add_name
has-add_name p db name ctes tables = elim (Bool-cases (has_text name ctes)) [
  | inl e ↦ rw e (ground arith)
  | inr e ↦ elim (Bool-cases (has_table_name (db, name) tables)) [
    | inr h ↦ rw e (rw h (has_table_name-snoc p (db, name) tables ∙ ground arith))
    | inl h ↦ rw e (
        rw h (elim (Bool-cases (eq_bytes db p.0 && eq_bytes name p.1)) [
          | inl k ↦
              let known : has_table_name p tables ≡ true =
                ap (λ q. has_table_name q tables) (sym (eq_parts p db name k)) ∙ h in
              rw known refl
          | inr k ↦ rw k (ground arith)
        ]))
  ]
]

has-walk_name :
    (p : Pair) (parts ctes : List Chars) (tables : List Pair)
    → has_table_name p (walk_name parts ctes tables)
      ≡ (has_table_name p tables || reads p parts ctes)
unfolding walk_name reads
has-walk_name p [] ctes tables = ground arith
has-walk_name p (db ∷ []) ctes tables = ground arith
has-walk_name p (db ∷ name ∷ []) ctes tables = has-add_name p db name ctes tables
has-walk_name p (db ∷ name ∷ more ∷ parts) ctes tables = ground arith

has-add_all :
    (p : Pair) (os : List Occurrence) (tables : List Pair)
    → has_table_name p (add_all os tables) ≡ (has_table_name p tables || some_reads p os)
unfolding add_all some_reads
has-add_all p [] tables = ground arith
has-add_all p (o ∷ os) tables =
    has-add_all p os (walk_name o.0 o.1 tables) ∙ ground (arith, has-walk_name p o.0 o.1 tables)

-- The walk reports a pair exactly if some FROM clause or join that it enters reads that qualified name
-- outside the scope of a CTE that is named like the table. It enters the queries of the text, their CTEs,
-- derived tables, nested joins and set operations, however deep; it does not enter a subquery of an
-- expression (x IN (SELECT …), EXISTS), and a name that only stands there is not reported.
pub extract_table_names_lem :
    (p : Pair) (stmts : List Statement)
    → has_table_name p (extract_table_names stmts) ≡ some_reads p (in_statements stmts)
unfolding extract_table_names
extract_table_names_lem p stmts =
    ap (has_table_name p) (statements_add stmts [])
    ∙ has-add_all p (in_statements stmts) []
    ∙ (unfold has_table_name in refl)

-- A code bug: a qualified name does not refer to a CTE, but the walk takes it for one. The query
-- WITH t AS (SELECT … FROM db.t) SELECT … FROM t reads the table db.t, whatever `db` and `t` are, and no
-- table is reported for it, so that it is answered without the agents' buffers.
pub cte_hides_table :
    (db t : Chars)
    → extract_table_names (
        query_statement (
          query_body
            (cte t
              (query_body no_ctes (
                select_from (from (joined (table (db ∷ t ∷ [])) no_join) no_from) none no_subquery))
              no_ctes)
            (select_from (from (joined (table (t ∷ [])) no_join) no_from) none no_subquery))
        ∷ [])
      ≡ []
unfolding extract_table_names walk_statements walk_query walk_name add_name has_text
cte_hides_table db t = rw (eq_bytes_refl t) refl
