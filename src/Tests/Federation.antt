-- ===== src/Tests/Federation.antt =====
-- Queries over the buffers of the agents.
use iedb.Base.{
  ℕ, ◌≡◌, refl, Bool, true, Option, none, some, List, [], ◌∷◌, pos, ◌-ℤ◌, eq_bytes, if◌then◌else◌,
  option_get_or, false,
}
use iedb.Base.Text.Codes.{Chars, codes}
use iedb.TimeFilter.{Expr, binary_op, gt_eq, identifier, value, number}
use iedb.Server.Db.{AgentRecord, TableRow, Db, new_db, has_text}
use iedb.Server.Agents.{get, find_agent}
use iedb.Server.Metadata.{table_row}
use iedb.Server.Federation.{
  query_body, no_ctes, cte, select_from, no_subquery, subquery, no_from, from, joined, no_join,
  table, Pair, buffer_mode, has_table_name, Statement, query_statement, extract_table_names,
  walk_statements, walk_query, walk_name, add_name, cte_names,
}
use iedb.Server.Federation.Occurrences.{some_reads, extract_table_names_lem, cte_hides_table}
use iedb.Server.Federation.Walk.{in_statements}
use iedb.Server.Federation.Catalog.{
  Provider, listing, mem_table, federated, swap_provider, register_table, deregister, put_table,
  ensure_schema, Batch, Catalog, find_provider, eq_schema,
}
use iedb.Server.Federation.Plan.{
  restore, Pass, Fetched, fetched, qualified, prepare_tables, prepare_table, federate, collect,
  targets_of, list_table_agents, new_provider, new_mem_table, align_batches_to_schema,
  align_columns, column_by_name, prepare_and_plan,
}
use iedb.Base.Text.{split_once}
use iedb.Server.Federation.Catalog.Entries.{Grows}
use iedb.Server.Federation.Plan.Restore.{catalog_restored}
use iedb.Server.Federation.Plan.Transient.{AllBuffered, batches_of, prepare_tables-Buffered}

-- SELECT … FROM db.cpu WHERE time >= 5
abbrev where_time : Expr
where_time = binary_op (identifier "time") gt_eq (value (number (b'5' ∷ [])))

abbrev stmts : List Statement
stmts =
    query_statement (
      query_body no_ctes (
        select_from (from (joined (table (codes "db" ∷ codes "cpu" ∷ [])) no_join) no_from)
          (some where_time) no_subquery))
    ∷ []

abbrev cpu : Pair
cpu = (codes "db", codes "cpu")

extract_table_names_lem_example :
    has_table_name cpu (extract_table_names stmts) ≡ some_reads cpu (in_statements stmts)
extract_table_names_lem_example = extract_table_names_lem cpu stmts

cte_hides_table_example :
    extract_table_names (
      query_statement (
        query_body
          (cte
            (codes "cpu")
            (query_body no_ctes (
              select_from
                (from (joined (table (codes "db" ∷ codes "cpu" ∷ [])) no_join) no_from)
                none
                no_subquery))
            no_ctes)
          (select_from (from (joined (table (codes "cpu" ∷ [])) no_join) no_from) none no_subquery))
      ∷ [])
    ≡ []
cte_hides_table_example = cte_hides_table (codes "db") (codes "cpu")

-- SELECT … FROM db.cpu WHERE host IN (SELECT host FROM db.mem)
where_subquery :
    extract_table_names (
      query_statement (
        query_body no_ctes (
          select_from (from (joined (table (codes "db" ∷ codes "cpu" ∷ [])) no_join) no_from) none (
            subquery
              (query_body no_ctes (
                select_from
                  (from (joined (table (codes "db" ∷ codes "mem" ∷ [])) no_join) no_from)
                  none
                  no_subquery))
              no_subquery)))
      ∷ [])
    ≡ cpu ∷ []
unfolding extract_table_names walk_statements walk_query walk_name add_name has_text has_table_name
    cte_names
where_subquery = refl

abbrev no_other_columns : Expr → Bool
no_other_columns _ = true

-- An agent that is online and serves one batch, and the persisted listing of its table.
abbrev agent : AgentRecord
agent = record {
  id = codes "a1";
  hostname = codes "h";
  arch = none;
  version = none;
  config_json = none;
  config_version = pos 1;
  target_config_version = pos 1;
  registered_at = pos 0;
  last_seen_at = some (pos 90);
  listen_addr = some (codes "h:1");
}

abbrev row : TableRow
row = record {
  id = 1;
  db_name = codes "db";
  table_name = codes "cpu";
  time_min = none;
  time_max = none;
  total_rows = 0;
  updated_at = none;
}

abbrev store : Db
store = record new_db {
  agents = agent ∷ [];
  tables = row ∷ [];
  agent_tables = (codes "a1", 1) ∷ [];
}

abbrev batch : Batch ℕ
batch = record {
  columns = record { field = (codes "time", codes "i64"); array = 3 } ∷ [];
  num_rows = 1;
}

abbrev serves : Pair → Chars → Fetched ℕ
serves _ _ = fetched (batch ∷ [])

abbrev nulls : Chars → ℕ → ℕ
nulls _ _ = 0

-- The catalog has the schema `db` with the listing of `db.cpu`, and reads names as they are written.
abbrev catalog : Catalog ℕ
catalog = record {
  schemas = codes "db" ∷ [];
  tables = λ k. if eq_bytes k.1 (codes "cpu") then some (listing []) else none;
}

abbrev resolve : Chars → Pair
resolve name = option_get_or ([], name) (split_once b'.' name)

abbrev all_read : Pair → Bool
all_read _ = true

abbrev start : Pass ℕ
start = record { catalog = catalog; replaced = []; queried = 0; skipped = 0 }

prepared :
    (prepare_tables nulls resolve all_read buffer_mode (pos 100) store serves (cpu ∷ []) start).1
    ≡ true
unfolding prepare_tables prepare_table federate collect targets_of list_table_agents table_row
    new_provider new_mem_table align_batches_to_schema align_columns column_by_name eq_schema
    eq_bytes get find_agent ◌-ℤ◌ find_provider swap_provider register_table deregister put_table
    ensure_schema has_text split_once qualified
prepared = refl

prepare_tables-Buffered_example :
    AllBuffered nulls resolve
      (batches_of (pos 100) store serves)
      (cpu ∷ [])
      (prepare_tables nulls resolve all_read buffer_mode (pos 100) store serves (cpu ∷ []) start).0
prepare_tables-Buffered_example =
    prepare_tables-Buffered nulls resolve all_read (pos 100) store serves (cpu ∷ []) start (tt, tt)
      (refl, tt) prepared

abbrev planner : Catalog ℕ → Option (Unit {0})
planner _ = some tt

catalog_restored_example :
    (find_provider cpu
        (prepare_and_plan nulls resolve all_read planner buffer_mode
          (pos 100)
          store
          serves
          (cpu ∷ [])
          catalog).0
      ≡ find_provider cpu catalog)
    × Grows catalog
        (prepare_and_plan nulls resolve all_read planner buffer_mode
          (pos 100)
          store
          serves
          (cpu ∷ [])
          catalog).0
catalog_restored_example =
    catalog_restored nulls resolve all_read (pos 100) store serves planner buffer_mode (cpu ∷ [])
      catalog (tt, tt) cpu

-- SELECT … FROM db.cpu JOIN db.CPU, where DataFusion reads both names as one table and the agents serve both
-- spellings: the restoring loop ends with the MemTable that the first spelling had put there.
abbrev resolve_cpu : Chars → Pair
resolve_cpu _ = cpu

abbrev two_spellings : Db
two_spellings = record store {
  tables = row ∷ record row { id = 2; table_name = codes "CPU" } ∷ [];
  agent_tables = (codes "a1", 1) ∷ (codes "a1", 2) ∷ [];
}

abbrev left_behind : Option (Provider ℕ) → Bool
left_behind none = false
left_behind (some (listing schema)) = false
left_behind (some (mem_table schema batches)) = true
left_behind (some (federated p batches)) = false

one_table_twice :
    left_behind (
      find_provider cpu
        (prepare_and_plan nulls resolve_cpu all_read planner buffer_mode
          (pos 100)
          two_spellings
          serves
          (cpu ∷ (codes "db", codes "CPU") ∷ [])
          catalog).0)
    ≡ true
unfolding prepare_and_plan prepare_tables prepare_table federate collect targets_of
    list_table_agents table_row new_provider new_mem_table align_batches_to_schema align_columns
    column_by_name eq_schema eq_bytes get find_agent ◌-ℤ◌ find_provider swap_provider register_table
    deregister put_table ensure_schema has_text split_once restore qualified
one_table_twice = refl
