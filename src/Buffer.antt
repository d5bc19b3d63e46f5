-- ===== src/Buffer.antt =====
-- src/agent/buffer/mod.rs: the in-memory tables of all databases.
pub mod Lookup
use iedb.Base.{
  ℕ, zero, suc, ◌+◌, String, Bool, true, false, Option, none, some, List, [], ◌∷◌, ◌++◌, length,
  get_elem?, option_get_or, if◌then◌else◌, ℤ, ltb_ℤ,
}
use iedb.Base.Assoc.{Assoc, get, alter, modify}
use iedb.Chunk.{FieldValue, FieldDef, TableSchema, Row, Chunk}
use iedb.Chunk.Postings.{postings}
use iedb.Table.{Table, new_table, table_size}

-- db_name => table_name => Table
pub record Buffer : Type 0 where
  pub databases : Assoc (Assoc Table)

abbrev pub new_buffer : Buffer
new_buffer = record { databases = [] }

-- `get_or_create_table(db, table)`, followed by what the caller does with the table, `f`.
unfoldable pub with_table : String → String → (Table → Table) → Buffer → Buffer
with_table db table f b = record {
  databases =
      alter db
        (λ tables.
          alter table (λ found. f (option_get_or (new_table table) found))
            (option_get_or [] tables))
        b.databases;
}

unfoldable pub get_table : String → String → Buffer → Option Table
get_table db table b = elim (get db b.databases) [ none ↦ none | some tables ↦ get table tables ]

-- `if let Some(table) = get_table_mut(db, table)`, followed by what the caller does with it.
unfoldable pub with_table_mut : String → String → (Table → Table) → Buffer → Buffer
with_table_mut db table f b = record { databases = modify db (modify table f) b.databases }

sum_tables : Assoc Table → ℕ
sum_tables [] = 0
sum_tables ((_, t) ∷ m) = table_size t + sum_tables m

sum_databases : Assoc (Assoc Table) → ℕ
sum_databases [] = 0
sum_databases ((_, tables) ∷ m) = sum_tables tables + sum_databases m

unfoldable pub total_estimated_size : Buffer → ℕ
unfolding sum_tables sum_databases
total_estimated_size b = sum_databases b.databases
