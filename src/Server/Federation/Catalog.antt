-- ===== src/Server/Federation/Catalog.antt =====
-- src/server/federation/mod.rs: record batches, the providers of tables, DataFusion's catalog as far as the
-- calls of it go, and `swap_provider`. Arrow's arrays are a parameter `A`. `resolve` is DataFusion's reading
-- of a table name: the schema and the table, as it normalizes them.
pub mod Entries
use iedb.Base.{
  ℕ, ◌+◌, Bool, true, false, ◌&&◌, Option, none, some, List, [], ◌∷◌, ◌++◌, map, if◌then◌else◌,
  eq_bytes,
}
use mathlib.Core.Bool.{not}
use iedb.Base.Text.{split_once}
use iedb.Base.Text.Codes.{Chars}
use iedb.Server.Db.{has_text}
use iedb.Server.Federation.{Pair}

-- The name and the type of a column.
abbrev pub Schema : Type 0
Schema = List (Chars × Chars)

unfoldable pub eq_schema : Schema → Schema → Bool
eq_schema [] [] = true
eq_schema [] (g ∷ gs) = false
eq_schema (f ∷ fs) [] = false
eq_schema (f ∷ fs) (g ∷ gs) = (eq_bytes f.0 g.0 && eq_bytes f.1 g.1) && eq_schema fs gs

-- A column with its field, and a batch of columns of `num_rows` rows.
pub record Column (A : Type 0) : Type 0 where
  pub field : Chars × Chars
  pub array : A

pub record Batch (A : Type 0) : Type 0 where
  pub columns : List (Column A)
  pub num_rows : ℕ

abbrev pub schema_of_batch : {A : Type 0} → Batch A → Schema
schema_of_batch {A} b = map (λ (c : Column A). c.field) b.columns

-- The persisted listing, a MemTable, or the union of a provider with fetched batches.
pub data Provider (A : Type 0) : Type 0 where
  listing : Schema → Provider A
  mem_table : Schema → List (Batch A) → Provider A
  federated : Provider A → List (Batch A) → Provider A

unfoldable pub schema_of : {A : Type 0} → Provider A → Schema
schema_of (listing schema) = schema
schema_of (mem_table schema batches) = schema
schema_of (federated p batches) = schema_of p

-- The default catalog: its schemas, and the provider of a table of a schema.
pub record Catalog (A : Type 0) : Type 0 where
  pub schemas : List Chars
  pub tables : Pair → Option (Provider A)

abbrev pub eq_pair : Pair → Pair → Bool
eq_pair a b = eq_bytes a.0 b.0 && eq_bytes a.1 b.1

module _ {A : Type 0} where
  -- `table_provider`, an error where the schema is missing.
  unfoldable pub find_provider : Pair → Catalog A → Option (Provider A)
  find_provider k c = if has_text k.0 c.schemas then c.tables k else none

  unfoldable pub put_table : Pair → Option (Provider A) → Catalog A → Catalog A
  put_table k o c = record c { tables = λ k'. if eq_pair k k' then o else c.tables k' }

  -- `deregister_table`: without the schema, an error that changes nothing.
  unfoldable pub deregister : Pair → Catalog A → Catalog A
  deregister k c = if has_text k.0 c.schemas then put_table k none c else c

  -- `register_table` refuses a missing schema and a name that is taken; `false` is an error.
  unfoldable pub register_table : Pair → Provider A → Catalog A → Catalog A × Bool
  register_table k p c =
      if has_text k.0 c.schemas
      then elim (find_provider k c) [ some _ ↦ (c, false) | none ↦ (put_table k (some p) c, true) ]
      else (c, false)

  -- `register_schema`, of an empty schema, unless it is there.
  unfoldable pub ensure_schema : Chars → Catalog A → Catalog A
  ensure_schema db c = if has_text db c.schemas then c else record {
    schemas = c.schemas ++ (db ∷ []);
    tables = λ k. if eq_bytes db k.0 then none else c.tables k;
  }

module _ {A : Type 0} (resolve : Chars → Pair) where
  -- `swap_provider`: what is registered goes first, and the schema of the text in front of the dot is
  -- created; it is not the schema of the table where DataFusion normalizes the name to another one.
  unfoldable pub swap_provider : Chars → Provider A → Catalog A → Catalog A × Bool
  swap_provider name p c =
      let k = resolve name in
      let c1 : Catalog A = elim (find_provider k c) [ some _ ↦ deregister k c | none ↦ c ] in
      elim (split_once b'.' name) [
        | none ↦ (c1, false)
        | some parts ↦ register_table k p (ensure_schema parts.0 c1)
      ]
