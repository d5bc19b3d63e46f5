-- ===== src/Server/Federation/Plan.antt =====
-- src/server/federation/mod.rs, `prepare_and_plan`: the providers of the tables of a query are replaced
-- by ones with the agents' buffers, the query is planned, and the catalog is put back. Arrow's arrays are a
-- parameter `A`; the SQL planner and the fetch of a buffer are arguments. `resolve` is DataFusion's reading
-- of a table name: the schema and the table, as it normalizes them.
pub mod Restore
pub mod Transient
use iedb.Base.{
  ℕ, ◌+◌, Bool, true, false, Option, none, some, List, [], ◌∷◌, ◌++◌, map, if◌then◌else◌, ◌==◌, ℤ,
  pos, ◌-ℤ◌, ltb_ℤ, eq_bytes, find, keep, is_empty,
}
use mathlib.Core.Bool.{not}
use iedb.Base.Text.Codes.{Chars}
use iedb.Server.Db.{Db}
use iedb.Server.Agents
use iedb.Server.Metadata.{table_row}
use iedb.Server.Federation.{Pair, QueryMode, history_mode, buffer_mode, all_mode}
use iedb.Server.Federation.Catalog.{
  Schema, eq_schema, Column, Batch, schema_of_batch, Provider, mem_table, federated, schema_of,
  Catalog, find_provider, deregister, register_table, swap_provider,
}

-- MetadataStore::list_table_agents.
unfoldable pub list_table_agents : Chars → Chars → Db → List Chars
list_table_agents db table s = elim (table_row db table s) [
  | none ↦ []
  | some row ↦ map (λ p. p.0) (keep (λ p. p.1 == row.id) s.agent_tables)
]

-- A query's work: the catalog, the providers that it has replaced, and the counts of the answer.
pub record Pass (A : Type 0) : Type 0 where
  pub catalog : Catalog A
  pub replaced : List (Chars × Option (Provider A))
  pub queried : ℕ
  pub skipped : ℕ

unfoldable pub qualified : Pair → Chars
qualified p = p.0 ++ (b'.' ∷ p.1)

-- How the fetch of a buffer ends: status 204, batches, or a failure of any kind.
pub data Fetched (A : Type 0) : Type 0 where
  no_content : Fetched A
  fetched : List (Batch A) → Fetched A
  fetch_failed : Fetched A

-- The addresses of the agents that are online, and the number of the others.
unfoldable pub targets_of : ℤ → Db → List Chars → List Chars × ℕ
targets_of now_ms s [] = ([], 0)
targets_of now_ms s (id ∷ ids) =
    let (targets, skipped) = targets_of now_ms s ids in
    elim (iedb.Server.Agents.get id s) [
      | none ↦ (targets, skipped + 1)
      | some a ↦ elim a.last_seen_at [
        | none ↦ (targets, skipped + 1)
        | some ts ↦ elim a.listen_addr [
          | none ↦ (targets, skipped + 1)
          | some addr ↦
              if ltb_ℤ (pos 30000) (now_ms -ℤ ts)
              then (targets, skipped + 1)
              else (addr ∷ targets, skipped)
        ]
      ]
    ]

module _ {A : Type 0} where
  -- `MemTable::try_new` refuses a batch of another schema.
  unfoldable pub new_mem_table : Schema → List (Batch A) → Option (Provider A)
  new_mem_table schema batches =
      if is_empty (keep (λ (b : Batch A). not (eq_schema schema (schema_of_batch b))) batches)
      then some (mem_table schema batches)
      else none

  -- The results of the fetches: the batches, and how many agents were queried and skipped.
  unfoldable pub collect : (Chars → Fetched A) → List Chars → List (Batch A) × ℕ × ℕ
  collect fetch [] = ([], 0, 0)
  collect fetch (addr ∷ addrs) =
      let (batches, queried, skipped) = collect fetch addrs in
      elim (fetch addr) [
        | no_content ↦ (batches, queried, skipped)
        | fetched bs ↦ (bs ++ batches, queried + 1, skipped)
        | fetch_failed ↦ (batches, queried, skipped + 1)
      ]

module _ {A : Type 0} (resolve : Chars → Pair) where
  -- A provider that could not be built, and a swap that fails, end the loop.
  abbrev pub install : Chars → Option (Provider A) → Pass A → Pass A × Bool
  install name none pass = (pass, false)
  install name (some p) pass =
      let swapped = swap_provider resolve name p pass.catalog in
      (record pass { catalog = swapped.0 }, swapped.1)

  -- `shadow_empty_in_buffer`
  unfoldable pub shadow_empty_in_buffer : QueryMode → Chars → Pass A → Pass A × Bool
  shadow_empty_in_buffer buffer_mode name pass = elim (find_provider (resolve name) pass.catalog) [
    | none ↦ (pass, true)
    | some original ↦
        install name (some (mem_table (schema_of original) []))
          (record pass { replaced = pass.replaced ++ ((name, some original) ∷ []) })
  ]
  shadow_empty_in_buffer _ name pass = (pass, true)

  -- The loop over `replaced` after the planning, whose errors are only logged.
  unfoldable pub restore : List (Chars × Option (Provider A)) → Catalog A → Catalog A
  restore [] c = c
  restore ((name, none) ∷ replaced) c = restore replaced (deregister (resolve name) c)
  restore ((name, some p) ∷ replaced) c =
      restore replaced (register_table (resolve name) p (deregister (resolve name) c)).0

module _ {A : Type 0} (null_array : Chars → ℕ → A) where
  unfoldable pub column_by_name : Chars → List (Column A) → Option (Column A)
  column_by_name name columns = find (λ (c : Column A). eq_bytes c.field.0 name) columns

  -- The columns of one batch; a column of another type than the target's field is an error.
  unfoldable pub align_columns : Schema → Batch A → Option (List (Column A))
  align_columns [] b = some []
  align_columns (f ∷ fs) b =
      let rest = align_columns fs b in
      elim (column_by_name f.0 b.columns) [
        | none ↦ elim rest [
          | none ↦ none
          | some cols ↦ some (record { field = f; array = null_array f.1 b.num_rows } ∷ cols)
        ]
        | some col ↦
            if eq_bytes col.field.1 f.1
            then elim rest [
              | none ↦ none
              | some cols ↦ some (record { field = f; array = col.array } ∷ cols)
            ]
            else none
      ]

  unfoldable pub align_batches_to_schema : List (Batch A) → Schema → Option (List (Batch A))
  align_batches_to_schema [] target = some []
  align_batches_to_schema (b ∷ bs) target =
      let rest = align_batches_to_schema bs target in
      elim (align_columns target b) [
        | none ↦ none
        | some cols ↦ elim rest [
          | none ↦ none
          | some aligned ↦ some (record { columns = cols; num_rows = b.num_rows } ∷ aligned)
        ]
      ]

  -- The provider of a table for which batches came; `History` never gets here.
  unfoldable pub new_provider :
      QueryMode → Option (Provider A) → Batch A → List (Batch A) → Option (Provider A)
  new_provider all_mode none b bs = new_mem_table (schema_of_batch b) (b ∷ bs)
  new_provider all_mode (some original) b bs =
      elim (align_batches_to_schema (b ∷ bs) (schema_of original)) [
        | none ↦ none
        | some aligned ↦ some (federated original aligned)
      ]
  new_provider buffer_mode original b bs =
      elim (align_batches_to_schema (b ∷ bs) (schema_of_batch b)) [
        | none ↦ none
        | some aligned ↦ new_mem_table (schema_of_batch b) aligned
      ]
  new_provider history_mode original b bs = none

-- `reads` says for which tables the query of the store for their agents succeeds.
module _ {A : Type 0} (null_array : Chars → ℕ → A) (resolve : Chars → Pair)
    (reads : Pair → Bool) where
  unfoldable pub federate : QueryMode → Chars → List (Batch A) → Pass A → Pass A × Bool
  federate mode name [] pass = shadow_empty_in_buffer resolve mode name pass
  federate mode name (b ∷ bs) pass =
      let original = find_provider (resolve name) pass.catalog in
      install resolve name (new_provider null_array mode original b bs)
        (record pass { replaced = pass.replaced ++ ((name, original) ∷ []) })

  -- The body of the loop over the tables; `false` is an error. A table whose agents could not be read is
  -- left as it is.
  unfoldable pub prepare_table :
      QueryMode → ℤ → Db → (Pair → Chars → Fetched A) → Pair → Pass A → Pass A × Bool
  prepare_table mode now_ms s fetch p pass =
      let agent_ids = list_table_agents p.0 p.1 s in
      let (targets, offline) = targets_of now_ms s agent_ids in
      let (batches, queried, failed) = collect (fetch p) targets in
      if reads p
      then federate mode (qualified p) batches (record pass {
        queried = pass.queried + queried;
        skipped = pass.skipped + offline + failed;
      })
      else (pass, true)

  unfoldable pub prepare_tables :
      QueryMode → ℤ → Db → (Pair → Chars → Fetched A) → List Pair → Pass A → Pass A × Bool
  prepare_tables mode now_ms s fetch [] pass = (pass, true)
  prepare_tables mode now_ms s fetch (p ∷ ps) pass =
      let (pass', fine) = prepare_table mode now_ms s fetch p pass in
      let rest = prepare_tables mode now_ms s fetch ps pass' in
      if fine then rest else (pass', false)

  -- `plan` is the planner of DataFusion; what it returns holds the providers that it has seen.
  unfoldable pub prepare_and_plan :
      {P : Type 0}
      → (Catalog A → Option P)
      → QueryMode
      → ℤ
      → Db
      → (Pair → Chars → Fetched A)
      → List Pair
      → Catalog A
      → Catalog A × Option P
  prepare_and_plan plan mode now_ms s fetch [] c = (c, plan c)
  prepare_and_plan plan mode now_ms s fetch (p ∷ ps) c =
      let (pass, fine) =
        prepare_tables mode now_ms s fetch (p ∷ ps)
          (record { catalog = c; replaced = []; queried = 0; skipped = 0 }) in
      (restore resolve pass.replaced pass.catalog, if fine then plan pass.catalog else none)
