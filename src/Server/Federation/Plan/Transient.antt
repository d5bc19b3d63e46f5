-- ===== src/Server/Federation/Plan/Transient.antt =====
-- federation/mod.rs: what a buffer query plans against.
use iedb.Base.{
  ℕ, ◌≡◌, refl, sym, ◌∙◌, ap, Bool, true, false, ◌⊎◌, Option, none, some, List, [], ◌∷◌, ℤ, All,
  keep, is_empty, Bool-cases, Option-cases, inl, inr,
}
use mathlib.Core.Bool.{not}
use mathlib.Core.Path.{subst}
use iedb.Base.Text.Codes.{Chars}
use iedb.Server.Db.{Db}
use iedb.Server.Federation.{Pair, QueryMode, buffer_mode}
use iedb.Server.Federation.Catalog.{
  Schema, Provider, mem_table, Batch, eq_pair, eq_schema, schema_of, schema_of_batch, find_provider,
}
use iedb.Server.Federation.Plan.{
  Pass, Fetched, qualified, list_table_agents, targets_of, collect, shadow_empty_in_buffer, install,
  new_provider, new_mem_table, align_batches_to_schema, federate, prepare_table, prepare_tables,
}
use iedb.Server.Federation.Catalog.Entries.{swap_provider_own}
use iedb.Server.Federation.Plan.Restore.{
  Apart, AllApart, apart_of, entries, Touches, prepare_table-Touches,
}

-- No provider, an empty MemTable, or a MemTable of exactly these batches, aligned to the schema of the
-- first one.
abbrev pub Buffered : {A : Type 0} → (Chars → ℕ → A) → List (Batch A) → Option (Provider A) → Type 0
Buffered {A} null_array [] o = (o ≡ none) ⊎ ((schema : Schema) × (o ≡ some (mem_table schema [])))
Buffered {A} null_array (b ∷ bs) o =
    (aligned : List (Batch A)) × (align_batches_to_schema null_array (b ∷ bs) (schema_of_batch b)
      ≡ some aligned)
    × (o ≡ some (mem_table (schema_of_batch b) aligned))

-- The batches that the online agents of a table serve.
abbrev pub batches_of : {A : Type 0} → ℤ → Db → (Pair → Chars → Fetched A) → Pair → List (Batch A)
batches_of now_ms s fetch p =
    (collect (fetch p) (targets_of now_ms s (list_table_agents p.0 p.1 s)).0).0

-- Each table of the query has such a provider.
abbrev pub AllBuffered :
    {A : Type 0}
    → (Chars → ℕ → A)
    → (Chars → Pair)
    → (Pair → List (Batch A))
    → List Pair
    → Pass A
    → Type 0
AllBuffered null_array resolve batches ps pass =
    All (λ p. Buffered null_array (batches p) (find_provider (resolve (qualified p)) pass.catalog))
      ps

module _ {A : Type 0} (resolve : Chars → Pair) where
  shadow-Buffered :
      (null_array : Chars → ℕ → A) (name : Chars) (pass : Pass A)
      → (shadow_empty_in_buffer resolve buffer_mode name pass).1 ≡ true
      → Buffered null_array [] (
          find_provider
            (resolve name)
            (shadow_empty_in_buffer resolve buffer_mode name pass).0.catalog)
  unfolding shadow_empty_in_buffer
  shadow-Buffered null_array name pass fine =
      elim (Option-cases (find_provider (resolve name) pass.catalog)) [
        | inl e ↦ rw (e, shadow_empty_in_buffer) (inl e)
        | inr (p, e) ↦
            let swapped = rw (e, shadow_empty_in_buffer) at fine in
            rw (e, shadow_empty_in_buffer)
              (inr (
                schema_of p,
                swap_provider_own resolve name (mem_table (schema_of p) []) pass.catalog swapped,
              ))
      ]

  installed :
      (name : Chars) (o : Option (Provider A)) (pass : Pass A)
      → (install resolve name o pass).1 ≡ true
      → find_provider (resolve name) (install resolve name o pass).0.catalog ≡ o
  installed name none pass fine = cc
  installed name (some p) pass fine = swap_provider_own resolve name p pass.catalog fine

  install_needs :
      (name : Chars) (o : Option (Provider A)) (pass : Pass A)
      → (install resolve name o pass).1 ≡ true
      → (p : Provider A) × (o ≡ some p)
  install_needs name none pass fine = cc
  install_needs name (some p) pass fine = (p, refl)

module _ {A : Type 0} (null_array : Chars → ℕ → A) where
  mem_table_lem :
      (schema : Schema) (bs : List (Batch A)) (p : Provider A)
      → new_mem_table schema bs ≡ some p
      → new_mem_table schema bs ≡ some (mem_table schema bs)
  unfolding new_mem_table
  mem_table_lem schema bs p e =
      elim (Bool-cases
        (is_empty (keep (λ (b : Batch A). not (eq_schema schema (schema_of_batch b))) bs))) [
          | inl h ↦ rw h refl
          | inr h ↦ let nothing : none ≡ some p = rw h at e in cc nothing
        ]

  buffer_provider :
      (o : Option (Provider A)) (b : Batch A) (bs : List (Batch A)) (p : Provider A)
      → new_provider null_array buffer_mode o b bs ≡ some p
      → Buffered null_array (b ∷ bs) (new_provider null_array buffer_mode o b bs)
  unfolding new_provider
  buffer_provider o b bs p e =
      elim (Option-cases (align_batches_to_schema null_array (b ∷ bs) (schema_of_batch b))) [
        | inl h ↦ let nothing : none ≡ some p = rw (h, new_provider) at e in cc nothing
        | inr (aligned, h) ↦
            let built = rw (h, new_provider) at e in
            (aligned, h, rw (h, new_provider) (mem_table_lem (schema_of_batch b) aligned p built))
      ]

module _ {A : Type 0} (null_array : Chars → ℕ → A) (resolve : Chars → Pair) (reads : Pair → Bool)
    (now_ms : ℤ) (s : Db) (fetch : Pair → Chars → Fetched A) where
  federate-Buffered :
      (name : Chars) (batches : List (Batch A)) (pass : Pass A)
      → (federate null_array resolve reads buffer_mode name batches pass).1 ≡ true
      → Buffered null_array batches (
          find_provider
            (resolve name)
            (federate null_array resolve reads buffer_mode name batches pass).0.catalog)
  unfolding federate
  federate-Buffered name [] pass fine = shadow-Buffered resolve null_array name pass fine
  federate-Buffered name (b ∷ bs) pass fine =
      let old = find_provider (resolve name) pass.catalog in
      let o = new_provider null_array buffer_mode old b bs in
      let (p, e) = install_needs resolve name o _ fine in
      subst (Buffered null_array (b ∷ bs)) (sym (installed resolve name o _ fine))
        (buffer_provider null_array old b bs p e)

  table-Buffered :
      (p : Pair) (pass : Pass A)
      → reads p ≡ true
      → (prepare_table null_array resolve reads buffer_mode now_ms s fetch p pass).1 ≡ true
      → Buffered null_array (batches_of now_ms s fetch p) (
          find_provider
            (resolve (qualified p))
            (prepare_table null_array resolve reads buffer_mode now_ms s fetch p pass).0.catalog)
  unfolding prepare_table
  table-Buffered p pass there fine =
      let fine' = rw there at fine in
      rw there (federate-Buffered (qualified p) (batches_of now_ms s fetch p) _ fine')

  others_kept :
      (name : Chars) (k : Pair) (before after : Pass A)
      → Touches resolve name before after
      → eq_pair (resolve name) k ≡ false
      → find_provider k after.catalog ≡ find_provider k before.catalog
  others_kept name k before after (inl (same, _)) apart = ap (find_provider k) same
  others_kept name k before after (inr (_, steps)) apart = steps.others k apart

  tables_keep :
      (mode : QueryMode) (k : Pair) (ps : List Pair) (pass : Pass A)
      → Apart k (entries resolve ps)
      → find_provider k
          (prepare_tables null_array resolve reads mode now_ms s fetch ps pass).0.catalog
        ≡ find_provider k pass.catalog
  unfolding prepare_tables
  tables_keep mode k [] pass apart = refl
  tables_keep mode k (p ∷ ps) pass apart =
      let step = prepare_table null_array resolve reads mode now_ms s fetch p pass in
      let kept =
        others_kept (qualified p) k pass step.0
          (prepare_table-Touches null_array resolve reads now_ms s fetch mode p pass)
          (apart_of k (resolve (qualified p)) apart.0) in
      elim (Bool-cases step.1) [
        | inl e ↦ rw e (tables_keep mode k ps step.0 apart.1 ∙ kept)
        | inr e ↦ rw e kept
      ]

  goes_on :
      (p : Pair) (ps : List Pair) (pass : Pass A)
      → (prepare_table null_array resolve reads buffer_mode now_ms s fetch p pass).1 ≡ true
      → prepare_tables null_array resolve reads buffer_mode now_ms s fetch (p ∷ ps) pass
        ≡ prepare_tables null_array resolve reads buffer_mode now_ms s fetch ps
            (prepare_table null_array resolve reads buffer_mode now_ms s fetch p pass).0
  unfolding prepare_tables
  goes_on p ps pass good = rw good refl

  stops :
      (p : Pair) (ps : List Pair) (pass : Pass A)
      → (prepare_table null_array resolve reads buffer_mode now_ms s fetch p pass).1 ≡ false
      → (prepare_tables null_array resolve reads buffer_mode now_ms s fetch (p ∷ ps) pass).1 ≡ false
  unfolding prepare_tables
  stops p ps pass bad = rw bad refl

  -- A buffer query does not bind to persisted rows. Take tables that are different to DataFusion and whose
  -- agents the store could read, prepared in buffer mode without an error. In the catalog that the query is
  -- planned against, a table for which the online agents served batches has a MemTable of exactly
  -- these, aligned to the schema of the first, and every other table an empty MemTable or no provider.
  pub prepare_tables-Buffered :
      (ps : List Pair) (pass : Pass A)
      → AllApart (entries resolve ps)
      → All (λ p. reads p ≡ true) ps
      → (prepare_tables null_array resolve reads buffer_mode now_ms s fetch ps pass).1 ≡ true
      → AllBuffered null_array resolve
          (batches_of now_ms s fetch)
          ps
          (prepare_tables null_array resolve reads buffer_mode now_ms s fetch ps pass).0
  prepare_tables-Buffered [] pass apart known e = tt
  prepare_tables-Buffered (p ∷ ps) pass apart known e =
      let step = prepare_table null_array resolve reads buffer_mode now_ms s fetch p pass in
      elim (Bool-cases step.1) [
        | inr bad ↦ let stop : false ≡ true = sym (stops p ps pass bad) ∙ e in cc stop
        | inl good ↦
            let ran = goes_on p ps pass good in
            subst
              (λ (r : Pass A × Bool).
                AllBuffered null_array resolve (batches_of now_ms s fetch) (p ∷ ps) r.0)
              (sym ran)
              (
                rw (tables_keep buffer_mode (resolve (qualified p)) ps step.0 apart.0)
                    (table-Buffered p pass known.0 good),
                prepare_tables-Buffered ps step.0 apart.1 known.1
                    (ap (λ (r : Pass A × Bool). r.1) (sym ran) ∙ e),
              )
      ]
