-- ===== src/Server/Metadata/Frame.antt =====
-- metadata_store.rs: what its statements leave alone.
use iedb.Base.{ℕ, ◌≡◌, refl, ◌∙◌, List, [], ◌∷◌, arith, Bool-cases, Option-cases, inl, inr}
use iedb.Base.Text.Codes.{Chars}
use iedb.Server.Db.{FieldRow, Db}
use iedb.Server.Metadata.{
  ensure_db, table_row, ensure_table, add_field, add_fields, add_tags, has_pair, knows_agent,
  merge_schema,
}

agents-ensure_db : (name : Chars) (s : Db) → (ensure_db name s).agents ≡ s.agents
unfolding ensure_db
agents-ensure_db name s = ground arith

agents-ensure_table : (db table : Chars) (s : Db) → (ensure_table db table s).agents ≡ s.agents
unfolding ensure_table
agents-ensure_table db table s = ground arith

agents-add_field : (f : FieldRow) (s : Db) → (add_field f s).agents ≡ s.agents
unfolding add_field
agents-add_field f s = ground arith

agents-add_fields :
    (id : ℕ) (defs : List (Chars × Chars)) (s : Db) → (add_fields id defs s).agents ≡ s.agents
unfolding add_fields
agents-add_fields id [] s = refl
agents-add_fields id ((name, value_type) ∷ defs) s =
    agents-add_fields id defs _ ∙ agents-add_field _ s

agents-add_tags : (id : ℕ) (keys : List Chars) (s : Db) → (add_tags id keys s).agents ≡ s.agents
unfolding add_tags
agents-add_tags id [] s = refl
agents-add_tags id (key ∷ keys) s = agents-add_tags id keys _ ∙ agents-add_field _ s

agents-add_both :
    (id : ℕ) (keys : List Chars) (defs : List (Chars × Chars)) (s : Db)
    → (add_tags id keys (add_fields id defs s)).agents ≡ s.agents
agents-add_both id keys defs s =
    agents-add_tags id keys (add_fields id defs s) ∙ agents-add_fields id defs s

-- The schema of a heartbeat changes no agent.
pub agents-merge_schema :
    (db table agent_id : Chars) (tag_keys : List Chars) (field_defs : List (Chars × Chars)) (s : Db)
    → (merge_schema db table agent_id tag_keys field_defs s).0.agents ≡ s.agents
unfolding merge_schema
agents-merge_schema db table agent_id tag_keys field_defs s =
    let s1 = ensure_table db table (ensure_db db s) in
    let kept = agents-ensure_table db table (ensure_db db s) ∙ agents-ensure_db db s in
    elim (Option-cases (table_row db table s1)) [
      | inl e ↦ rw (e, merge_schema) kept
      | inr (row, e) ↦
          let fields = agents-add_both row.id tag_keys field_defs in
          elim (Bool-cases (has_pair agent_id row.id s1.agent_tables)) [
            | inl h ↦ rw (e, merge_schema) (rw h (fields s1 ∙ kept))
            | inr h ↦ elim (Bool-cases (knows_agent agent_id s1)) [
              | inl k ↦ rw (e, merge_schema) (rw h (rw k (fields _ ∙ kept)))
              | inr k ↦ rw (e, merge_schema) (rw h (rw k kept))
            ]
          ]
    ]
