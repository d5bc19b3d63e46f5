-- ===== src/Server/AgentApi/Rounds.antt =====
-- src/main.rs, the heartbeat task: the schema changes that its rounds carry.
use iedb.Base.{ℕ, option_get_or, ◌≡◌, refl, sym, Option, none, List, [], ◌∷◌, All}
use mathlib.Core.Path.{subst}
use iedb.Buffer.{Buffer}
use iedb.Server.AgentApi.Changes.{
  SchemaChange, LastState, KeysApart, all_tables, compute_schema_changes,
  compute_schema_changes_once,
}

-- What the heartbeat task of src/main.rs keeps between two rounds.
pub record Task : Type 0 where
  pub config_version : ℕ
  pub last_schema : LastState

-- A round: the changes that its heartbeat carries, and the task after it. `answer` is the version that the
-- answer leaves, and `none` a heartbeat that failed, which the task only logs.
unfoldable pub heartbeat_round : Buffer → Option ℕ → Task → Task × List SchemaChange
heartbeat_round buffer answer task =
    let (changes, last) = compute_schema_changes buffer task.last_schema in
    (
      record { config_version = option_get_or task.config_version answer; last_schema = last },
      changes,
    )

-- What the heartbeats of rounds on one buffer carry.
unfoldable pub carried : Buffer → List (Option ℕ) → Task → List (List SchemaChange)
carried buffer [] task = []
carried buffer (answer ∷ answers) task =
    let (task', changes) = heartbeat_round buffer answer task in
    changes ∷ carried buffer answers task'

idle_round :
    (buffer : Buffer) (answer : Option ℕ) (task : Task)
    → compute_schema_changes buffer task.last_schema ≡ ([], task.last_schema)
    → heartbeat_round buffer answer task
      ≡ (record task { config_version = option_get_or task.config_version answer }, [])
unfolding heartbeat_round
idle_round buffer answer task e = rw e refl

idle_rounds :
    (buffer : Buffer) (answers : List (Option ℕ)) (task : Task)
    → compute_schema_changes buffer task.last_schema ≡ ([], task.last_schema)
    → All (λ changes. changes ≡ []) (carried buffer answers task)
unfolding carried
idle_rounds buffer [] task e = tt
idle_rounds buffer (answer ∷ answers) task e =
    let still : Task = record task { config_version = option_get_or task.config_version answer } in
    subst
      (λ (r : Task × List SchemaChange).
        All (λ changes. changes ≡ []) (r.1 ∷ carried buffer answers r.0))
      (sym (idle_round buffer answer task e)) (refl, idle_rounds buffer answers still e)

-- A code bug: the changes of a failed heartbeat are lost. Take a buffer whose tables have different keys,
-- and a round on it whose heartbeat fails. It has carried what differs from the last state, the version
-- stays, and no heartbeat of the rounds that follow on the same buffer carries anything, whether they
-- fail or not.
pub failed_heartbeat_lem :
    (buffer : Buffer) (answers : List (Option ℕ)) (task : Task)
    → KeysApart (all_tables buffer.databases)
    → ((heartbeat_round buffer none task).1 ≡ (compute_schema_changes buffer task.last_schema).0)
      × ((heartbeat_round buffer none task).0.config_version ≡ task.config_version)
      × All (λ changes. changes ≡ []) (carried buffer answers (heartbeat_round buffer none task).0)
unfolding heartbeat_round
failed_heartbeat_lem buffer answers task apart = (
  refl,
  refl,
  idle_rounds buffer answers _ (compute_schema_changes_once buffer task.last_schema apart),
)
