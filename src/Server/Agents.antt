-- ===== src/Server/Agents.antt =====
-- src/server/agent_store.rs: registration, heartbeats and configuration versions of the agents.
pub mod Rows
use iedb.Base.{
  ℕ, ◌+◌, Bool, true, false, ◌||◌, Option, none, some, List, [], ◌∷◌, if◌then◌else◌, ltb, ℤ, pos,
  ◌+ℤ◌, eq_bytes, find, keep, is_empty,
}
use mathlib.Core.Bool.{not}
use iedb.Base.Text.Codes.{Chars}
use iedb.Server.Db.{AgentRecord, Db, as_i64, to_u64, sql_max}

-- `SELECT … FROM agents WHERE id=?1`; without a row, the error that the callers see.
unfoldable pub find_agent : Chars → List AgentRecord → Option AgentRecord
find_agent id agents = find (λ a. eq_bytes a.id id) agents

-- `UPDATE agents SET … WHERE id=?1`
unfoldable pub update_agents :
    Chars → (AgentRecord → AgentRecord) → List AgentRecord → List AgentRecord
update_agents id f [] = []
update_agents id f (a ∷ agents) = (if eq_bytes a.id id then f a else a) ∷ update_agents id f agents

-- `INSERT INTO agents … ON CONFLICT(id) DO UPDATE SET …`
unfoldable pub upsert :
    AgentRecord → (AgentRecord → AgentRecord) → List AgentRecord → List AgentRecord
upsert fresh f [] = fresh ∷ []
upsert fresh f (a ∷ agents) =
    if eq_bytes a.id fresh.id then f a ∷ agents else a ∷ upsert fresh f agents

unfoldable pub get : Chars → Db → Option AgentRecord
get id db = find_agent id db.agents

-- The columns that the INSERT leaves out take the defaults of the schema.
abbrev pub inserted : ℤ → Chars → Chars → Chars → Chars → Chars → AgentRecord
inserted now_ms id hostname arch version listen_addr = record {
  id = id;
  hostname = hostname;
  arch = some arch;
  version = some version;
  config_json = none;
  config_version = pos 1;
  target_config_version = pos 1;
  registered_at = now_ms;
  last_seen_at = some now_ms;
  listen_addr = some listen_addr;
}

unfoldable pub register : ℤ → Chars → Chars → Chars → Chars → Chars → Db → Db × Option AgentRecord
register now_ms id hostname arch version listen_addr db =
    let fresh = inserted now_ms id hostname arch version listen_addr in
    let again = λ (a : AgentRecord). record a {
      hostname = fresh.hostname;
      arch = fresh.arch;
      version = fresh.version;
      registered_at = fresh.registered_at;
      last_seen_at = fresh.last_seen_at;
      listen_addr = fresh.listen_addr;
    } in
    let db' : Db = record db { agents = upsert fresh again db.agents } in (db', get id db')

-- True if the statement has found a row.
unfoldable pub heartbeat : ℤ → Chars → ℕ → Db → Db × Bool
heartbeat now_ms id config_version db =
    let seen = λ (a : AgentRecord). record a {
      last_seen_at = some now_ms;
      config_version = sql_max a.config_version (as_i64 config_version);
    } in
    let affected = keep (λ (a : AgentRecord). eq_bytes a.id id) db.agents in
    (record db { agents = update_agents id seen db.agents }, not (is_empty affected))

unfoldable pub list : Db → List AgentRecord
list db = db.agents

unfoldable pub update_config : Chars → Chars → Db → Db × Option ℕ
update_config id config_json db =
    let change = λ (a : AgentRecord). record a {
      config_json = some config_json;
      target_config_version = a.target_config_version +ℤ pos 1;
    } in
    let db' : Db = record db { agents = update_agents id change db.agents } in
    (db', elim (get id db') [ none ↦ none | some a ↦ some (to_u64 a.target_config_version) ])

unfoldable pub delete : Chars → Db → Db
delete id db = record db {
  agent_tables = keep (λ p. not (eq_bytes p.0 id)) db.agent_tables;
  agents = keep (λ (a : AgentRecord). not (eq_bytes a.id id)) db.agents;
}

unfoldable pub should_update_config : Chars → ℕ → Db → Option Bool
should_update_config id current_client_version db = elim (get id db) [
  | none ↦ none
  | some a ↦ some (ltb current_client_version (to_u64 a.target_config_version))
]
