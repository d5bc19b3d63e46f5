-- ===== src/Server/AgentApi.antt =====
-- src/server/agent_api.rs: the endpoints of the agents. serde_json is a parameter: a request carries what
-- its accessors find in the body, and `from_str` reads a stored configuration.
pub mod Beats
pub mod Changes
pub mod Rounds
use iedb.Base.{
  ℕ, ◌-◌, Bool, true, false, ◌&&◌, Option, none, some, List, [], ◌∷◌, ◌++◌, map, if◌then◌else◌, leb,
  ltb, ℤ, pos, ◌-ℤ◌, ltb_ℤ, eq_bytes, length, take, drop, is_empty, option_get_or,
}
use mathlib.Core.Bool.{not}
use iedb.Base.Text.{strip_suffix}
use iedb.Base.Text.Codes.{Chars, codes, starts_with}
use iedb.Server.Db.{AgentRecord, Db}
use iedb.Server.Agents.{register, heartbeat, get, list, update_config, delete, should_update_config}
use iedb.Server.Metadata.{merge_schema}

pub data Method : Type 0 where
  get_method post put delete_method other_method : Method

pub record RegisterBody : Type 0 where
  pub id : Option Chars
  pub hostname : Option Chars
  pub arch : Option Chars
  pub version : Option Chars
  pub listen_addr : Option Chars

-- An entry of `schema_changes`: of an array, the elements that have the expected form.
pub record SchemaEntry : Type 0 where
  pub db : Option Chars
  pub table : Option Chars
  pub tag_keys : List Chars
  pub field_defs : List (Chars × Chars)

pub record HeartbeatBody : Type 0 where
  pub id : Option Chars
  pub config_version : Option ℕ
  pub schema_changes : List SchemaEntry

pub record AgentView : Type 0 where
  pub id : Chars
  pub hostname : Chars
  pub status : Chars
  pub last_seen : Option ℤ
  pub config_version : ℤ
  pub target_config_version : ℤ
  pub listen_addr : Option Chars

-- The answers, by what they carry; `V` is a JSON value.
pub data Reply (V : Type 0) : Type 0 where
  bad_request : Reply V
  not_found : Reply V
  registered : Chars → V → ℤ → Reply V
  config_update : Option V → Reply V
  agent_list : List AgentView → Reply V
  agent_record : AgentRecord → Reply V
  target_version : ℕ → Reply V
  deleted : Reply V
  internal : Reply V

-- One change of a heartbeat, into the metadata; an error is logged.
unfoldable pub merge_entry : Chars → SchemaEntry → Db → Db
merge_entry id entry s =
    let db = option_get_or [] entry.db in
    let table = option_get_or [] entry.table in
    if not (is_empty db) && not (is_empty table)
    then (merge_schema db table id entry.tag_keys entry.field_defs s).0
    else s

unfoldable pub merge_entries : Chars → List SchemaEntry → Db → Db
merge_entries id [] s = s
merge_entries id (entry ∷ entries) s = merge_entries id entries (merge_entry id entry s)

unfoldable pub status_of : ℤ → Option ℤ → Chars
status_of now_ms none = codes "unknown"
status_of now_ms (some ts) =
    if ltb_ℤ (pos 30000) (now_ms -ℤ ts) then codes "offline" else codes "online"

abbrev pub view_of : ℤ → AgentRecord → AgentView
view_of now_ms a = record {
  id = a.id;
  hostname = a.hostname;
  status = status_of now_ms a.last_seen_at;
  last_seen = a.last_seen_at;
  config_version = a.config_version;
  target_config_version = a.target_config_version;
  listen_addr = a.listen_addr;
}

abbrev pub agents_prefix : Chars
agents_prefix = codes "/api/v1/agents/"

abbrev pub config_suffix : Chars
config_suffix = codes "/config"

abbrev pub ends_with_config : Chars → Bool
ends_with_config path = elim (strip_suffix config_suffix path) [ none ↦ false | some _ ↦ true ]

-- `&p[from..to]` of a path of one-byte characters: `none` is the panic of a range that is reversed.
abbrev pub slice : ℕ → ℕ → Chars → Option Chars
slice from to s = if leb from to then some (drop from (take to s)) else none

-- What the body of a request is to the handler that reads it.
pub record Bodies : Type 0 where
  pub register_body : RegisterBody
  pub heartbeat_body : HeartbeatBody
  pub raw : Chars

-- `now_ms` is the clock of the request; `metadata` says whether the handler has a metadata store.
module _ {V : Type 0} (from_str : Chars → Option V) (null : V) where
  unfoldable pub handle_register : ℤ → RegisterBody → Db → Db × Reply V
  handle_register now_ms body s =
      let id = option_get_or [] body.id in
      if is_empty id
      then (s, bad_request)
      else (let (s', found) =
            register now_ms id (option_get_or (codes "unknown") body.hostname)
              (option_get_or (codes "unknown") body.arch)
              (option_get_or (codes "0.1.0") body.version)
              (option_get_or (codes "unknown") body.listen_addr) s in
          (
            s',
            elim found [
              | none ↦ internal
              | some a ↦
                  registered a.id
                    (elim a.config_json [ none ↦ null | some c ↦ option_get_or null (from_str c) ])
                    a.config_version
            ],
          ))

  -- The configuration that a heartbeat brings, if the agent's is older than the target.
  unfoldable pub pending_config : Chars → ℕ → Db → Option V
  pending_config id config_version s =
      if option_get_or false (should_update_config id config_version s)
      then elim (get id s) [
        | none ↦ none
        | some a ↦ elim a.config_json [ none ↦ none | some c ↦ from_str c ]
      ]
      else none

  unfoldable pub handle_heartbeat : Bool → ℤ → HeartbeatBody → Db → Db × Reply V
  handle_heartbeat metadata now_ms body s =
      let id = option_get_or [] body.id in
      let config_version = option_get_or 0 body.config_version in
      let (s1, known) = heartbeat now_ms id config_version s in
      if known
      then (let s2 = if metadata then merge_entries id body.schema_changes s1 else s1 in
          (s2, config_update (pending_config id config_version s2)))
      else (s1, not_found)

  unfoldable pub handle_list : ℤ → Db → Reply V
  handle_list now_ms s = agent_list (map (view_of now_ms) (list s))

  unfoldable pub handle_get : Chars → Db → Reply V
  handle_get id s = elim (get id s) [ none ↦ not_found | some a ↦ agent_record a ]

  unfoldable pub handle_update_config : Chars → Chars → Db → Db × Reply V
  handle_update_config id raw s =
      let (s', version) = update_config id raw s in
      (s', elim version [ none ↦ not_found | some v ↦ target_version v ])

  unfoldable pub handle_delete : Chars → Db → Db × Reply V
  handle_delete id s = (delete id s, deleted)

  -- `handle`: the routes, in the order of the match; `none` is a panic.
  unfoldable pub route : Bool → ℤ → Method → Chars → Bodies → Db → Option (Db × Reply V)
  route metadata now_ms post path bodies s =
      if eq_bytes path (codes "/api/v1/agents/register")
      then some (handle_register now_ms bodies.register_body s)
      else if eq_bytes path (codes "/api/v1/agents/heartbeat")
      then some (handle_heartbeat metadata now_ms bodies.heartbeat_body s)
      else some (s, not_found)
  route metadata now_ms get_method path bodies s =
      if eq_bytes path (codes "/api/v1/agents")
      then some (s, handle_list now_ms s)
      else if starts_with agents_prefix path
      then some (s, handle_get (drop (length agents_prefix) path) s)
      else some (s, not_found)
  route metadata now_ms put path bodies s =
      if starts_with agents_prefix path && ends_with_config path
      then elim (slice (length agents_prefix) (length path - length config_suffix) path) [
        | none ↦ none
        | some id ↦ some (handle_update_config id bodies.raw s)
      ]
      else some (s, not_found)
  route metadata now_ms delete_method path bodies s =
      if starts_with agents_prefix path
      then some (handle_delete (drop (length agents_prefix) path) s)
      else some (s, not_found)
  route metadata now_ms other_method path bodies s = some (s, not_found)
