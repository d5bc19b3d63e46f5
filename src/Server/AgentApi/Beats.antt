-- ===== src/Server/AgentApi/Beats.antt =====
-- src/main.rs, the heartbeat task, with `handle_heartbeat` at the other end: how a configuration that
-- an operator stores on the server reaches the agent.
use iedb.Base.{
  Bool, false, ℕ, suc, ◌+◌, ◌≤◌, ◌<◌, ◌≡◌, refl, ◌∙◌, ap, ◌&&◌, true, Option, none, some, List, [],
  ◌∷◌, if◌then◌else◌, arith, length, ltb, lt→ltb, le→ltb-false, ℤ, pos, eq_bytes_refl, wrapping_add,
  option_get_or, is_empty, Bool-cases, inl, inr,
}
use mathlib.Core.Bool.{not}
use iedb.Base.Text.Codes.{Chars}
use iedb.Server.Db.{AgentRecord, Db}
use iedb.Server.Agents.{get, heartbeat, should_update_config}
use iedb.Server.Agents.Rows.{seen_at, get-heartbeat, affected_lem}
use iedb.Server.Metadata.Frame.{agents-merge_schema}
use iedb.Server.AgentApi.{
  SchemaEntry, HeartbeatBody, Reply, config_update, merge_entry, merge_entries, pending_config,
  handle_heartbeat,
}

agents-merge_entry :
    (id : Chars) (entry : SchemaEntry) (s : Db) → (merge_entry id entry s).agents ≡ s.agents
unfolding merge_entry
agents-merge_entry id entry s =
    elim (Bool-cases (
      not (is_empty (option_get_or [] entry.db))
      && not (is_empty (option_get_or [] entry.table)))) [
        | inl e ↦ rw (e, merge_entry) (agents-merge_schema _ _ id entry.tag_keys entry.field_defs s)
        | inr e ↦ rw (e, merge_entry) refl
      ]

agents-merge_entries :
    (id : Chars) (entries : List SchemaEntry) (s : Db)
    → (merge_entries id entries s).agents ≡ s.agents
unfolding merge_entries
agents-merge_entries id [] s = refl
agents-merge_entries id (entry ∷ entries) s =
    agents-merge_entries id entries (merge_entry id entry s) ∙ agents-merge_entry id entry s

-- `version_of` is `update.get("version").and_then(|v| v.as_u64())`. `is_null` tells the JSON null: it stands
-- for the absent update in the answer, and the `Option` of the client reads it as `None`.
module _ {V : Type 0} (from_str : Chars → Option V) (null : V) (is_null : V → Bool)
    (version_of : V → Option ℕ) where
  -- What the agent makes of the answer; a failed heartbeat changes nothing.
  unfoldable pub next_version : Reply V → ℕ → ℕ
  next_version (config_update (some update)) config_version =
      if is_null update
      then config_version
      else option_get_or (wrapping_add config_version 1) (version_of update)
  next_version _ config_version = config_version

  abbrev pub body_of : Chars → ℕ → List SchemaEntry → HeartbeatBody
  body_of id config_version changes = record {
    id = some id;
    config_version = some config_version;
    schema_changes = changes;
  }

  -- Rounds of the task: the clock and the schema changes of each, the agent's version and the server.
  unfoldable pub beats : Chars → List (ℤ × List SchemaEntry) → ℕ × Db → ℕ × Db
  beats id [] (config_version, s) = (config_version, s)
  beats id ((now_ms, changes) ∷ rounds) (config_version, s) =
      let (s', reply) =
        handle_heartbeat from_str null true now_ms (body_of id config_version changes) s in
      beats id rounds (next_version reply config_version, s')

  -- The agent is registered, and its stored configuration with the target version is this.
  pub record Stored (id c : Chars) (t : ℕ) (s : Db) : Type 0 where
    pub agent : AgentRecord
    pub found : get id s ≡ some agent
    pub config : agent.config_json ≡ some c
    pub target : agent.target_config_version ≡ pos t

  get_of_agents : (id : Chars) (s s' : Db) → s'.agents ≡ s.agents → get id s' ≡ get id s
  unfolding get
  get_of_agents id s s' e = rw e refl

  module _ (id c : Chars) (t : ℕ) where
    Stored-heartbeat :
        (now_ms : ℤ) (v : ℕ) (s : Db) → Stored id c t s → Stored id c t (heartbeat now_ms id v s).0
    Stored-heartbeat now_ms v s h = record {
      agent = seen_at now_ms v h.agent;
      found = get-heartbeat now_ms id id v s ∙ rw (eq_bytes_refl id) (rw h.found refl);
      config = h.config;
      target = h.target;
    }

    Stored-merge :
        (entries : List SchemaEntry) (s : Db)
        → Stored id c t s
        → Stored id c t (merge_entries id entries s)
    Stored-merge entries s h = record {
      agent = h.agent;
      found =
          get_of_agents id s (merge_entries id entries s) (agents-merge_entries id entries s)
          ∙ h.found;
      config = h.config;
      target = h.target;
    }

    known_agent :
        (now_ms : ℤ) (v : ℕ) (s : Db) → Stored id c t s → (heartbeat now_ms id v s).1 ≡ true
    unfolding heartbeat get
    known_agent now_ms v s h = affected_lem id s.agents h.agent h.found

    pending_lem :
        (v : ℕ) (u : V) (s : Db)
        → Stored id c t s
        → from_str c ≡ some u
        → pending_config from_str null id v s ≡ (if ltb v t then some u else none)
    unfolding pending_config should_update_config
    pending_lem v u s h parsed =
        rw (h.found, should_update_config)
          (rw h.target
            (elim (Bool-cases (ltb v t)) [ inl e ↦ rw e (rw h.config parsed) | inr e ↦ rw e refl ]))

    beat_Stored :
        (now_ms : ℤ) (changes : List SchemaEntry) (v : ℕ) (s : Db)
        → Stored id c t s
        → Stored id c t (handle_heartbeat from_str null true now_ms (body_of id v changes) s).0
    unfolding handle_heartbeat
    beat_Stored now_ms changes v s h =
        rw (known_agent now_ms v s h)
          (Stored-merge changes (heartbeat now_ms id v s).0 (Stored-heartbeat now_ms v s h))

    -- Take an agent that is registered under `id`, with a stored configuration `c` that parses, and a
    -- heartbeat that reports the version `v`, with any schema changes. It is answered with the
    -- configuration if `v` is below the target version, and with none if it is not.
    pub heartbeat_answer :
        (now_ms : ℤ) (changes : List SchemaEntry) (v : ℕ) (u : V) (s : Db)
        → Stored id c t s
        → from_str c ≡ some u
        → (handle_heartbeat from_str null true now_ms (body_of id v changes) s).1
          ≡ config_update (if ltb v t then some u else none)
    unfolding handle_heartbeat
    heartbeat_answer now_ms changes v u s h parsed = rw (known_agent now_ms v s h) (
        ap config_update (
          pending_lem v u (merge_entries id changes (heartbeat now_ms id v s).0)
            (Stored-merge changes (heartbeat now_ms id v s).0 (Stored-heartbeat now_ms v s h))
            parsed))

    step_version :
        (now_ms : ℤ) (changes : List SchemaEntry) (v : ℕ) (u : V) (s : Db)
        → Stored id c t s
        → from_str c ≡ some u
        → is_null u ≡ false
        → version_of u ≡ none
        → v < t
        → t ≤ 0x7fff_ffff_ffff_ffff
        → next_version (handle_heartbeat from_str null true now_ms (body_of id v changes) s).1 v
          ≡ suc v
    step_version now_ms changes v u s h parsed real bare below small =
        ap (λ r. next_version r v) (heartbeat_answer now_ms changes v u s h parsed)
        ∙ rw (lt→ltb v t below) (unfold next_version in rw real (rw bare (omega arith)))

    -- The liveness of a configuration. Take an agent that is registered under `id`, with a stored
    -- configuration that parses, is not the JSON null and names no version itself, and a target version `t` of an i64 that is
    -- `length rounds` above the agent's. After these heartbeats, at whatever times and with whatever
    -- schema changes, the agent has reached the target version, and the server has nothing more for it.
    pub config_reaches_agent :
        (rounds : List (ℤ × List SchemaEntry)) (v : ℕ) (u : V) (s : Db)
        → Stored id c t s
        → from_str c ≡ some u
        → is_null u ≡ false
        → version_of u ≡ none
        → t ≤ 0x7fff_ffff_ffff_ffff
        → v + length rounds ≡ t
        → ((beats id rounds (v, s)).0 ≡ t)
          × (pending_config from_str null id t (beats id rounds (v, s)).1 ≡ none)
    unfolding beats
    config_reaches_agent [] v u s h parsed real bare small sum =
        (omega (arith, sum), pending_lem t u s h parsed ∙ rw (le→ltb-false t t (omega arith)) refl)
    config_reaches_agent ((now_ms, changes) ∷ rounds) v u s h parsed real bare small sum =
        let s' = (handle_heartbeat from_str null true now_ms (body_of id v changes) s).0 in
        let stepped =
          step_version now_ms changes v u s h parsed real bare (omega (arith, sum)) small in
        rw (stepped, beats)
          (config_reaches_agent rounds (suc v) u s' (beat_Stored now_ms changes v s h) parsed real
            bare small (omega (arith, sum)))
