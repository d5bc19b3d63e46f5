-- ===== src/Server/Agents/Rows.antt =====
-- agent_store.rs: what each operation does to the agent it names, and to the others.
use iedb.Base.{
  ℕ, ◌≡◌, refl, ◌∙◌, ap, true, false, none, some, List, [], ◌∷◌, if◌then◌else◌, arith, ℤ, pos, ◌+ℤ◌,
  eq_bytes, eq_bytes→eq, keep, is_empty, Bool-cases, inl, inr,
}
use mathlib.Core.Bool.{not}
use mathlib.Core.Option
use iedb.Base.Text.Codes.{Chars}
use iedb.Server.Db.{AgentRecord, Db, as_i64, sql_max}
use iedb.Server.Agents.{find_agent, update_agents, get, heartbeat, update_config}

-- A change of the columns other than the id.
abbrev KeepsId : (AgentRecord → AgentRecord) → Type 0
KeepsId f = (a : AgentRecord) → (f a).id ≡ a.id

pub find_agent-update_agents :
    (id j : Chars) (f : AgentRecord → AgentRecord) (agents : List AgentRecord)
    → KeepsId f
    → find_agent j (update_agents id f agents)
      ≡ (if eq_bytes id j then Option.map f (find_agent j agents) else find_agent j agents)
unfolding find_agent update_agents
find_agent-update_agents id j f [] k = ground arith
find_agent-update_agents id j f (a ∷ agents) k = elim (Bool-cases (eq_bytes a.id id)) [
  | inl hit ↦
      let same = eq_bytes→eq a.id id hit in
      let ids : (f a).id ≡ id = k a ∙ same in
      ground (
        arith,
        hit,
        ap (λ x. eq_bytes x j) ids,
        ap (λ x. eq_bytes x j) same,
        find_agent-update_agents id j f agents k,
      )
  | inr miss ↦
      let rest = find_agent-update_agents id j f agents k in
      elim (Bool-cases (eq_bytes id j)) [
        | inl e ↦
            let there = eq_bytes→eq id j e in
            let away = ap (λ x. eq_bytes a.id x) there in ground (arith, miss, e, away, rest)
        | inr e ↦ ground (arith, miss, e, rest)
      ]
]

-- A row is found exactly if the UPDATE affects one.
pub affected_lem :
    (id : Chars) (agents : List AgentRecord) (a : AgentRecord)
    → find_agent id agents ≡ some a
    → not (is_empty (keep (λ (b : AgentRecord). eq_bytes b.id id) agents)) ≡ true
unfolding find_agent
affected_lem id [] a e = cc
affected_lem id (b ∷ agents) a e = ground (arith, affected_lem id agents a)

pub unaffected_lem :
    (id : Chars) (agents : List AgentRecord)
    → find_agent id agents ≡ none
    → not (is_empty (keep (λ (b : AgentRecord). eq_bytes b.id id) agents)) ≡ false
unfolding find_agent
unaffected_lem id [] e = refl
unaffected_lem id (b ∷ agents) e = ground (arith, unaffected_lem id agents)

-- A heartbeat of a registered agent reports it as seen, and raises its configuration version to the
-- one that it reports, never lowers it; every other agent is as it was.
abbrev pub seen_at : ℤ → ℕ → AgentRecord → AgentRecord
seen_at now_ms config_version a = record a {
  last_seen_at = some now_ms;
  config_version = sql_max a.config_version (as_i64 config_version);
}

pub get-heartbeat :
    (now_ms : ℤ) (id j : Chars) (v : ℕ) (s : Db)
    → get j (heartbeat now_ms id v s).0
      ≡ (if eq_bytes id j then Option.map (seen_at now_ms v) (get j s) else get j s)
unfolding heartbeat get
get-heartbeat now_ms id j v s =
    find_agent-update_agents id j (seen_at now_ms v) s.agents (λ a. refl)

abbrev pub configured : Chars → AgentRecord → AgentRecord
configured config_json a = record a {
  config_json = some config_json;
  target_config_version = a.target_config_version +ℤ pos 1;
}

pub get-update_config :
    (id j : Chars) (config_json : Chars) (s : Db)
    → get j (update_config id config_json s).0
      ≡ (if eq_bytes id j then Option.map (configured config_json) (get j s) else get j s)
unfolding update_config get
get-update_config id j config_json s =
    find_agent-update_agents id j (configured config_json) s.agents (λ a. refl)
