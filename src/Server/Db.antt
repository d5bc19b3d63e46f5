-- ===== src/Server/Db.antt =====
-- src/server/db.rs: the tables of the server's SQLite database, a list of rows for each. A column
-- that may be NULL is an option. The statements of the stores are functions on these rows; SQLite
-- itself does not fail here, but for the constraints that the schema declares.
use iedb.Base.{
  ℕ, Bool, false, ◌||◌, Option, List, [], ◌∷◌, if◌then◌else◌, ℤ, pos, negsuc, ltb, ◌-◌, eq_bytes,
  ltb_ℤ,
}
use iedb.Base.Text.Codes.{Chars}

-- `agents`; also AgentRecord of agent_store.rs.
pub record AgentRecord : Type 0 where
  pub id : Chars
  pub hostname : Chars
  pub arch : Option Chars
  pub version : Option Chars
  pub config_json : Option Chars
  pub config_version : ℤ
  pub target_config_version : ℤ
  pub registered_at : ℤ
  pub last_seen_at : Option ℤ
  pub listen_addr : Option Chars

-- `tables`
pub record TableRow : Type 0 where
  pub id : ℕ
  pub db_name : Chars
  pub table_name : Chars
  pub time_min : Option ℤ
  pub time_max : Option ℤ
  pub total_rows : ℕ
  pub updated_at : Option ℤ

-- `fields`
pub record FieldRow : Type 0 where
  pub table_id : ℕ
  pub name : Chars
  pub value_type : Chars
  pub is_tag : Bool

-- `next_table` is the id that AUTOINCREMENT gives next.
pub record Db : Type 0 where
  pub agents : List AgentRecord
  pub databases : List Chars
  pub tables : List TableRow
  pub next_table : ℕ
  pub fields : List FieldRow
  pub agent_tables : List (Chars × ℕ)
  pub compaction_tombstones : List (Chars × ℤ)

abbrev pub new_db : Db
new_db = record {
  agents = [];
  databases = [];
  tables = [];
  next_table = 1;
  fields = [];
  agent_tables = [];
  compaction_tombstones = [];
}

-- `v as i64` of a u64, and `v as u64` of an i64.
abbrev pub as_i64 : ℕ → ℤ
as_i64 n = if ltb n 0x8000_0000_0000_0000 then pos n else negsuc (0xffff_ffff_ffff_ffff - n)

abbrev pub to_u64 : ℤ → ℕ
to_u64 (pos n) = n
to_u64 (negsuc n) = 0xffff_ffff_ffff_ffff - n

-- SQL's MAX and MIN of two integers.
abbrev pub sql_max : ℤ → ℤ → ℤ
sql_max x y = if ltb_ℤ x y then y else x

abbrev pub sql_min : ℤ → ℤ → ℤ
sql_min x y = if ltb_ℤ y x then y else x

-- A text is among the keys of a column.
unfoldable pub has_text : Chars → List Chars → Bool
has_text s [] = false
has_text s (t ∷ ts) = eq_bytes t s || has_text s ts
