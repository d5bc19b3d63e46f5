-- ===== src/Server/AgentApi/Changes.antt =====
-- src/agent/mod.rs, `compute_schema_changes`: which schemas a heartbeat reports.
use iedb.Base.{
  ◌≡◌, refl, sym, ◌∙◌, String, Bool, true, false, ◌&&◌, Option, none, some, List, [], ◌∷◌, ◌++◌,
  map, if◌then◌else◌, All, str_eq, eq_bytes, eq_bytes_refl, Bool-cases, inl, inr,
}
use mathlib.Core.Bool.{not}
use mathlib.Core.Path.{subst}
use text.Mathlib.TextPositions.{eq_refl}
use iedb.Base.Assoc.{Assoc}
use iedb.Base.Text.Codes.{Chars, codes}
use iedb.Chunk.{FieldType, FieldDef}
use iedb.Table.{Table}
use iedb.Buffer.{Buffer}

-- `format!("{:?}", f.value_type)`
abbrev pub type_name : FieldType → String
type_name FieldType.i64 = "I64"
type_name FieldType.f64 = "F64"
type_name FieldType.u64 = "U64"
type_name FieldType.bool = "Bool"
type_name FieldType.string = "String"

-- The tag keys of a table, and its fields with their types.
abbrev pub Reported : Type 0
Reported = List String × List (String × String)

abbrev pub reported : Table → Reported
reported t = (
  t.schema.tag_keys,
  map (λ (f : FieldDef). (f.name, type_name f.value_type)) t.schema.field_defs,
)

unfoldable pub eq_strings : List String → List String → Bool
eq_strings [] [] = true
eq_strings [] (y ∷ ys) = false
eq_strings (x ∷ xs) [] = false
eq_strings (x ∷ xs) (y ∷ ys) = str_eq x y && eq_strings xs ys

unfoldable pub eq_defs : List (String × String) → List (String × String) → Bool
eq_defs [] [] = true
eq_defs [] (y ∷ ys) = false
eq_defs (x ∷ xs) [] = false
eq_defs (x ∷ xs) (y ∷ ys) = (str_eq x.0 y.0 && str_eq x.1 y.1) && eq_defs xs ys

abbrev pub eq_reported : Reported → Reported → Bool
eq_reported a b = eq_strings a.0 b.0 && eq_defs a.1 b.1

pub record SchemaChange : Type 0 where
  pub db : String
  pub table : String
  pub tag_keys : List String
  pub field_defs : List (String × String)

abbrev pub LastState : Type 0
LastState = List (Chars × Reported)

unfoldable pub last_of : Chars → LastState → Option Reported
last_of key [] = none
last_of key ((k, r) ∷ last) = if eq_bytes k key then some r else last_of key last

-- `format!("{}.{}", db_name, table_name)`
unfoldable pub state_key : String → String → Chars
state_key db table = codes db ++ (b'.' ∷ codes table)

abbrev pub NamedTable : Type 0
NamedTable = String × String × Table

abbrev pub key_of : NamedTable → Chars
key_of x = state_key x.0 x.1

unfoldable pub has_changed : NamedTable → LastState → Bool
has_changed x last = elim (last_of (key_of x) last) [
  | none ↦ true
  | some prev ↦ not (eq_reported prev (reported x.2))
]

unfoldable pub changes_of : List NamedTable → LastState → List SchemaChange × LastState
changes_of [] last = ([], last)
changes_of (x ∷ tables) last =
    let current = reported x.2 in
    if has_changed x last
    then (let (changes, last') = changes_of tables ((key_of x, current) ∷ last) in
        (
          record { db = x.0; table = x.1; tag_keys = current.0; field_defs = current.1 } ∷ changes,
          last',
        ))
    else changes_of tables last

unfoldable pub tables_of : String → Assoc Table → List NamedTable
tables_of db [] = []
tables_of db ((name, t) ∷ tables) = (db, name, t) ∷ tables_of db tables

unfoldable pub all_tables : Assoc (Assoc Table) → List NamedTable
all_tables [] = []
all_tables ((db, tables) ∷ databases) = tables_of db tables ++ all_tables databases

unfoldable pub compute_schema_changes : Buffer → LastState → List SchemaChange × LastState
compute_schema_changes buffer last = changes_of (all_tables buffer.databases) last

eq_strings_refl : (xs : List String) → eq_strings xs xs ≡ true
unfolding eq_strings
eq_strings_refl [] = refl
eq_strings_refl (x ∷ xs) = rw (eq_refl x) (eq_strings_refl xs)

eq_defs_refl : (xs : List (String × String)) → eq_defs xs xs ≡ true
unfolding eq_defs
eq_defs_refl [] = refl
eq_defs_refl (x ∷ xs) = rw (eq_refl x.0) (rw (eq_refl x.1) (eq_defs_refl xs))

-- The table stands in the state as it is.
abbrev Known : LastState → NamedTable → Type 0
Known last x = has_changed x last ≡ false

last_of_self :
    (key : Chars) (r : Reported) (last : LastState) → last_of key ((key, r) ∷ last) ≡ some r
unfolding last_of
last_of_self key r last = rw (eq_bytes_refl key) refl

last_of-other :
    (key other : Chars) (r : Reported) (last : LastState)
    → eq_bytes other key ≡ false
    → last_of key ((other, r) ∷ last) ≡ last_of key last
unfolding last_of
last_of-other key other r last e = rw e refl

has_changed_self :
    (x : NamedTable) (last : LastState) → has_changed x ((key_of x, reported x.2) ∷ last) ≡ false
unfolding has_changed
has_changed_self x last =
    rw (last_of_self (key_of x) (reported x.2) last, has_changed)
      (rw (eq_strings_refl (reported x.2).0) (rw (eq_defs_refl (reported x.2).1) refl))

has_changed-other :
    (x y : NamedTable) (r : Reported) (last : LastState)
    → eq_bytes (key_of x) (key_of y) ≡ false
    → has_changed y ((key_of x, r) ∷ last) ≡ has_changed y last
unfolding has_changed
has_changed-other x y r last e = rw (last_of-other (key_of y) (key_of x) r last e, has_changed) refl

-- The keys of the tables differ.
abbrev pub KeysApart : List NamedTable → Type 0
KeysApart [] = Unit {0}
KeysApart (x ∷ xs) = All (λ y. eq_bytes (key_of y) (key_of x) ≡ false) xs × KeysApart xs

stays_known :
    (x : NamedTable) (tables : List NamedTable) (last : LastState)
    → All (λ y. eq_bytes (key_of y) (key_of x) ≡ false) tables
    → has_changed x (changes_of tables last).1 ≡ has_changed x last
unfolding changes_of
stays_known x [] last apart = refl
stays_known x (y ∷ tables) last apart = elim (Bool-cases (has_changed y last)) [
  | inl e ↦ rw e (
      stays_known x tables ((key_of y, reported y.2) ∷ last) apart.1
      ∙ has_changed-other y x (reported y.2) last apart.0)
  | inr e ↦ rw e (stays_known x tables last apart.1)
]

step_new :
    (x : NamedTable) (tables : List NamedTable) (last : LastState)
    → has_changed x last ≡ true
    → (changes_of (x ∷ tables) last).1 ≡ (changes_of tables ((key_of x, reported x.2) ∷ last)).1
unfolding changes_of
step_new x tables last e = rw e refl

step_old :
    (x : NamedTable) (tables : List NamedTable) (last : LastState)
    → has_changed x last ≡ false
    → (changes_of (x ∷ tables) last).1 ≡ (changes_of tables last).1
unfolding changes_of
step_old x tables last e = rw e refl

all-Known :
    (tables : List NamedTable) (last : LastState)
    → KeysApart tables
    → All (Known (changes_of tables last).1) tables
all-Known [] last apart = tt
all-Known (x ∷ tables) last apart =
    let known = λ (l : LastState). All (Known l) (x ∷ tables) in
    elim (Bool-cases (has_changed x last)) [
      | inl e ↦
          let last' : LastState = (key_of x, reported x.2) ∷ last in
          subst known (sym (step_new x tables last e)) (
            stays_known x tables last' apart.0 ∙ has_changed_self x last,
            all-Known tables last' apart.1,
          )
      | inr e ↦
          subst known (sym (step_old x tables last e))
            (stays_known x tables last apart.0 ∙ e, all-Known tables last apart.1)
    ]

nothing_new :
    (tables : List NamedTable) (last : LastState)
    → All (Known last) tables
    → changes_of tables last ≡ ([], last)
unfolding changes_of
nothing_new [] last h = refl
nothing_new (x ∷ tables) last h = rw h.0 (nothing_new tables last h.1)

-- A schema is reported once: after a call, another call on the same buffer, whose tables have different
-- keys, reports nothing and leaves the state.
pub compute_schema_changes_once :
    (buffer : Buffer) (last : LastState)
    → KeysApart (all_tables buffer.databases)
    → compute_schema_changes buffer (compute_schema_changes buffer last).1
      ≡ ([], (compute_schema_changes buffer last).1)
unfolding compute_schema_changes
compute_schema_changes_once buffer last apart =
    nothing_new (all_tables buffer.databases) (changes_of (all_tables buffer.databases) last).1
      (all-Known (all_tables buffer.databases) last apart)
