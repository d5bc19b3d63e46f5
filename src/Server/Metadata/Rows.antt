-- ===== src/Server/Metadata/Rows.antt =====
-- metadata_store.rs: which row of `tables` a statement reads and writes.
use iedb.Base.{
  ℕ, ◌≡◌, refl, sym, i64_max, i64_min, ◌∙◌, ap, Bool, true, Option, none, some, List, [], ◌∷◌, ◌++◌,
  ◌==◌, arith, ℤ, find, option_get_or, eq_bytes_refl, Bool-cases, Option-cases, inl, inr,
}
use iedb.Base.Text.Codes.{Chars}
use iedb.Server.Db.{TableRow, FieldRow, Db}
use iedb.Server.Footer.{Stats}
use iedb.Server.Metadata.{
  ensure_db, is_table, table_row, new_row, ensure_table, update_rows, add_field, add_fields,
  add_tags, with_stats, update_stats, Count, with_count, count_files, recount_table,
}

-- The first row that is found is also the first after an UPDATE that keeps the key.
find-update_rows :
    (p q : TableRow → Bool) (f : TableRow → TableRow) (rows : List TableRow) (r : TableRow)
    → ((t : TableRow) → p (f t) ≡ p t)
    → q r ≡ true
    → find p rows ≡ some r
    → find p (update_rows q f rows) ≡ some (f r)
unfolding update_rows
find-update_rows p q f [] r keeps hit e = cc
find-update_rows p q f (t ∷ ts) r keeps hit e = elim (Bool-cases (p t)) [
  | inl here ↦
      let same : t ≡ r = ground (arith, here, e) in
      ground (arith, here, hit, keeps t, same, ap q same)
  | inr later ↦
      ground
        (arith, later, keeps t, find-update_rows p q f ts r keeps hit (ground (arith, later, e)))
]

find_snoc :
    (p : TableRow → Bool) (rows : List TableRow) (r : TableRow)
    → find p rows ≡ none
    → p r ≡ true
    → find p (rows ++ (r ∷ [])) ≡ some r
find_snoc p [] r e hit = ground arith
find_snoc p (t ∷ ts) r e hit = ground (arith, find_snoc p ts r)

tables-ensure_db : (name : Chars) (s : Db) → (ensure_db name s).tables ≡ s.tables
unfolding ensure_db
tables-ensure_db name s = ground arith

next_table-ensure_db : (name : Chars) (s : Db) → (ensure_db name s).next_table ≡ s.next_table
unfolding ensure_db
next_table-ensure_db name s = ground arith

tables-add_field : (f : FieldRow) (s : Db) → (add_field f s).tables ≡ s.tables
unfolding add_field
tables-add_field f s = ground arith

tables-add_fields :
    (id : ℕ) (defs : List (Chars × Chars)) (s : Db) → (add_fields id defs s).tables ≡ s.tables
unfolding add_fields
tables-add_fields id [] s = refl
tables-add_fields id ((name, value_type) ∷ defs) s =
    tables-add_fields id defs _ ∙ tables-add_field _ s

tables-add_tags : (id : ℕ) (keys : List Chars) (s : Db) → (add_tags id keys s).tables ≡ s.tables
unfolding add_tags
tables-add_tags id [] s = refl
tables-add_tags id (key ∷ keys) s = tables-add_tags id keys _ ∙ tables-add_field _ s

-- The row that a statement about a table finds, which is new if there was none.
abbrev pub row_or_new : Chars → Chars → Db → TableRow
row_or_new db table s = option_get_or (new_row s.next_table db table) (table_row db table s)

is_table_new : (id : ℕ) (db table : Chars) → is_table db table (new_row id db table) ≡ true
is_table_new id db table = rw (eq_bytes_refl db) (eq_bytes_refl table)

table_row-ensure_table :
    (db table : Chars) (s : Db)
    → table_row db table (ensure_table db table s) ≡ some (row_or_new db table s)
unfolding ensure_table
table_row-ensure_table db table s = elim (Option-cases (table_row db table s)) [
  | inl e ↦
      rw (e, ensure_table)
        (unfold table_row in
          find_snoc (is_table db table) s.tables (new_row s.next_table db table) e
            (is_table_new s.next_table db table))
  | inr (r, e) ↦ rw (e, ensure_table) e
]

table_row-ensured :
    (db table : Chars) (s : Db)
    → table_row db table (ensure_table db table (ensure_db db s)) ≡ some (row_or_new db table s)
table_row-ensured db table s =
    table_row-ensure_table db table (ensure_db db s)
    ∙ ap some (
        unfold table_row in
        λ i.
          option_get_or (new_row (next_table-ensure_db db s i) db table)
            (find (is_table db table) (tables-ensure_db db s i)))

id_hit : (r : TableRow) → (r.id == r.id) ≡ true
id_hit r = ground arith

pub table_row-update_stats :
    (now_ms : ℤ) (db table : Chars) (st : Stats) (tag_keys : List Chars) (s : Db)
    → table_row db table (update_stats now_ms db table st tag_keys s).0
      ≡ some (with_stats now_ms st (row_or_new db table s))
unfolding update_stats
table_row-update_stats now_ms db table st tag_keys s =
    let row = row_or_new db table s in
    let s1 = ensure_table db table (ensure_db db s) in
    let found = table_row-ensured db table s in
    rw (found, update_stats)
      (unfold table_row in
        ap (find (is_table db table))
          (tables-add_tags row.id tag_keys _ ∙ tables-add_fields row.id st.field_defs _)
        ∙ find-update_rows (is_table db table) (λ t. t.id == row.id) (with_stats now_ms st)
            s1.tables row (λ t. unfold with_stats in refl) (id_hit row) found)

hit_of :
    (db table : Chars) (rows : List TableRow) (r : TableRow)
    → find (is_table db table) rows ≡ some r
    → is_table db table r ≡ true
hit_of db table [] r e = cc
hit_of db table (t ∷ ts) r e = elim (Bool-cases (is_table db table t)) [
  | inl here ↦
      let same : t ≡ r = ground (arith, here, e) in ap (is_table db table) (sym same) ∙ here
  | inr later ↦ hit_of db table ts r (ground (arith, later, e))
]

pub table_row-recount_table :
    (now_ms : ℤ) (db table : Chars) (files : List (Chars × Option Stats)) (s : Db)
    → table_row db table (recount_table now_ms db table files s)
      ≡ some (with_count now_ms (count_files files (i64_max, i64_min, 0)) (row_or_new db table s))
unfolding recount_table
table_row-recount_table now_ms db table files s =
    let row = row_or_new db table s in
    let s1 = ensure_table db table (ensure_db db s) in
    let found = table_row-ensured db table s in
    let count : Count = count_files files (i64_max, i64_min, 0) in
    unfold table_row in
    find-update_rows (is_table db table) (is_table db table) (with_count now_ms count) s1.tables row
      (λ t. unfold with_count in refl) (hit_of db table s1.tables row found) found
