-- ===== src/Server/Metadata/Recount.antt =====
-- metadata_store.rs: the statistics that uploads accumulate (`update_stats`) are those that a recount of
-- the files finds (`recount_table`).
use iedb.Base.{
  ℕ, ◌≡◌, refl, ◌∙◌, ap, true, Option, none, some, List, [], ◌∷◌, map, if◌then◌else◌, arith, ℤ, pos,
  ◌≤ℤ◌, ◌<ℤ◌, i64_max, i64_min, All, option_get_or, Option-cases, inl, inr,
}
use iedb.Base.Text.Codes.{Chars}
use iedb.Table.Sorted.{eq_ℤ}
use iedb.Server.Db.{TableRow, Db, sql_min, sql_max}
use iedb.Server.Footer.{
  Column, Footer, Seen, Stats, nothing_seen, read_column, read_columns, read_groups,
  read_parquet_stats,
}
use iedb.Server.Metadata.{
  table_row, with_stats, update_stats, is_parquet, Count, count_file, count_files, with_count,
  recount_table,
}
use iedb.Server.Metadata.Rows.{row_or_new, table_row-update_stats, table_row-recount_table}

-- The marks of an empty loop lie at the ends of i64.
abbrev InRange : Seen → Type 0
InRange seen = (seen.time_min ≤ℤ i64_max) × (i64_min ≤ℤ seen.time_max)

sql_min-le : (x y : ℤ) → sql_min x y ≤ℤ x
sql_min-le x y = ground arith

sql_max-ge : (x y : ℤ) → x ≤ℤ sql_max x y
sql_max-ge x y = ground arith

trans_ℤ : (x y z : ℤ) → x ≤ℤ y → y ≤ℤ z → x ≤ℤ z
trans_ℤ x y z h k = omega (arith, h, k)

read_column-InRange : (col : Column) (seen : Seen) → InRange seen → InRange (read_column col seen)
unfolding read_column
read_column-InRange col seen h = ground arith

read_columns-InRange :
    (cols : List Column) (seen : Seen) → InRange seen → InRange (read_columns cols seen)
unfolding read_columns
read_columns-InRange [] seen h = h
read_columns-InRange (col ∷ cols) seen h =
    read_columns-InRange cols (read_column col seen) (read_column-InRange col seen h)

read_groups-InRange :
    (groups : List (List Column)) (seen : Seen) → InRange seen → InRange (read_groups groups seen)
unfolding read_groups
read_groups-InRange [] seen h = h
read_groups-InRange (group ∷ groups) seen h =
    read_groups-InRange groups (read_columns group seen) (read_columns-InRange group seen h)

-- What the footer gives is never one of the marks.
abbrev IsReal : Stats → Type 0
IsReal st = (st.time_min <ℤ i64_max) × (i64_min <ℤ st.time_max)

not_mark_min : (x : ℤ) → x ≤ℤ i64_max → (if eq_ℤ x i64_max then pos 0 else x) <ℤ i64_max
unfolding eq_ℤ
not_mark_min x h = ground arith

not_mark_max : (x : ℤ) → i64_min ≤ℤ x → i64_min <ℤ (if eq_ℤ x i64_min then pos 0 else x)
unfolding eq_ℤ
not_mark_max x h = ground arith

read_parquet_stats-IsReal : (footer : Footer) → IsReal (read_parquet_stats footer)
unfolding read_parquet_stats
read_parquet_stats-IsReal footer =
    let range = read_groups-InRange footer.row_groups nothing_seen (omega arith, omega arith) in
    (not_mark_min _ range.0, not_mark_max _ range.1)

-- How a mark or a time is stored.
abbrev shown_min : ℤ → Option ℤ
shown_min x = if eq_ℤ x i64_max then none else some x

abbrev shown_max : ℤ → Option ℤ
shown_max x = if eq_ℤ x i64_min then none else some x

min_step :
    (c m : ℤ)
    → c ≤ℤ i64_max
    → m <ℤ i64_max
    → some (sql_min (option_get_or m (shown_min c)) m) ≡ shown_min (sql_min c m)
unfolding eq_ℤ
min_step c m h k = ground arith

max_step :
    (c m : ℤ)
    → i64_min ≤ℤ c
    → i64_min <ℤ m
    → some (sql_max (option_get_or m (shown_max c)) m) ≡ shown_max (sql_max c m)
unfolding eq_ℤ
max_step c m h k = ground arith

-- Uploads to one table, each of which ends in `update_stats`.
abbrev pub uploads : ℤ → Chars → Chars → List (Chars × Footer) → Db → Db
uploads now_ms db table [] s = s
uploads now_ms db table ((name, footer) ∷ files) s =
    uploads now_ms db table files (update_stats now_ms db table (read_parquet_stats footer) [] s).0

-- What a recount reads in the directory that holds these files.
abbrev pub listed : List (Chars × Footer) → List (Chars × Option Stats)
listed = map (λ f. (f.0, some (read_parquet_stats f.1)))

-- The time range and the number of rows that the server reports.
abbrev pub Summary : Type 0
Summary = Option ℤ × Option ℤ × ℕ

abbrev pub summary_of : TableRow → Summary
summary_of t = (t.time_min, t.time_max, t.total_rows)

abbrev pub summary : Option TableRow → Summary
summary none = (none, none, 0)
summary (some t) = summary_of t

abbrev shown : Count → Summary
shown (time_min, time_max, total_rows) = (shown_min time_min, shown_max time_max, total_rows)

abbrev Ranged : Count → Type 0
Ranged count = (count.0 ≤ℤ i64_max) × (i64_min ≤ℤ count.1)

step :
    (now_ms : ℤ) (name : Chars) (st : Stats) (t : TableRow) (count : Count)
    → IsReal st
    → is_parquet name ≡ true
    → Ranged count
    → summary_of t ≡ shown count
    → (summary_of (with_stats now_ms st t) ≡ shown (count_file (name, some st) count))
      × Ranged (count_file (name, some st) count)
unfolding with_stats count_file
step now_ms name st t (lo, hi, n) real parquet range same =
    let e0 = ap (λ (x : Summary). x.0) same in
    let e1 = ap (λ (x : Summary). x.1) same in
    let e2 = ap (λ (x : Summary). x.2) same in
    rw parquet (
      (
        rw e0 (
            rw e1 (
              rw e2 (
                rw (min_step lo st.time_min range.0 real.0)
                  (rw (max_step hi st.time_max range.1 real.1) refl)))),
        (
          trans_ℤ _ lo i64_max (sql_min-le lo st.time_min) range.0,
          trans_ℤ i64_min hi _ range.1 (sql_max-ge hi st.time_max),
        ),
      ))

all_steps :
    (now_ms : ℤ) (db table : Chars) (files : List (Chars × Footer)) (s : Db) (count : Count)
    → All (λ f. is_parquet f.0 ≡ true) files
    → Ranged count
    → summary_of (row_or_new db table s) ≡ shown count
    → summary_of (row_or_new db table (uploads now_ms db table files s))
      ≡ shown (count_files (listed files) count)
unfolding count_files
all_steps now_ms db table [] s count parquet range same = same
all_steps now_ms db table ((name, footer) ∷ files) s count parquet range same =
    let st = read_parquet_stats footer in
    let s' = (update_stats now_ms db table st [] s).0 in
    let next =
      step now_ms name st (row_or_new db table s) count (read_parquet_stats-IsReal footer) parquet.0
        range same in
    let row : row_or_new db table s' ≡ with_stats now_ms st (row_or_new db table s) =
      rw (table_row-update_stats now_ms db table st [] s) refl in
    all_steps now_ms db table files s' (count_file (name, some st) count) parquet.1 next.1
      (ap summary_of row ∙ next.0)

summary-or_new :
    (db table : Chars) (s : Db)
    → summary (table_row db table s) ≡ summary_of (row_or_new db table s)
summary-or_new db table s = elim (Option-cases (table_row db table s)) [
  | inl e ↦ rw e refl
  | inr (r, e) ↦ rw e refl
]

-- Take a table that the server has no row of, and any list of parquet files. After their uploads, each
-- of which accumulates the statistics of its footer (`update_stats`), the time range and the number of
-- rows of the table are those that a recount of these files stores, in whatever database it runs: nothing
-- is counted twice or missed, also where a footer gives no time range.
pub recount_table-update_stats :
    (now_ms now_ms' : ℤ) (db table : Chars) (files : List (Chars × Footer)) (s s' : Db)
    → table_row db table s ≡ none
    → All (λ f. is_parquet f.0 ≡ true) files
    → summary (table_row db table (uploads now_ms db table files s))
      ≡ summary (table_row db table (recount_table now_ms' db table (listed files) s'))
recount_table-update_stats now_ms now_ms' db table files s s' missing parquet =
    summary-or_new db table (uploads now_ms db table files s)
    ∙ all_steps now_ms db table files s (i64_max, i64_min, 0) parquet (omega arith, omega arith)
        (rw missing (unfold eq_ℤ in refl))
    ∙ rw (table_row-recount_table now_ms' db table (listed files) s') (unfold with_count in refl)
