-- ===== src/Server/Compaction/Rows.antt =====
-- compaction.rs: how many times each row is stored after a merge, and that a merge leaves nothing to merge.
use iedb.Base.{
  ℕ, ◌+◌, ◌≡◌, refl, ◌∙◌, ap, Bool, true, false, ◌&&◌, Option, none, List, [], ◌∷◌, map, arith, ℤ,
  keep, Bool-cases, inl, inr,
}
use mathlib.Core.Bool.{not}
use iedb.Base.Text.Codes.{Chars}
use iedb.Server.Footer.{Footer}
use iedb.Server.Ingest.{DataFile, Server, is_at, file_at, put_file}
use iedb.Server.Compaction.{
  CompactionConfig, is_candidate, insert_by_name, sort_by_name, small_files, compacted_name,
  MergeOutcome, merge_ok, remove_files, skips, output, finish, compact_table,
}
use iedb.Server.Compaction.Members.{keep_ext, keep_none}
use iedb.Server.Compaction.Originals.{OneEach, all_removed, left_over, removable-put_file}

-- `occurs content` is how often some row stands in a file of this content.
module _ (occurs : List ℕ → ℕ) where
  abbrev pub total : List (List ℕ) → ℕ
  total [] = 0
  total (c ∷ cs) = occurs c + total cs

  abbrev pub rows_in : List DataFile → ℕ
  rows_in [] = 0
  rows_in (f ∷ fs) = occurs f.content + rows_in fs

  total-contents : (fs : List DataFile) → total (map (λ f. f.content) fs) ≡ rows_in fs
  total-contents [] = refl
  total-contents (f ∷ fs) = omega (arith, total-contents fs)

  rows_in-insert :
      (f : DataFile) (gs : List DataFile) → rows_in (insert_by_name f gs) ≡ rows_in (f ∷ gs)
  unfolding insert_by_name
  rows_in-insert f [] = refl
  rows_in-insert f (g ∷ gs) = ground (arith, rows_in-insert f gs)

  rows_in-sort : (fs : List DataFile) → rows_in (sort_by_name fs) ≡ rows_in fs
  unfolding sort_by_name
  rows_in-sort [] = refl
  rows_in-sort (f ∷ fs) = omega (arith, rows_in-insert f (sort_by_name fs), rows_in-sort fs)

  rows_in-split :
      (p : DataFile → Bool) (fs : List DataFile)
      → rows_in (keep (λ f. not (p f)) fs) + rows_in (keep p fs) ≡ rows_in fs
  rows_in-split p [] = omega arith
  rows_in-split p (f ∷ fs) = ground (arith, rows_in-split p fs)

  rows_in-split_and :
      (p q : DataFile → Bool) (fs : List DataFile)
      → rows_in (keep (λ f. p f && q f) fs) + rows_in (keep (λ f. p f && not (q f)) fs)
        ≡ rows_in (keep p fs)
  rows_in-split_and p q [] = omega arith
  rows_in-split_and p q (f ∷ fs) = ground (arith, rows_in-split_and p q fs)

  rows_in-put_file :
      (f : DataFile) (fs : List DataFile)
      → file_at f.db f.table f.name fs ≡ none
      → rows_in (put_file f fs) ≡ rows_in fs + occurs f.content
  unfolding file_at put_file
  rows_in-put_file f [] e = omega arith
  rows_in-put_file f (g ∷ fs) e = elim (Bool-cases (is_at f.db f.table f.name g)) [
    | inl h ↦ absurd (ground (arith, h, e))
    | inr h ↦ rw h (omega (arith, rows_in-put_file f fs (ground (arith, h, e))))
  ]

  module _ (footer : List ℕ → Option Footer) (merge : List (List ℕ) → List ℕ)
      (merge_rows : (cs : List (List ℕ)) → occurs (merge cs) ≡ total cs) where
    -- A merge keeps every row: take a `merge` of DataFusion that writes each row as often as its inputs hold
    -- it together, a disk on which a path names one file, and no file that has the name of the output. Then
    -- the files of the server hold a row after `compact_table` as often as before, and once more for each
    -- time that it stands in an original whose removal failed (the code ignores that failure).
    pub rows_in-compact_table :
        (config : CompactionConfig) (now_ms : ℤ) (db table : Chars) (removes : Chars → Bool)
        (s : Server)
        → OneEach s.files
        → file_at db table (compacted_name (small_files config db table s.files)) s.files ≡ none
        → skips config (small_files config db table s.files) ≡ false
        → rows_in (compact_table footer merge config now_ms db table (merge_ok removes) s).0.files
          ≡ rows_in s.files
            + rows_in (keep (λ f. is_candidate config db table f && not (removes f.name)) s.files)
    unfolding compact_table finish
    rows_in-compact_table config now_ms db table removes s one fresh some_work =
        let files = s.files in
        let small = small_files config db table files in
        let out = output merge db table small in
        let goes = λ (f : DataFile). is_candidate config db table f && removes f.name in
        let candidate = is_candidate config db table in
        let left : rows_in (remove_files db table removes small (put_file out files))
            ≡ rows_in (keep (λ f. not (goes f)) (put_file out files)) =
          ap rows_in (left_over config db table files removes merge one) in
        let parts = rows_in-split goes (put_file out files) in
        let same : rows_in (keep goes (put_file out files)) ≡ rows_in (keep goes files) =
          ap rows_in (removable-put_file config db table files removes merge) in
        let grown = rows_in-put_file out files fresh in
        let whole : occurs out.content ≡ rows_in (keep candidate files) =
          merge_rows (map (λ f. f.content) small)
          ∙ total-contents small
          ∙ (unfold small_files in rows_in-sort (keep candidate files)) in
        let split = rows_in-split_and candidate (λ f. removes f.name) files in
        rw some_work (omega (arith, left, parts, same, grown, whole, split))

module _ (footer : List ℕ → Option Footer) (merge : List (List ℕ) → List ℕ) where
  all_of : (b : Bool) → not (b && true) ≡ not b
  all_of true = refl
  all_of false = refl

  no_candidates_left :
      (config : CompactionConfig) (db table : Chars) (files : List DataFile)
      → OneEach files
      → small_files config db table (
          remove_files db table all_removed
            (small_files config db table files)
            (put_file (output merge db table (small_files config db table files)) files))
        ≡ []
  unfolding small_files sort_by_name
  no_candidates_left config db table files one =
      let candidate = is_candidate config db table in
      let small = small_files config db table files in
      let put = put_file (output merge db table small) files in
      ap sort_by_name (
        ap (keep candidate) (left_over config db table files all_removed merge one)
        ∙ ap (keep candidate) (keep_ext _ _ put (λ f _. all_of (candidate f)))
        ∙ keep_none candidate put)

  -- The compaction comes to rest: on a disk on which a path names one file, a table that has just been
  -- compacted, with its originals removed, is left as it is by the next run, whatever that run's clock
  -- and I/O do, and the run has no error.
  pub compact_table-compact_table :
      (config : CompactionConfig) (now_ms now_ms' : ℤ) (db table : Chars) (outcome : MergeOutcome)
      (s : Server)
      → OneEach s.files
      → compact_table footer merge config now_ms' db table outcome
          (compact_table footer merge config now_ms db table (merge_ok all_removed) s).0
        ≡ ((compact_table footer merge config now_ms db table (merge_ok all_removed) s).0, true)
  unfolding compact_table finish
  compact_table-compact_table config now_ms now_ms' db table outcome s one =
      let small = small_files config db table s.files in
      elim (Bool-cases (skips config small)) [
        | inl e ↦
            let first : compact_table footer merge config now_ms db table (merge_ok all_removed) s
                ≡ (s, true) =
              rw (e, compact_table) refl in
            rw first (rw (e, compact_table) refl)
        | inr e ↦
            let s1 =
              finish footer merge now_ms db table all_removed small
                (record s { files = put_file (output merge db table small) s.files }) in
            let first : compact_table footer merge config now_ms db table (merge_ok all_removed) s
                ≡ (s1, true) =
              rw (e, compact_table) refl in
            let idle : skips config (small_files config db table s1.files) ≡ true =
              ap (skips config) (no_candidates_left config db table s.files one)
              ∙ (unfold skips in refl) in
            rw first (rw (idle, compact_table) refl)
      ]
