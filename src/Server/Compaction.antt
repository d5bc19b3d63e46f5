-- ===== src/Server/Compaction.antt =====
-- src/server/compaction.rs: the small parquet files of a table become one. Reading, merging and writing
-- parquet is DataFusion's, the parameter `merge`.
pub mod Schedule
pub mod Members
pub mod Originals
pub mod Rows
pub mod Replay
use iedb.Base.{
  ℕ, ◌+◌, ◌*◌, ◌%◌, Bool, true, false, ◌&&◌, ◌||◌, Option, none, some, List, [], ◌∷◌, ◌++◌, map,
  if◌then◌else◌, ◌==◌, leb, ltb, length, ℤ, pos, ◌-ℤ◌, eq_bytes, keep,
}
use Prim.Native.Nat.{bit_xor}
use mathlib.Core.Bool.{not}
use iedb.Base.Text.{nat_text}
use iedb.Base.Text.Codes.{Chars, codes, starts_with}
use iedb.Staging.{dot_parquet, dot_tmp}
use iedb.Server.Db.{Db}
use iedb.Server.Footer.{Footer, Stats, read_parquet_stats}
use iedb.Server.Metadata.{is_parquet, tombstone_files, prune_tombstones, recount_table}
use iedb.Server.Ingest.{DataFile, Server, is_at, put_file}

pub record CompactionConfig : Type 0 where
  pub min_file_size_mb : ℕ
  pub target_file_size_mb : ℕ

-- `(mb * 1024 * 1024) as u64`, as a release build computes it.
abbrev pub mega : ℕ → ℕ
mega mb = (mb * 1048576) % 0x1_0000_0000_0000_0000

abbrev pub in_table : Chars → Chars → DataFile → Bool
in_table db table f = eq_bytes f.db db && eq_bytes f.table table

-- A file that the scan of the directory collects, and that is small.
unfoldable pub is_candidate : CompactionConfig → Chars → Chars → DataFile → Bool
is_candidate config db table f =
    in_table db table f
    && ((is_parquet f.name && not (starts_with (codes "compacted_") f.name))
        && ltb (length f.content) (mega config.min_file_size_mb))

-- The order of two names, byte by byte.
unfoldable pub le_bytes : Chars → Chars → Bool
le_bytes [] ys = true
le_bytes (x ∷ xs) [] = false
le_bytes (x ∷ xs) (y ∷ ys) = ltb x y || ((x == y) && le_bytes xs ys)

-- `small_files.sort_by_key(path)`: the paths differ in the name only.
unfoldable pub insert_by_name : DataFile → List DataFile → List DataFile
insert_by_name f [] = f ∷ []
insert_by_name f (g ∷ gs) = if le_bytes f.name g.name then f ∷ g ∷ gs else g ∷ insert_by_name f gs

unfoldable pub sort_by_name : List DataFile → List DataFile
sort_by_name [] = []
sort_by_name (f ∷ fs) = insert_by_name f (sort_by_name fs)

unfoldable pub small_files : CompactionConfig → Chars → Chars → List DataFile → List DataFile
small_files config db table files = sort_by_name (keep (is_candidate config db table) files)

unfoldable pub total_small : List DataFile → ℕ
total_small [] = 0
total_small (f ∷ fs) = length f.content + total_small fs

-- FNV-1a.
abbrev pub fnv_prime : ℕ
fnv_prime = 0x100_0000_01b3

unfoldable pub hash_byte : ℕ → ℕ → ℕ
hash_byte hash b = (bit_xor hash b * fnv_prime) % 0x1_0000_0000_0000_0000

unfoldable pub hash_bytes : Chars → ℕ → ℕ
hash_bytes [] hash = hash
hash_bytes (b ∷ bs) hash = hash_bytes bs (hash_byte hash b)

unfoldable pub hash_names : List DataFile → ℕ → ℕ
hash_names [] hash = hash
hash_names (f ∷ fs) hash = hash_names fs (hash_byte (hash_bytes f.name hash) 0x7c)

unfoldable pub fnv1a_of_filenames : List DataFile → ℕ
fnv1a_of_filenames files = hash_names files 0xcbf2_9ce4_8422_2325

unfoldable pub compacted_name : List DataFile → Chars
compacted_name small =
    codes "compacted_"
    ++ (nat_text (fnv1a_of_filenames small) ++ (b'_' ∷ (nat_text (length small) ++ dot_parquet)))

-- How a merge ends: a failure to read, to write or to rename may leave a `.tmp` file. Of the merged
-- files, those for which `removes` fails stay.
pub data MergeOutcome : Type 0 where
  merge_ok : (Chars → Bool) → MergeOutcome
  merge_failed : Option (List ℕ) → MergeOutcome

unfoldable pub has_name : Chars → List DataFile → Bool
has_name name [] = false
has_name name (f ∷ fs) = eq_bytes f.name name || has_name name fs

-- `remove_file` of each merged file.
unfoldable pub remove_files :
    Chars → Chars → (Chars → Bool) → List DataFile → List DataFile → List DataFile
remove_files db table removes small files =
    keep (λ (f : DataFile). not (in_table db table f && (has_name f.name small && removes f.name)))
      files

abbrev pub names_of : List DataFile → List Chars
names_of = map (λ f. f.name)

-- Too few files, or enough bytes already.
unfoldable pub skips : CompactionConfig → List DataFile → Bool
skips config small =
    leb (length small) 1 || leb (mega config.target_file_size_mb) (total_small small)

-- The merged file.
abbrev pub output : (List (List ℕ) → List ℕ) → Chars → Chars → List DataFile → DataFile
output merge db table small = record {
  db = db;
  table = table;
  name = compacted_name small;
  content = merge (map (λ f. f.content) small);
}

module _ (footer : List ℕ → Option Footer) (merge : List (List ℕ) → List ℕ) where
  -- What the recount reads in the directory.
  unfoldable pub dir_listing : Chars → Chars → List DataFile → List (Chars × Option Stats)
  dir_listing db table files =
      map
        (λ f. (
          f.name,
          elim (footer f.content) [ none ↦ none | some meta ↦ some (read_parquet_stats meta) ],
        ))
        (keep (in_table db table) files)

  -- After the rename: the originals go, their names become tombstones, and the table is recounted.
  unfoldable pub finish : ℤ → Chars → Chars → (Chars → Bool) → List DataFile → Server → Server
  finish now_ms db table removes small s =
      let files = remove_files db table removes small s.files in
      record s {
        files = files;
        store =
            recount_table now_ms db table (dir_listing db table files)
              (tombstone_files now_ms (names_of small) s.store);
      }

  -- The body of the loop over the tables; `false` is an error that ends the run.
  unfoldable pub compact_table :
      CompactionConfig → ℤ → Chars → Chars → MergeOutcome → Server → Server × Bool
  compact_table config now_ms db table outcome s =
      let small = small_files config db table s.files in
      if skips config small then (s, true) else elim outcome [
        | merge_ok removes ↦ (
          finish now_ms db table removes small
              (record s { files = put_file (output merge db table small) s.files }),
          true,
        )
        | merge_failed none ↦ (s, false)
        | merge_failed (some part) ↦ (
          record s {
            files =
                put_file
                  (record {
                    db = db;
                    table = table;
                    name = compacted_name small ++ dot_tmp;
                    content = part;
                  })
                  s.files;
          },
          false,
        )
      ]

  unfoldable pub compact_tables :
      CompactionConfig → ℤ → List (Chars × Chars × MergeOutcome) → Server → Server × Bool
  compact_tables config now_ms [] s = (s, true)
  compact_tables config now_ms ((db, table, outcome) ∷ tables) s =
      let (s', fine) = compact_table config now_ms db table outcome s in
      let rest = compact_tables config now_ms tables s' in if fine then rest else (s', false)

  -- `run_once` over the directories of the tables, in the order in which they are read.
  unfoldable pub run_once :
      CompactionConfig → ℤ → List (Chars × Chars × MergeOutcome) → Server → Server × Bool
  run_once config now_ms tables s =
      compact_tables config now_ms tables
        (record s { store = prune_tombstones (now_ms -ℤ pos 604800000) s.store })
