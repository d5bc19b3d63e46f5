-- ===== src/Server/Metadata/Tombstones.antt =====
-- metadata_store.rs: which names are tombstones after `tombstone_files` and `prune_tombstones`.
use iedb.Base.{
  ◌≡◌, refl, ◌∙◌, ap, true, List, [], ◌∷◌, ◌++◌, if◌then◌else◌, arith, ℤ, eq_bytes_refl, In,
  Bool-cases, inl, inr,
}
use mathlib.Core.List.{map-append}
use iedb.Base.Text.Codes.{Chars}
use iedb.Server.Db.{Db, has_text}
use iedb.Server.Metadata.{tombstone_names, is_tombstoned, tombstone_files}

has_text-append_left :
    (s : Chars) (xs ys : List Chars) → has_text s xs ≡ true → has_text s (xs ++ ys) ≡ true
unfolding has_text
has_text-append_left s [] ys h = cc
has_text-append_left s (x ∷ xs) ys h = ground (arith, has_text-append_left s xs ys)

has_text-snoc : (s : Chars) (xs : List Chars) → has_text s (xs ++ (s ∷ [])) ≡ true
unfolding has_text
has_text-snoc s [] = rw (eq_bytes_refl s) refl
has_text-snoc s (x ∷ xs) = ground (arith, has_text-snoc s xs)

abbrev add_one : ℤ → Chars → Db → Db
add_one now_ms name s =
    if is_tombstoned name s
    then s
    else record s { compaction_tombstones = s.compaction_tombstones ++ ((name, now_ms) ∷ []) }

add_one-adds :
    (now_ms : ℤ) (name : Chars) (s : Db) → is_tombstoned name (add_one now_ms name s) ≡ true
add_one-adds now_ms name s = elim (Bool-cases (is_tombstoned name s)) [
  | inl e ↦ rw e e
  | inr e ↦ rw e (
      unfold is_tombstoned in
      ap (has_text name) (map-append (λ p. p.0) s.compaction_tombstones ((name, now_ms) ∷ []))
      ∙ has_text-snoc name (tombstone_names s.compaction_tombstones))
]

add_one-keeps :
    (now_ms : ℤ) (name other : Chars) (s : Db)
    → is_tombstoned other s ≡ true
    → is_tombstoned other (add_one now_ms name s) ≡ true
add_one-keeps now_ms name other s h = elim (Bool-cases (is_tombstoned name s)) [
  | inl e ↦ rw e h
  | inr e ↦ rw e (
      unfold is_tombstoned in
      ap (has_text other) (map-append (λ p. p.0) s.compaction_tombstones ((name, now_ms) ∷ []))
      ∙ has_text-append_left other (tombstone_names s.compaction_tombstones) (name ∷ []) h)
]

pub tombstone_files_keeps :
    (now_ms : ℤ) (names : List Chars) (other : Chars) (s : Db)
    → is_tombstoned other s ≡ true
    → is_tombstoned other (tombstone_files now_ms names s) ≡ true
unfolding tombstone_files
tombstone_files_keeps now_ms [] other s h = h
tombstone_files_keeps now_ms (name ∷ names) other s h =
    tombstone_files_keeps now_ms names other (add_one now_ms name s)
      (add_one-keeps now_ms name other s h)

pub tombstone_files_adds :
    (now_ms : ℤ) (names : List Chars) (name : Chars) (s : Db)
    → In name names
    → is_tombstoned name (tombstone_files now_ms names s) ≡ true
unfolding tombstone_files
tombstone_files_adds now_ms [] name s h = absurd h
tombstone_files_adds now_ms (other ∷ names) name s (inl e) =
    tombstone_files_keeps now_ms names name (add_one now_ms other s)
      (ap (λ n. is_tombstoned name (add_one now_ms n s)) e ∙ add_one-adds now_ms name s)
tombstone_files_adds now_ms (other ∷ names) name s (inr h) =
    tombstone_files_adds now_ms names name (add_one now_ms other s) h
