-- ===== src/Server/Compaction/Originals.antt =====
-- compaction.rs: a merge removes exactly the files that it has read.
use iedb.Base.{
  ℕ, ◌≡◌, refl, sym, ◌∙◌, ap, Bool, true, false, ◌&&◌, ◌⊎◌, List, [], ◌∷◌, arith, In, keep,
  eq_bytes, eq_bytes→eq, eq_bytes_refl, Bool-cases, inl, inr,
}
use mathlib.Core.Bool.{not}
use iedb.Base.Text.Codes.{Chars, codes, starts_with}
use iedb.Server.Ingest.{DataFile, is_at, put_file}
use iedb.Server.Compaction.{
  CompactionConfig, in_table, is_candidate, small_files, compacted_name, has_name, remove_files,
  output,
}
use iedb.Server.Compaction.Members.{
  keep_ext, In-keep, In-keep→, In-sort, In-sort→, has_name-In, has_name→In,
}

-- A path names one file.
abbrev pub OneEach : List DataFile → Type 0
OneEach files =
    (f g : DataFile) → In f files → In g files → is_at f.db f.table f.name g ≡ true → f ≡ g

-- Every removal succeeds.
abbrev pub all_removed : Chars → Bool
all_removed _ = true

is_at→eq :
    (f g : DataFile)
    → is_at f.db f.table f.name g ≡ true
    → (g.db ≡ f.db) × (g.table ≡ f.table) × (g.name ≡ f.name)
is_at→eq f g e = (
  eq_bytes→eq g.db f.db (ground (arith, e)),
  eq_bytes→eq g.table f.table (ground (arith, e)),
  eq_bytes→eq g.name f.name (ground (arith, e)),
)

In-put_file :
    (f g : DataFile) (files : List DataFile) → In g (put_file f files) → (f ≡ g) ⊎ In g files
unfolding put_file
In-put_file f g [] (inl q) = inl q
In-put_file f g [] (inr m) = absurd m
In-put_file f g (h ∷ files) m = elim (Bool-cases (is_at f.db f.table f.name h)) [
  | inl e ↦ let m' : In g (f ∷ files) = rw e at m in elim m' [ inl q ↦ inl q | inr r ↦ inr (inr r) ]
  | inr e ↦
      let m' : In g (h ∷ put_file f files) = rw e at m in
      elim m' [
        | inl q ↦ inr (inl q)
        | inr r ↦ elim (In-put_file f g files r) [ inl q ↦ inl q | inr r' ↦ inr (inr r') ]
      ]
]

-- A file that fails a test on its path leaves what passes it.
keep-put_file :
    (p : DataFile → Bool) (f : DataFile) (files : List DataFile)
    → p f ≡ false
    → ((g : DataFile) → is_at f.db f.table f.name g ≡ true → p g ≡ false)
    → keep p (put_file f files) ≡ keep p files
unfolding put_file
keep-put_file p f [] e h = rw e refl
keep-put_file p f (g ∷ files) e h = elim (Bool-cases (is_at f.db f.table f.name g)) [
  | inl q ↦ rw q (rw e (rw (h g q) refl))
  | inr q ↦ rw q (ground (arith, keep-put_file p f files e h))
]

compacted_prefix :
    (small : List DataFile) → starts_with (codes "compacted_") (compacted_name small) ≡ true
unfolding starts_with compacted_name
compacted_prefix small = refl

-- The output of a merge is no candidate, nor is any file of its name.
not_candidate :
    (config : CompactionConfig) (db table : Chars) (g : DataFile)
    → starts_with (codes "compacted_") g.name ≡ true
    → is_candidate config db table g ≡ false
unfolding is_candidate
not_candidate config db table g e = ground (arith, e)

candidate_name :
    (config : CompactionConfig) (db table : Chars) (g : DataFile)
    → is_candidate config db table g ≡ true
    → starts_with (codes "compacted_") g.name ≡ false
unfolding is_candidate
candidate_name config db table g e = ground (arith, e)

candidate_table :
    (config : CompactionConfig) (db table : Chars) (g : DataFile)
    → is_candidate config db table g ≡ true
    → in_table db table g ≡ true
unfolding is_candidate
candidate_table config db table g e = ground (arith, e)

same_path :
    (db table : Chars) (f g : DataFile)
    → in_table db table f ≡ true
    → in_table db table g ≡ true
    → g.name ≡ f.name
    → is_at f.db f.table f.name g ≡ true
same_path db table f g hf hg e =
    let fd : f.db ≡ db = eq_bytes→eq f.db db (ground (arith, hf)) in
    let ft : f.table ≡ table = eq_bytes→eq f.table table (ground (arith, hf)) in
    let gd : g.db ≡ db = eq_bytes→eq g.db db (ground (arith, hg)) in
    let gt : g.table ≡ table = eq_bytes→eq g.table table (ground (arith, hg)) in
    let d : eq_bytes g.db f.db ≡ true =
      ap (λ x. eq_bytes x f.db) (gd ∙ sym fd) ∙ eq_bytes_refl f.db in
    let t : eq_bytes g.table f.table ≡ true =
      ap (λ x. eq_bytes x f.table) (gt ∙ sym ft) ∙ eq_bytes_refl f.table in
    let n : eq_bytes g.name f.name ≡ true = ap (λ x. eq_bytes x f.name) e ∙ eq_bytes_refl f.name in
    rw d (rw t n)

module _ (config : CompactionConfig) (db table : Chars) (files : List DataFile) where
  abbrev small : List DataFile
  small = small_files config db table files

  abbrev candidate : DataFile → Bool
  candidate = is_candidate config db table

  -- The test by which the originals go.
  abbrev gone : DataFile → Bool
  gone f = in_table db table f && (has_name f.name small && true)

  small→candidate : (g : DataFile) → In g small → In g files × (candidate g ≡ true)
  unfolding small_files
  small→candidate g m = In-keep→ candidate files g (In-sort→ g (keep candidate files) m)

  candidate→small : (g : DataFile) → In g files → candidate g ≡ true → In g small
  unfolding small_files
  candidate→small g m e = In-sort g (keep candidate files) (In-keep candidate files g m e)

  -- Among the files before the merge, exactly the candidates go.
  gone_iff : OneEach files → (f : DataFile) → In f files → gone f ≡ candidate f
  gone_iff one f m = elim (Bool-cases (candidate f)) [
    | inl e ↦
        let named = has_name-In f small (candidate→small f m e) in
        rw e (rw (candidate_table config db table f e) (rw named refl))
    | inr e ↦ elim (Bool-cases (gone f)) [
      | inr g ↦ g ∙ sym e
      | inl g ↦
          let here : in_table db table f ≡ true = ground (arith, g) in
          let named : has_name f.name small ≡ true = ground (arith, g) in
          let other = has_name→In f.name small named in
          let facts = small→candidate other.0 other.1 in
          let there = candidate_table config db table other.0 facts.1 in
          let same : f ≡ other.0 =
            one f other.0 m facts.0 (same_path db table f other.0 here there other.2) in
          cc (ap candidate same, facts.1)
    ]
  ]

  abbrev out : (List (List ℕ) → List ℕ) → DataFile
  out merge = output merge db table small

  out_stays : (merge : List (List ℕ) → List ℕ) → gone (out merge) ≡ false
  out_stays merge = elim (Bool-cases (has_name (compacted_name small) small)) [
    | inr e ↦ rw (eq_bytes_refl db) (rw (eq_bytes_refl table) (rw e refl))
    | inl e ↦
        let other = has_name→In (compacted_name small) small e in
        let plain = candidate_name config db table other.0 (small→candidate other.0 other.1).1 in
        let marked : starts_with (codes "compacted_") other.0.name ≡ true =
          ap (starts_with (codes "compacted_")) other.2 ∙ compacted_prefix small in
        cc (plain, marked)
  ]

  out_no_candidate : (merge : List (List ℕ) → List ℕ) → candidate (out merge) ≡ false
  out_no_candidate merge = not_candidate config db table (out merge) (compacted_prefix small)

  no_removal :
      (removes : Chars → Bool) (f : DataFile)
      → candidate f ≡ false
      → (candidate f && removes f.name) ≡ false
  no_removal removes f e = rw e refl

  -- The output does not change what there is to merge.
  pub candidates-put_file :
      (merge : List (List ℕ) → List ℕ)
      → keep candidate (put_file (out merge) files) ≡ keep candidate files
  candidates-put_file merge =
      keep-put_file candidate (out merge) files (out_no_candidate merge) (λ g e.
        not_candidate config db table g (
          ap (starts_with (codes "compacted_")) (is_at→eq (out merge) g e).2
          ∙ compacted_prefix small))

  abbrev goes : (Chars → Bool) → DataFile → Bool
  goes removes f = in_table db table f && (has_name f.name small && removes f.name)

  goes_iff :
      (removes : Chars → Bool)
      → OneEach files
      → (f : DataFile) → In f files
      → goes removes f ≡ (candidate f && removes f.name)
  goes_iff removes one f m = ground (arith, gone_iff one f m)

  out_not_removed :
      (removes : Chars → Bool) (merge : List (List ℕ) → List ℕ) → goes removes (out merge) ≡ false
  out_not_removed removes merge = ground (arith, out_stays merge)

  -- What the deletion leaves are the files that were no candidates, or could not be removed.
  pub left_over :
      (removes : Chars → Bool) (merge : List (List ℕ) → List ℕ)
      → OneEach files
      → remove_files db table removes small (put_file (out merge) files)
        ≡ keep (λ f. not (candidate f && removes f.name)) (put_file (out merge) files)
  unfolding remove_files
  left_over removes merge one =
      keep_ext (λ f. not (goes removes f)) (λ f. not (candidate f && removes f.name))
        (put_file (out merge) files)
        (λ f m. elim (In-put_file (out merge) f files m) [
          | inl q ↦ ap not (
              ap (goes removes) (sym q)
              ∙ out_not_removed removes merge
              ∙ sym (no_removal removes (out merge) (out_no_candidate merge))
              ∙ ap (λ (g : DataFile). candidate g && removes g.name) q)
          | inr h ↦ ap not (goes_iff removes one f h)
        ])

  -- Nor does it change which candidates can be removed.
  pub removable-put_file :
      (removes : Chars → Bool) (merge : List (List ℕ) → List ℕ)
      → keep (λ f. candidate f && removes f.name) (put_file (out merge) files)
        ≡ keep (λ f. candidate f && removes f.name) files
  removable-put_file removes merge =
      keep-put_file (λ f. candidate f && removes f.name) (out merge) files
        (no_removal removes (out merge) (out_no_candidate merge))
        (λ g e. no_removal removes g (
          not_candidate config db table g (
            ap (starts_with (codes "compacted_")) (is_at→eq (out merge) g e).2
            ∙ compacted_prefix small)))
