-- ===== src/Staging/Retry.antt =====
-- scheduler.rs, `retry_staging`, on what `staging_save` has written: a staged batch is delivered, or it
-- stays for the next round.
use iedb.Base.{
  ℕ, ◌≡◌, refl, sym, ◌∙◌, ap, String, Bool, false, ◌&&◌, ◌⊎◌, some, List, [], ◌∷◌, ◌++◌, arith, ltb,
  ℤ, IsI64, IsU64, In, eq_bytes, eq_bytes→eq, str_eq, Bool-cases, Option-cases, inl, inr,
}
use mathlib.Core.List.{append_assoc}
use iedb.Base.Text.{nat_text, int_text, strip_suffix}
use iedb.Staging.{
  staging_name, dot_parquet, dot_tmp, StagedFile, saved, put, staging_save, Upload, Retried, reaped,
  kept, offered, is_tmp, Round, place, examine, retry_staging,
}
use iedb.Staging.Names.{parse_staging-staging_name}

strip_suffix-some : (suffix s a : List ℕ) → strip_suffix suffix s ≡ some a → s ≡ a ++ suffix
unfolding strip_suffix
strip_suffix-some suffix [] a e = cc
strip_suffix-some suffix (c ∷ cs) a e = elim (Bool-cases (eq_bytes (c ∷ cs) suffix)) [
  | inl q ↦ ground (arith, eq_bytes→eq (c ∷ cs) suffix q)
  | inr q ↦ elim (Option-cases (strip_suffix suffix cs)) [
    | inl n ↦ absurd (ground (arith, n, q, e))
    | inr (b, n) ↦
        let k : c ∷ b ≡ a = ground (arith, q, n, e) in
        ap (λ l. c ∷ l) (strip_suffix-some suffix cs b n) ∙ ap (λ l. l ++ suffix) k
  ]
]

last : ℕ → List ℕ → ℕ
last d [] = d
last d (c ∷ cs) = last c cs

last-append : (d : ℕ) (xs : List ℕ) (y : ℕ) (ys : List ℕ) → last d (xs ++ (y ∷ ys)) ≡ last y ys
unfolding last
last-append d [] y ys = refl
last-append d (x ∷ xs) y ys = last-append x xs y ys

ends_in_t : (s : List ℕ) → last 0 (s ++ dot_parquet) ≡ b't'
ends_in_t s =
    unfold last in last-append 0 s b'.' (b'p' ∷ b'a' ∷ b'r' ∷ b'q' ∷ b'u' ∷ b'e' ∷ b't' ∷ [])

ends_in_p : (s : List ℕ) → last 0 (s ++ (dot_parquet ++ dot_tmp)) ≡ b'p'
ends_in_p s =
    unfold last in last-append 0 s b'.' (b'p' ∷ b'a' ∷ b'r' ∷ b'q' ∷ b'u' ∷ b'e' ∷ b't' ∷ dot_tmp)

not_tmp : (s : List ℕ) → is_tmp (s ++ dot_parquet) ≡ false
unfolding is_tmp
not_tmp s = elim (Option-cases (strip_suffix (dot_parquet ++ dot_tmp) (s ++ dot_parquet))) [
  | inl e ↦ rw (e, is_tmp) refl
  | inr (a, e) ↦
      let same = strip_suffix-some (dot_parquet ++ dot_tmp) (s ++ dot_parquet) a e in
      let clash : b't' ≡ b'p' = sym (ends_in_t s) ∙ ap (last 0) same ∙ ends_in_p a in
      absurd (omega (arith, clash))
]

-- The name of a staged file is a stem with `.parquet`.
stem_of :
    (chunk_time : ℤ) (wal_seq : ℕ)
    → (s : List ℕ) × (staging_name chunk_time wal_seq ≡ s ++ dot_parquet)
unfolding staging_name
stem_of chunk_time wal_seq = elim (Bool-cases (ltb 0 wal_seq)) [
  | inl e ↦ (
    int_text chunk_time ++ (b'_' ∷ nat_text wal_seq),
    rw e (sym (append_assoc (int_text chunk_time) (b'_' ∷ nat_text wal_seq) dot_parquet)),
  )
  | inr e ↦ (int_text chunk_time, rw e refl)
]

name_not_tmp : (chunk_time : ℤ) (wal_seq : ℕ) → is_tmp (staging_name chunk_time wal_seq) ≡ false
name_not_tmp chunk_time wal_seq =
    let (s, shape) = stem_of chunk_time wal_seq in ap is_tmp shape ∙ not_tmp s

-- The file that `staging_save` writes, and the upload that a retry makes of it.
abbrev pub staged : String → String → ℤ → ℕ → List ℕ → StagedFile
staged db table chunk_time wal_seq parquet_data = record {
  db = db;
  table = table;
  name = staging_name chunk_time wal_seq;
  content = some parquet_data;
}

abbrev pub upload_of : String → String → ℤ → ℕ → List ℕ → Upload
upload_of db table chunk_time wal_seq parquet_data = record {
  db = db;
  table = table;
  chunk_time = chunk_time;
  time_min = chunk_time;
  wal_seq = wal_seq;
  parquet_data = parquet_data;
}

pub examine-staged :
    (db table : String) (chunk_time : ℤ) (wal_seq : ℕ) (parquet_data : List ℕ)
    → IsI64 chunk_time
    → IsU64 wal_seq
    → examine (staged db table chunk_time wal_seq parquet_data)
      ≡ offered (upload_of db table chunk_time wal_seq parquet_data)
unfolding examine
examine-staged db table chunk_time wal_seq parquet_data i u =
    rw (name_not_tmp chunk_time wal_seq, examine)
      (rw (parse_staging-staging_name chunk_time wal_seq i u) refl)

pub In-put : (f : StagedFile) (files : List StagedFile) → In f (put f files)
unfolding put
In-put f [] = inl refl
In-put f (g ∷ files) =
    elim (Bool-cases (str_eq g.db f.db && (str_eq g.table f.table && eq_bytes g.name f.name))) [
      | inl e ↦ rw e (inl refl)
      | inr e ↦ rw e (inr (In-put f files))
    ]

module _ (accepts : Upload → Bool) (f : StagedFile) (up : Upload) where
  -- What was sent stays sent, and what stays stays, whatever becomes of another file.
  place_grows :
      (g : StagedFile) (r : Retried) (acc : Round)
      → In up acc.1 ⊎ In f acc.0
      → In up (place accepts g r acc).1 ⊎ In f (place accepts g r acc).0
  unfolding place
  place_grows g reaped acc h = h
  place_grows g kept acc (inl h) = inl h
  place_grows g kept acc (inr h) = inr (inr h)
  place_grows g (offered other) acc h = elim (Bool-cases (accepts other)) [
    | inl e ↦ rw e (elim h [ inl k ↦ inl (inr k) | inr k ↦ inr k ])
    | inr e ↦ rw e (elim h [ inl k ↦ inl k | inr k ↦ inr (inr k) ])
  ]

  place_self :
      (g : StagedFile) (acc : Round)
      → g ≡ f
      → In up (place accepts g (offered up) acc).1 ⊎ In f (place accepts g (offered up) acc).0
  unfolding place
  place_self g acc q = elim (Bool-cases (accepts up)) [
    | inl e ↦ rw e (inl (inl refl))
    | inr e ↦ rw e (inr (inl q))
  ]

  -- A file that names an upload is sent, or it stays.
  sent_or_kept :
      (files : List StagedFile)
      → In f files
      → examine f ≡ offered up
      → In up (retry_staging accepts files).1 ⊎ In f (retry_staging accepts files).0
  unfolding retry_staging
  sent_or_kept [] h e = absurd h
  sent_or_kept (g ∷ files) (inl q) e =
      rw (ap examine q ∙ e) (place_self g (retry_staging accepts files) q)
  sent_or_kept (g ∷ files) (inr h) e =
      place_grows g (examine g) (retry_staging accepts files) (sent_or_kept files h e)

-- A batch that was saved to staging is not lost by a retry: its upload, with the same data, chunk time
-- and WAL sequence number, is among those that the backend accepted, or its file stays for the next
-- round, whatever other files there are.
pub staged_until_delivered :
    (accepts : Upload → Bool) (db table : String) (chunk_time : ℤ) (wal_seq : ℕ)
    (parquet_data : List ℕ) (files : List StagedFile)
    → IsI64 chunk_time
    → IsU64 wal_seq
    → In
        (upload_of db table chunk_time wal_seq parquet_data)
        (retry_staging accepts
          (staging_save saved db table chunk_time wal_seq parquet_data files).0).1
      ⊎ In
          (staged db table chunk_time wal_seq parquet_data)
          (retry_staging accepts
            (staging_save saved db table chunk_time wal_seq parquet_data files).0).0
unfolding staging_save
staged_until_delivered accepts db table chunk_time wal_seq parquet_data files i u =
    sent_or_kept accepts (staged db table chunk_time wal_seq parquet_data)
      (upload_of db table chunk_time wal_seq parquet_data) _
      (In-put (staged db table chunk_time wal_seq parquet_data) files)
      (examine-staged db table chunk_time wal_seq parquet_data i u)
