-- ===== src/Staging/Names.antt =====
-- http_upload.rs and scheduler.rs: the retry reads back what the name of a staged file says.
use iedb.Base.{
  ℕ, suc, ◌+◌, ◌-◌, ◌*◌, ◌≡◌, refl, sym, ◌∙◌, ap, some, List, [], ◌∷◌, ◌++◌, All, arith, ltb,
  ltb-false→le, ℤ, pos, negsuc, IsI64, IsU64, u64_max, eq_bytes, Bool-cases, inl, inr,
}
use mathlib.Core.Path.{subst}
use mathlib.Core.List.{append_assoc}
use iedb.Base.Parse.{parse_magnitude}
use iedb.Base.Text.{digits, nat_text, int_text}
use iedb.Base.Text.Laws.{
  IsDigit, Without, strip_suffix_append, split_once_append, split_once-none, parse_magnitude-digits,
  All-digits, Without-digits, digits_head, parse_i64-int_text,
}
use iedb.Wal.FileName.{parse_u64, parse_digits}
use iedb.Staging.{staging_name, parse_staging, stem_parts, dot_parquet}

same_digits : (acc : ℕ) (l : List ℕ) → parse_digits acc l ≡ parse_magnitude u64_max acc l
unfolding parse_digits parse_magnitude
same_digits acc [] = refl
same_digits acc (c ∷ cs) = rw (same_digits (acc * 10 + (c - 48)) cs) refl

no_sign : (c : ℕ) (cs : List ℕ) → IsDigit c → parse_u64 (c ∷ cs) ≡ parse_digits 0 (c ∷ cs)
unfolding parse_u64 eq_bytes
no_sign c [] h = refl
no_sign c (d ∷ cs) h = ground (arith, h.0)

pub parse_u64-nat_text : (n : ℕ) → IsU64 n → parse_u64 (nat_text n) ≡ some n
parse_u64-nat_text n h =
    let (c, cs, shape) = digits_head 19 n in
    let digit : All IsDigit (c ∷ cs) = subst (All IsDigit) shape (All-digits 20 n) in
    let value = parse_magnitude-digits u64_max 20 n (omega (arith, h)) h (omega arith) in
    rw shape (no_sign c cs digit.0 ∙ same_digits 0 (c ∷ cs) ∙ rw (← shape) value)

no_underscore : (z : ℤ) → Without b'_' (int_text z)
no_underscore (pos n) = Without-digits b'_' (digits 20 n) (omega arith) (All-digits 20 n)
no_underscore (negsuc n) =
    (refl, Without-digits b'_' (digits 20 (suc n)) (omega arith) (All-digits 20 (suc n)))

with_wal :
    (chunk_time : ℤ) (wal_seq : ℕ)
    → IsI64 chunk_time
    → IsU64 wal_seq
    → stem_parts (int_text chunk_time ++ (b'_' ∷ nat_text wal_seq)) ≡ some (chunk_time, wal_seq)
with_wal chunk_time wal_seq i u =
    rw
      (
        split_once_append b'_' (int_text chunk_time) (nat_text wal_seq) (no_underscore chunk_time),
        stem_parts,
      )
      (rw (parse_i64-int_text chunk_time i) (rw (parse_u64-nat_text wal_seq u) refl))

without_wal :
    (chunk_time : ℤ) → IsI64 chunk_time → stem_parts (int_text chunk_time) ≡ some (chunk_time, 0)
without_wal chunk_time i =
    rw (split_once-none b'_' (int_text chunk_time) (no_underscore chunk_time), stem_parts)
      (rw (parse_i64-int_text chunk_time i) refl)

parse_dot : (s : List ℕ) → parse_staging (s ++ dot_parquet) ≡ stem_parts s
unfolding parse_staging
parse_dot s =
    let after_dot : List ℕ = b'p' ∷ b'a' ∷ b'r' ∷ b'q' ∷ b'u' ∷ b'e' ∷ b't' ∷ [] in
    rw (strip_suffix_append s b'.' after_dot, parse_staging) refl

-- The name that `staging_save` gives to a file reads back as its chunk time and its WAL sequence
-- number, for every i64 and every u64, 0 and negative times included.
pub parse_staging-staging_name :
    (chunk_time : ℤ) (wal_seq : ℕ)
    → IsI64 chunk_time
    → IsU64 wal_seq
    → parse_staging (staging_name chunk_time wal_seq) ≡ some (chunk_time, wal_seq)
unfolding staging_name
parse_staging-staging_name chunk_time wal_seq i u = elim (Bool-cases (ltb 0 wal_seq)) [
  | inl e ↦
      let stem = int_text chunk_time ++ (b'_' ∷ nat_text wal_seq) in
      let whole : int_text chunk_time ++ ((b'_' ∷ nat_text wal_seq) ++ dot_parquet)
          ≡ stem ++ dot_parquet =
        sym (append_assoc (int_text chunk_time) (b'_' ∷ nat_text wal_seq) dot_parquet) in
      rw e (ap parse_staging whole ∙ parse_dot stem ∙ with_wal chunk_time wal_seq i u)
  | inr e ↦
      let none_of_it : 0 ≡ wal_seq = omega (arith, ltb-false→le 0 wal_seq e) in
      rw e (
        parse_dot (int_text chunk_time)
        ∙ without_wal chunk_time i
        ∙ ap (λ n. some (chunk_time, n)) none_of_it)
]
