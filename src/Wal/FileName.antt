-- ===== src/Wal/FileName.antt =====
-- wal_core.rs: the name of a WAL file, `format!("{:020}.wal", seq)`, and how it is read back,
-- `strip_suffix(".wal")` and `parse::<u64>()`. A name is its list of bytes.
use iedb.Base.{
  ℕ, zero, suc, ◌+◌, ◌-◌, ◌*◌, ◌/◌, ◌%◌, ◌^◌, ◌≤◌, ◌<◌, ◌≡◌, refl, ◌∙◌, ap, ◌&&◌, Option, none,
  some, List, [], ◌∷◌, ◌++◌, length, length-append, arith, leb, if◌then◌else◌, u64_max, IsU64,
  eq_bytes, eq_bytes→eq, Bool-cases, inl, inr,
}
use native.Mathlib.Nat.{pow-succ'}
use mathlib.Core.Option

abbrev pub dot_wal : List ℕ
dot_wal = b'.' ∷ b'w' ∷ b'a' ∷ b'l' ∷ []

-- The last `width` decimal digits, with leading zeros: a u64 has at most 20.
unfoldable pub padded : ℕ → ℕ → List ℕ
padded zero n = []
padded (suc width) n = padded width (n / 10) ++ ((48 + n % 10) ∷ [])

unfoldable pub wal_file_name : ℕ → List ℕ
wal_file_name seq = padded 20 seq ++ dot_wal

-- `name.strip_suffix(".wal")`
unfoldable pub strip_wal : List ℕ → Option (List ℕ)
strip_wal [] = none
strip_wal (c ∷ cs) =
    let rest = strip_wal cs in
    if eq_bytes (c ∷ cs) dot_wal then some [] else Option.map (λ s. c ∷ s) rest

unfoldable pub parse_digits : ℕ → List ℕ → Option ℕ
parse_digits acc [] = some acc
parse_digits acc (c ∷ cs) =
    let acc' = acc * 10 + (c - 48) in
    let rest = parse_digits acc' cs in
    if leb 48 c && leb c 57 then (if leb acc' u64_max then rest else none) else none

-- `str::parse::<u64>`: an optional `+`, then at least one digit, and no overflow.
unfoldable pub parse_u64 : List ℕ → Option ℕ
parse_u64 [] = none
parse_u64 (c ∷ []) = parse_digits 0 (c ∷ [])
parse_u64 (c ∷ d ∷ cs) =
    let unsigned = parse_digits 0 (c ∷ d ∷ cs) in
    let signed = parse_digits 0 (d ∷ cs) in
    if eq_bytes (c ∷ []) (b'+' ∷ []) then signed else unsigned

unfoldable pub file_seq : List ℕ → Option ℕ
file_seq name = elim (strip_wal name) [ none ↦ none | some s ↦ parse_u64 s ]

strip_wal_name : (s : List ℕ) → strip_wal (s ++ dot_wal) ≡ some s
unfolding strip_wal eq_bytes
strip_wal_name [] = refl
strip_wal_name (c ∷ cs) = elim (Bool-cases (eq_bytes (c ∷ (cs ++ dot_wal)) dot_wal)) [
  | inl e ↦
      let same : c ∷ (cs ++ dot_wal) ≡ dot_wal = eq_bytes→eq (c ∷ (cs ++ dot_wal)) dot_wal e in
      let sizes : length (c ∷ (cs ++ dot_wal)) ≡ length dot_wal = ap length same in
      absurd (omega (arith, sizes, length-append {0} cs dot_wal))
  | inr e ↦ rw (e, strip_wal) (rw (strip_wal_name cs))
]

parse_digits-snoc :
    (xs : List ℕ) (acc d n : ℕ)
    → parse_digits acc xs ≡ some n
    → d < 10
    → n * 10 + d ≤ u64_max
    → parse_digits acc (xs ++ ((48 + d) ∷ [])) ≡ some (n * 10 + d)
unfolding parse_digits
parse_digits-snoc [] acc d n e hd hn = ground arith
parse_digits-snoc (x ∷ xs) acc d n e hd hn =
    ground (arith, parse_digits-snoc xs (acc * 10 + (x - 48)) d n)

parse_digits-padded :
    (w acc n : ℕ)
    → n < 10 ^ w
    → acc * 10 ^ w + n ≤ u64_max
    → parse_digits acc (padded w n) ≡ some (acc * 10 ^ w + n)
unfolding padded
parse_digits-padded zero acc n h k = unfold parse_digits in ap some (omega arith)
parse_digits-padded (suc w) acc n h k =
    let p : 10 ^ suc w ≡ 10 * 10 ^ w = pow-succ' 10 w in
    let bound : acc * 10 ^ w + n / 10 ≤ u64_max = omega (arith, ap (λ (t : ℕ). acc * t) p) in
    parse_digits-snoc (padded w (n / 10)) acc (n % 10) (acc * 10 ^ w + n / 10)
      (parse_digits-padded w acc (n / 10) (omega (arith, p)) bound) (omega arith)
      (omega (arith, ap (λ (t : ℕ). acc * t) p))
    ∙ ap some (omega (arith, ap (λ (t : ℕ). acc * t) p))

-- A padded number starts with a digit, so it is not taken for a sign.
not_a_sign : (d : ℕ) (cs : List ℕ) → parse_u64 ((48 + d) ∷ cs) ≡ parse_digits 0 ((48 + d) ∷ cs)
unfolding parse_u64 eq_bytes
not_a_sign d [] = refl
not_a_sign d (c ∷ cs) = ground arith

padded_head : (w n : ℕ) → (d : ℕ) × (cs : List ℕ) × (padded (suc w) n ≡ (48 + d) ∷ cs)
unfolding padded
padded_head zero n = (n % 10, [], refl)
padded_head (suc w) n =
    let (d, cs, e) = padded_head w (n / 10) in (d, cs ++ ((48 + n % 10) ∷ []), rw e)

parse_u64-padded : (n : ℕ) → IsU64 n → parse_u64 (padded 20 n) ≡ some n
parse_u64-padded n h =
    let (d, cs, e) = padded_head 19 n in
    let digits : parse_digits 0 (padded 20 n) ≡ some (0 * 10 ^ 20 + n) =
      parse_digits-padded 20 0 n (omega arith) (omega arith) in
    rw e (not_a_sign d cs ∙ rw (← e) (digits ∙ ap some (omega arith)))

-- The name that the WAL manager gives to a file reads back as the file's sequence number, for every
-- u64.
pub file_seq-wal_file_name : (seq : ℕ) → IsU64 seq → file_seq (wal_file_name seq) ≡ some seq
unfolding file_seq wal_file_name
file_seq-wal_file_name seq h =
    rw (strip_wal_name (padded 20 seq), file_seq) (parse_u64-padded seq h)
