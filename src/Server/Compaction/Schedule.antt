-- ===== src/Server/Compaction/Schedule.antt =====
-- compaction.rs, `parse_schedule_hours` and the interval of `run`: the hours of a schedule such as
-- "0 */6 * * *".
use iedb.Base.{
  ℕ, ◌*◌, ◌%◌, ◌≡◌, refl, sym, ◌∙◌, ap, false, List, [], ◌∷◌, ◌++◌, if◌then◌else◌, arith, drop,
  is_empty, option_get_or, All, IsU64,
}
use mathlib.Core.List.{append_assoc, append-nil}
use iedb.Base.Text.{nat_text}
use iedb.Base.Text.Codes.{Chars, codes, starts_with}
use iedb.Base.Text.Laws.{IsDigit, All-digits}
use iedb.HotConfig.{is_whitespace}
use iedb.Wal.FileName.{parse_u64}
use iedb.Staging.Names.{parse_u64-nat_text}

-- `s.split_whitespace()`, with the word that has begun.
unfoldable pub split_words : Chars → Chars → List Chars
split_words word [] = if is_empty word then [] else word ∷ []
split_words word (c ∷ cs) =
    let fresh = split_words [] cs in
    let longer = split_words (word ++ (c ∷ [])) cs in
    if is_whitespace c then (if is_empty word then fresh else word ∷ fresh) else longer

unfoldable pub first_hours : List Chars → ℕ
first_hours [] = 6
first_hours (part ∷ parts) =
    if starts_with (codes "*/") part
    then option_get_or 6 (parse_u64 (drop 2 part))
    else first_hours parts

unfoldable pub parse_schedule_hours : Chars → ℕ
parse_schedule_hours schedule = first_hours (split_words [] schedule)

-- `from_secs((hours * 3600) as u64)`, as a release build computes it.
unfoldable pub interval_secs : Chars → ℕ
interval_secs schedule = (parse_schedule_hours schedule * 3600) % 0x1_0000_0000_0000_0000

abbrev pub Solid : Chars → Type 0
Solid = All (λ c. is_whitespace c ≡ false)

-- A word ends at the blank behind it.
split_words_append :
    (word : Chars) (a rest : Chars)
    → Solid a
    → is_empty (word ++ a) ≡ false
    → split_words word (a ++ (b' ' ∷ rest)) ≡ (word ++ a) ∷ split_words [] rest
unfolding split_words
split_words_append word [] rest h e =
    let whole = append-nil word in
    rw (ap is_empty (sym whole) ∙ e) (ap (λ w. w ∷ split_words [] rest) (sym whole))
split_words_append word (c ∷ a) rest h e =
    let moved = append_assoc word (c ∷ []) a in
    rw h.0 (
      split_words_append (word ++ (c ∷ [])) a rest h.1 (ap is_empty moved ∙ e)
      ∙ ap (λ w. w ∷ split_words [] rest) moved)

digits-Solid : (l : List ℕ) → All IsDigit l → Solid l
digits-Solid [] h = tt
digits-Solid (c ∷ l) h = (ground (arith, h.0.0, h.0.1), digits-Solid l h.1)

-- A schedule with a first field that is not of the form */N, and the second field */N, runs every N
-- hours, for every N of a u64, 0 included.
pub parse_schedule_hours_lem :
    (minute rest : Chars) (hours : ℕ)
    → Solid minute
    → is_empty minute ≡ false
    → starts_with (codes "*/") minute ≡ false
    → IsU64 hours
    → parse_schedule_hours (minute ++ (b' ' ∷ (b'*' ∷ b'/' ∷ (nat_text hours ++ (b' ' ∷ rest)))))
      ≡ hours
unfolding parse_schedule_hours
parse_schedule_hours_lem minute rest hours solid some_text plain u =
    let field : Chars = b'*' ∷ b'/' ∷ nat_text hours in
    let words =
      split_words_append [] minute (b'*' ∷ b'/' ∷ (nat_text hours ++ (b' ' ∷ rest))) solid some_text
      ∙ ap (λ ws. minute ∷ ws)
          (split_words_append [] field rest
            (refl, (refl, digits-Solid (nat_text hours) (All-digits 20 hours))) refl) in
    ap first_hours words
    ∙ unfold first_hours starts_with in rw plain (rw (parse_u64-nat_text hours u) refl)
