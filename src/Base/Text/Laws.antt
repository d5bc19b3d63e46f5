-- ===== src/Base/Text/Laws.antt =====
-- Decimal texts read back, and texts that are taken apart give their parts.
use Prim.Native.Nat.{ℕ, zero, suc, ◌+◌, ◌-◌, ◌*◌, ◌/◌, ◌%◌, ◌^◌, ◌≤◌, ◌<◌}
use mathlib.Core.Path.{◌≡◌, refl, ◌∙◌, ap, subst}
use mathlib.Core.Logic.{inl, inr}
use mathlib.Core.Bool.{false}
use mathlib.Core.Option.{none, some}
use mathlib.Core.List.{List, [], ◌∷◌, ◌++◌}
use native.Mathlib.Omega.{arith}
use native.Mathlib.Nat.{pow-succ'}
use package.iedb.Base.Tests.{ltb, ltb→lt, ltb-false→le, ◌==◌, Bool-cases}
use package.iedb.Base.Lists.{length, length-append, All, All-append}
use package.iedb.Base.Int.{ℤ, pos, negsuc, IsI64}
use package.iedb.Base.Bytes.{eq_bytes, eq_bytes_refl, eq_bytes→eq}
use package.iedb.Base.Parse.{parse_magnitude, parse_i64, as_pos, as_neg}
use package.iedb.Base.Text.{digits, int_text, strip_suffix, split_once}

pub strip_suffix_append :
    (s : List ℕ) (x : ℕ) (suffix : List ℕ) → strip_suffix (x ∷ suffix) (s ++ (x ∷ suffix)) ≡ some s
unfolding strip_suffix
strip_suffix_append [] x suffix = rw (eq_bytes_refl (x ∷ suffix)) refl
strip_suffix_append (c ∷ cs) x suffix =
    elim (Bool-cases (eq_bytes (c ∷ (cs ++ (x ∷ suffix))) (x ∷ suffix))) [
      | inl e ↦
          let same = eq_bytes→eq (c ∷ (cs ++ (x ∷ suffix))) (x ∷ suffix) e in
          let sizes : length (c ∷ (cs ++ (x ∷ suffix))) ≡ length (x ∷ suffix) = ap length same in
          absurd (omega (arith, sizes, length-append {0} cs (x ∷ suffix)))
      | inr e ↦ rw e (rw (strip_suffix_append cs x suffix) refl)
    ]

abbrev pub Without : ℕ → List ℕ → Type 0
Without x = All (λ c. (c == x) ≡ false)

pub split_once_append :
    (x : ℕ) (a b : List ℕ) → Without x a → split_once x (a ++ (x ∷ b)) ≡ some (a, b)
unfolding split_once
split_once_append x [] b h = ground arith
split_once_append x (c ∷ a) b h = rw h.0 (rw (split_once_append x a b h.1) refl)

pub split_once-none : (x : ℕ) (a : List ℕ) → Without x a → split_once x a ≡ none
unfolding split_once
split_once-none x [] h = refl
split_once-none x (c ∷ a) h = rw h.0 (rw (split_once-none x a h.1) refl)

parse_magnitude-snoc :
    (limit : ℕ) (xs : List ℕ) (acc d n : ℕ)
    → parse_magnitude limit acc xs ≡ some n
    → d < 10
    → n * 10 + d ≤ limit
    → parse_magnitude limit acc (xs ++ ((48 + d) ∷ [])) ≡ some (n * 10 + d)
unfolding parse_magnitude
parse_magnitude-snoc limit [] acc d n e hd hn = ground arith
parse_magnitude-snoc limit (x ∷ xs) acc d n e hd hn =
    ground (arith, parse_magnitude-snoc limit xs (acc * 10 + (x - 48)) d n)

fuel_left : (fuel n : ℕ) → n < 10 ^ suc fuel → 10 ≤ n → 0 < fuel
fuel_left zero n h big = absurd (omega (arith, h, big))
fuel_left (suc fuel) n h big = omega arith

pub parse_magnitude-digits :
    (limit fuel n : ℕ)
    → n < 10 ^ fuel
    → n ≤ limit
    → 0 < fuel
    → parse_magnitude limit 0 (digits fuel n) ≡ some n
unfolding digits
parse_magnitude-digits limit zero n h k p = absurd (omega (arith, p))
parse_magnitude-digits limit (suc fuel) n h k p = elim (Bool-cases (ltb n 10)) [
  | inl e ↦ rw e (unfold parse_magnitude in ground (arith, ltb→lt n 10 e))
  | inr e ↦
      let big = ltb-false→le n 10 e in
      let pow : 10 ^ suc fuel ≡ 10 * 10 ^ fuel = pow-succ' 10 fuel in
      let some_fuel : 0 < fuel = fuel_left fuel n h big in
      rw e (
        parse_magnitude-snoc limit (digits fuel (n / 10)) 0 (n % 10) (n / 10)
          (parse_magnitude-digits limit fuel (n / 10) (omega (arith, pow, h)) (omega (arith, k))
            some_fuel)
          (omega arith) (omega (arith, k))
        ∙ ap some (omega arith))
]

abbrev pub IsDigit : ℕ → Type 0
IsDigit c = (48 ≤ c) × (c ≤ 57)

pub All-digits : (fuel n : ℕ) → All IsDigit (digits fuel n)
unfolding digits
All-digits zero n = tt
All-digits (suc fuel) n = elim (Bool-cases (ltb n 10)) [
  | inl e ↦ rw e ((omega arith, omega (arith, ltb→lt n 10 e)), tt)
  | inr e ↦ rw e (
      All-append IsDigit (digits fuel (n / 10)) _ (All-digits fuel (n / 10))
        ((omega arith, omega arith), tt))
]

pub Without-digits : (x : ℕ) (l : List ℕ) → 57 < x → All IsDigit l → Without x l
Without-digits x [] h k = tt
Without-digits x (c ∷ l) h k = (ground (arith, k.0.1), Without-digits x l h k.1)

snoc_head : (xs : List ℕ) (y : ℕ) → (c : ℕ) × (cs : List ℕ) × (xs ++ (y ∷ []) ≡ c ∷ cs)
snoc_head [] y = (y, [], refl)
snoc_head (x ∷ xs) y = (x, xs ++ (y ∷ []), refl)

pub digits_head : (fuel n : ℕ) → (c : ℕ) × (cs : List ℕ) × (digits (suc fuel) n ≡ c ∷ cs)
unfolding digits
digits_head fuel n = elim (Bool-cases (ltb n 10)) [
  | inl e ↦ (48 + n, [], rw e refl)
  | inr e ↦
      let (c, cs, shape) = snoc_head (digits fuel (n / 10)) (48 + n % 10) in (c, cs, rw e shape)
]

unsigned :
    (c : ℕ) (cs : List ℕ)
    → IsDigit c
    → parse_i64 (c ∷ cs) ≡ as_pos (parse_magnitude 0x7fff_ffff_ffff_ffff 0 (c ∷ cs))
unfolding parse_i64
unsigned c [] h = refl
unsigned c (d ∷ cs) h = ground (arith, h.0)

negative :
    (c : ℕ) (cs : List ℕ)
    → parse_i64 (b'-' ∷ c ∷ cs) ≡ as_neg (parse_magnitude 0x8000_0000_0000_0000 0 (c ∷ cs))
unfolding parse_i64
negative c cs = refl

-- An i64 reads back from its text.
pub parse_i64-int_text : (z : ℤ) → IsI64 z → parse_i64 (int_text z) ≡ some z
parse_i64-int_text (pos n) h =
    let (c, cs, shape) = digits_head 19 n in
    let digit : All IsDigit (c ∷ cs) = subst (All IsDigit) shape (All-digits 20 n) in
    let value =
      parse_magnitude-digits 0x7fff_ffff_ffff_ffff 20 n (omega (arith, h.1)) (omega (arith, h.1))
        (omega arith) in
    rw shape (unsigned c cs digit.0 ∙ rw (← shape) (rw value refl))
parse_i64-int_text (negsuc n) h =
    let (c, cs, shape) = digits_head 19 (suc n) in
    let value =
      parse_magnitude-digits 0x8000_0000_0000_0000 20 (suc n) (omega (arith, h.0))
        (omega (arith, h.0)) (omega arith) in
    rw shape (negative c cs ∙ rw (← shape) (rw value (ap some (ground arith))))
