-- ===== src/Base/Text.antt =====
-- Decimal texts and the operations of `str` that the program takes names apart with, on the numbers of
-- the characters.
pub mod Laws
pub mod Codes
use Prim.Native.Nat.{ℕ, zero, suc, ◌+◌, ◌/◌, ◌%◌}
use mathlib.Core.Path.{◌≡◌, refl}
use mathlib.Core.Bool.{Bool, true, false}
use mathlib.Core.Option.{Option, none, some}
use mathlib.Core.List.{List, [], ◌∷◌, ◌++◌}
use package.iedb.Base.Tests.{if◌then◌else◌, ltb, ◌==◌}
use package.iedb.Base.Int.{ℤ, pos, negsuc}
use package.iedb.Base.Bytes.{eq_bytes}

-- The decimal digits of a number below 10 ^ fuel.
unfoldable pub digits : ℕ → ℕ → List ℕ
digits zero n = []
digits (suc fuel) n =
    let front = digits fuel (n / 10) in
    if ltb n 10 then (48 + n) ∷ [] else front ++ ((48 + n % 10) ∷ [])

-- `format!("{}", n)` of a u64 and an i64, which have at most 20 digits.
abbrev pub nat_text : ℕ → List ℕ
nat_text n = digits 20 n

abbrev pub int_text : ℤ → List ℕ
int_text (pos n) = digits 20 n
int_text (negsuc n) = b'-' ∷ digits 20 (suc n)

-- `s.strip_suffix(suffix)`, for a suffix that is not empty.
unfoldable pub strip_suffix : List ℕ → List ℕ → Option (List ℕ)
strip_suffix suffix [] = none
strip_suffix suffix (c ∷ cs) =
    let rest = strip_suffix suffix cs in
    if eq_bytes (c ∷ cs) suffix then some [] else elim rest [ none ↦ none | some s ↦ some (c ∷ s) ]

-- `s.split_once(x)`
unfoldable pub split_once : ℕ → List ℕ → Option (List ℕ × List ℕ)
split_once x [] = none
split_once x (c ∷ cs) =
    let rest = split_once x cs in
    if c == x then some ([], cs) else elim rest [ none ↦ none | some (a, b) ↦ some (c ∷ a, b) ]
