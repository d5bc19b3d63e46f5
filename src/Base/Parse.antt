-- ===== src/Base/Parse.antt =====
-- Rust's `str::parse::<i64>`, on the numbers of the characters.
use Prim.Native.Nat.{ℕ, ◌+◌, ◌-◌, ◌*◌}
use mathlib.Core.Bool.{◌&&◌}
use mathlib.Core.Option.{Option, none, some}
use mathlib.Core.List.{List, [], ◌∷◌}
use package.iedb.Base.Tests.{if◌then◌else◌, leb, ◌==◌}
use package.iedb.Base.Int.{ℤ, pos, negsuc}

-- The digits of `str::parse::<i64>`: no more than `limit`, whose sign is known.
unfoldable pub parse_magnitude : ℕ → ℕ → List ℕ → Option ℕ
parse_magnitude limit acc [] = some acc
parse_magnitude limit acc (c ∷ cs) =
    let acc' = acc * 10 + (c - 48) in
    let rest = parse_magnitude limit acc' cs in
    if leb 48 c && leb c 57 then (if leb acc' limit then rest else none) else none

abbrev pub negated : ℕ → ℤ
negated n = if n == 0 then pos 0 else negsuc (n - 1)

abbrev pub as_pos : Option ℕ → Option ℤ
as_pos none = none
as_pos (some n) = some (pos n)

abbrev pub as_neg : Option ℕ → Option ℤ
as_neg none = none
as_neg (some n) = some (negated n)

-- `str::parse::<i64>`: an optional sign, then at least one digit, and no overflow.
unfoldable pub parse_i64 : List ℕ → Option ℤ
parse_i64 [] = none
parse_i64 (c ∷ []) = as_pos (parse_magnitude 0x7fff_ffff_ffff_ffff 0 (c ∷ []))
parse_i64 (c ∷ d ∷ cs) =
    if c == b'-'
    then as_neg (parse_magnitude 0x8000_0000_0000_0000 0 (d ∷ cs))
    else if c == b'+'
    then as_pos (parse_magnitude 0x7fff_ffff_ffff_ffff 0 (d ∷ cs))
    else as_pos (parse_magnitude 0x7fff_ffff_ffff_ffff 0 (c ∷ d ∷ cs))
