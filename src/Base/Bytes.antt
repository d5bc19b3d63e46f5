-- ===== src/Base/Bytes.antt =====
-- Byte strings: lists of numbers, compared element by element.
use Prim.Native.Nat.{ℕ}
use mathlib.Core.Path.{◌≡◌, refl, ap₂}
use mathlib.Core.Bool.{Bool, true, false, ◌&&◌}
use mathlib.Core.List.{List, [], ◌∷◌}
use native.Mathlib.Omega.{arith}
use package.iedb.Base.Tests.{◌==◌}

unfoldable pub eq_bytes : List ℕ → List ℕ → Bool
eq_bytes [] [] = true
eq_bytes [] (y ∷ ys) = false
eq_bytes (x ∷ xs) [] = false
eq_bytes (x ∷ xs) (y ∷ ys) = (x == y) && eq_bytes xs ys

pub eq_bytes_refl : (xs : List ℕ) → eq_bytes xs xs ≡ true
unfolding eq_bytes
eq_bytes_refl [] = refl
eq_bytes_refl (x ∷ xs) = ground (arith, eq_bytes_refl xs)

pub eq_bytes→eq : (xs ys : List ℕ) → eq_bytes xs ys ≡ true → xs ≡ ys
unfolding eq_bytes
eq_bytes→eq [] [] e = refl
eq_bytes→eq [] (y ∷ ys) e = cc
eq_bytes→eq (x ∷ xs) [] e = cc
eq_bytes→eq (x ∷ xs) (y ∷ ys) e =
    ap₂ (λ a l. a ∷ l) (ground arith) (eq_bytes→eq xs ys (ground arith))
