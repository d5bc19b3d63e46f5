-- ===== src/Base/Assoc.antt =====
-- Rust's `HashMap` with string keys, as an association list. A new key goes to the end; the order
-- in which the program iterates over a map is not specified, and no theorem depends on it.
use mathlib.Core.Path.{◌≡◌, refl}
use mathlib.Core.Option.{Option, none, some}
use mathlib.Core.List.{List, [], ◌∷◌}
use mathlib.Core.Logic.{◌≢◌}
use native.Mathlib.Omega.{arith}
use Prim.Native.String.{String}
use text.Mathlib.Text.{◌==◌}
use text.Mathlib.TextEquality.{eq_iff}
use text.Mathlib.TextPositions.{eq_refl}
use package.iedb.Base.Tests.{if◌then◌else◌}

abbrev pub Assoc {ℓ} : Type ℓ → Type ℓ
Assoc V = List (String × V)

module _ {ℓ} {V : Type ℓ} where
  -- `map.get(k)`
  unfoldable pub get : String → Assoc V → Option V
  get k [] = none
  get k ((j, v) ∷ m) = if j == k then some v else get k m

  -- `map.entry(k)`, followed by what the caller does with the entry: `f` is given the old value.
  unfoldable pub alter : String → (Option V → V) → Assoc V → Assoc V
  alter k f [] = (k, f none) ∷ []
  alter k f ((j, v) ∷ m) = if j == k then (j, f (some v)) ∷ m else (j, v) ∷ alter k f m

  -- `map.get_mut(k)`, followed by a change of the value in place.
  unfoldable pub modify : String → (V → V) → Assoc V → Assoc V
  modify k f [] = []
  modify k f ((j, v) ∷ m) = if j == k then (j, f v) ∷ m else (j, v) ∷ modify k f m

  pub get-alter :
      (k j : String) (f : Option V → V) (m : Assoc V)
      → get j (alter k f m) ≡ (if k == j then some (f (get k m)) else get j m)
  unfolding get alter
  get-alter k j f [] = ground (arith, eq_iff k j)
  get-alter k j f ((i, v) ∷ m) =
      ground (arith, eq_iff i k, eq_iff i j, eq_iff k j, get-alter k j f m)

  pub get-alter_self :
      (k : String) (f : Option V → V) (m : Assoc V) → get k (alter k f m) ≡ some (f (get k m))
  get-alter_self k f m = simp (get-alter, eq_refl)

  pub get-alter_ne :
      (k j : String) (f : Option V → V) (m : Assoc V) → k ≢ j → get j (alter k f m) ≡ get j m
  get-alter_ne k j f m h = ground (arith, get-alter k j f m, eq_iff k j)

pub get-nil {ℓ} : {V : Type ℓ} (k : String) → get {V = V} k [] ≡ none
unfolding get
get-nil k = refl
