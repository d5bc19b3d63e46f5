-- ===== src/Tests/Codec.antt =====
-- Codecs into lists of numbers: the ways to build the one that stands in for `bitcode`.
pub mod Contents
use iedb.Base.{
  ℕ, zero, suc, String, ◌≡◌, refl, sym, ◌∙◌, ap, Bool, true, false, Option, none, some, List, [],
  ◌∷◌, ◌++◌, length, ℤ, pos, negsuc, ◌⊎◌, inl, inr, ◌<◌, ◌^◌,
}
use mathlib.Core.List.{append-nil, append_assoc}
use Prim.Native.Nat.{Ordering, compare}
use Prim.Native.Char.{Char, char, code, IsLt, IsScalar}
use Prim.Native.String as S
use text.Mathlib.TextEquality.{IsScalar-prop}
use iedb.Chunk.{FieldValue, Row}
use iedb.Wal.{WriteBatch, WalOp, write, noop, WalContents}
use iedb.Wal.Serialize
use iedb.Wal.Serialize.Laws.{deserialize-serialize}
use iedb.Wal.Manager.Replay.{ReadsBack}

pub record Codec (A : Type 0) : Type 0 where
  pub enc : A → List ℕ
  pub dec : List ℕ → Option (A × List ℕ)
  pub law : (a : A) (rest : List ℕ) → dec (enc a ++ rest) ≡ some (a, rest)

module _ {A B : Type 0} where
  pub via : (f : A → B) (g : B → A) → ((a : A) → g (f a) ≡ a) → Codec B → Codec A
  via f g inverse cb = record {
    enc = λ a. cb.enc (f a);
    dec = λ l. elim (cb.dec l) [ none ↦ none | some (b, rest) ↦ some (g b, rest) ];
    law = λ a rest. rw (cb.law (f a) rest) (ap (λ x. some (x, rest)) (inverse a));
  }

  abbrev dec_sum : Codec A → Codec B → List ℕ → Option ((A ⊎ B) × List ℕ)
  dec_sum ca cb [] = none
  dec_sum ca cb (zero ∷ l) = elim (ca.dec l) [ none ↦ none | some (a, rest) ↦ some (inl a, rest) ]
  dec_sum ca cb (suc n ∷ l) = elim (cb.dec l) [ none ↦ none | some (b, rest) ↦ some (inr b, rest) ]

  abbrev enc_sum : Codec A → Codec B → A ⊎ B → List ℕ
  enc_sum ca cb (inl a) = zero ∷ ca.enc a
  enc_sum ca cb (inr b) = suc zero ∷ cb.enc b

  law_sum :
      (ca : Codec A) (cb : Codec B) (x : A ⊎ B) (rest : List ℕ)
      → dec_sum ca cb (enc_sum ca cb x ++ rest) ≡ some (x, rest)
  law_sum ca cb (inl a) rest = rw (ca.law a rest) refl
  law_sum ca cb (inr b) rest = rw (cb.law b rest) refl

  pub sum_codec : Codec A → Codec B → Codec (A ⊎ B)
  sum_codec ca cb = record { enc = enc_sum ca cb; dec = dec_sum ca cb; law = law_sum ca cb }

  abbrev dec_pair : Codec A → Codec B → List ℕ → Option ((A × B) × List ℕ)
  dec_pair ca cb l = elim (ca.dec l) [
    | none ↦ none
    | some (a, l') ↦ elim (cb.dec l') [ none ↦ none | some (b, rest) ↦ some ((a, b), rest) ]
  ]

  law_pair :
      (ca : Codec A) (cb : Codec B) (x : A × B) (rest : List ℕ)
      → dec_pair ca cb ((ca.enc x.0 ++ cb.enc x.1) ++ rest) ≡ some (x, rest)
  law_pair ca cb (a, b) rest =
      rw (append_assoc (ca.enc a) (cb.enc b) rest)
        (rw (ca.law a (cb.enc b ++ rest), dec_pair) (rw (cb.law b rest) refl))

  pub pair_codec : Codec A → Codec B → Codec (A × B)
  pair_codec ca cb = record {
    enc = λ x. ca.enc x.0 ++ cb.enc x.1;
    dec = dec_pair ca cb;
    law = law_pair ca cb;
  }

module _ {A : Type 0} (ca : Codec A) where
  abbrev enc_all : List A → List ℕ
  enc_all [] = []
  enc_all (a ∷ xs) = ca.enc a ++ enc_all xs

  abbrev dec_all : ℕ → List ℕ → Option (List A × List ℕ)
  dec_all zero l = some ([], l)
  dec_all (suc n) l = elim (ca.dec l) [
    | none ↦ none
    | some (a, l') ↦ elim (dec_all n l') [ none ↦ none | some (xs, rest) ↦ some (a ∷ xs, rest) ]
  ]

  law_all :
      (xs : List A) (rest : List ℕ) → dec_all (length xs) (enc_all xs ++ rest) ≡ some (xs, rest)
  law_all [] rest = refl
  law_all (a ∷ xs) rest =
      rw (append_assoc (ca.enc a) (enc_all xs) rest, ca.law a (enc_all xs ++ rest), law_all xs rest)
        refl

  abbrev dec_list : List ℕ → Option (List A × List ℕ)
  dec_list [] = none
  dec_list (n ∷ l) = dec_all n l

  pub list_codec : Codec (List A)
  list_codec = record { enc = λ xs. length xs ∷ enc_all xs; dec = dec_list; law = law_all }

abbrev dec_nat : List ℕ → Option (ℕ × List ℕ)
dec_nat [] = none
dec_nat (n ∷ l) = some (n, l)

pub nat_codec : Codec ℕ
nat_codec = record { enc = λ n. n ∷ []; dec = dec_nat; law = λ n rest. refl }

pub unit_codec : Codec (Unit {0})
unit_codec = record { enc = λ _. []; dec = λ l. some (tt, l); law = λ _ rest. refl }

abbrev of_bool : Bool → Unit {0} ⊎ Unit {0}
of_bool true = inl tt
of_bool false = inr tt

abbrev to_bool : Unit {0} ⊎ Unit {0} → Bool
to_bool (inl _) = true
to_bool (inr _) = false

to_bool-of_bool : (b : Bool) → to_bool (of_bool b) ≡ b
to_bool-of_bool true = refl
to_bool-of_bool false = refl

pub bool_codec : Codec Bool
bool_codec = via of_bool to_bool to_bool-of_bool (sum_codec unit_codec unit_codec)

abbrev BothLt : Ordering → Ordering → Type 0
BothLt Ordering.lt o = IsLt o
BothLt Ordering.eq _ = ⊥
BothLt Ordering.gt _ = ⊥

abbrev IsScalarAt : Ordering → Ordering → Ordering → Type 0
IsScalarAt Ordering.lt _ _ = Unit
IsScalarAt Ordering.eq o p = BothLt o p
IsScalarAt Ordering.gt o p = BothLt o p

dec_IsLt : (o : Ordering) → Dec (IsLt o)
dec_IsLt Ordering.lt = yes tt
dec_IsLt Ordering.eq = no (λ h. h)
dec_IsLt Ordering.gt = no (λ h. h)

dec_both_lt : (o p : Ordering) → Dec (BothLt o p)
dec_both_lt Ordering.lt p = dec_IsLt p
dec_both_lt Ordering.eq p = no (λ h. h)
dec_both_lt Ordering.gt p = no (λ h. h)

dec_IsScalarAt : (o p q : Ordering) → Dec (IsScalarAt o p q)
dec_IsScalarAt Ordering.lt p q = yes tt
dec_IsScalarAt Ordering.eq p q = dec_both_lt p q
dec_IsScalarAt Ordering.gt p q = dec_both_lt p q

dec_IsScalar : (n : ℕ) → Dec (IsScalar n)
dec_IsScalar n = dec_IsScalarAt (compare n 55296) (compare 57343 n) (compare n 1114112)

abbrev char_or_nul : (n : ℕ) → Dec (IsScalar n) → Char
char_or_nul n (yes p) = char n p
char_or_nul n (no _) = char 0 tt

char_of_code : (c : Char) → char_or_nul (code c) (dec_IsScalar (code c)) ≡ c
char_of_code (char n p) = elim (dec_IsScalar n) as (λ d. char_or_nul n d ≡ char n p) [
  | yes q ↦ ap (char n) (IsScalar-prop n q p)
  | no h ↦ absurd (h p)
]

abbrev char_codec : Codec Char
char_codec = via code (λ n. char_or_nul n (dec_IsScalar n)) char_of_code nat_codec

abbrev chars : String → List Char
chars S.String.[] = []
chars (S.String.◌∷◌ c s) = c ∷ chars s

abbrev from_chars : List Char → String
from_chars [] = S.String.[]
from_chars (c ∷ cs) = S.String.◌∷◌ c (from_chars cs)

from_chars-chars : (s : String) → from_chars (chars s) ≡ s
from_chars-chars S.String.[] = refl
from_chars-chars (S.String.◌∷◌ c s) = ap (λ t. S.String.◌∷◌ c t) (from_chars-chars s)

pub string_codec : Codec String
string_codec = via chars from_chars from_chars-chars (list_codec char_codec)
