-- ===== src/Chunk/Postings.antt =====
-- chunk.rs, what a tag index holds: the postings of a key and a value are the positions of the rows
-- that carry the value under the key.
use iedb.Base.{
  ℕ, zero, suc, ◌+◌, String, ◌≡◌, refl, ◌≢◌, sym, ◌∙◌, Bool, true, false, Option, none, some, List,
  [], ◌∷◌, ◌++◌, get_elem?, drop, ◌⊎◌, inl, inr, All, option_get_or, arith, str_eq, eq_iff,
  Bool-cases, if◌then◌else◌,
}
use native.Mathlib.Numerals.{add-one}
use mathlib.Core.List.{append-nil, append_assoc}
use iedb.Base.Assoc.{Assoc, get, alter, get-alter, get-nil}
use iedb.Chunk.{Row, Chunk, TagIndex, push_posting, index_tags, index_rows, rebuild_tag_index}
use iedb.Chunk.Schema.{Distinct}

-- `tag_index.get(key).and_then(|vmap| vmap.get(val)).cloned().unwrap_or_default()`
abbrev pub values_at : String → Option (Assoc (List ℕ)) → List ℕ
values_at value none = []
values_at value (some values) = option_get_or [] (get value values)

abbrev pub postings : TagIndex → String → String → List ℕ
postings m key value = values_at value (get key m)

-- The value that a row with these tag values carries under a key.
abbrev pub tag_value : List String → List String → String → Option String
tag_value [] vals key = none
tag_value (k ∷ ks) [] key = none
tag_value (k ∷ ks) (v ∷ vals) key = if str_eq k key then some v else tag_value ks vals key

abbrev pub has_tag : List String → String → String → Row → Bool
has_tag keys key value row = elim (tag_value keys row.tag_values key) [
  | none ↦ false
  | some v ↦ str_eq v value
]

-- The positions, from `idx` on, of the rows that carry the value.
abbrev pub matching : List String → String → String → ℕ → List Row → List ℕ
matching keys key value idx [] = []
matching keys key value idx (row ∷ rows) =
    (if has_tag keys key value row then idx ∷ [] else []) ++ matching keys key value (idx + 1) rows

postings-push :
    (k v : String) (idx : ℕ) (m : TagIndex) (key value : String)
    → postings (push_posting k v idx m) key value
      ≡ postings m key value
        ++ (if str_eq k key then (if str_eq v value then idx ∷ [] else []) else [])
unfolding push_posting
postings-push k v idx m key value =
    let pushed = λ (found : Option (List ℕ)). option_get_or [] found ++ (idx ∷ []) in
    ground (
      arith,
      get-alter k key (λ values. alter v pushed (option_get_or [] values)) m,
      get-alter v value pushed (option_get_or [] (get k m)),
      eq_iff k key,
      eq_iff v value,
      get-nil {V = List ℕ} value,
      append-nil (postings m key value),
    )

-- `index_tags` walks the keys and the values side by side.
zip_tags : List String → List String → ℕ → TagIndex → TagIndex
zip_tags [] vals idx m = m
zip_tags (k ∷ ks) [] idx m = m
zip_tags (k ∷ ks) (v ∷ vals) idx m = zip_tags ks vals idx (push_posting k v idx m)

drop-nil {ℓ} : {A : Type ℓ} (n : ℕ) → drop {A = A} n [] ≡ []
drop-nil zero = refl
drop-nil (suc n) = refl

drop_nil_suc {ℓ} : {A : Type ℓ} (n : ℕ) (xs : List A) → drop n xs ≡ [] → drop (suc n) xs ≡ []
drop_nil_suc n [] e = refl
drop_nil_suc zero (x ∷ xs) e = cc
drop_nil_suc (suc n) (x ∷ xs) e = drop_nil_suc n xs e

zip_tags-nil : (ks : List String) (idx : ℕ) (m : TagIndex) → zip_tags ks [] idx m ≡ m
unfolding zip_tags
zip_tags-nil [] idx m = refl
zip_tags-nil (k ∷ ks) idx m = refl

drop_step {ℓ} :
    {A : Type ℓ} (n : ℕ) (xs : List A)
    → ((get_elem? xs n ≡ none) × (drop n xs ≡ []))
      ⊎ ((x : A) × (get_elem? xs n ≡ some x) × (drop n xs ≡ x ∷ drop (suc n) xs))
drop_step n [] = inl (refl, drop-nil n)
drop_step zero (x ∷ xs) = inr (x, refl, refl)
drop_step (suc n) (x ∷ xs) = drop_step n xs

index_tags-eq-zip :
    (n : ℕ) (keys : List String) (idx : ℕ) (vals : List String) (m : TagIndex)
    → index_tags n keys idx vals m ≡ zip_tags keys (drop n vals) idx m
unfolding index_tags zip_tags
index_tags-eq-zip n [] idx vals m = refl
index_tags-eq-zip n (k ∷ ks) idx vals m = elim (drop_step n vals) [
  | inl (e, d) ↦
      rw (e, d, add-one)
        (index_tags-eq-zip (suc n) ks idx vals m
          ∙ rw (drop_nil_suc n vals d) (zip_tags-nil ks idx m))
  | inr (v, e, d) ↦
      rw (e, d, add-one) (index_tags-eq-zip (suc n) ks idx vals (push_posting k v idx m))
]

-- A key that is not among the keys is under no value.
tag_value-fresh :
    (k : String) (ks vals : List String) → All (λ j. k ≢ j) ks → tag_value ks vals k ≡ none
tag_value-fresh k [] vals h = refl
tag_value-fresh k (j ∷ ks) [] h = refl
tag_value-fresh k (j ∷ ks) (v ∷ vals) h =
    ground (arith, eq_iff j k, tag_value-fresh k ks vals h.1, h.0)

tag_value-key :
    (k key : String) (ks vals : List String)
    → str_eq k key ≡ true
    → All (λ j. k ≢ j) ks
    → tag_value ks vals key ≡ none
tag_value-key k key ks vals e h = rw (sym ((eq_iff k key).0 e)) (tag_value-fresh k ks vals h)

abbrev hit : Option String → String → ℕ → List ℕ
hit none value idx = []
hit (some v) value idx = if str_eq v value then idx ∷ [] else []

postings-zip :
    (ks vals : List String) (idx : ℕ) (m : TagIndex) (key value : String)
    → Distinct ks
    → postings (zip_tags ks vals idx m) key value
      ≡ postings m key value ++ hit (tag_value ks vals key) value idx
unfolding zip_tags
postings-zip [] vals idx m key value d = sym (append-nil _)
postings-zip (k ∷ ks) [] idx m key value d = sym (append-nil _)
postings-zip (k ∷ ks) (v ∷ vals) idx m key value d =
    postings-zip ks vals idx (push_posting k v idx m) key value d.1
    ∙ rw postings-push (elim (Bool-cases (str_eq k key)) [
      | inl e ↦ rw (e, tag_value-key k key ks vals e d.0) (append-nil _)
      | inr e ↦ rw (e, append-nil)
    ])

hit-has_tag :
    (keys : List String) (row : Row) (key value : String) (idx : ℕ)
    → hit (tag_value keys row.tag_values key) value idx
      ≡ (if has_tag keys key value row then idx ∷ [] else [])
hit-has_tag keys row key value idx = ground arith

-- Indexing rows adds to the postings of a key and a value the positions of the rows that carry it.
pub postings-index_rows :
    (keys : List String) (idx : ℕ) (rows : List Row) (m : TagIndex) (key value : String)
    → Distinct keys
    → postings (index_rows keys idx rows m) key value
      ≡ postings m key value ++ matching keys key value idx rows
unfolding index_rows
postings-index_rows keys idx [] m key value d = sym (append-nil _)
postings-index_rows keys idx (row ∷ rows) m key value d =
    postings-index_rows keys (idx + 1) rows (index_tags 0 keys idx row.tag_values m) key value d
    ∙ rw (
      index_tags-eq-zip,
      postings-zip keys row.tag_values idx m key value d,
      append_assoc,
      hit-has_tag,
    )

-- A rebuilt index answers a key and a value with the ascending positions of exactly the rows that
-- carry the value under the key, if no key occurs twice.
pub postings-rebuild :
    (keys : List String) (c : Chunk) (key value : String)
    → Distinct keys
    → postings (rebuild_tag_index keys c).tag_index key value ≡ matching keys key value 0 c.rows
unfolding rebuild_tag_index
postings-rebuild keys c key value d = postings-index_rows keys 0 c.rows [] key value d ∙ rw get-nil
