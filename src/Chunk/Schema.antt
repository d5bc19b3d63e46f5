-- ===== src/Chunk/Schema.antt =====
-- chunk.rs, `TableSchema`: what `ensure_field` and `ensure_tag_key` return, and that neither stores
-- a name twice.
use iedb.Base.{
  ℕ, zero, suc, ◌-◌, ◌<◌, String, ◌≡◌, refl, ◌≢◌, none, some, List, [], ◌∷◌, ◌++◌, map, length,
  get_elem?, position, All, All-append, Option-cases, arith, str_eq, eq_iff, length-append, ap, inl,
  inr,
}
use iedb.Chunk.{FieldType, FieldDef, TableSchema, ensure_field, ensure_tag_key}

-- No name occurs twice.
abbrev pub Distinct : List String → Type 0
Distinct [] = Unit {0}
Distinct (k ∷ ks) = All (λ j. k ≢ j) ks × Distinct ks

-- `position` finds an element with the name, and answers `none` when there is none.
position-none :
    {A : Type 0} (name : A → String) (k : String) (xs : List A)
    → position (λ x. str_eq (name x) k) xs ≡ none
    → All (λ j. j ≢ k) (map name xs)
position-none name k [] e = tt
position-none name k (x ∷ xs) e =
    (ground (arith, eq_iff (name x) k), position-none name k xs (ground arith))

pub position-some :
    {A : Type 0} (name : A → String) (k : String) (xs : List A) {i : ℕ}
    → position (λ x. str_eq (name x) k) xs ≡ some i
    → (get_elem? (map name xs) i ≡ some k) × (i < length xs)
position-some name k [] e = cc
position-some name k (x ∷ xs) {i = zero} e = (ground (arith, eq_iff (name x) k), omega arith)
position-some name k (x ∷ xs) {i = suc i} e =
    let (found, below) = position-some name k xs {i = i} (ground arith) in (found, omega arith)

Distinct-snoc :
    (k : String) (ks : List String) → Distinct ks → All (λ j. j ≢ k) ks → Distinct (ks ++ (k ∷ []))
Distinct-snoc k [] d h = (tt, tt)
Distinct-snoc k (j ∷ ks) d h = (All-append _ ks (k ∷ []) d.0 (h.0, tt), Distinct-snoc k ks d.1 h.1)

get_elem?-append_left {ℓ} :
    {A : Type ℓ} (xs ys : List A) (i : ℕ) {a : A}
    → get_elem? xs i ≡ some a
    → get_elem? (xs ++ ys) i ≡ some a
get_elem?-append_left [] ys i e = cc
get_elem?-append_left (x ∷ xs) ys zero e = e
get_elem?-append_left (x ∷ xs) ys (suc i) e = get_elem?-append_left xs ys i e

get_elem?-snoc :
    {A : Type 0} (f : A → String) (xs : List A) (k : String)
    → get_elem? (map f xs ++ (k ∷ [])) (length xs) ≡ some k
get_elem?-snoc f [] k = refl
get_elem?-snoc f (x ∷ xs) k = get_elem?-snoc f xs k

last_index {ℓ} : {A : Type ℓ} (xs : List A) (a : A) → length (xs ++ (a ∷ [])) - 1 ≡ length xs
last_index xs a = omega (arith, length-append {ℓ} xs (a ∷ []))

map-snoc :
    {A : Type 0} (f : A → String) (xs : List A) (a : A)
    → map f (xs ++ (a ∷ [])) ≡ map f xs ++ (f a ∷ [])
map-snoc f [] a = refl
map-snoc f (x ∷ xs) a = ap (λ l. f x ∷ l) (map-snoc f xs a)

-- What a change of a list of named entries keeps: every old entry stands where it stood, and the
-- entry at the returned index has the name.
abbrev pub IsEnsured : {A : Type 0} → (A → String) → String → List A → List A → ℕ → Type 0
IsEnsured {A} name k old new i =
    (get_elem? (map name new) i ≡ some k)
    × ((j : ℕ) (a : A) → get_elem? old j ≡ some a → get_elem? new j ≡ some a)
    × (Distinct (map name old) → Distinct (map name new))

found-IsEnsured :
    {A : Type 0} (name : A → String) (k : String) (xs : List A) {i : ℕ}
    → position (λ x. str_eq (name x) k) xs ≡ some i
    → IsEnsured name k xs xs i
found-IsEnsured name k xs e = ((position-some name k xs e).0, λ j a h. h, λ d. d)

added-IsEnsured :
    {A : Type 0} (name : A → String) (x : A) (xs : List A)
    → position (λ y. str_eq (name y) (name x)) xs ≡ none
    → IsEnsured name (name x) xs (xs ++ (x ∷ [])) (length (xs ++ (x ∷ [])) - 1)
added-IsEnsured name x xs e = (
  rw (last_index, map-snoc) (get_elem?-snoc name xs (name x)),
  λ j a h. get_elem?-append_left xs (x ∷ []) j h,
  λ d. rw map-snoc (Distinct-snoc (name x) (map name xs) d (position-none name (name x) xs e)),
)

-- `ensure_field` returns an index at which the schema has a field of that name, moves and changes no
-- field that was there, and keeps the field names distinct.
pub ensure_field_lem :
    (name : String) (ty : FieldType) (s : TableSchema)
    → IsEnsured
        (λ (f : FieldDef). f.name)
        name
        s.field_defs
        (ensure_field name ty s).0.field_defs
        (ensure_field name ty s).1
unfolding ensure_field
ensure_field_lem name ty s =
    elim (Option-cases (position (λ (f : FieldDef). str_eq f.name name) s.field_defs)) [
      | inl e ↦
          rw (e, ensure_field)
            (added-IsEnsured (λ (f : FieldDef). f.name) (record { name = name; value_type = ty })
              s.field_defs e)
      | inr (i, e) ↦ rw (e, ensure_field) (found-IsEnsured _ name s.field_defs e)
    ]

-- The same of `ensure_tag_key`, whose entries are the names themselves.
pub ensure_tag_key_lem :
    (key : String) (s : TableSchema)
    → IsEnsured (λ k. k) key s.tag_keys (ensure_tag_key key s).0.tag_keys (ensure_tag_key key s).1
unfolding ensure_tag_key
ensure_tag_key_lem key s = elim (Option-cases (position (λ k. str_eq k key) s.tag_keys)) [
  | inl e ↦ rw (e, ensure_tag_key) (added-IsEnsured (λ k. k) key s.tag_keys e)
  | inr (i, e) ↦ rw (e, ensure_tag_key) (found-IsEnsured (λ k. k) key s.tag_keys e)
]

map_self : (ks : List String) → map (λ k. k) ks ≡ ks
map_self [] = refl
map_self (k ∷ ks) = ap (λ l. k ∷ l) (map_self ks)

pub ensure_tag_key-Distinct :
    (key : String) (s : TableSchema)
    → Distinct s.tag_keys
    → Distinct (ensure_tag_key key s).0.tag_keys
ensure_tag_key-Distinct key s d = rw map_self at ((ensure_tag_key_lem key s).2 (rw map_self d))

pub tag_keys-ensure_field :
    (name : String) (ty : FieldType) (s : TableSchema)
    → (ensure_field name ty s).0.tag_keys ≡ s.tag_keys
unfolding ensure_field
tag_keys-ensure_field name ty s = ground arith
