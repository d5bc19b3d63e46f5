-- ===== src/Chunk/Bounds.antt =====
-- chunk.rs, `Chunk::insert`: the time and WAL bounds of a chunk, over the rows that were inserted
-- with the WAL sequence number of each.
use iedb.Base.{
  ℕ, ◌≤◌, ◌≡◌, refl, sym, ◌∙◌, ap, inl, List, [], ◌∷◌, ◌++◌, map, All, All-append, In,
  In-append_left, In-append_right, arith, ltb, if◌then◌else◌, ℤ, ltb_ℤ, ◌≤ℤ◌, IsU64, IsI64,
}
use mathlib.Core.List.{append-nil, append_assoc}
use iedb.Base.{Bool, true, false}
use iedb.Chunk.{Row, Chunk, new_chunk, insert}

-- What the bounds of a chunk promise of its rows, each with the sequence number of its WAL file.
pub record Covers (h : List (Row × ℕ)) (c : Chunk) : Type 0 where
  pub rows_eq : c.rows ≡ map (λ p. p.0) h
  pub low : All (λ (p : Row × ℕ). c.time_min ≤ℤ p.0.time) h
  pub high : All (λ (p : Row × ℕ). p.0.time ≤ℤ c.time_max) h
  pub first : All (λ (p : Row × ℕ). c.min_wal_seq ≤ p.1) h
  pub last : All (λ (p : Row × ℕ). p.1 ≤ c.max_wal_seq) h

pub All-weaken {ℓ κ} :
    {A : Type ℓ} (P Q : A → Type κ) (xs : List A) → ((a : A) → P a → Q a) → All P xs → All Q xs
All-weaken P Q [] f h = tt
All-weaken P Q (x ∷ xs) f h = (f x h.0, All-weaken P Q xs f h.1)

pub map-snoc {ℓ κ} :
    {A : Type ℓ} {B : Type κ} (f : A → B) (xs : List A) (a : A)
    → map f (xs ++ (a ∷ [])) ≡ map f xs ++ (f a ∷ [])
map-snoc f [] a = refl
map-snoc f (x ∷ xs) a = ap (λ l. f x ∷ l) (map-snoc f xs a)

snoc-All {ℓ κ} :
    {A : Type ℓ} (P Q : A → Type κ) (xs : List A) (a : A)
    → ((x : A) → P x → Q x)
    → All P xs
    → Q a
    → All Q (xs ++ (a ∷ []))
snoc-All P Q xs a f h q = All-append Q xs (a ∷ []) (All-weaken P Q xs f h) (q, tt)

-- `insert` keeps every bound of the chunk and adds the row, with its sequence number, at the end.
pub insert-Covers :
    (h : List (Row × ℕ)) (c : Chunk) (row : Row) (seq : ℕ)
    → Covers h c
    → Covers (h ++ ((row, seq) ∷ [])) (insert row seq c)
unfolding insert
insert-Covers h c row seq v = record {
  rows_eq = ap (λ l. l ++ (row ∷ [])) v.rows_eq ∙ sym (map-snoc (λ p. p.0) h (row, seq));
  low = snoc-All _ _ h (row, seq) (λ p le. ground arith) v.low (ground arith);
  high = snoc-All _ _ h (row, seq) (λ p le. ground arith) v.high (ground arith);
  first = snoc-All _ _ h (row, seq) (λ p le. ground arith) v.first (ground arith);
  last = snoc-All _ _ h (row, seq) (λ p le. ground arith) v.last (ground arith);
}

-- Inserts one after the other into a chunk.
unfoldable pub insert_all : List (Row × ℕ) → Chunk → Chunk
insert_all [] c = c
insert_all ((row, seq) ∷ h) c = insert_all h (insert row seq c)

pub new_chunk-Covers : (t : ℤ) → Covers [] (new_chunk t)
new_chunk-Covers t = record { rows_eq = refl; low = tt; high = tt; first = tt; last = tt }

-- Each bound is the time or the sequence number of a row that was inserted.
pub record Attains (h : List (Row × ℕ)) (c : Chunk) : Type 0 where
  pub low_at : In c.time_min (map (λ p. p.0.time) h)
  pub high_at : In c.time_max (map (λ p. p.0.time) h)
  pub first_at : In c.min_wal_seq (map (λ p. p.1) h)
  pub last_at : In c.max_wal_seq (map (λ p. p.1) h)

-- A running extreme stays attained, whichever side the test picks.
In-pick :
    {A B : Type 0} (f : A → B) (h : List A) (a : A) (b : Bool) (old : B)
    → In old (map f h)
    → In (if b then f a else old) (map f (h ++ (a ∷ [])))
In-pick f h a true old m = rw map-snoc (In-append_right (f a) (map f h) (f a ∷ []) (inl refl))
In-pick f h a false old m = rw map-snoc (In-append_left old (map f h) (f a ∷ []) m)

insert-Attains :
    (h : List (Row × ℕ)) (c : Chunk) (row : Row) (seq : ℕ)
    → Attains h c
    → Attains (h ++ ((row, seq) ∷ [])) (insert row seq c)
unfolding insert
insert-Attains h c row seq v = record {
  low_at = In-pick (λ p. p.0.time) h (row, seq) (ltb_ℤ row.time c.time_min) _ v.low_at;
  high_at = In-pick (λ p. p.0.time) h (row, seq) (ltb_ℤ c.time_max row.time) _ v.high_at;
  first_at = In-pick (λ p. p.1) h (row, seq) (ltb seq c.min_wal_seq) _ v.first_at;
  last_at = In-pick (λ p. p.1) h (row, seq) (ltb c.max_wal_seq seq) _ v.last_at;
}

-- The sentinels of a new chunk give way to the first row.
first_insert-Attains :
    (t : ℤ) (row : Row) (seq : ℕ)
    → IsI64 row.time
    → IsU64 seq
    → Attains ((row, seq) ∷ []) (insert row seq (new_chunk t))
unfolding insert
first_insert-Attains t row seq ht hs = record {
  low_at = inl (ground arith);
  high_at = inl (ground arith);
  first_at = inl (ground arith);
  last_at = inl (ground arith);
}

insert_all-keeps :
    (h more : List (Row × ℕ)) (c : Chunk)
    → Covers h c
    → Attains h c
    → Covers (h ++ more) (insert_all more c) × Attains (h ++ more) (insert_all more c)
unfolding insert_all
insert_all-keeps h [] c v a = rw append-nil (v, a)
insert_all-keeps h ((row, seq) ∷ more) c v a = rw (sym (append_assoc h ((row, seq) ∷ []) more)) (
    insert_all-keeps (h ++ ((row, seq) ∷ [])) more (insert row seq c) (insert-Covers h c row seq v)
      (insert-Attains h c row seq a))

-- After inserts of 64-bit rows into a new chunk, the chunk holds exactly these rows in order, its
-- time and WAL bounds hold of every row, and each bound is attained by one of the rows.
pub insert_all_bounds :
    (t : ℤ) (row : Row) (seq : ℕ) (more : List (Row × ℕ))
    → IsI64 row.time
    → IsU64 seq
    → Covers ((row, seq) ∷ more) (insert_all ((row, seq) ∷ more) (new_chunk t))
      × Attains ((row, seq) ∷ more) (insert_all ((row, seq) ∷ more) (new_chunk t))
unfolding insert_all
insert_all_bounds t row seq more ht hs =
    insert_all-keeps ((row, seq) ∷ []) more (insert row seq (new_chunk t))
      (insert-Covers [] (new_chunk t) row seq (new_chunk-Covers t))
      (first_insert-Attains t row seq ht hs)
