-- ===== src/Table/Sorted.antt =====
-- chunk.rs, `Table::get_or_create_chunk`: the chunks stay in strictly ascending order, and a change
-- through the returned reference reaches the chunk of that time and no other.
use iedb.Base.{
  ◌≡◌, refl, sym, ◌∙◌, ap, Option, none, some, List, [], ◌∷◌, All, arith, Bool, true, ltb_ℤ→<ℤ,
  false, if◌then◌else◌, ℤ, ltb_ℤ, ◌<ℤ◌, option_get_or, find, inl, inr, Bool-cases,
}
use mathlib.Core.Path.{subst}
use iedb.Chunk.{Chunk, new_chunk}
use iedb.Table.{
  Table, Found, found, absent, next_index, search_chunk, change_at, insert_at, at_found, with_chunk,
}

-- The chunk times ascend strictly.
abbrev pub Ascending : List Chunk → Type 0
Ascending [] = Unit {0}
Ascending (c ∷ cs) = All (λ (d : Chunk). c.chunk_time <ℤ d.chunk_time) cs × Ascending cs

unfoldable pub eq_ℤ : ℤ → ℤ → Bool
eq_ℤ a b = if ltb_ℤ a b then false else if ltb_ℤ b a then false else true

pub eq_ℤ→eq : (a b : ℤ) → eq_ℤ a b ≡ true → a ≡ b
unfolding eq_ℤ
eq_ℤ→eq a b h = ground arith

pub eq_ℤ-refl : (a : ℤ) → eq_ℤ a a ≡ true
unfolding eq_ℤ
eq_ℤ-refl a = ground arith

-- The chunk of a time, as a reader finds it.
abbrev pub chunk_at : ℤ → List Chunk → Option Chunk
chunk_at t = find (λ c. eq_ℤ c.chunk_time t)

-- What `with_chunk` does, as one walk over the chunks.
upsert : ℤ → (Chunk → Chunk) → List Chunk → List Chunk
upsert t f [] = f (new_chunk t) ∷ []
upsert t f (c ∷ cs) =
    if ltb_ℤ c.chunk_time t
    then c ∷ upsert t f cs
    else if ltb_ℤ t c.chunk_time
    then f (new_chunk t) ∷ c ∷ cs
    else f c ∷ cs

at_found-next :
    (r : Found) (t : ℤ) (f : Chunk → Chunk) (c : Chunk) (cs : List Chunk)
    → at_found (next_index r) t f (c ∷ cs) ≡ c ∷ at_found r t f cs
unfolding change_at insert_at
at_found-next (found i) t f c cs = refl
at_found-next (absent i) t f c cs = refl

at_found-eq-upsert :
    (t : ℤ) (f : Chunk → Chunk) (cs : List Chunk)
    → at_found (search_chunk t cs) t f cs ≡ upsert t f cs
unfolding search_chunk upsert change_at insert_at
at_found-eq-upsert t f [] = refl
at_found-eq-upsert t f (c ∷ cs) = elim (Bool-cases (ltb_ℤ c.chunk_time t)) [
  | inl e ↦
      rw e
        (at_found-next (search_chunk t cs) t f c cs ∙ ap (λ l. c ∷ l) (at_found-eq-upsert t f cs))
  | inr e ↦ elim (Bool-cases (ltb_ℤ t c.chunk_time)) [ inl e' ↦ rw (e, e') | inr e' ↦ rw (e, e') ]
]

-- The caller's change leaves the chunk time alone.
abbrev pub KeepsTime : (Chunk → Chunk) → Type 0
KeepsTime f = (c : Chunk) → (f c).chunk_time ≡ c.chunk_time

abbrev pub Above : ℤ → List Chunk → Type 0
Above b = All (λ (d : Chunk). b <ℤ d.chunk_time)

pub Above-eq : {a b : ℤ} → a ≡ b → (cs : List Chunk) → Above b cs → Above a cs
Above-eq e cs h = subst (λ z. Above z cs) (sym e) h

pub absent_below :
    (s : ℤ) (cs : List Chunk) → All (λ (d : Chunk). s <ℤ d.chunk_time) cs → chunk_at s cs ≡ none
unfolding eq_ℤ
absent_below s [] h = refl
absent_below s (d ∷ cs) h = ground (arith, h.0, absent_below s cs h.1)

module _ (t : ℤ) (f : Chunk → Chunk) (k : KeepsTime f) where
  All-upsert :
      (b : ℤ) (cs : List Chunk)
      → b <ℤ t
      → All (λ (d : Chunk). b <ℤ d.chunk_time) cs
      → All (λ (d : Chunk). b <ℤ d.chunk_time) (upsert t f cs)
  unfolding upsert
  All-upsert b [] h hs = (rw (k (new_chunk t)) h, tt)
  All-upsert b (c ∷ cs) h hs = elim (Bool-cases (ltb_ℤ c.chunk_time t)) [
    | inl e ↦ rw e (hs.0, All-upsert b cs h hs.1)
    | inr e ↦ elim (Bool-cases (ltb_ℤ t c.chunk_time)) [
      | inl e' ↦ rw (e, e') (rw (k (new_chunk t)) h, (hs.0, hs.1))
      | inr e' ↦ rw (e, e') (rw (k c) hs.0, hs.1)
    ]
  ]

  All-above :
      (c : Chunk) (cs : List Chunk)
      → t <ℤ c.chunk_time
      → All (λ (d : Chunk). c.chunk_time <ℤ d.chunk_time) cs
      → All (λ (d : Chunk). t <ℤ d.chunk_time) cs
  All-above c [] h hs = tt
  All-above c (d ∷ cs) h hs = (omega (arith, hs.0), All-above c cs h hs.1)

  upsert-Ascending : (cs : List Chunk) → Ascending cs → Ascending (upsert t f cs)
  unfolding upsert
  upsert-Ascending [] h = (tt, tt)
  upsert-Ascending (c ∷ cs) h = elim (Bool-cases (ltb_ℤ c.chunk_time t)) [
    | inl e ↦
        rw e (All-upsert c.chunk_time cs (ltb_ℤ→<ℤ c.chunk_time t e) h.0, upsert-Ascending cs h.1)
    | inr e ↦ elim (Bool-cases (ltb_ℤ t c.chunk_time)) [
      | inl e' ↦
          rw (e, e')
            (
              Above-eq (k (new_chunk t)) (c ∷ cs)
                  (ltb_ℤ→<ℤ t c.chunk_time e', All-above c cs (ltb_ℤ→<ℤ t c.chunk_time e') h.0),
              h,
            )
      | inr e' ↦ rw (e, e') (Above-eq (k c) cs h.0, h.1)
    ]
  ]

  -- On an ascending table `get_or_create_chunk` keeps the order, if the caller keeps the chunk time.
  pub with_chunk-Ascending :
      (table : Table) → Ascending table.chunks → Ascending (with_chunk t f table).chunks
  unfolding with_chunk
  with_chunk-Ascending table h = rw at_found-eq-upsert (upsert-Ascending table.chunks h)

  chunk_at-upsert :
      (s : ℤ) (cs : List Chunk)
      → Ascending cs
      → chunk_at s (upsert t f cs) ≡ (
          if eq_ℤ t s
          then some (f (option_get_or (new_chunk t) (chunk_at t cs)))
          else chunk_at s cs)
  unfolding upsert eq_ℤ
  chunk_at-upsert s [] h = ground (arith, k (new_chunk t))
  chunk_at-upsert s (c ∷ cs) h = elim (Bool-cases (ltb_ℤ c.chunk_time t)) [
    | inl e ↦ rw e (ground (arith, chunk_at-upsert s cs h.1))
    | inr e ↦ elim (Bool-cases (ltb_ℤ t c.chunk_time)) [
      | inl e' ↦
          let missing = absent_below t cs (All-above c cs (ltb_ℤ→<ℤ t c.chunk_time e') h.0) in
          rw (e, e') (ground (arith, k (new_chunk t), missing))
      | inr e' ↦ rw (e, e') (ground (arith, k c))
    ]
  ]

  -- On an ascending table a change that keeps the chunk time reaches the chunk of its time, which is
  -- made if it is missing, and leaves every other chunk as it was.
  pub chunk_at-with_chunk :
      (s : ℤ) (table : Table)
      → Ascending table.chunks
      → chunk_at s (with_chunk t f table).chunks ≡ (
          if eq_ℤ t s
          then some (f (option_get_or (new_chunk t) (chunk_at t table.chunks)))
          else chunk_at s table.chunks)
  unfolding with_chunk
  chunk_at-with_chunk s table h = rw at_found-eq-upsert (chunk_at-upsert s table.chunks h)

All-upsert_of {κ} :
    (P : Chunk → Type κ) (t : ℤ) (f : Chunk → Chunk)
    → ((c : Chunk) → P c → P (f c))
    → P (new_chunk t)
    → (cs : List Chunk) → All P cs
    → All P (upsert t f cs)
unfolding upsert
All-upsert_of P t f g n [] h = (g _ n, tt)
All-upsert_of P t f g n (c ∷ cs) h = elim (Bool-cases (ltb_ℤ c.chunk_time t)) [
  | inl e ↦ rw e (h.0, All-upsert_of P t f g n cs h.1)
  | inr e ↦ elim (Bool-cases (ltb_ℤ t c.chunk_time)) [
    | inl e' ↦ rw (e, e') (g _ n, h)
    | inr e' ↦ rw (e, e') (g c h.0, h.1)
  ]
]

-- What holds of every chunk and of a new one, and is kept by the change, holds after it.
pub All-with_chunk {κ} :
    (P : Chunk → Type κ) (t : ℤ) (f : Chunk → Chunk)
    → ((c : Chunk) → P c → P (f c))
    → P (new_chunk t)
    → (table : Table) → All P table.chunks
    → All P (with_chunk t f table).chunks
unfolding with_chunk
All-with_chunk P t f g n table h = rw at_found-eq-upsert (All-upsert_of P t f g n table.chunks h)
