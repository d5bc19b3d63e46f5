-- ===== src/Write/Grouping.antt =====
-- write.rs, the `BTreeMap` of `handle`: the rows of a table by their bucket.
use iedb.Base.{
  ℕ, ◌≡◌, refl, sym, ◌∙◌, ap, Bool, true, false, List, [], ◌∷◌, ◌++◌, keep, All, arith,
  if◌then◌else◌, ℤ, ◌<ℤ◌, ltb_ℤ, ltb_ℤ→<ℤ, ltb_ℤ-false→≤ℤ, Bool-cases, eq_of_parts, inl, inr,
}
use mathlib.Core.List.{append-nil, append_assoc}
use mathlib.Core.Path.{subst}
use iedb.Chunk.{Row}
use iedb.Table.Sorted.{eq_ℤ, eq_ℤ→eq}
use iedb.Snapshot.{truncate}
use iedb.Write.{push_row, group_rows}

-- The rows under a bucket, as a reader finds them.
abbrev pub rows_at : ℤ → List (ℤ × List Row) → List Row
rows_at s [] = []
rows_at s ((t, rows) ∷ grouped) = if eq_ℤ t s then rows else rows_at s grouped

abbrev Later : ℤ → List (ℤ × List Row) → Type 0
Later t = All (λ (p : ℤ × List Row). t <ℤ p.0)

-- The buckets are in order, none twice.
abbrev pub Buckets : List (ℤ × List Row) → Type 0
Buckets [] = Unit {0}
Buckets ((t, rows) ∷ grouped) = Later t grouped × Buckets grouped

before : (s t : ℤ) → s <ℤ t → eq_ℤ t s ≡ false
unfolding eq_ℤ
before s t h = ground arith

rows_at-Later : (s : ℤ) (grouped : List (ℤ × List Row)) → Later s grouped → rows_at s grouped ≡ []
rows_at-Later s [] h = refl
rows_at-Later s ((t, rows) ∷ grouped) h = rw (before s t h.0) (rows_at-Later s grouped h.1)

Later-trans : (s t : ℤ) (grouped : List (ℤ × List Row)) → s <ℤ t → Later t grouped → Later s grouped
Later-trans s t [] h k = tt
Later-trans s t ((u, rows) ∷ grouped) h k = (omega (arith, h, k.0), Later-trans s t grouped h k.1)

Later-push_row :
    (s t : ℤ) (row : Row) (grouped : List (ℤ × List Row))
    → s <ℤ t
    → Later s grouped
    → Later s (push_row t row grouped)
unfolding push_row
Later-push_row s t row [] h k = (h, tt)
Later-push_row s t row ((u, rows) ∷ grouped) h k = elim (Bool-cases (ltb_ℤ t u)) [
  | inl e ↦ rw e (h, k)
  | inr e ↦ elim (Bool-cases (ltb_ℤ u t)) [
    | inl e' ↦ rw (e, e') (k.0, Later-push_row s t row grouped h k.1)
    | inr e' ↦ rw (e, e') k
  ]
]

push_row-Buckets :
    (t : ℤ) (row : Row) (grouped : List (ℤ × List Row))
    → Buckets grouped
    → Buckets (push_row t row grouped)
unfolding push_row
push_row-Buckets t row [] h = (tt, tt)
push_row-Buckets t row ((u, rows) ∷ grouped) h = elim (Bool-cases (ltb_ℤ t u)) [
  | inl e ↦ rw e ((ltb_ℤ→<ℤ t u e, Later-trans t u grouped (ltb_ℤ→<ℤ t u e) h.0), h)
  | inr e ↦ elim (Bool-cases (ltb_ℤ u t)) [
    | inl e' ↦
        rw (e, e')
          (Later-push_row u t row grouped (ltb_ℤ→<ℤ u t e') h.0, push_row-Buckets t row grouped h.1)
    | inr e' ↦ rw (e, e') h
  ]
]

abbrev only : Bool → Row → List Row
only b row = if b then row ∷ [] else []

only_keep : (b : Bool) (row : Row) (l : List Row) → only b row ++ l ≡ (if b then row ∷ l else l)
only_keep true row l = refl
only_keep false row l = refl

rows_at-push_row :
    (s t : ℤ) (row : Row) (grouped : List (ℤ × List Row))
    → Buckets grouped
    → rows_at s (push_row t row grouped) ≡ rows_at s grouped ++ only (eq_ℤ t s) row
unfolding push_row
rows_at-push_row s t row [] h = refl
rows_at-push_row s t row ((u, rows) ∷ grouped) h = elim (Bool-cases (ltb_ℤ t u)) [
  | inl e ↦
      let above = ltb_ℤ→<ℤ t u e in
      rw e (elim (Bool-cases (eq_ℤ t s)) [
        | inl q ↦
            let later : Later s ((u, rows) ∷ grouped) =
              subst (λ z. Later z ((u, rows) ∷ grouped)) (eq_ℤ→eq t s q)
                (above, Later-trans t u grouped above h.0) in
            rw q (ap (λ l. l ++ (row ∷ [])) (sym (rows_at-Later s ((u, rows) ∷ grouped) later)))
        | inr q ↦ rw q (sym (append-nil (rows_at s ((u, rows) ∷ grouped))))
      ])
  | inr e ↦ elim (Bool-cases (ltb_ℤ u t)) [
    | inl e' ↦
        rw (e, e')
          (elim (Bool-cases (eq_ℤ u s)) [
            | inl q ↦
                let below : s <ℤ t = subst (λ z. z <ℤ t) (eq_ℤ→eq u s q) (ltb_ℤ→<ℤ u t e') in
                rw (q, before s t below) (sym (append-nil rows))
            | inr q ↦ rw q (rows_at-push_row s t row grouped h.1)
          ])
    | inr e' ↦
        let same : eq_ℤ t s ≡ eq_ℤ u s =
          ap (λ z. eq_ℤ z s)
            (eq_of_parts t u (omega (arith, ltb_ℤ-false→≤ℤ t u e, ltb_ℤ-false→≤ℤ u t e'))) in
        rw (e, e', same)
          (elim (Bool-cases (eq_ℤ u s)) [
            | inl q ↦ rw q refl
            | inr q ↦ rw q (sym (append-nil (rows_at s grouped)))
          ])
  ]
]

abbrev pub in_bucket : ℕ → ℤ → Row → Bool
in_bucket interval s row = eq_ℤ (truncate row.time interval) s

rows_at-group_rows :
    (interval : ℕ) (s : ℤ) (rows : List Row) (grouped : List (ℤ × List Row))
    → Buckets grouped
    → rows_at s (group_rows interval rows grouped)
      ≡ rows_at s grouped ++ keep (in_bucket interval s) rows
unfolding group_rows
rows_at-group_rows interval s [] grouped h = sym (append-nil (rows_at s grouped))
rows_at-group_rows interval s (row ∷ rows) grouped h =
    let t = truncate row.time interval in
    rows_at-group_rows interval s rows (push_row t row grouped) (push_row-Buckets t row grouped h)
    ∙ ap (λ l. l ++ keep (in_bucket interval s) rows) (rows_at-push_row s t row grouped h)
    ∙ append_assoc (rows_at s grouped) (only (eq_ℤ t s) row) (keep (in_bucket interval s) rows)
    ∙ ap (λ l. rows_at s grouped ++ l) (only_keep (eq_ℤ t s) row (keep (in_bucket interval s) rows))

group_rows-Buckets :
    (interval : ℕ) (rows : List Row) (grouped : List (ℤ × List Row))
    → Buckets grouped
    → Buckets (group_rows interval rows grouped)
unfolding group_rows
group_rows-Buckets interval [] grouped h = h
group_rows-Buckets interval (row ∷ rows) grouped h =
    group_rows-Buckets interval rows (push_row (truncate row.time interval) row grouped)
      (push_row-Buckets (truncate row.time interval) row grouped h)

-- The handler's groups are in ascending order of their buckets, each bucket once, and the group of a
-- bucket holds exactly the rows whose time truncates to it, in the order of the lines.
pub group_rows_lem :
    (interval : ℕ) (s : ℤ) (rows : List Row)
    → Buckets (group_rows interval rows [])
      × (rows_at s (group_rows interval rows []) ≡ keep (in_bucket interval s) rows)
group_rows_lem interval s rows =
    (group_rows-Buckets interval rows [] tt, rows_at-group_rows interval s rows [] tt)
