-- ===== src/Query/Scan.antt =====
-- query.rs: the query by the tag index returns what a scan of all rows would return.
use iedb.Base.{
  ℕ, ◌+◌, String, ◌≡◌, refl, ◌∙◌, ap, Bool, true, ◌&&◌, Option, none, some, List, [], ◌∷◌, ◌++◌,
  length, get_elem?, All, if◌then◌else◌, ℤ, Bool-cases, inl, inr, length-append,
}
use mathlib.Core.List.{append_assoc}
use iedb.Chunk.{FieldValue, TableSchema, Row, Chunk}
use iedb.Chunk.Schema.{Distinct}
use iedb.Chunk.TagIndex.{IsIndexed}
use iedb.Chunk.Postings.{postings, matching, has_tag, postings-rebuild}
use iedb.Query.{QueryRow, in_time, range, query_row, candidates, select, query_chunks}

-- The tag filter of a query, read off the row itself.
abbrev pub tag_matches : List String → Option String → Option String → Row → Bool
tag_matches keys (some key) (some val) row = has_tag keys key val row
tag_matches keys (some key) none row = true
tag_matches keys none val row = true

get_elem?-middle {ℓ} :
    {A : Type ℓ} (pre : List A) (x : A) (rest : List A)
    → get_elem? (pre ++ (x ∷ rest)) (length pre) ≡ some x
get_elem?-middle [] x rest = refl
get_elem?-middle (p ∷ pre) x rest = get_elem?-middle pre x rest

module _ {Json : Type 0} (to_json : FieldValue → Json) (null : Json) where
  module _ (schema : TableSchema) (start_ns end_ns : Option ℤ)
      (tag_key tag_val : Option String) where
    -- The rows that pass both filters, in order.
    abbrev pub scan_rows : List Row → List (QueryRow Json)
    scan_rows [] = []
    scan_rows (row ∷ rows) =
        if tag_matches schema.tag_keys tag_key tag_val row && in_time start_ns end_ns row
        then query_row to_json null schema row ∷ scan_rows rows
        else scan_rows rows

    abbrev pub scan : List Chunk → List (QueryRow Json)
    scan [] = []
    scan (c ∷ cs) = scan_rows c.rows ++ scan cs

-- The positions of the rows that pass the tag filter.
pick : List String → Option String → Option String → ℕ → List Row → List ℕ
pick keys tag_key tag_val idx [] = []
pick keys tag_key tag_val idx (row ∷ rows) =
    (if tag_matches keys tag_key tag_val row then idx ∷ [] else [])
    ++ pick keys tag_key tag_val (idx + 1) rows

matching-eq-pick :
    (keys : List String) (key val : String) (idx : ℕ) (rows : List Row)
    → matching keys key val idx rows ≡ pick keys (some key) (some val) idx rows
unfolding pick
matching-eq-pick keys key val idx [] = refl
matching-eq-pick keys key val idx (row ∷ rows) = rw (matching-eq-pick keys key val (idx + 1) rows)

range-eq-pick_key :
    (keys : List String) (key : String) (idx : ℕ) (rows : List Row)
    → range idx (length rows) ≡ pick keys (some key) none idx rows
unfolding pick range
range-eq-pick_key keys key idx [] = refl
range-eq-pick_key keys key idx (row ∷ rows) = rw (range-eq-pick_key keys key (idx + 1) rows)

range-eq-pick :
    (keys : List String) (val : Option String) (idx : ℕ) (rows : List Row)
    → range idx (length rows) ≡ pick keys none val idx rows
unfolding pick range
range-eq-pick keys val idx [] = refl
range-eq-pick keys val idx (row ∷ rows) = rw (range-eq-pick keys val (idx + 1) rows)

candidates-eq-pick :
    (keys : List String) (tag_key tag_val : Option String) (c : Chunk)
    → Distinct keys
    → IsIndexed keys c
    → candidates tag_key tag_val c ≡ pick keys tag_key tag_val 0 c.rows
unfolding candidates
candidates-eq-pick keys (some key) (some val) c d e =
    ap (λ m. postings m key val) e
    ∙ postings-rebuild keys c key val d
    ∙ matching-eq-pick keys key val 0 c.rows
candidates-eq-pick keys (some key) none c d e = range-eq-pick_key keys key 0 c.rows
candidates-eq-pick keys none val c d e = range-eq-pick keys val 0 c.rows

module _ {Json : Type 0} (to_json : FieldValue → Json) (null : Json) where
  module _ (schema : TableSchema) (start_ns end_ns : Option ℤ)
      (tag_key tag_val : Option String) where
    select_step :
        (all : List Row) (idx : ℕ) (rest : List ℕ) (row : Row) (out : List (QueryRow Json))
        → get_elem? all idx ≡ some row
        → select to_json null schema start_ns end_ns all rest ≡ some out
        → select to_json null schema start_ns end_ns all (idx ∷ rest)
          ≡ some
              (if in_time start_ns end_ns row then query_row to_json null schema row ∷ out else out)
    unfolding select
    select_step all idx rest row out e h = rw (e, select) (rw (h, select))

    select-pick :
        (pre rows : List Row)
        → select to_json null schema start_ns end_ns
            (pre ++ rows)
            (pick schema.tag_keys tag_key tag_val (length pre) rows)
          ≡ some (scan_rows to_json null schema start_ns end_ns tag_key tag_val rows)
    unfolding pick
    select-pick pre [] = unfold select in refl
    select-pick pre (row ∷ rows) =
        let next = rw (append_assoc, length-append) at (select-pick (pre ++ (row ∷ [])) rows) in
        elim (Bool-cases (tag_matches schema.tag_keys tag_key tag_val row)) [
          | inl e ↦ rw e (
              select_step (pre ++ (row ∷ rows)) (length pre) _ row _ (get_elem?-middle pre row rows)
                next)
          | inr e ↦ rw e next
        ]

    -- For a table whose keys are distinct and whose chunks are indexed, a query never panics, and it
    -- returns, in order, exactly the rows in the time range that carry the tag value.
    pub query_chunks-eq-scan :
        (cs : List Chunk)
        → Distinct schema.tag_keys
        → All (IsIndexed schema.tag_keys) cs
        → query_chunks to_json null schema start_ns end_ns tag_key tag_val cs
          ≡ some (scan to_json null schema start_ns end_ns tag_key tag_val cs)
    unfolding query_chunks
    query_chunks-eq-scan [] d h = refl
    query_chunks-eq-scan (c ∷ cs) d h =
        let picked = candidates-eq-pick schema.tag_keys tag_key tag_val c d h.0 in
        rw (picked, query_chunks)
          (rw (select-pick [] c.rows, query_chunks)
            (rw (query_chunks-eq-scan cs d h.1, query_chunks)))
