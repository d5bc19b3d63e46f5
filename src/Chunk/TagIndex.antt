-- ===== src/Chunk/TagIndex.antt =====
-- chunk.rs, the tag index as data: indexing rows in pieces, and under more keys.
use iedb.Base.{
  ℕ, zero, suc, ◌+◌, ◌≤◌, String, ◌≡◌, refl, sym, ◌∙◌, ap, none, List, [], ◌∷◌, ◌++◌, length,
  get_elem?, All, arith,
}
use native.Mathlib.Nat.{add-zero}
use iedb.Chunk.{Row, Chunk, TagIndex, index_tags, index_rows, rebuild_tag_index}

-- The index that the chunk keeps is the one that a rebuild would make.
abbrev pub IsIndexed : List String → Chunk → Type 0
IsIndexed keys c = c.tag_index ≡ (rebuild_tag_index keys c).tag_index

-- No row has a tag value beyond the keys.
abbrev pub FitsKeys : List String → List Row → Type 0
FitsKeys keys = All (λ (row : Row). length row.tag_values ≤ length keys)

pub index_rows-append :
    (keys : List String) (idx : ℕ) (xs ys : List Row) (m : TagIndex)
    → index_rows keys idx (xs ++ ys) m
      ≡ index_rows keys (idx + length xs) ys (index_rows keys idx xs m)
unfolding index_rows
index_rows-append keys idx [] ys m = rw add-zero
index_rows-append keys idx (x ∷ xs) ys m =
    index_rows-append keys (idx + 1) xs ys (index_tags 0 keys idx x.tag_values m)
    ∙ ap
        (λ i.
          index_rows keys i ys
            (index_rows keys (idx + 1) xs (index_tags 0 keys idx x.tag_values m)))
        (omega arith)

past_end {ℓ} : {A : Type ℓ} (xs : List A) (i : ℕ) → length xs ≤ i → get_elem? xs i ≡ none
past_end [] i h = refl
past_end (x ∷ xs) zero h = absurd (omega arith)
past_end (x ∷ xs) (suc i) h = past_end xs i (omega arith)

-- Keys beyond the tag values of a row index nothing.
index_tags_beyond :
    (n : ℕ) (keys : List String) (idx : ℕ) (vals : List String) (m : TagIndex)
    → length vals ≤ n
    → index_tags n keys idx vals m ≡ m
unfolding index_tags
index_tags_beyond n [] idx vals m h = refl
index_tags_beyond n (k ∷ ks) idx vals m h =
    rw (past_end vals n h) (index_tags_beyond (n + 1) ks idx vals m (omega arith))

index_tags-append :
    (n : ℕ) (keys more : List String) (idx : ℕ) (vals : List String) (m : TagIndex)
    → length vals ≤ n + length keys
    → index_tags n (keys ++ more) idx vals m ≡ index_tags n keys idx vals m
unfolding index_tags
index_tags-append n [] more idx vals m h = index_tags_beyond n more idx vals m (omega arith)
index_tags-append n (k ∷ ks) more idx vals m h =
    index_tags-append (n + 1) ks more idx vals _ (omega arith)

-- A schema that grows at its end does not change the index of rows that fit the old keys.
pub index_rows-more_keys :
    (keys more : List String) (idx : ℕ) (rows : List Row) (m : TagIndex)
    → FitsKeys keys rows
    → index_rows (keys ++ more) idx rows m ≡ index_rows keys idx rows m
unfolding index_rows
index_rows-more_keys keys more idx [] m h = refl
index_rows-more_keys keys more idx (x ∷ xs) m h =
    rw (index_tags-append 0 keys more idx x.tag_values m (omega (arith, h.0)))
      (index_rows-more_keys keys more (idx + 1) xs _ h.1)

-- A chunk whose index is current stays so when its schema grows, if its rows fit the old keys.
pub IsIndexed-more_keys :
    (keys more : List String) (c : Chunk)
    → FitsKeys keys c.rows
    → IsIndexed keys c
    → IsIndexed (keys ++ more) c
unfolding rebuild_tag_index
IsIndexed-more_keys keys more c h e = e ∙ sym (index_rows-more_keys keys more 0 c.rows [] h)

pub rebuild_tag_index-IsIndexed :
    (keys : List String) (c : Chunk) → IsIndexed keys (rebuild_tag_index keys c)
unfolding rebuild_tag_index
rebuild_tag_index-IsIndexed keys c = refl
