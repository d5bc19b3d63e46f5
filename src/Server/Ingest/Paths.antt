-- ===== src/Server/Ingest/Paths.antt =====
-- ingest_api.rs: where an upload is stored, and under which name.
use iedb.Base.{
  ℕ, suc, ◌<◌, ◌≡◌, refl, true, false, Option, none, some, List, [], ◌∷◌, ◌++◌, ◌==◌, arith, ltb,
  length, length-append, All, All-append, ℤ, pos, negsuc, eq_bytes, is_empty, Bool-cases, inl, inr,
}
use iedb.Base.Text.{digits, nat_text, int_text}
use iedb.Base.Text.Codes.{Chars, codes, starts_with}
use iedb.Base.Text.Laws.{IsDigit, Without, All-digits}
use iedb.Staging.{dot_parquet, staging_name}
use iedb.Server.Ingest.{
  IngestRequest, IngestEnv, contains, is_safe_segment, sanitize_filename_part, db_param,
  table_param, wal_param, agent_of, time_of, name_of, refusal, ingest_name,
}

contains-Without : (x : ℕ) (s : Chars) → contains (x ∷ []) s ≡ false → Without x s
unfolding contains starts_with
contains-Without x [] e = tt
contains-Without x (c ∷ cs) e = (ground (arith, e), contains-Without x cs (ground (arith, e)))

-- A single component of a path: not empty, no separator, and no reference to a directory above.
pub record IsSegment (s : Chars) : Type 0 where
  pub no_slash : Without b'/' s
  pub not_empty : is_empty s ≡ false
  pub not_dot : eq_bytes s (codes ".") ≡ false
  pub not_dots : eq_bytes s (codes "..") ≡ false

is_safe_segment-IsSegment : (s : Chars) → is_safe_segment s ≡ true → IsSegment s
unfolding is_safe_segment
is_safe_segment-IsSegment s e = record {
  no_slash = contains-Without b'/' s (ground (arith, e));
  not_empty = ground (arith, e);
  not_dot = ground (arith, e);
  not_dots = ground (arith, e);
}

sanitize-Without : (s : Chars) → Without b'/' (sanitize_filename_part s)
unfolding sanitize_filename_part
sanitize-Without [] = tt
sanitize-Without (c ∷ cs) = (ground arith, sanitize-Without cs)

named_by :
    (header : Option Chars)
    → Without b'/' (elim header [ none ↦ codes "unknown" | some v ↦ sanitize_filename_part v ])
named_by none = (refl, (refl, (refl, (refl, (refl, (refl, (refl, tt)))))))
named_by (some v) = sanitize-Without v

agent-Without : (req : IngestRequest) → Without b'/' (agent_of req)
unfolding agent_of
agent-Without req = named_by req.agent_header

digits-Without : (l : List ℕ) → All IsDigit l → Without b'/' l
digits-Without [] h = tt
digits-Without (c ∷ l) h = (ground (arith, h.0.0), digits-Without l h.1)

int_text-Without : (t : ℤ) → Without b'/' (int_text t)
int_text-Without (pos n) = digits-Without (digits 20 n) (All-digits 20 n)
int_text-Without (negsuc n) = (refl, digits-Without (digits 20 (suc n)) (All-digits 20 (suc n)))

dot_parquet-Without : Without b'/' dot_parquet
dot_parquet-Without = (refl, (refl, (refl, (refl, (refl, (refl, (refl, (refl, tt))))))))

abbrev NoSlash : Chars → Type 0
NoSlash = Without b'/'

staging_name-Without : (t : ℤ) (w : ℕ) → NoSlash (staging_name t w)
unfolding staging_name
staging_name-Without t w =
    let mark = λ (c : ℕ). (c == b'/') ≡ false in
    let number = digits-Without (nat_text w) (All-digits 20 w) in
    let with_wal =
      All-append mark (int_text t) _ (int_text-Without t)
        (refl, All-append mark (nat_text w) dot_parquet number dot_parquet-Without) in
    let bare = All-append mark (int_text t) dot_parquet (int_text-Without t) dot_parquet-Without in
    elim (Bool-cases (ltb 0 w)) [ inl e ↦ rw e with_wal | inr e ↦ rw e bare ]

-- The name on the server is the name in the staging directory, behind the agent's id.
pub ingest_name_lem :
    (agent_id : Chars) (t : ℤ) (w : ℕ)
    → ingest_name agent_id t w ≡ agent_id ++ (b'_' ∷ staging_name t w)
unfolding ingest_name staging_name
ingest_name_lem agent_id t w = elim (Bool-cases (ltb 0 w)) [ inl e ↦ rw e refl | inr e ↦ rw e refl ]

long_name : (agent_id rest : Chars) (c : ℕ) → 2 < length rest → 2 < length (agent_id ++ (c ∷ rest))
long_name agent_id rest c h = omega (arith, length-append {0} agent_id (c ∷ rest), h)

long_staging : (t : ℤ) (w : ℕ) → 2 < length (staging_name t w)
unfolding staging_name
long_staging t w = elim (Bool-cases (ltb 0 w)) [
  | inl e ↦ rw e (
      omega (
        arith,
        length-append {0} (int_text t) ((b'_' ∷ nat_text w) ++ dot_parquet),
        length-append {0} (nat_text w) dot_parquet,
      ))
  | inr e ↦ rw e (omega (arith, length-append {0} (int_text t) dot_parquet))
]

-- A name of more than two characters is neither empty nor one of the dots.
long-IsSegment : (s : Chars) → Without b'/' s → 2 < length s → IsSegment s
unfolding eq_bytes
long-IsSegment [] no_slash h = absurd (omega (arith, h))
long-IsSegment (a ∷ []) no_slash h = absurd (omega (arith, h))
long-IsSegment (a ∷ b ∷ []) no_slash h = absurd (omega (arith, h))
long-IsSegment (a ∷ b ∷ c ∷ s) no_slash h = record {
  no_slash = no_slash;
  not_empty = refl;
  not_dot = ground arith;
  not_dots = ground arith;
}

-- A request that passes the guards is stored inside the data directory: the database, the table and the
-- name of the file are each a single component of a path, whatever the query and the agent's header say.
pub ingest-IsSegment :
    (env : IngestEnv) (req : IngestRequest)
    → refusal env.max_body_bytes req ≡ none
    → IsSegment (db_param req) × IsSegment (table_param req) × IsSegment (name_of env req)
unfolding refusal
ingest-IsSegment env req guards =
    let agent_id = agent_of req in
    let t = time_of env req in
    let w = wal_param req in
    let name = ingest_name_lem agent_id t w in
    let mark = λ (c : ℕ). (c == b'/') ≡ false in
    let whole : NoSlash (agent_id ++ (b'_' ∷ staging_name t w)) =
      All-append mark agent_id _ (agent-Without req) (refl, staging_name-Without t w) in
    (
      is_safe_segment-IsSegment (db_param req) (ground (arith, guards)),
      is_safe_segment-IsSegment (table_param req) (ground (arith, guards)),
      rw name (
          long-IsSegment (agent_id ++ (b'_' ∷ staging_name t w)) whole
            (long_name agent_id (staging_name t w) b'_' (long_staging t w))),
    )
