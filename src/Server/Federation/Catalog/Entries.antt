-- ===== src/Server/Federation/Catalog/Entries.antt =====
-- federation/mod.rs: the calls of the catalog, by the entries that they change.
use iedb.Base.{
  ◌≡◌, refl, sym, ◌∙◌, ap, true, false, Option, none, some, List, [], ◌∷◌, ◌++◌, if◌then◌else◌,
  arith, eq_bytes, eq_bytes→eq, eq_bytes_refl, Bool-cases, Option-cases, inl, inr,
}
use iedb.Base.Text.{split_once}
use iedb.Base.Text.Codes.{Chars}
use iedb.Server.Db.{has_text}
use iedb.Server.Federation.{Pair}
use iedb.Server.Federation.Names.{eq_bytes_sym}
use iedb.Server.Federation.Catalog.{
  Provider, Catalog, eq_pair, find_provider, put_table, deregister, register_table, ensure_schema,
  swap_provider,
}

pub eq_pair→eq : (a b : Pair) → eq_pair a b ≡ true → a ≡ b
eq_pair→eq a b e =
    λ i. (eq_bytes→eq a.0 b.0 (ground (arith, e)) i, eq_bytes→eq a.1 b.1 (ground (arith, e)) i)

pub eq_pair_refl : (a : Pair) → eq_pair a a ≡ true
eq_pair_refl a = rw (eq_bytes_refl a.0) (eq_bytes_refl a.1)

pub eq_pair_sym : (a b : Pair) → eq_pair a b ≡ eq_pair b a
eq_pair_sym a b = rw (eq_bytes_sym a.0 b.0) (rw (eq_bytes_sym a.1 b.1) refl)

has_text-append :
    (s : Chars) (xs ys : List Chars) → has_text s xs ≡ true → has_text s (xs ++ ys) ≡ true
unfolding has_text
has_text-append s [] ys e = cc
has_text-append s (x ∷ xs) ys e = ground (arith, e, has_text-append s xs ys)

has_text-snoc_other :
    (s x : Chars) (xs : List Chars)
    → eq_bytes x s ≡ false
    → has_text s (xs ++ (x ∷ [])) ≡ has_text s xs
unfolding has_text
has_text-snoc_other s x [] e = rw e refl
has_text-snoc_other s x (y ∷ ys) e = rw (has_text-snoc_other s x ys e) refl

nil_right : (xs : List Chars) → xs ≡ xs ++ []
nil_right [] = refl
nil_right (x ∷ xs) = ap (λ ys. x ∷ ys) (nil_right xs)

append_assoc : (xs ys zs : List Chars) → (xs ++ ys) ++ zs ≡ xs ++ (ys ++ zs)
append_assoc [] ys zs = refl
append_assoc (x ∷ xs) ys zs = ap (λ r. x ∷ r) (append_assoc xs ys zs)

module _ {A : Type 0} where
  -- The second catalog has the schemas of the first, and perhaps more.
  abbrev pub Grows : Catalog A → Catalog A → Type 0
  Grows c c' = (extra : List Chars) × (c'.schemas ≡ c.schemas ++ extra)

  pub grown_has :
      (n : Chars) (c c' : Catalog A)
      → Grows c c'
      → has_text n c.schemas ≡ true
      → has_text n c'.schemas ≡ true
  grown_has n c c' (extra, e) h = ap (has_text n) e ∙ has_text-append n c.schemas extra h

  pub same-Grows : (c c' : Catalog A) → c'.schemas ≡ c.schemas → Grows c c'
  same-Grows c c' e = ([], e ∙ nil_right c.schemas)

  pub Grows-trans : (c c' c'' : Catalog A) → Grows c c' → Grows c' c'' → Grows c c''
  Grows-trans c c' c'' (xs, e) (ys, f) =
      (xs ++ ys, f ∙ ap (λ zs. zs ++ ys) e ∙ append_assoc c.schemas xs ys)

  -- A provider stands in a schema that is registered.
  pub found_schema :
      (k : Pair) (c : Catalog A) (p : Provider A)
      → find_provider k c ≡ some p
      → has_text k.0 c.schemas ≡ true
  unfolding find_provider
  found_schema k c p e = elim (Bool-cases (has_text k.0 c.schemas)) [
    | inl h ↦ h
    | inr h ↦ let nothing : none ≡ some p = rw (h, find_provider) at e in cc nothing
  ]

  no_schema : (k : Pair) (c : Catalog A) → has_text k.0 c.schemas ≡ false → find_provider k c ≡ none
  unfolding find_provider
  no_schema k c h = rw (h, find_provider) refl

  find-put_table :
      (k k' : Pair) (o : Option (Provider A)) (c : Catalog A)
      → has_text k.0 c.schemas ≡ true
      → find_provider k' (put_table k o c) ≡ (if eq_pair k k' then o else find_provider k' c)
  unfolding find_provider put_table
  find-put_table k k' o c h = elim (Bool-cases (eq_pair k k')) [
    | inr e ↦ rw e refl
    | inl e ↦
        let there : has_text k'.0 c.schemas ≡ true =
          ap (λ (x : Pair). has_text x.0 c.schemas) (sym (eq_pair→eq k k' e)) ∙ h in
        rw e (rw there refl)
  ]

  pub find-deregister :
      (k k' : Pair) (c : Catalog A)
      → find_provider k' (deregister k c) ≡ (if eq_pair k k' then none else find_provider k' c)
  unfolding deregister
  find-deregister k k' c = elim (Bool-cases (has_text k.0 c.schemas)) [
    | inl h ↦ rw (h, deregister) (find-put_table k k' none c h)
    | inr h ↦
        rw (h, deregister)
          (elim (Bool-cases (eq_pair k k')) [
            | inr e ↦ rw e refl
            | inl e ↦
                let absent =
                  ap (λ x. find_provider x c) (sym (eq_pair→eq k k' e)) ∙ no_schema k c h in
                rw e absent
          ])
  ]

  pub schemas-deregister : (k : Pair) (c : Catalog A) → (deregister k c).schemas ≡ c.schemas
  unfolding deregister put_table
  schemas-deregister k c = elim (Bool-cases (has_text k.0 c.schemas)) [
    | inl h ↦ rw (h, deregister) refl
    | inr h ↦ rw (h, deregister) refl
  ]

  register_fresh :
      (k : Pair) (p : Provider A) (c : Catalog A)
      → has_text k.0 c.schemas ≡ true
      → find_provider k c ≡ none
      → register_table k p c ≡ (put_table k (some p) c, true)
  unfolding register_table
  register_fresh k p c h e = rw (h, register_table) (rw e refl)

  register_taken :
      (k : Pair) (p q : Provider A) (c : Catalog A)
      → has_text k.0 c.schemas ≡ true
      → find_provider k c ≡ some q
      → register_table k p c ≡ (c, false)
  unfolding register_table
  register_taken k p q c h e = rw (h, register_table) (rw e refl)

  register_nowhere :
      (k : Pair) (p : Provider A) (c : Catalog A)
      → has_text k.0 c.schemas ≡ false
      → register_table k p c ≡ (c, false)
  unfolding register_table
  register_nowhere k p c h = rw (h, register_table) refl

  pub schemas-register_table :
      (k : Pair) (p : Provider A) (c : Catalog A) → (register_table k p c).0.schemas ≡ c.schemas
  schemas-register_table k p c = elim (Bool-cases (has_text k.0 c.schemas)) [
    | inr h ↦ rw (register_nowhere k p c h) refl
    | inl h ↦ elim (Option-cases (find_provider k c)) [
      | inl e ↦ rw (register_fresh k p c h e) (unfold put_table in refl)
      | inr (q, e) ↦ rw (register_taken k p q c h e) refl
    ]
  ]

  -- A provider that is put back under its name.
  pub find-put_back :
      (k k' : Pair) (p : Provider A) (c : Catalog A)
      → has_text k.0 c.schemas ≡ true
      → find_provider k' (register_table k p (deregister k c)).0
        ≡ (if eq_pair k k' then some p else find_provider k' c)
  find-put_back k k' p c h =
      let there = ap (has_text k.0) (schemas-deregister k c) ∙ h in
      let gone = find-deregister k k c ∙ rw (eq_pair_refl k) refl in
      ap (λ (r : Catalog A × _). find_provider k' r.0)
        (register_fresh k p (deregister k c) there gone)
      ∙ find-put_table k k' (some p) (deregister k c) there
      ∙ elim (Bool-cases (eq_pair k k')) [
        | inl e ↦ rw e refl
        | inr e ↦ rw e (find-deregister k k' c ∙ rw e refl)
      ]

  find-ensure_schema :
      (db : Chars) (k : Pair) (c : Catalog A)
      → find_provider k (ensure_schema db c) ≡ find_provider k c
  unfolding ensure_schema find_provider
  find-ensure_schema db k c = elim (Bool-cases (has_text db c.schemas)) [
    | inl h ↦ rw (h, ensure_schema) refl
    | inr h ↦ elim (Bool-cases (eq_bytes db k.0)) [
      | inr e ↦ rw (h, ensure_schema) (rw (has_text-snoc_other k.0 db c.schemas e) (rw e refl))
      | inl e ↦
          let absent : has_text k.0 c.schemas ≡ false =
            ap (λ x. has_text x c.schemas) (sym (eq_bytes→eq db k.0 e)) ∙ h in
          rw (h, ensure_schema) (rw absent (rw e (ground arith)))
    ]
  ]

  Grows-ensure_schema : (db : Chars) (c : Catalog A) → Grows c (ensure_schema db c)
  unfolding ensure_schema
  Grows-ensure_schema db c = elim (Bool-cases (has_text db c.schemas)) [
    | inl h ↦ rw (h, ensure_schema) (same-Grows c c refl)
    | inr h ↦ rw (h, ensure_schema) (db ∷ [], refl)
  ]

  -- Only this entry may change, and no schema goes.
  pub record Steps (k : Pair) (c c' : Catalog A) : Type 0 where
    pub others : (k' : Pair) → eq_pair k k' ≡ false → find_provider k' c' ≡ find_provider k' c
    pub grows : Grows c c'

  pub no_step : (k : Pair) (c : Catalog A) → Steps k c c
  no_step k c = record { others = λ k' e. refl; grows = same-Grows c c refl }

  Steps-trans : (k : Pair) (c c' c'' : Catalog A) → Steps k c c' → Steps k c' c'' → Steps k c c''
  Steps-trans k c c' c'' h g = record {
    others = λ k' e. g.others k' e ∙ h.others k' e;
    grows = Grows-trans c c' c'' h.grows g.grows;
  }

  deregister-Steps : (k : Pair) (c : Catalog A) → Steps k c (deregister k c)
  deregister-Steps k c = record {
    others = λ k' e. find-deregister k k' c ∙ rw e refl;
    grows = same-Grows c (deregister k c) (schemas-deregister k c);
  }

  ensure_schema-Steps : (db : Chars) (k : Pair) (c : Catalog A) → Steps k c (ensure_schema db c)
  ensure_schema-Steps db k c = record {
    others = λ k' e. find-ensure_schema db k' c;
    grows = Grows-ensure_schema db c;
  }

  put_table-Steps :
      (k : Pair) (o : Option (Provider A)) (c : Catalog A)
      → has_text k.0 c.schemas ≡ true
      → Steps k c (put_table k o c)
  put_table-Steps k o c h = record {
    others = λ k' e. find-put_table k k' o c h ∙ rw e refl;
    grows = same-Grows c (put_table k o c) (unfold put_table in refl);
  }

  register_table-Steps :
      (k : Pair) (p : Provider A) (c : Catalog A) → Steps k c (register_table k p c).0
  register_table-Steps k p c = elim (Bool-cases (has_text k.0 c.schemas)) [
    | inr h ↦ rw (register_nowhere k p c h) (no_step k c)
    | inl h ↦ elim (Option-cases (find_provider k c)) [
      | inl e ↦ rw (register_fresh k p c h e) (put_table-Steps k (some p) c h)
      | inr (q, e) ↦ rw (register_taken k p q c h e) (no_step k c)
    ]
  ]

  register_own :
      (k : Pair) (p : Provider A) (c : Catalog A)
      → (register_table k p c).1 ≡ true
      → find_provider k (register_table k p c).0 ≡ some p
  register_own k p c fine = elim (Bool-cases (has_text k.0 c.schemas)) [
    | inr h ↦ let bad = ap (λ (r : Catalog A × _). r.1) (register_nowhere k p c h) in cc (bad, fine)
    | inl h ↦ elim (Option-cases (find_provider k c)) [
      | inl e ↦
          rw (register_fresh k p c h e) (find-put_table k k (some p) c h ∙ rw (eq_pair_refl k) refl)
      | inr (q, e) ↦
          let bad = ap (λ (r : Catalog A × _). r.1) (register_taken k p q c h e) in cc (bad, fine)
    ]
  ]

module _ {A : Type 0} (resolve : Chars → Pair) (name : Chars) (p : Provider A) (c : Catalog A) where
  pub swap_provider-Steps : Steps (resolve name) c (swap_provider resolve name p c).0
  unfolding swap_provider
  swap_provider-Steps =
      let k = resolve name in
      let c1 : Catalog A = elim (find_provider k c) [ some _ ↦ deregister k c | none ↦ c ] in
      let first : Steps k c c1 = elim (Option-cases (find_provider k c)) [
        | inl e ↦ rw e (no_step k c)
        | inr (q, e) ↦ rw e (deregister-Steps k c)
      ] in
      elim (Option-cases (split_once b'.' name)) [
        | inl e ↦ rw (e, swap_provider) first
        | inr (parts, e) ↦
            rw (e, swap_provider)
              (Steps-trans k c c1 _ first (
                Steps-trans k c1 (ensure_schema parts.0 c1) _ (ensure_schema-Steps parts.0 k c1)
                  (register_table-Steps k p (ensure_schema parts.0 c1))))
      ]

  pub swap_provider_own :
      (swap_provider resolve name p c).1 ≡ true
      → find_provider (resolve name) (swap_provider resolve name p c).0 ≡ some p
  unfolding swap_provider
  swap_provider_own fine = elim (Option-cases (split_once b'.' name)) [
    | inl e ↦ let bad : false ≡ true = rw (e, swap_provider) at fine in cc bad
    | inr (parts, e) ↦
        rw (e, swap_provider)
          (register_own (resolve name) p _ (let good = rw (e, swap_provider) at fine in good))
  ]
