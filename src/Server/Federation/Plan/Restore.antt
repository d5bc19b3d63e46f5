-- ===== src/Server/Federation/Plan/Restore.antt =====
-- federation/mod.rs, `prepare_and_plan`: the catalog after a query is the one before it, but for schemas.
use iedb.Base.{
  ℕ, ◌≡◌, refl, sym, ◌∙◌, ap, Bool, true, false, ◌⊎◌, Option, none, some, List, [], ◌∷◌, ◌++◌, map,
  if◌then◌else◌, ℤ, All, Bool-cases, Option-cases, inl, inr,
}
use mathlib.Core.Path.{subst}
use iedb.Base.Text.Codes.{Chars}
use iedb.Server.Db.{Db, has_text}
use iedb.Server.Federation.{Pair, QueryMode, history_mode, buffer_mode, all_mode}
use iedb.Server.Federation.Catalog.{
  Provider, mem_table, Batch, Catalog, schema_of, eq_pair, find_provider, deregister,
  register_table,
}
use iedb.Server.Federation.Plan.{
  Pass, Fetched, qualified, list_table_agents, targets_of, collect, shadow_empty_in_buffer, install,
  new_provider, federate, prepare_table, prepare_tables, restore, prepare_and_plan,
}
use iedb.Server.Federation.Catalog.Entries.{
  eq_pair→eq, eq_pair_sym, Grows, grown_has, same-Grows, Grows-trans, found_schema, find-deregister,
  schemas-deregister, schemas-register_table, find-put_back, Steps, no_step, swap_provider-Steps,
}

pub apart_of : (a b : Pair) → eq_pair a b ≡ false → eq_pair b a ≡ false
apart_of a b e = eq_pair_sym b a ∙ e

abbrev pub Apart : Pair → List Pair → Type 0
Apart k = All (λ n. eq_pair k n ≡ false)

-- No entry stands twice.
abbrev pub AllApart : List Pair → Type 0
AllApart [] = Unit {0}
AllApart (k ∷ ks) = Apart k ks × AllApart ks

-- The entries of the catalog that the tables of a query are.
abbrev pub entries : (Chars → Pair) → List Pair → List Pair
entries resolve = map (λ p. resolve (qualified p))

module _ {A : Type 0} (resolve : Chars → Pair) where
  -- What the restoring loop leaves in an entry: the last provider that was recorded for it.
  abbrev last_for :
      Pair → List (Chars × Option (Provider A)) → Option (Provider A) → Option (Provider A)
  last_for k [] d = d
  last_for k ((name, o) ∷ replaced) d =
      last_for k replaced (if eq_pair (resolve name) k then o else d)

  -- The schema of every provider that is put back is registered.
  abbrev Restorable : List (Chars × Option (Provider A)) → Catalog A → Type 0
  Restorable [] c = Unit {0}
  Restorable ((name, none) ∷ replaced) c = Restorable replaced c
  Restorable ((name, some p) ∷ replaced) c =
      (has_text (resolve name).0 c.schemas ≡ true) × Restorable replaced c

  Restorable-Grows :
      (replaced : List (Chars × Option (Provider A))) (c c' : Catalog A)
      → Grows c c'
      → Restorable replaced c
      → Restorable replaced c'
  Restorable-Grows [] c c' g h = tt
  Restorable-Grows ((name, none) ∷ replaced) c c' g h = Restorable-Grows replaced c c' g h
  Restorable-Grows ((name, some p) ∷ replaced) c c' g h =
      (grown_has (resolve name).0 c c' g h.0, Restorable-Grows replaced c c' g h.1)

  Restorable-snoc :
      (name : Chars) (o : Option (Provider A)) (replaced : List (Chars × Option (Provider A)))
      (c : Catalog A)
      → find_provider (resolve name) c ≡ o
      → Restorable replaced c
      → Restorable (replaced ++ ((name, o) ∷ [])) c
  Restorable-snoc name none [] c e h = tt
  Restorable-snoc name (some p) [] c e h = (found_schema (resolve name) c p e, tt)
  Restorable-snoc name o ((m, none) ∷ replaced) c e h = Restorable-snoc name o replaced c e h
  Restorable-snoc name o ((m, some q) ∷ replaced) c e h =
      (h.0, Restorable-snoc name o replaced c e h.1)

  schemas-put_back :
      (k : Pair) (p : Provider A) (c : Catalog A)
      → (register_table k p (deregister k c)).0.schemas ≡ c.schemas
  schemas-put_back k p c = schemas-register_table k p (deregister k c) ∙ schemas-deregister k c

  find-restore :
      (k : Pair) (replaced : List (Chars × Option (Provider A))) (c : Catalog A)
      → Restorable replaced c
      → find_provider k (restore resolve replaced c) ≡ last_for k replaced (find_provider k c)
  unfolding restore
  find-restore k [] c h = refl
  find-restore k ((name, none) ∷ replaced) c h =
      let c' = deregister (resolve name) c in
      find-restore k replaced c'
        (Restorable-Grows replaced c c' (same-Grows c c' (schemas-deregister (resolve name) c)) h)
      ∙ ap (last_for k replaced) (find-deregister (resolve name) k c)
  find-restore k ((name, some p) ∷ replaced) c h =
      let c' = (register_table (resolve name) p (deregister (resolve name) c)).0 in
      find-restore k replaced c'
        (Restorable-Grows replaced c c' (same-Grows c c' (schemas-put_back (resolve name) p c)) h.1)
      ∙ ap (last_for k replaced) (find-put_back (resolve name) k p c h.0)

  schemas-restore :
      (replaced : List (Chars × Option (Provider A))) (c : Catalog A)
      → (restore resolve replaced c).schemas ≡ c.schemas
  unfolding restore
  schemas-restore [] c = refl
  schemas-restore ((name, none) ∷ replaced) c =
      schemas-restore replaced (deregister (resolve name) c) ∙ schemas-deregister (resolve name) c
  schemas-restore ((name, some p) ∷ replaced) c =
      schemas-restore replaced (register_table (resolve name) p (deregister (resolve name) c)).0
      ∙ schemas-put_back (resolve name) p c

  last_for-snoc :
      (k : Pair) (name : Chars) (o : Option (Provider A))
      (replaced : List (Chars × Option (Provider A))) (d : Option (Provider A))
      → last_for k (replaced ++ ((name, o) ∷ [])) d
        ≡ (if eq_pair (resolve name) k then o else last_for k replaced d)
  last_for-snoc k name o [] d = refl
  last_for-snoc k name o ((m, o') ∷ replaced) d = last_for-snoc k name o replaced _

  -- A step on one table records what it replaces, and leaves the other entries alone.
  abbrev pub Touches : Chars → Pass A → Pass A → Type 0
  Touches name before after =
      ((after.catalog ≡ before.catalog) × (after.replaced ≡ before.replaced))
      ⊎ ((after.replaced
            ≡ before.replaced ++ ((name, find_provider (resolve name) before.catalog) ∷ []))
          × Steps (resolve name) before.catalog after.catalog)

  install-Steps :
      (name : Chars) (o : Option (Provider A)) (pass : Pass A)
      → Steps (resolve name) pass.catalog (install resolve name o pass).0.catalog
  install-Steps name none pass = no_step (resolve name) pass.catalog
  install-Steps name (some p) pass = swap_provider-Steps resolve name p pass.catalog

  replaced-install :
      (name : Chars) (o : Option (Provider A)) (pass : Pass A)
      → (install resolve name o pass).0.replaced ≡ pass.replaced
  replaced-install name none pass = refl
  replaced-install name (some p) pass = refl

  shadow-Touches :
      (mode : QueryMode) (name : Chars) (pass : Pass A)
      → Touches name pass (shadow_empty_in_buffer resolve mode name pass).0
  unfolding shadow_empty_in_buffer
  shadow-Touches history_mode name pass = inl (refl, refl)
  shadow-Touches all_mode name pass = inl (refl, refl)
  shadow-Touches buffer_mode name pass =
      elim (Option-cases (find_provider (resolve name) pass.catalog)) [
        | inl e ↦ rw (e, shadow_empty_in_buffer) (inl (refl, refl))
        | inr (p, e) ↦
            rw (e, shadow_empty_in_buffer)
              (inr
                (refl, swap_provider-Steps resolve name (mem_table (schema_of p) []) pass.catalog))
      ]

  -- The pass and the entries that are still to come: what is recorded gives the catalog back, and the
  -- entries to come are untouched.
  record Consistent (start : Catalog A) (keys : List Pair) (pass : Pass A) : Type 0 where
    pub undone :
        (k : Pair) → last_for k pass.replaced (find_provider k pass.catalog) ≡ find_provider k start
    pub ahead : All (λ k. find_provider k pass.catalog ≡ find_provider k start) keys
    pub restorable : Restorable pass.replaced pass.catalog
    pub grows : Grows start pass.catalog

  ahead_kept :
      (start c c' : Catalog A) (key : Pair) (keys : List Pair)
      → ((k : Pair) → eq_pair key k ≡ false → find_provider k c' ≡ find_provider k c)
      → Apart key keys
      → All (λ k. find_provider k c ≡ find_provider k start) keys
      → All (λ k. find_provider k c' ≡ find_provider k start) keys
  ahead_kept start c c' key [] same apart h = tt
  ahead_kept start c c' key (k ∷ keys) same apart h =
      (same k apart.0 ∙ h.0, ahead_kept start c c' key keys same apart.1 h.1)

  same_all :
      (c : Catalog A) (keys : List Pair) → All (λ k. find_provider k c ≡ find_provider k c) keys
  same_all c [] = tt
  same_all c (k ∷ keys) = (refl, same_all c keys)

  Touches-Consistent :
      (start : Catalog A) (name : Chars) (keys : List Pair) (before after : Pass A)
      → Apart (resolve name) keys
      → Consistent start (resolve name ∷ keys) before
      → Touches name before after
      → Consistent start keys after
  Touches-Consistent start name keys before after apart h (inl (same, kept)) = record {
    undone = λ k. (λ i. last_for k (kept i) (find_provider k (same i))) ∙ h.undone k;
    ahead =
        ahead_kept start before.catalog after.catalog (resolve name) keys
          (λ k _. ap (find_provider k) same) apart h.ahead.1;
    restorable =
        subst (λ r. Restorable r after.catalog) (sym kept)
          (subst (λ c. Restorable before.replaced c) (sym same) h.restorable);
    grows = subst (λ c. Grows start c) (sym same) h.grows;
  }
  Touches-Consistent start name keys before after apart h (inr (grown, steps)) =
      let o = find_provider (resolve name) before.catalog in
      record {
        undone = λ k.
            ap (λ r. last_for k r (find_provider k after.catalog)) grown
            ∙ last_for-snoc k name o before.replaced (find_provider k after.catalog)
            ∙ elim (Bool-cases (eq_pair (resolve name) k)) [
              | inl e ↦ rw e (h.ahead.0 ∙ ap (λ x. find_provider x start) (eq_pair→eq _ k e))
              | inr e ↦ rw e (ap (last_for k before.replaced) (steps.others k e) ∙ h.undone k)
            ];
        ahead =
            ahead_kept start before.catalog after.catalog (resolve name) keys steps.others apart
              h.ahead.1;
        restorable =
            subst (λ r. Restorable r after.catalog) (sym grown)
              (Restorable-Grows (before.replaced ++ ((name, o) ∷ [])) before.catalog after.catalog
                steps.grows
                (Restorable-snoc name o before.replaced before.catalog refl h.restorable));
        grows = Grows-trans start before.catalog after.catalog h.grows steps.grows;
      }

module _ {A : Type 0} (null_array : Chars → ℕ → A) (resolve : Chars → Pair) (reads : Pair → Bool)
    (now_ms : ℤ) (s : Db) (fetch : Pair → Chars → Fetched A) where
  federate-Touches :
      (mode : QueryMode) (name : Chars) (batches : List (Batch A)) (pass : Pass A)
      → Touches resolve name pass (federate null_array resolve reads mode name batches pass).0
  unfolding federate
  federate-Touches mode name [] pass = shadow-Touches resolve mode name pass
  federate-Touches mode name (b ∷ bs) pass =
      let o = new_provider null_array mode (find_provider (resolve name) pass.catalog) b bs in
      inr (replaced-install resolve name o _, install-Steps resolve name o _)

  pub prepare_table-Touches :
      (mode : QueryMode) (p : Pair) (pass : Pass A)
      → Touches resolve
          (qualified p)
          pass
          (prepare_table null_array resolve reads mode now_ms s fetch p pass).0
  unfolding prepare_table
  prepare_table-Touches mode p pass =
      let targets = targets_of now_ms s (list_table_agents p.0 p.1 s) in
      elim (Bool-cases (reads p)) [
        | inl e ↦ rw e (federate-Touches mode (qualified p) (collect (fetch p) targets.0).0 _)
        | inr e ↦ rw e (inl (refl, refl))
      ]

  prepare_tables-Consistent :
      (mode : QueryMode) (start : Catalog A) (ps : List Pair) (pass : Pass A)
      → AllApart (entries resolve ps)
      → Consistent resolve start (entries resolve ps) pass
      → Consistent resolve start []
          (prepare_tables null_array resolve reads mode now_ms s fetch ps pass).0
  unfolding prepare_tables
  prepare_tables-Consistent mode start [] pass apart h = h
  prepare_tables-Consistent mode start (p ∷ ps) pass apart h =
      let step = prepare_table null_array resolve reads mode now_ms s fetch p pass in
      let h' =
        Touches-Consistent resolve start (qualified p) (entries resolve ps) pass step.0 apart.0 h
          (prepare_table-Touches mode p pass) in
      elim (Bool-cases step.1) [
        | inl e ↦ rw e (prepare_tables-Consistent mode start ps step.0 apart.1 h')
        | inr e ↦ rw e (record {
          undone = h'.undone;
          ahead = tt;
          restorable = h'.restorable;
          grows = h'.grows;
        })
      ]

  -- A query leaves the providers of the catalog that all queries share as they were: after
  -- `prepare_and_plan`, every table has the provider that it had before, and every schema is there, in the
  -- old order, with perhaps more of them behind, which `swap_provider` created and nothing removes. The
  -- names of the query's tables have to be different tables to DataFusion, which normalizes names. This
  -- holds in every mode, whatever the store and the fetches bring, and also where a table or the planning
  -- fails.
  pub catalog_restored :
      {P : Type 0} (plan : Catalog A → Option P) (mode : QueryMode) (ps : List Pair) (c : Catalog A)
      → AllApart (entries resolve ps)
      → (k : Pair)
      → (find_provider k (prepare_and_plan null_array resolve reads plan mode now_ms s fetch ps c).0
          ≡ find_provider k c)
        × Grows c (prepare_and_plan null_array resolve reads plan mode now_ms s fetch ps c).0
  unfolding prepare_and_plan
  catalog_restored plan mode [] c apart k = (refl, same-Grows c c refl)
  catalog_restored plan mode (p ∷ ps) c apart k =
      let pass = (prepare_tables null_array resolve reads mode now_ms s fetch (p ∷ ps) _).0 in
      let h = prepare_tables-Consistent mode c (p ∷ ps) _ apart (record {
        undone = λ m. refl;
        ahead = same_all resolve c (entries resolve (p ∷ ps));
        restorable = tt;
        grows = same-Grows c c refl;
      }) in
      (
        find-restore resolve k pass.replaced pass.catalog h.restorable ∙ h.undone k,
        Grows-trans c pass.catalog (restore resolve pass.replaced pass.catalog) h.grows (
            same-Grows pass.catalog (restore resolve pass.replaced pass.catalog)
              (schemas-restore resolve pass.replaced pass.catalog)),
      )
