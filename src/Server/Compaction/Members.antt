-- ===== src/Server/Compaction/Members.antt =====
-- compaction.rs: which files a filter, a sort and a set of names hold.
use iedb.Base.{
  ◌≡◌, refl, sym, ◌∙◌, ap, Bool, true, List, [], ◌∷◌, arith, In, keep, eq_bytes, eq_bytes→eq,
  eq_bytes_refl, Bool-cases, inl, inr,
}
use mathlib.Core.Bool.{not}
use iedb.Base.Text.Codes.{Chars}
use iedb.Server.Ingest.{DataFile}
use iedb.Server.Compaction.{le_bytes, insert_by_name, sort_by_name, has_name}

module _ {A : Type 0} where
  pub keep_ext :
      (p q : A → Bool) (xs : List A) → ((x : A) → In x xs → p x ≡ q x) → keep p xs ≡ keep q xs
  keep_ext p q [] h = refl
  keep_ext p q (x ∷ xs) h = ground (arith, h x (inl refl), keep_ext p q xs (λ y m. h y (inr m)))

  pub In-keep : (p : A → Bool) (xs : List A) (x : A) → In x xs → p x ≡ true → In x (keep p xs)
  In-keep p [] x m e = absurd m
  In-keep p (y ∷ ys) x (inl q) e = rw (ap p q ∙ e) (inl q)
  In-keep p (y ∷ ys) x (inr m) e = elim (Bool-cases (p y)) [
    | inl h ↦ rw h (inr (In-keep p ys x m e))
    | inr h ↦ rw h (In-keep p ys x m e)
  ]

  In-kept :
      (p : A → Bool) (y : A) (ys zs : List A) (x : A)
      → p y ≡ true
      → (In x zs → In x ys × (p x ≡ true))
      → In x (y ∷ zs)
      → In x (y ∷ ys) × (p x ≡ true)
  In-kept p y ys zs x h f (inl q) = (inl q, ap p (sym q) ∙ h)
  In-kept p y ys zs x h f (inr m) = (inr (f m).0, (f m).1)

  pub In-keep→ : (p : A → Bool) (xs : List A) (x : A) → In x (keep p xs) → In x xs × (p x ≡ true)
  In-keep→ p [] x m = absurd m
  In-keep→ p (y ∷ ys) x m = elim (Bool-cases (p y)) [
    | inl h ↦ In-kept p y ys (keep p ys) x h (In-keep→ p ys x) (rw h at m)
    | inr h ↦ let m' : In x (keep p ys) = rw h at m in let r = In-keep→ p ys x m' in (inr r.0, r.1)
  ]

  pub keep_none : (p : A → Bool) (xs : List A) → keep p (keep (λ x. not (p x)) xs) ≡ []
  keep_none p [] = refl
  keep_none p (x ∷ xs) = ground (arith, keep_none p xs)

In-insert : (f g : DataFile) (gs : List DataFile) → In g (f ∷ gs) → In g (insert_by_name f gs)
unfolding insert_by_name
In-insert f g [] m = m
In-insert f g (h ∷ gs) m = elim (Bool-cases (le_bytes f.name h.name)) [
  | inl e ↦ rw e m
  | inr e ↦ rw e (elim m [
    | inl q ↦ inr (In-insert f g gs (inl q))
    | inr m' ↦ elim m' [ inl q ↦ inl q | inr m'' ↦ inr (In-insert f g gs (inr m'')) ]
  ])
]

pub In-sort : (g : DataFile) (fs : List DataFile) → In g fs → In g (sort_by_name fs)
unfolding sort_by_name
In-sort g [] m = m
In-sort g (f ∷ fs) (inl q) = In-insert f g (sort_by_name fs) (inl q)
In-sort g (f ∷ fs) (inr m) = In-insert f g (sort_by_name fs) (inr (In-sort g fs m))

In-insert→ : (f g : DataFile) (gs : List DataFile) → In g (insert_by_name f gs) → In g (f ∷ gs)
unfolding insert_by_name
In-insert→ f g [] m = m
In-insert→ f g (h ∷ gs) m = elim (Bool-cases (le_bytes f.name h.name)) [
  | inl e ↦ rw e at m
  | inr e ↦
      let m' : In g (h ∷ insert_by_name f gs) = rw e at m in
      elim m' [
        | inl q ↦ inr (inl q)
        | inr m'' ↦ elim (In-insert→ f g gs m'') [ inl q ↦ inl q | inr r ↦ inr (inr r) ]
      ]
]

pub In-sort→ : (g : DataFile) (fs : List DataFile) → In g (sort_by_name fs) → In g fs
unfolding sort_by_name
In-sort→ g [] m = m
In-sort→ g (f ∷ fs) m = elim (In-insert→ f g (sort_by_name fs) m) [
  | inl q ↦ inl q
  | inr r ↦ inr (In-sort→ g fs r)
]

pub has_name-In : (f : DataFile) (fs : List DataFile) → In f fs → has_name f.name fs ≡ true
unfolding has_name
has_name-In f [] m = absurd m
has_name-In f (g ∷ gs) (inl q) =
    let same : eq_bytes g.name f.name ≡ true =
      ap (λ (h : DataFile). eq_bytes h.name f.name) q ∙ eq_bytes_refl f.name in
    rw same refl
has_name-In f (g ∷ gs) (inr m) = ground (arith, has_name-In f gs m)

pub has_name→In :
    (n : Chars) (fs : List DataFile)
    → has_name n fs ≡ true
    → (g : DataFile) × In g fs × (g.name ≡ n)
unfolding has_name
has_name→In n [] e = cc
has_name→In n (f ∷ fs) e = elim (Bool-cases (eq_bytes f.name n)) [
  | inl h ↦ (f, inl refl, eq_bytes→eq f.name n h)
  | inr h ↦ let r = has_name→In n fs (ground (arith, h, e)) in (r.0, inr r.1, r.2)
]
