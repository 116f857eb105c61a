-- ===== src/Privacy/Isolation.antt =====
-- What the policy filter lets through, and what it reports as denied.
use trilith.Prelude.{
  ℕ, ◌+◌, ◌≡◌, refl, ◌⊎◌, inl, inr, true, false, arith, List, [], ◌∷◌, Occurs, length, Bool-cases,
}
use trilith.Proto.{ContextItem, global}
use trilith.Identity.{Principal}
use trilith.Python.{Python}
use trilith.Privacy.{explain, expired, filter_from, redacted}
use trilith.Privacy.Visibility.{SameTenant, Visible, explain_iff}

module _ (py : Python) (p : Principal) (now : ℕ) where
  -- `a` is the redacted copy of a candidate that has not expired and that the principal may see.
  abbrev pub IsAdmitted : List ContextItem → ContextItem → Type 0
  IsAdmitted candidates a =
      (c : ContextItem) × Occurs c candidates
      × (a ≡ redacted py c)
      × (expired c.expires_at now ≡ false)
      × Visible py c p

  later :
      (item : ContextItem) (items : List ContextItem) (a : ContextItem)
      → IsAdmitted items a
      → IsAdmitted (item ∷ items) a
  later item items a (c, o, e, x, v) = (c, inr o, e, x, v)

  here :
      (item : ContextItem) (items : List ContextItem) (a : ContextItem)
      → (explain py item p now).0 ≡ true
      → a ≡ redacted py item
      → IsAdmitted (item ∷ items) a
  here item items a h e = let (x, v) = (explain_iff py item p now).0 h in (item, inl refl, e, x, v)

  -- What the filter allows is the redacted copy of a candidate that has not expired and that
  -- the principal may see.
  pub filter-allowed :
      (candidates : List ContextItem) (a : ContextItem)
      → Occurs a (filter_from py candidates p now).0
      → IsAdmitted candidates a
  unfolding filter_from
  filter-allowed [] a o = absurd o
  filter-allowed (item ∷ items) a o = elim (Bool-cases (explain py item p now).0) [
    | inl e ↦ split e (rw e at o) (filter-allowed items a)
    | inr e ↦ later item items a (filter-allowed items a (rw e at o))
  ]
    where
      split :
          (explain py item p now).0 ≡ true
          → (a ≡ redacted py item) ⊎ Occurs a (filter_from py items p now).0
          → (Occurs a (filter_from py items p now).0 → IsAdmitted items a)
          → IsAdmitted (item ∷ items) a
      split e (inl q) ih = here item items a e q
      split e (inr i) ih = later item items a (ih i)

  -- A candidate that the policy allows is among what is allowed, redacted.
  pub filter-visible :
      (candidates : List ContextItem) (c : ContextItem)
      → Occurs c candidates
      → (explain py c p now).0 ≡ true
      → Occurs (redacted py c) (filter_from py candidates p now).0
  unfolding filter_from
  filter-visible [] c o h = absurd o
  filter-visible (item ∷ items) c (inl q) h = rw (← q, h) (inl refl)
  filter-visible (item ∷ items) c (inr o) h = elim (Bool-cases (explain py item p now).0) [
    | inl e ↦ rw e (inr (filter-visible items c o h))
    | inr e ↦ rw e (filter-visible items c o h)
  ]

  -- A candidate that the policy denies is reported with the reason that the policy gives.
  pub filter-denied :
      (candidates : List ContextItem) (c : ContextItem)
      → Occurs c candidates
      → (explain py c p now).0 ≡ false
      → Occurs (c, (explain py c p now).1) (filter_from py candidates p now).1
  unfolding filter_from
  filter-denied [] c o h = absurd o
  filter-denied (item ∷ items) c (inl q) h = rw (← q, h) (inl refl)
  filter-denied (item ∷ items) c (inr o) h = elim (Bool-cases (explain py item p now).0) [
    | inl e ↦ rw e (filter-denied items c o h)
    | inr e ↦ rw e (inr (filter-denied items c o h))
  ]

  pub filter-lengths :
      (candidates : List ContextItem)
      → length (filter_from py candidates p now).0 + length (filter_from py candidates p now).1
        ≡ length candidates
  unfolding filter_from
  filter-lengths [] = refl
  filter-lengths (item ∷ items) = ground (arith, filter-lengths items)

  -- No item of another tenant is allowed, unless its scope is GLOBAL.
  pub filter-SameTenant :
      (candidates : List ContextItem) (a : ContextItem)
      → Occurs a (filter_from py candidates p now).0
      → (a.scope ≡ global) ⊎ SameTenant a p
  filter-SameTenant candidates a o =
      let (c, _, e, _, v) = filter-allowed candidates a o in same c e v
    where
      same :
          (c : ContextItem)
          → a ≡ redacted py c
          → Visible py c p
          → (a.scope ≡ global) ⊎ SameTenant a p
      same c e (inl g) = inl (rw e g)
      same c e (inr (t, _)) = inr (rw e t)

  -- Filtering what the filter allowed, at the same time, allows all of it again.
  pub explain-redacted : (c : ContextItem) → (explain py (redacted py c) p now) ≡ explain py c p now
  unfolding explain
  explain-redacted c = refl
