-- ===== src/Database/Lineage.antt =====
-- The recursive query of `SQLiteBackend.lineage` in core/sqlite_backend.py, against the relation it
-- computes.
use trilith.Prelude.{
  ℕ, zero, suc, ◌≤◌, String, ◌≡◌, refl, sym, ap, ◌∙◌, Bool, true, false, not, ◌&&◌, List, [], ◌∷◌,
  ◌++◌, some, filter, any, length, Occurs, inl, inr, ◌↔◌, Bool-cases, eq_self, eq_of_beq, ◌==◌,
  string_eq, arith, and-true_parts, any-true, any-witness, Occurs-filter, filter-Occurs, Occurs-map,
  map-Occurs, Occurs-append, append-Occurs_left, append-Occurs_right, length-filter-le,
  length-filter-imp_lt,
}
use mathlib.Core.Bool.{false≢true}
use trilith.Identity.{normalize_tenant}
use trilith.Database.{Derived, Db}
use trilith.Database.Backend.{distinct, parents, lineage_rounds, lineage}

-- `x` is `start`, or a source of a summary that `start` goes back to, over the edges of a tenant.
pub data GoesBack (tenant : String) (edges : List Derived) (start : String) : String → Type 0 where
  itself : GoesBack tenant edges start start
  source_of :
      (e : Derived)
      → Occurs e edges
      → e.tenant_id ≡ tenant
      → GoesBack tenant edges start e.summary_id
      → GoesBack tenant edges start e.source_id

Occurs-distinct : (xs : List String) (s : String) → Occurs s (distinct xs) → Occurs s xs
unfolding distinct
Occurs-distinct [] s o = absurd o
Occurs-distinct (x ∷ xs) s (inl e) = inl e
Occurs-distinct (x ∷ xs) s (inr o) =
    inr (Occurs-distinct xs s (Occurs-filter (λ t. not (t == x)) (distinct xs) s o).0)

distinct-Occurs : (xs : List String) (s : String) → Occurs s xs → Occurs s (distinct xs)
unfolding distinct
distinct-Occurs [] s o = absurd o
distinct-Occurs (x ∷ xs) s (inl e) = inl e
distinct-Occurs (x ∷ xs) s (inr o) = elim (Bool-cases (s == x)) [
  | inl e ↦ inl (eq_of_beq s x e)
  | inr n ↦
      inr (filter-Occurs (λ t. not (t == x)) (distinct xs) s (distinct-Occurs xs s o) (rw n refl))
]

abbrev known : List String → String → Bool
known done s = any (λ d. d == s) done

known-Occurs : (done : List String) (s : String) → known done s ≡ true → Occurs s done
known-Occurs done s h =
    let (d, o, e) = any-witness (λ d. d == s) done h in rw (sym (eq_of_beq d s e)) o

Occurs-known : (done : List String) (s : String) → Occurs s done → known done s ≡ true
Occurs-known done s o = any-true (λ d. d == s) done s o (eq_self s)

abbrev fresh : String → List String → List Derived → List String
fresh tenant done edges = filter (λ s. not (known done s)) (distinct (parents tenant done edges))

abbrev usable : String → List String → Derived → Bool
usable tenant done e = e.tenant_id == tenant && any (λ d. d == e.summary_id) done

-- An element of a round comes from an edge whose summary is there.
Occurs-parents :
    (tenant : String) (done : List String) (edges : List Derived) (s : String)
    → Occurs s (parents tenant done edges)
    → (e : Derived) × Occurs e edges
      × (e.tenant_id ≡ tenant)
      × Occurs e.summary_id done
      × (s ≡ e.source_id)
Occurs-parents tenant done edges s o =
    let (e, i, q) =
      Occurs-map (λ (e : Derived). e.source_id) (filter (usable tenant done) edges) s o in
    let (at, u) = Occurs-filter (usable tenant done) edges e i in
    let parts = and-true_parts (e.tenant_id == tenant) (known done e.summary_id) u in
    (e, at, eq_of_beq e.tenant_id tenant parts.0, known-Occurs done e.summary_id parts.1, q)

parents-Occurs :
    (tenant : String) (done : List String) (edges : List Derived) (e : Derived)
    → Occurs e edges
    → e.tenant_id ≡ tenant
    → Occurs e.summary_id done
    → Occurs e.source_id (parents tenant done edges)
parents-Occurs tenant done edges e o t s =
    map-Occurs (λ (e : Derived). e.source_id) (filter (usable tenant done) edges) e
      (filter-Occurs (usable tenant done) edges e o
        (rw (t, eq_self tenant, Occurs-known done e.summary_id s) refl))

-- What a round finds is new, and a source of what is there.
Occurs-fresh :
    (tenant : String) (done : List String) (edges : List Derived) (s : String)
    → Occurs s (fresh tenant done edges)
    → (not (known done s) ≡ true)
      × ((e : Derived) × Occurs e edges
          × (e.tenant_id ≡ tenant)
          × Occurs e.summary_id done
          × (s ≡ e.source_id))
Occurs-fresh tenant done edges s o =
    let all_found = distinct (parents tenant done edges) in
    let (d, u) = Occurs-filter (λ s. not (known done s)) all_found s o in
    (u, Occurs-parents tenant done edges s (Occurs-distinct (parents tenant done edges) s d))

-- A round ends the query where it finds nothing.
round-cases :
    (P : List String → Type 0) (found done more : List String)
    → (found ≡ [] → P done)
    → ((s : String) → Occurs s found → P more)
    → P (elim found [ [] ↦ done | _ ∷ _ ↦ more ])
round-cases P [] done more ends goes_on = ends refl
round-cases P (s ∷ _) done more ends goes_on = goes_on s (inl refl)

-- Every element of the result is one that the start goes back to.
rounds-GoesBack :
    (n : ℕ) (tenant start : String) (done : List String) (edges : List Derived)
    → ((s : String) → Occurs s done → GoesBack tenant edges start s)
    → (s : String) → Occurs s (lineage_rounds n tenant done edges)
    → GoesBack tenant edges start s
unfolding lineage_rounds
rounds-GoesBack zero tenant start done edges h = h
rounds-GoesBack (suc n) tenant start done edges h =
    let found = fresh tenant done edges in
    let more = lineage_rounds n tenant (done ++ found) edges in
    let rest = rounds-GoesBack n tenant start (done ++ found) edges both in
    round-cases (λ xs. (s : String) → Occurs s xs → GoesBack tenant edges start s) found done more
      (λ _. h) (λ _ _. rest)
  where
    both : (x : String) → Occurs x (done ++ fresh tenant done edges) → GoesBack tenant edges start x
    both x i = elim (Occurs-append done (fresh tenant done edges) x i) [
      | inl k ↦ h x k
      | inr k ↦
          let (_, (e, at, t, d, q)) = Occurs-fresh tenant done edges x k in
          rw q (source_of e at t (h e.summary_id d))
    ]

abbrev IsClosed : String → List Derived → List String → Type 0
IsClosed tenant edges xs =
    (e : Derived)
    → Occurs e edges
    → e.tenant_id ≡ tenant
    → Occurs e.summary_id xs
    → Occurs e.source_id xs

-- The edges that a later round can still use.
abbrev unused : List String → Derived → Bool
unused done e = not (known done e.source_id)

fresh-Occurs :
    (tenant : String) (done : List String) (edges : List Derived) (e : Derived)
    → Occurs e edges
    → e.tenant_id ≡ tenant
    → Occurs e.summary_id done
    → known done e.source_id ≡ false
    → Occurs e.source_id (fresh tenant done edges)
fresh-Occurs tenant done edges e o t s n =
    filter-Occurs (λ s. not (known done s)) (distinct (parents tenant done edges)) e.source_id
      (distinct-Occurs (parents tenant done edges) e.source_id
        (parents-Occurs tenant done edges e o t s))
      (rw n refl)

-- A round that finds something uses up an edge.
fresh-uses :
    (tenant : String) (done : List String) (edges : List Derived) (s : String)
    → Occurs s (fresh tenant done edges)
    → suc (length (filter (unused (done ++ fresh tenant done edges)) edges))
      ≤ length (filter (unused done) edges)
fresh-uses tenant done edges s o =
    let found = fresh tenant done edges in
    let (u, (e, at, _, _, q)) = Occurs-fresh tenant done edges s o in
    length-filter-imp_lt (unused (done ++ found)) (unused done) edges e (λ a h. fewer a h) at
      (ap not (
        Occurs-known (done ++ found) e.source_id
          (append-Occurs_right done found e.source_id (rw (sym q) o))))
      (rw (sym q) u)
  where
    fewer : (a : Derived) → unused (done ++ fresh tenant done edges) a ≡ true → unused done a ≡ true
    fewer a h = elim (Bool-cases (known done a.source_id)) [
      | inr n ↦ rw n refl
      | inl k ↦ absurd (
          false≢true (
            ap not (
              sym (
                Occurs-known (done ++ fresh tenant done edges) a.source_id (
                  append-Occurs_left done (fresh tenant done edges) a.source_id
                    (known-Occurs done a.source_id k))))
            ∙ h))
    ]

-- With more fuel than unused edges the result is closed: the last round finds nothing.
rounds-IsClosed :
    (n : ℕ) (tenant : String) (done : List String) (edges : List Derived)
    → suc (length (filter (unused done) edges)) ≤ n
    → IsClosed tenant edges (lineage_rounds n tenant done edges)
      × ((s : String) → Occurs s done → Occurs s (lineage_rounds n tenant done edges))
unfolding lineage_rounds
rounds-IsClosed zero tenant done edges enough = absurd (omega (arith, enough))
rounds-IsClosed (suc n) tenant done edges enough =
    let found = fresh tenant done edges in
    let more = lineage_rounds n tenant (done ++ found) edges in
    let rest = rounds-IsClosed n tenant (done ++ found) edges in
    round-cases (λ xs. IsClosed tenant edges xs × ((s : String) → Occurs s done → Occurs s xs))
      found done more (λ none_found. (closed none_found, λ s o. o))
      (λ s o.
        let (c, k) = rest (omega (arith, fresh-uses tenant done edges s o, enough)) in
        (c, λ x i. k x (append-Occurs_left done found x i)))
  where
    closed : fresh tenant done edges ≡ [] → IsClosed tenant edges done
    closed q e o t s = elim (Bool-cases (known done e.source_id)) [
      | inl k ↦ known-Occurs done e.source_id k
      | inr n ↦ absurd (rw q at (fresh-Occurs tenant done edges e o t s n))
    ]

GoesBack-Occurs :
    (tenant start : String) (edges : List Derived) (xs : List String)
    → IsClosed tenant edges xs
    → Occurs start xs
    → (s : String) → GoesBack tenant edges start s
    → Occurs s xs
GoesBack-Occurs tenant start edges xs closed o _ itself = o
GoesBack-Occurs tenant start edges xs closed o _ (source_of e at t g) =
    closed e at t (GoesBack-Occurs tenant start edges xs closed o e.summary_id g)

-- The lineage of an item is exactly what the item goes back to over the edges of its tenant: the
-- rounds always end with all of it, also where the edges form a cycle.
pub lineage-GoesBack :
    (item_id tenant_id s : String) (db : Db)
    → Occurs s (lineage item_id tenant_id db)
      ↔ GoesBack (normalize_tenant (some tenant_id)) db.derived item_id s
unfolding lineage
lineage-GoesBack item_id tenant_id s db =
    let t = normalize_tenant (some tenant_id) in
    let (closed, keeps) =
      rounds-IsClosed (suc (length db.derived)) t (item_id ∷ []) db.derived
        (omega (arith, length-filter-le (unused (item_id ∷ [])) db.derived)) in
    (
      rounds-GoesBack (suc (length db.derived)) t item_id (item_id ∷ []) db.derived start s,
      GoesBack-Occurs t item_id db.derived (lineage item_id tenant_id db) closed
          (keeps item_id (inl refl)) s,
    )
  where
    start :
        (x : String)
        → Occurs x (item_id ∷ [])
        → GoesBack (normalize_tenant (some tenant_id)) db.derived item_id x
    start x (inl e) = rw e itself
    start x (inr o) = absurd o
