-- ===== src/Governor/Stored.antt =====
-- The candidates that `_collect` of core/governor.py gathers over the tiers: redacted copies of
-- items that the database holds.
use trilith.Prelude.{
  ℕ, String, ◌≡◌, refl, sym, ap, ◌∙◌, ◌⊎◌, inl, inr, List, [], ◌∷◌, ◌++◌, ◌+◌, none, some, Occurs,
  Occurs-append, Occurs-map, Occurs-take,
}
use trilith.Prelude.Sort.{sort_by, Occurs-sort_by}
use trilith.Exec.{ok}
use trilith.Python.{Python}
use trilith.Floats.{Floats}
use trilith.Proto.{ContextItem}
use trilith.Identity.{Principal}
use trilith.Privacy.{filter_from, redacted}
use trilith.Privacy.Isolation.{filter-allowed}
use trilith.Database.{Db, Row, item_of}
use trilith.Database.Reads.{query-rows}
use trilith.Store.{Store, query_for, store_tier, include_global}
use trilith.Runtime.{Runtime, ◌>>=◌, return, reads, changes}
use trilith.Runtime.Keeps.{Keeps, bind-Keeps, bind-returns}
use trilith.Audit.{record_decision}
use trilith.Ranking.{Governor, zip, scored_higher}
use trilith.Governor.{Collected, audit_denied, capped, collect, collect_all}

pub Occurs-zip :
    {A B : Type 0} (xs : List A) (ys : List B) (x : A) (y : B)
    → Occurs (x, y) (zip xs ys)
    → Occurs x xs
unfolding zip
Occurs-zip [] ys x y o = absurd o
Occurs-zip (z ∷ xs) [] x y o = absurd o
Occurs-zip (z ∷ xs) (w ∷ ys) x y (inl q) = inl (ap (λ p. p.0) q)
Occurs-zip (z ∷ xs) (w ∷ ys) x y (inr o) = inr (Occurs-zip xs ys x y o)

-- The candidate is the redacted copy of a stored item.
abbrev pub IsCandidate : Python → List Row → ContextItem → Type 0
IsCandidate py rows c = (r : Row) × Occurs r rows × (c ≡ redacted py (item_of r))

abbrev SameItems : Db → Db → Type 0
SameItems a b = b.items ≡ a.items

module _ (fl : Floats) (py : Python) (now : ℕ) (g : Governor fl) (p : Principal) where
  audit_denied-items :
      (denied : List (ContextItem × String)) (db : Db)
      → (audit_denied fl now p denied db).items ≡ db.items
  unfolding audit_denied record_decision
  audit_denied-items [] db = refl
  audit_denied-items ((item, reason) ∷ denied) db = audit_denied-items denied _

  capped-Occurs :
      (task : String) (items : List ContextItem) (c : ContextItem)
      → Occurs c (capped fl g task items).0
      → Occurs c items
  capped-Occurs task items c o =
      let scored = zip items (g.scorer.score items task) in
      let ((i, s), m, e) =
        Occurs-map (λ (x : ContextItem × fl.F). x.0) (sort_by (scored_higher fl) scored) c
          (Occurs-take g.max_candidates _ c o) in
      rw e (
        Occurs-zip items (g.scorer.score items task) i s
          (Occurs-sort_by (scored_higher fl) scored (i, s) m))

  module _ (store : Store) (task : String) where
    -- Collecting writes nothing but audit records.
    collect-Keeps : Keeps SameItems (collect fl py now g store task p)
    unfolding collect
    collect-Keeps =
        bind-Keeps SameItems (λ a. refl) (λ a b c h k. k ∙ h) (reads (query_for store p none)) _
          (record { related = λ rt. refl })
          (λ items.
            bind-Keeps SameItems (λ a. refl) (λ a b c h k. k ∙ h)
              (changes (audit_denied fl now p (filter_from py items p now).1))
              (λ _. return (capped fl g task (filter_from py items p now).0))
              (record { related = λ rt. audit_denied-items (filter_from py items p now).1 rt.db })
              (λ _. record { related = λ rt. refl }))

    query_for-IsCandidate :
        (db : Db) (items : List ContextItem) (i : ContextItem)
        → query_for store p none db ≡ ok items
        → Occurs i items
        → (r : Row) × Occurs r db.items × (i ≡ item_of r)
    unfolding query_for
    query_for-IsCandidate db items i h o =
        let (r, k, _, e) =
          query-rows (store_tier store) none none (some p.tenant_id) (include_global store) none db
            items i h o in
        (r, k, e)

    collect-IsCandidate :
        (rt : Runtime) (found : Collected) (c : ContextItem)
        → (collect fl py now g store task p rt).1 ≡ ok found
        → Occurs c found.0
        → IsCandidate py rt.db.items c
    unfolding collect
    collect-IsCandidate rt found c h o =
        let (items, q, k) =
          bind-returns (reads (query_for store p none))
            (λ items. changes (audit_denied fl now p (filter_from py items p now).1) >>= λ _.
              return (capped fl g task (filter_from py items p now).0))
            rt found h in
        let made : capped fl g task (filter_from py items p now).0 ≡ found = cc in
        let allowed = (filter_from py items p now).0 in
        let (i, m, e, _, _) =
          filter-allowed py p now items c (capped-Occurs task allowed c (rw (sym made) at o)) in
        let (r, stored, t) = query_for-IsCandidate rt.db items i q m in
        (r, stored, e ∙ ap (λ i. redacted py i) t)

  -- Whatever is collected over the tiers is a candidate.
  pub collect_all-IsCandidate :
      (stores : List Store) (task : String) (rt : Runtime) (found : Collected) (c : ContextItem)
      → (collect_all fl py now g stores task p rt).1 ≡ ok found
      → Occurs c found.0
      → IsCandidate py rt.db.items c
  unfolding collect_all
  collect_all-IsCandidate [] task rt found c h o =
      let none_found : ◌≡◌ {A = Collected} ([], 0) found = cc in absurd (rw (sym none_found) at o)
  collect_all-IsCandidate (store ∷ stores) task rt found c h o =
      let (first, q, k) =
        bind-returns (collect fl py now g store task p)
          (λ first. collect_all fl py now g stores task p >>= λ rest.
            return (first.0 ++ rest.0, first.1 + rest.1))
          rt found h in
      let next = (collect fl py now g store task p rt).0 in
      let (rest, q', k') =
        bind-returns (collect_all fl py now g stores task p)
          (λ rest. return (first.0 ++ rest.0, first.1 + rest.1)) next found k in
      let made : ◌≡◌ {A = Collected} (first.0 ++ rest.0, first.1 + rest.1) found = cc in
      part first rest q (Occurs-append first.0 rest.0 c (rw (sym made) at o))
        (λ m. collect_all-IsCandidate stores task next rest c q' m)
    where
      part :
          (first rest : Collected)
          → (collect fl py now g store task p rt).1 ≡ ok first
          → Occurs c first.0 ⊎ Occurs c rest.0
          → (Occurs c rest.0 → IsCandidate py (collect fl py now g store task p rt).0.db.items c)
          → IsCandidate py rt.db.items c
      part first rest q (inl m) later = collect-IsCandidate store task rt first c q m
      part first rest q (inr m) later = rw ((collect-Keeps store task).related rt) at (later m)
