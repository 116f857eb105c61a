-- ===== src/Governor/Assembly.antt =====
-- What `assemble` promises: the budget, and that nothing the caller may not see comes back.
use trilith.Prelude.{
  ℕ, ◌≤◌, String, ◌≡◌, refl, ap, ◌∙◌, ◌⊎◌, inl, inr, Bool, false, List, [], ◌∷◌, Option, Occurs,
  arith, map, Occurs-append,
}
use trilith.Prelude.Sort.{Occurs-sort_by}
use trilith.Exec.{Result, ok, bind-ok, ◌>>=◌ as bind}
use trilith.Python.{Python}
use trilith.Floats.{Floats}
use trilith.Proto.{ContextItem, ExcludedItem, AssembledContext, default_item}
use trilith.Identity.{Principal}
use trilith.Privacy.{expired, filter_from, redacted}
use trilith.Privacy.Visibility.{Visible, explain_iff}
use trilith.Privacy.Isolation.{filter-allowed, explain-redacted}
use trilith.Database.{Row, item_of}
use trilith.Store.{semantic_store, procedural_store, episodic_store}
use trilith.Runtime.{Runtime, ◌>>=◌, value}
use trilith.Runtime.Keeps.{bind-returns}
use trilith.Ranking.{Governor, rank, scored_higher}
use trilith.Governor.{
  Filled, BudgetArgument, whole, negative, boolean, not_integer, checked_budget, collect_all,
  Collected, fill, select, select_ranked, selected_keys, filled_context, policy_denied, assemble,
}
use trilith.Governor.Stored.{Occurs-zip, IsCandidate, collect_all-IsCandidate}
use trilith.Governor.Budget.{total_cost, IsFilled, fill-IsFilled}

module _ (fl : Floats) (py : Python) (now : ℕ) (g : Governor fl) where
  -- Ranking adds no candidate.
  pub Occurs-rank :
      (candidates : List ContextItem) (task : String) (i : ContextItem) (s : fl.F)
      → Occurs (i, s) (rank fl g candidates task)
      → Occurs i candidates
  unfolding rank
  Occurs-rank candidates task i s o =
      Occurs-zip candidates _ i s (Occurs-sort_by (scored_higher fl) _ (i, s) o)

  module _ (p : Principal) where
    -- The item has not expired and the principal may see it.
    abbrev pub IsShown : ContextItem → Type 0
    IsShown i = (expired i.expires_at now ≡ false) × Visible py i p

    -- The item is a copy, redacted on collection and again before ranking, of a stored item, has
    -- not expired, and the principal may see it.
    abbrev pub IsOffered : List Row → ContextItem → Type 0
    IsOffered rows i =
        IsShown i × ((r : Row) × Occurs r rows × (i ≡ redacted py (redacted py (item_of r))))

    -- What a caller is handed: within the budget, with the tokens used as the summed cost, and with
    -- nothing but stored items that the caller may see, whether included or excluded.
    pub record IsAssembled (rows : List Row) (argument : BudgetArgument)
        (context : AssembledContext) : Type 0 where
      pub budget : (b : ℕ) × (argument ≡ whole b) × (context.tokens_used ≤ b)
      pub cost : total_cost fl py now g context.items ≡ ok context.tokens_used
      pub included : (i : ContextItem) → Occurs i context.items → IsOffered rows i
      pub excluded :
          (x : ExcludedItem)
          → Occurs x context.excluded_items
          → (x.item ≡ default_item) ⊎ IsOffered rows x.item

    pub filtered-IsShown :
        (candidates : List ContextItem) (i : ContextItem)
        → Occurs i (filter_from py candidates p now).0
        → IsShown i
    filtered-IsShown candidates i o =
        let (c, _, e, x, v) = filter-allowed py p now candidates i o in
        let shown = (explain_iff py c p now).1 (x, v) in
        rw e (
          (explain_iff py (redacted py c) p now).0
            (ap (λ (d : Bool × String). d.0) (explain-redacted py p now c) ∙ shown))

    denied-default :
        (denied : List (ContextItem × String)) (x : ExcludedItem)
        → Occurs x (map policy_denied denied)
        → x.item ≡ default_item
    denied-default [] x o = absurd o
    denied-default (d ∷ ds) x (inl q) = rw q refl
    denied-default (d ∷ ds) x (inr o) = denied-default ds x o

    select-IsAssembled :
        (rows : List Row) (task : String) (budget : ℕ) (found : Collected)
        (context : AssembledContext)
        → ((c : ContextItem) → Occurs c found.0 → IsCandidate py rows c)
        → select fl py now g task budget p found ≡ ok context
        → IsAssembled rows (whole budget) context
    unfolding select select_ranked
    select-IsAssembled rows task budget found context stored h =
        let judged = filter_from py found.0 p now in
        let ranked = rank fl g judged.0 task in
        let (keys, _, h') =
          bind-ok (selected_keys fl py now g task budget ranked)
            (λ keys.
              bind (fill fl py now g keys budget 0 ranked)
                (λ f. ok (filled_context fl py now judged.1 found.1 f)))
            context h in
        let (f, e, q) =
          bind-ok (fill fl py now g keys budget 0 ranked)
            (λ f. ok (filled_context fl py now judged.1 found.1 f)) context h' in
        filled keys f q (fill-IsFilled fl py now g keys budget 0 ranked f (omega arith) e)
      where
        ranked_shown :
            (i : ContextItem) (s : fl.F)
            → Occurs (i, s) (rank fl g (filter_from py found.0 p now).0 task)
            → IsOffered rows i
        ranked_shown i s o =
            let m = Occurs-rank (filter_from py found.0 p now).0 task i s o in
            let (c, k, e, _, _) = filter-allowed py p now found.0 i m in
            let (r, n, q) = stored c k in
            (filtered-IsShown found.0 i m, (r, n, e ∙ ap (λ c. redacted py c) q))

        out :
            (f : Filled fl py now) (x : ExcludedItem)
            → ((x : ExcludedItem) → Occurs x f.excluded → IsOffered rows x.item)
            → Occurs x (map policy_denied (filter_from py found.0 p now).1) ⊎ Occurs x f.excluded
            → (x.item ≡ default_item) ⊎ IsOffered rows x.item
        out f x shown (inl o) = inl (denied-default (filter_from py found.0 p now).1 x o)
        out f x shown (inr o) = inr (shown x o)

        filled :
            (keys : Option (List (String × String))) (f : Filled fl py now)
            → ◌≡◌ {A = Result AssembledContext}
                (ok (filled_context fl py now (filter_from py found.0 p now).1 found.1 f))
                (ok context)
            → IsFilled fl py now g keys budget 0 (rank fl g (filter_from py found.0 p now).0 task) f
            → IsAssembled rows (whole budget) context
        filled keys f q k =
            let e : context ≡ filled_context fl py now (filter_from py found.0 p now).1 found.1 f =
              cc in
            let (n, t, u) = k.spent in
            let used : n ≡ f.used = omega arith in
            rw e (record {
              budget = (budget, refl, k.bound);
              cost = t ∙ ap ok used;
              included = λ i o. let (s, r, _, _) = k.items_from i o in ranked_shown i s r;
              excluded = λ x o.
                  out f x (λ y m. let (s, r) = k.excluded_from y m in ranked_shown y.item s r)
                    (Occurs-append (map policy_denied (filter_from py found.0 p now).1) f.excluded x
                      o);
            })

    checked_budget-whole :
        (argument : BudgetArgument) (b : ℕ) → checked_budget argument ≡ ok b → argument ≡ whole b
    unfolding checked_budget
    checked_budget-whole (whole n) b h = cc
    checked_budget-whole negative b h = cc
    checked_budget-whole (boolean x) b h = cc
    checked_budget-whole not_integer b h = cc

    -- An assembly that returns was asked with a natural number as its budget. It uses no more tokens
    -- than that, and exactly the summed cost of its items; every item included, and every item
    -- shown as excluded, is a redacted copy of a stored one, has not expired and is one that the
    -- principal may see.
    pub assemble-IsAssembled :
        (task : String) (argument : BudgetArgument) (rt : Runtime) (context : AssembledContext)
        → (assemble fl py now g task argument p rt).1 ≡ ok context
        → IsAssembled rt.db.items argument context
    unfolding assemble
    assemble-IsAssembled task argument rt context h =
        let stores = semantic_store ∷ procedural_store ∷ episodic_store ∷ [] in
        let (b, c, h') =
          bind-returns (value (checked_budget argument))
            (λ budget. collect_all fl py now g stores task p >>= λ found.
              value (select fl py now g task budget p found))
            rt context h in
        let (found, e, h'') =
          bind-returns (collect_all fl py now g stores task p)
            (λ found. value (select fl py now g task b p found)) rt context h' in
        rw (checked_budget-whole argument b c) (
          select-IsAssembled rt.db.items task b found context
            (λ c o. collect_all-IsCandidate fl py now g p stores task rt found c e o) h'')
