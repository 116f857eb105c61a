-- ===== src/Fold/Summary.antt =====
-- What a fold leaves: a summary with the caller's identity, tied to each of its sources.
use trilith.Prelude.{
  ℕ, String, ◌≡◌, refl, sym, ap, ◌∙◌, inl, Bool, true, false, not, ◌&&◌, List, [], ◌∷◌, Option,
  none, some, Occurs, all-Occurs, filter, any, all, find, filter-Occurs, any-true, if◌then◌else◌,
  ◌==◌, string_eq,
}
use trilith.Prelude.Sort.{sort_by, sort_by-Occurs, Occurs-sort_by}
use trilith.Exec.{Error, Result, ok, err}
use trilith.Python.{Python}
use trilith.Proto.{ContextItem, Timestamp, Scope, procedural, global, scope_eq, scope_beq_iff}
use trilith.Identity.{Principal, can, normalize_tenant}
use trilith.Database.{Db, row_of, has_key}
use trilith.Database.Backend as Backend
use trilith.Database.Writes.Round.{find-save}
use trilith.Runtime.{Runtime, continue, settle, atomic_operation}
use trilith.Fold.{foldable, fold_guard, earlier, summary_of, summarise, fold_items, fold}
use trilith.Fold.Links.{edge_of, link_all-items, link_all-Occurs, NotAfter, first_expiry-NotAfter}

-- What a fold of the sub-task leaves, from the tables `db` to `db'`.
pub record IsFold (py : Python) (now : ℕ) (p : Principal) (items : List ContextItem)
    (summary : ContextItem) (db' : Db) : Type 0 where
  pub tenant : summary.tenant_id ≡ p.tenant_id
  pub owner : summary.owner_id ≡ p.owner_id
  pub session : summary.session_id ≡ p.session_id
  -- its row is stored under its key
  pub stored :
      find (has_key (normalize_tenant (some summary.tenant_id)) summary.id) db'.items
      ≡ some (row_of summary none)
  -- every step that was read and that the caller may fold is a source, and has the summary's scope
  pub sources :
      (i : ContextItem)
      → Occurs i items
      → foldable py now p i ≡ true
      → Occurs (edge_of p.tenant_id summary.id i) db'.derived × (i.scope ≡ summary.scope)
  -- it does not outlive any of them
  pub expires :
      (i : ContextItem) (t : Timestamp)
      → Occurs i items
      → foldable py now p i ≡ true
      → i.expires_at ≡ some t
      → NotAfter t summary.expires_at
  -- a GLOBAL summary takes the capability
  pub publishes : summary.scope ≡ global → can p "publish_global" ≡ true

guards :
    (a g c : Bool) (x y : Error)
    → (if not a then err x else if g && not c then err y else ok tt) ≡ ok tt
    → (a ≡ true) × (g ≡ true → c ≡ true)
guards false g c x y h = cc
guards true true false x y h = cc
guards true true true x y h = (refl, λ e. refl)
guards true false c x y h = (refl, λ e. cc)

module _ (py : Python) (now : ℕ) (subtask_id : String) (p : Principal) (items : List ContextItem)
    (summary : ContextItem) (rt : Runtime) where
  abbrev Covers : List ContextItem → Type 0
  Covers chosen = (i : ContextItem) → Occurs i items → foldable py now p i ≡ true → Occurs i chosen

  summarise-IsFold :
      (sorted : List ContextItem) (scope : Scope)
      → Covers sorted
      → ((j : ContextItem) → Occurs j sorted → j.scope ≡ scope)
      → (scope ≡ global → can p "publish_global" ≡ true)
      → (settle rt.db (summarise py now p subtask_id sorted rt)).1 ≡ ok (some summary)
      → IsFold py now p items summary (settle rt.db (summarise py now p subtask_id sorted rt)).0.db
  unfolding summary_of
  summarise-IsFold [] scope covers same allowed h = absurd (none-some h)
    where
      none-some : ◌≡◌ {A = Result (Option ContextItem)} (ok none) (ok (some summary)) → ⊥
      none-some h = cc
  summarise-IsFold (f ∷ fs) scope covers same allowed h =
      let made = summary_of py now p subtask_id f (f ∷ fs) in
      let saved = Backend.save made none rt.db in
      let e : summary ≡ made = cc in
      rw e (record {
        tenant = refl;
        owner = refl;
        session = refl;
        stored =
            ap (λ rows. find (has_key (normalize_tenant (some made.tenant_id)) made.id) rows)
              (link_all-items p.tenant_id made.id (f ∷ fs) saved)
            ∙ find-save made none rt.db;
        sources = λ i o k. (
          link_all-Occurs p.tenant_id made.id (f ∷ fs) saved i (covers i o k),
          same i (covers i o k) ∙ sym (same f (inl refl)),
        );
        expires = λ i t o k x. first_expiry-NotAfter (f ∷ fs) i t (covers i o k) x;
        publishes = λ g. allowed (sym (same f (inl refl)) ∙ g);
      })

  guarded :
      (first : ContextItem) (rest : List ContextItem) (m : Result (Unit {0}))
      → Covers (first ∷ rest)
      → fold_guard p first (first ∷ rest) ≡ m
      → (settle rt.db (
          continue (λ _. summarise py now p subtask_id (sort_by earlier (first ∷ rest))) (rt, m))).1
        ≡ ok (some summary)
      → IsFold py now p items summary
          (settle rt.db (
            continue
              (λ _. summarise py now p subtask_id (sort_by earlier (first ∷ rest)))
              (rt, m))).0.db
  unfolding fold_guard
  guarded first rest (err e) covers q h = cc
  guarded first rest (ok tt) covers q h =
      let steps = first ∷ rest in
      let (same, allowed) =
        guards (all (λ i. i.scope == first.scope) steps) (any (λ i. i.scope == global) steps)
          (can p "publish_global") _ _ q in
      summarise-IsFold (sort_by earlier steps) first.scope
        (λ i o k. sort_by-Occurs earlier steps i (covers i o k))
        (λ j o. (scope_beq_iff j.scope first.scope).0 (
          all-Occurs (λ i. i.scope == first.scope) steps j same (Occurs-sort_by earlier steps j o)))
        (λ g. allowed (
          any-true (λ i. i.scope == global) steps first (inl refl)
            ((scope_beq_iff first.scope global).1 g)))
        h

  folded-IsFold :
      (chosen : List ContextItem)
      → Covers chosen
      → (settle rt.db (fold_items py now p subtask_id chosen rt)).1 ≡ ok (some summary)
      → IsFold py now p items summary (settle rt.db (fold_items py now p subtask_id chosen rt)).0.db
  folded-IsFold [] covers h = cc
  folded-IsFold (first ∷ rest) covers h =
      guarded first rest (fold_guard p first (first ∷ rest)) covers refl h

-- A fold that makes a summary stores it under the caller's tenant, owner and session, records an edge
-- to it from each step of the sub-task that was the caller's to fold, all of the one scope, and
-- gives it an expiry no later than that of any of them; a GLOBAL summary takes publish_global.
pub fold-IsFold :
    (py : Python) (now : ℕ) (subtask_id : String) (p : Principal) (items : List ContextItem)
    (summary : ContextItem) (rt : Runtime)
    → Backend.query procedural none (some subtask_id) (some p.tenant_id) false none rt.db ≡ ok items
    → (fold py now subtask_id p rt).1 ≡ ok (some summary)
    → IsFold py now p items summary (fold py now subtask_id p rt).0.db
unfolding fold atomic_operation
fold-IsFold py now subtask_id p items summary rt e h = rw e (
    folded-IsFold py now subtask_id p items summary rt (filter (foldable py now p) items)
      (λ i o k. filter-Occurs (foldable py now p) items i o k) (rw e at h))
