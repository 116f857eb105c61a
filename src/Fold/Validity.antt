-- ===== src/Fold/Validity.antt =====
-- A fold keeps the tables well formed: both ends of the edges that it inserts are stored rows.
use text.Mathlib.TextEquality.{eq_iff}
use text.Mathlib.TextPositions.{eq_refl}
use trilith.Prelude.{
  ℕ, String, ◌<>◌, ◌≡◌, ◌≢◌, refl, sym, ap, ◌∙◌, ◌⊎◌, inl, inr, true, false, List, [], ◌∷◌, Option,
  none, some, Occurs, Occurs-append, Occurs-filter, filter, length, find-Occurs, any, Bool-cases,
  arith, string_eq,
}
use trilith.Prelude.Sort.{sort_by, Occurs-sort_by}
use trilith.Exec.{Result, ok, err}
use trilith.Python.{Python}
use trilith.Proto.{ContextItem, procedural, tier_eq, tier_beq_iff}
use trilith.Identity.{Principal, normalize_tenant}
use trilith.Audit.{principal_or_default}
use trilith.Database.{Row, Derived, Db, has_key, item_of, row_of}
use trilith.Database.Erasure.Sweep.{Present}
use trilith.Database.Erasure.Survivors.{IsPrimary}
use trilith.Database.Backend as Backend
use trilith.Database.Backend.{query_clause, text_is}
use trilith.Database.Reads.{query-rows}
use trilith.Database.Writes.{IsValid, save-IsValid}
use trilith.Database.Writes.Round.{find-save, save-survives}
use trilith.Runtime.{Runtime, Action, continue, settle, atomic_operation}
use trilith.Ops.{tenant_of}
use trilith.Ops.Steps.{IsNormal}
use trilith.Fold.{
  foldable, fold_guard, earlier, summary_of, link, link_all, same_edge, summarise, fold_items, fold,
  announce_fold, folded, fold_subtask, seen_before,
}
use trilith.Fold.Links.{edge_of, link_items}

link-IsValid :
    (e : Derived) (db : Db)
    → Present e.tenant_id e.source_id db
    → Present e.tenant_id e.summary_id db
    → IsValid db
    → IsValid (link e db)
link-IsValid e db source summary v = elim (Bool-cases (any (same_edge e) db.derived)) [
  | inl q ↦ rw q v
  | inr q ↦ rw q (record {
    unique = v.unique;
    tenants = v.tenants;
    sources = λ d o. at_source d (Occurs-append db.derived (e ∷ []) d o);
    targets = λ d o. at_target d (Occurs-append db.derived (e ∷ []) d o);
  })
]
  where
    at_source :
        (d : Derived) → Occurs d db.derived ⊎ Occurs d (e ∷ []) → Present d.tenant_id d.source_id db
    at_source d (inl o) = v.sources d o
    at_source d (inr (inl q)) = rw q source
    at_source d (inr (inr o)) = elim o [ ]

    at_target :
        (d : Derived)
        → Occurs d db.derived ⊎ Occurs d (e ∷ [])
        → Present d.tenant_id d.summary_id db
    at_target d (inl o) = v.targets d o
    at_target d (inr (inl q)) = rw q summary
    at_target d (inr (inr o)) = elim o [ ]

link-Present : (e : Derived) (t i : String) (db : Db) → Present t i db → Present t i (link e db)
link-Present e t i db (r, o, k) = (r, rw (link_items e db) o, k)

link_all-IsValid :
    (t id : String) (items : List ContextItem) (db : Db)
    → ((i : ContextItem) → Occurs i items → Present t i.id db)
    → Present t id db
    → IsValid db
    → IsValid (link_all t id items db)
unfolding link_all
link_all-IsValid t id [] db sources summary v = v
link_all-IsValid t id (i ∷ items) db sources summary v =
    let e = edge_of t id i in
    link_all-IsValid t id items (link e db) (λ j o. link-Present e t j.id db (sources j (inr o)))
      (link-Present e t id db summary) (link-IsValid e db (sources i (inl refl)) summary v)

-- A row that no fold made: no edge leads to it, and its id is not a summary's.
abbrev pub IsStep : Row → Db → Type 0
IsStep r db = IsPrimary r db × ((s : String) → r.id ≢ "folded-" <> s)

-- The rows of the sub-task that a caller folds are steps.
abbrev pub AreSteps : Principal → String → Db → Type 0
AreSteps p subtask_id db =
    (r : Row)
    → Occurs r db.items
    → r.tier ≡ procedural
    → r.tenant_id ≡ p.tenant_id
    → r.subtask_id ≡ some subtask_id
    → IsStep r db

-- What holds of the tables after an action that may raise.
module _ (Q : Db → Type 0) where
  after_settle :
      {A : Type 0} (db : Db) (x : Runtime × Result A) → Q db → Q x.0.db → Q (settle db x).0.db
  after_settle db (rt, ok a) before after = after
  after_settle db (rt, err e) before after = before

  after_continue :
      {A B : Type 0} (f : A → Action B) (x : Runtime × Result A)
      → Q x.0.db
      → ((a : A) → x.1 ≡ ok a → Q (f a x.0).0.db)
      → Q (continue f x).0.db
  after_continue f (rt, ok a) q next = next a refl
  after_continue f (rt, err e) q next = q

text_is-some : (s : String) (o : Option String) → text_is s o ≡ true → o ≡ some s
text_is-some s none h = cc
text_is-some s (some t) h = rw ((eq_iff t s).0 h) refl

selected :
    (subtask_id tenant : String) (r : Row)
    → query_clause procedural none (some subtask_id) (some tenant) false r ≡ true
    → (r.tier ≡ procedural)
      × (r.tenant_id ≡ normalize_tenant (some tenant))
      × (text_is subtask_id r.subtask_id ≡ true)
selected subtask_id tenant r h =
    ground
      (arith, tier_beq_iff r.tier procedural, eq_iff r.tenant_id (normalize_tenant (some tenant)))

module _ (py : Python) (now : ℕ) (p : Principal) (normal : IsNormal (some p)) (subtask_id : String)
    (rt : Runtime) (steps : AreSteps p subtask_id rt.db) (v : IsValid rt.db) where
  -- The item stands for a step of the caller's tenant.
  abbrev IsSource : ContextItem → Type 0
  IsSource i =
      (r : Row) × Occurs r rt.db.items
      × (r.tenant_id ≡ p.tenant_id)
      × (r.id ≡ i.id)
      × IsStep r rt.db

  -- The row of a source outlives the write of a summary.
  kept :
      (made : ContextItem) (s : String) (i : ContextItem)
      → made.id ≡ "folded-" <> s
      → made.tenant_id ≡ p.tenant_id
      → IsSource i
      → Present p.tenant_id i.id (Backend.save made none rt.db)
  kept made s i e t (r, o, same, id, (primary, step)) = (
    r,
    save-survives made none rt.db r (ground (arith, eq_iff r.id made.id, step s, e)) primary o,
    rw (same, id, eq_refl, eq_refl) refl,
  )

  stored :
      (made : ContextItem)
      → made.tenant_id ≡ p.tenant_id
      → Present p.tenant_id made.id (Backend.save made none rt.db)
  stored made t =
      let (o, k) =
        find-Occurs (has_key (normalize_tenant (some made.tenant_id)) made.id)
          (Backend.save made none rt.db).items (row_of made none) (find-save made none rt.db) in
      (row_of made none, o, unfold row_of in rw (t, normal, eq_refl, eq_refl) refl)

  summarise-IsValid :
      (items : List ContextItem)
      → ((i : ContextItem) → Occurs i items → IsSource i)
      → IsValid (summarise py now p subtask_id items rt).0.db
  unfolding summary_of
  summarise-IsValid [] sources = v
  summarise-IsValid (f ∷ fs) sources =
      let made = summary_of py now p subtask_id f (f ∷ fs) in
      let saved = Backend.save made none rt.db in
      link_all-IsValid p.tenant_id made.id (f ∷ fs) saved
        (λ i o. kept made _ i refl refl (sources i o)) (stored made refl)
        (save-IsValid made none rt.db v)

  read-IsSource :
      (items : List ContextItem) (i : ContextItem)
      → Backend.query procedural none (some subtask_id) (some p.tenant_id) false none rt.db
        ≡ ok items
      → Occurs i items
      → IsSource i
  unfolding item_of
  read-IsSource items i h o =
      let (r, k, pass, e) =
        query-rows procedural none (some subtask_id) (some p.tenant_id) false none rt.db items i h
          o in
      let (tier, tenant, sub) = selected subtask_id p.tenant_id r pass in
      let t = tenant ∙ normal in
      (
        r,
        k,
        t,
        sym (ap (λ (i : ContextItem). i.id) e),
        steps r k tier t (text_is-some subtask_id r.subtask_id sub),
      )

  fold_items-IsValid :
      (items : List ContextItem)
      → ((i : ContextItem) → Occurs i items → IsSource i)
      → IsValid (fold_items py now p subtask_id items rt).0.db
  fold_items-IsValid [] sources = v
  fold_items-IsValid (f ∷ fs) sources =
      after_continue IsValid (λ _. summarise py now p subtask_id (sort_by earlier (f ∷ fs)))
        (rt, fold_guard p f (f ∷ fs)) v
        (λ u e.
          summarise-IsValid (sort_by earlier (f ∷ fs))
            (λ i o. sources i (Occurs-sort_by earlier (f ∷ fs) i o)))

  fold-IsValid : IsValid (fold py now subtask_id p rt).0.db
  unfolding fold atomic_operation
  fold-IsValid =
      let read =
        Backend.query procedural none (some subtask_id) (some p.tenant_id) false none rt.db in
      let next : List ContextItem → Action (Option ContextItem) =
        λ items. fold_items py now p subtask_id (filter (foldable py now p) items) in
      after_settle IsValid rt.db (continue next (rt, read)) v (
        after_continue IsValid next (rt, read) v
          (λ items e.
            fold_items-IsValid (filter (foldable py now p) items)
              (λ i o. read-IsSource items i e (Occurs-filter (foldable py now p) items i o).0)))

-- A fold of a sub-task whose rows are steps keeps the tables well formed: whether it makes a summary,
-- finds nothing or raises, keys stay unique, and both ends of every edge are rows.
pub fold_subtask-IsValid :
    (py : Python) (now : ℕ) (principal : Option Principal) (subtask_id : String) (rt : Runtime)
    → IsNormal (some (principal_or_default principal))
    → AreSteps (principal_or_default principal) subtask_id rt.db
    → IsValid rt.db
    → IsValid (fold_subtask py now subtask_id principal rt).0.db
unfolding fold_subtask atomic_operation announce_fold
fold_subtask-IsValid py now principal subtask_id rt normal steps v =
    let read =
      Backend.query procedural none (some subtask_id) (tenant_of principal) false none rt.db in
    let next : List ContextItem → Action (Option ContextItem × ℕ) =
      λ before. folded py now subtask_id principal (seen_before py now principal before) in
    after_settle IsValid rt.db (continue next (rt, read)) v (
      after_continue IsValid next (rt, read) v
        (λ before e. of_items (seen_before py now principal before)))
  where
    of_items :
        (items : List ContextItem) → IsValid (folded py now subtask_id principal items rt).0.db
    of_items [] = v
    of_items (i ∷ items) =
        after_continue IsValid
          (λ summary. announce_fold now subtask_id principal (length (i ∷ items)) summary)
          (fold py now subtask_id (principal_or_default principal) rt)
          (fold-IsValid py now (principal_or_default principal) normal subtask_id rt steps v)
          (λ summary e.
            fold-IsValid py now (principal_or_default principal) normal subtask_id rt steps v)
