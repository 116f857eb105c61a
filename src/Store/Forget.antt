-- ===== src/Store/Forget.antt =====
-- What `EpisodicStore.forget` leaves, over all the tiers that the runtime hands it.
use mathlib.Core.Bool.{false≢true}
use text.Mathlib.TextEquality.{eq_iff}
use text.Mathlib.TextPositions.{eq_refl}
use trilith.Prelude.{
  String, Bool, ◌≡◌, ◌∙◌, sym, refl, ◌⊎◌, inl, inr, true, false, [], ◌∷◌, Option, none, some,
  Occurs, arith, string_eq, and-true_parts, Bool-cases, ◌==◌,
}
use trilith.Python.{Python}
use trilith.Proto.{Scope, user, session, tier_eq, scope_eq, tier_beq_iff, scope_beq_iff}
use trilith.Identity.{Principal, normalize_tenant}
use trilith.Database.{Db, Row, has_key}
use trilith.Database.Erasure.Survivors.{IsPrimary, delete_where-survives}
use trilith.Database.Writes.{IsValid, delete_where-IsValid}
use trilith.Database.Writes.Round.{find_unique}
use trilith.Database.Erasure.Statement.{IsDeleted, Anywhere, delete_where-IsDeleted}
use trilith.Database.Backend.{text_clause, by_scope, delete_by_scope}
use trilith.Store.{
  Store, semantic_store, procedural_store, episodic_store, store_tier, parse_scope, forget, notify,
  purge_store, forget_parsed, forget_tenant_id, forget_owner, forget_session,
}

module _ (s : Scope) (p : Option Principal) where
  -- the rows that a forget of the scope asks for in a tier
  abbrev pub matched : Store → Row → Bool
  matched store =
      by_scope s (some (store_tier store)) (forget_tenant_id p) (forget_owner s p)
        (forget_session s p)

  purged :
      (store : Store) (db : Db) → IsDeleted Anywhere (matched store) db (purge_store s p store db).0
  unfolding delete_by_scope
  purged store db = delete_where-IsDeleted Anywhere (matched store) db (λ r e. tt)

  abbrev after_forget : Db → Db
  after_forget db = (forget_parsed (some s) (semantic_store ∷ procedural_store ∷ []) p db).0

  forget_parsed-none_left :
      (store : Store) (db : Db) (r : Row)
      → Occurs r (after_forget db).items
      → matched store r ≡ false
  unfolding notify
  forget_parsed-none_left store db r o =
      let a = (purge_store s p semantic_store db).0 in
      let b = (purge_store s p procedural_store a).0 in
      let ob = (purged episodic_store b).erasure.rows r o in
      let oa = (purged procedural_store a).erasure.rows r ob in from store oa ob
    where
      from :
          (store : Store)
          → Occurs r (purge_store s p semantic_store db).0.items
          → Occurs r
              (purge_store s p procedural_store (purge_store s p semantic_store db).0).0.items
          → matched store r ≡ false
      from semantic_store oa ob = (purged semantic_store db).none_left r oa
      from procedural_store oa ob =
          (purged procedural_store (purge_store s p semantic_store db).0).none_left r ob
      from episodic_store oa ob =
          (purged episodic_store
              (purge_store s p procedural_store (purge_store s p semantic_store db).0).0).none_left
            r o

-- The row is of the caller's tenant, for USER of its owner and for SESSION of its session, where
-- the caller has one. A caller in the process owns every row.
abbrev pub IsOwn : Scope → Option Principal → Row → Type 0
IsOwn s none r = Unit
IsOwn s (some p) r =
    (r.tenant_id ≡ normalize_tenant (some p.tenant_id))
    × ((s ≡ user) → (p.owner_id ≡ "") ⊎ (r.owner_id ≡ p.owner_id))
    × ((s ≡ session) → (p.session_id ≡ "") ⊎ (r.session_id ≡ p.session_id))

text_clause-own :
    (wanted actual : String) → (wanted ≡ "") ⊎ (actual ≡ wanted) → text_clause wanted actual ≡ true
text_clause-own wanted actual (inl e) = rw e refl
text_clause-own wanted actual (inr e) = ground (arith, (eq_iff actual wanted).1 e)

own-owner :
    (s : Scope) (p : Principal) (r : Row)
    → ((s ≡ user) → (p.owner_id ≡ "") ⊎ (r.owner_id ≡ p.owner_id))
    → text_clause (forget_owner s (some p)) r.owner_id ≡ true
own-owner s p r h = elim (Bool-cases (s == user)) [
  | inl q ↦ rw q (text_clause-own p.owner_id r.owner_id (h ((scope_beq_iff s user).0 q)))
  | inr q ↦ rw q refl
]

own-session :
    (s : Scope) (p : Principal) (r : Row)
    → ((s ≡ session) → (p.session_id ≡ "") ⊎ (r.session_id ≡ p.session_id))
    → text_clause (forget_session s (some p)) r.session_id ≡ true
own-session s p r h = elim (Bool-cases (s == user)) [
  | inl q ↦ rw q refl
  | inr q ↦ elim (Bool-cases (s == session)) [
    | inl k ↦
        rw (q, k) (text_clause-own p.session_id r.session_id (h ((scope_beq_iff s session).0 k)))
    | inr k ↦ rw (q, k) refl
  ]
]

IsOwn-matched :
    (s : Scope) (p : Option Principal) (store : Store) (r : Row)
    → r.tier ≡ store_tier store
    → r.scope ≡ s
    → IsOwn s p r
    → matched s p store r ≡ true
IsOwn-matched s none store r t c own =
    rw ((scope_beq_iff r.scope s).1 c, (tier_beq_iff r.tier (store_tier store)).1 t) refl
IsOwn-matched s (some p) store r t c (same, owner, in_session) =
    rw
      (
        (scope_beq_iff r.scope s).1 c,
        (tier_beq_iff r.tier (store_tier store)).1 t,
        (eq_iff r.tenant_id (normalize_tenant (some p.tenant_id))).1 same,
        own-owner s p r owner,
        own-session s p r in_session,
      )
      refl

text_clause-parts :
    (wanted actual : String) → text_clause wanted actual ≡ true → (wanted ≡ "") ⊎ (actual ≡ wanted)
text_clause-parts wanted actual h = ground (arith, h, eq_iff actual wanted, eq_iff wanted "")

-- What the clauses of the delete match is the caller's own.
matched-IsOwn :
    (s : Scope) (p : Option Principal) (store : Store) (r : Row)
    → matched s p store r ≡ true
    → (r.scope ≡ s) × IsOwn s p r
matched-IsOwn s none store r h =
    let (c, _) = and-true_parts (r.scope == s) _ h in ((scope_beq_iff r.scope s).0 c, tt)
matched-IsOwn s (some p) store r h =
    let (c, h) = and-true_parts (r.scope == s) _ h in
    let (_, h) = and-true_parts (r.tier == store_tier store) _ h in
    let (t, h) = and-true_parts (r.tenant_id == normalize_tenant (some p.tenant_id)) _ h in
    let (o, i) = and-true_parts (text_clause (forget_owner s (some p)) r.owner_id) _ h in
    (
      (scope_beq_iff r.scope s).0 c,
      (
        (eq_iff r.tenant_id (normalize_tenant (some p.tenant_id))).0 t,
        (λ e. text_clause-parts p.owner_id r.owner_id (rw e at o)),
        (λ e. text_clause-parts p.session_id r.session_id (rw e at i)),
      ),
    )

-- In tables with unique keys, a row that no matched row is survives the delete of a tier.
module _ (s : Scope) (p : Option Principal) (r : Row)
    (other : ¬ ((r.scope ≡ s) × IsOwn s p r)) where
  -- The row is stored, no fold made it, and the tables are well formed.
  abbrev IsKept : Db → Type 0
  IsKept db = Occurs r db.items × IsPrimary r db × IsValid db

  purge_store-IsKept : (store : Store) (db : Db) → IsKept db → IsKept (purge_store s p store db).0
  unfolding delete_by_scope
  purge_store-IsKept store db (o, primary, v) = (
    delete_where-survives (matched s p store) r db
        (λ x k m. elim (Bool-cases (has_key x.tenant_id x.id r)) [
          | inl e ↦ absurd (other (matched-IsOwn s p store r (same x k m e)))
          | inr e ↦ e
        ])
        primary o,
    (λ e k. primary e ((purged s p store db).erasure.edges e k)),
    delete_where-IsValid (matched s p store) db v,
  )
    where
      same :
          (x : Row)
          → Occurs x db.items
          → matched s p store x ≡ true
          → has_key x.tenant_id x.id r ≡ true
          → matched s p store r ≡ true
      same x k m e =
          let found = find_unique x.tenant_id x.id db.items r v.unique o e in
          let self =
            find_unique x.tenant_id x.id db.items x v.unique k (rw (eq_refl, eq_refl) refl) in
          let q : x ≡ r = cc in rw (sym q) m

-- What a forget of the scope leaves: none of the caller's own rows of the scope in any of the three
-- tiers, and every other row that no fold made.
pub record IsForgotten (s : Scope) (p : Option Principal) (a b : Db) : Type 0 where
  pub none_left :
      (store : Store) (r : Row)
      → Occurs r b.items
      → r.tier ≡ store_tier store
      → r.scope ≡ s
      → ¬ IsOwn s p r
  pub spared :
      (r : Row)
      → Occurs r a.items
      → IsPrimary r a
      → ¬ ((r.scope ≡ s) × IsOwn s p r)
      → Occurs r b.items

-- A `forget` over the three tiers of well-formed tables leaves none of the caller's own rows of the
-- scope: of the caller's tenant, and for USER of its owner, for SESSION of its session, and it
-- spares every other row that no fold made. For a caller whose owner, or session, is empty the own
-- rows are those of every owner, or session, of its tenant.
pub forget-IsForgotten :
    (py : Python) (scope : String) (p : Option Principal) (db : Db) (s : Scope)
    → parse_scope py scope ≡ some s
    → IsValid db
    → IsForgotten s p db (forget py scope (semantic_store ∷ procedural_store ∷ []) p db).0
unfolding forget notify
forget-IsForgotten py scope p db s e v = rw e (record {
  none_left = λ store r o t c own.
      false≢true
        (sym (forget_parsed-none_left s p store db r o) ∙ IsOwn-matched s p store r t c own);
  spared = λ r o primary other.
      let kept = purge_store-IsKept s p r other in
      (kept episodic_store _ (kept procedural_store _ (kept semantic_store db (o, primary, v)))).0;
})
