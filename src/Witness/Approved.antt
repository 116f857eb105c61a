-- ===== src/Witness/Approved.antt =====
-- What `assemble_witnesses` of core/lineage.py returns.
use trilith.Prelude.{
  ℕ, ◌≡◌, refl, sym, ap, ◌∙◌, String, Bool, true, false, List, [], ◌∷◌, Option, none, some, find,
  all, Occurs, inl, inr, Bool-cases, find-Occurs, Option-cases, some_inj, All, All-of_Occurs,
  All-at, all-Occurs,
}
use trilith.Exec.{ok, traverse, bind-ok, Occurs-traverse, traverse-Occurs, ok_inj, err-ok}
use trilith.Python.{Python}
use trilith.Floats.{Floats}
use trilith.Proto.{ContextItem}
use trilith.Identity.{Principal, normalize_tenant}
use trilith.Privacy.{explain, filter_from, redacted}
use trilith.Database.{Db}
use trilith.Database.Backend.{get, lineage}
use trilith.Database.Lineage.{GoesBack, lineage-GoesBack}
use trilith.Ranking.{Governor, estimate_tokens}
use trilith.Governor.{same_key}
use trilith.Witness.{Key}
use trilith.Witness.Assemble.{
  Annotation, Approval, permitted, evidence_of, checked, with_sources, approve, prepend, approvals,
  found_item, lookup_approved,
}

module _ (fl : Floats) (py : Python) (now : ℕ) (g : Governor fl) (p : Principal) (db : Db) where
  -- The item of an id in the tenant's store, which the policy lets the principal see.
  abbrev IsVisible : String → ContextItem → Type 0
  IsVisible id stored =
      (get id (some p.tenant_id) db ≡ ok (some stored)) × ((explain py stored p now).0 ≡ true)

  -- A stored item that the principal sees, as do all that it goes back to; its text is redacted.
  pub record IsApproved (item : ContextItem) : Type 0 where
    pub id : String
    pub stored : ContextItem
    pub visible : IsVisible id stored
    pub redacts : item ≡ redacted py stored
    pub sources :
        (source : String)
        → GoesBack (normalize_tenant (some p.tenant_id)) db.derived id source
        → (s : ContextItem) × IsVisible source s

  evidence_of-Occurs :
      (a : Annotation) (ancestors : List String) (items : List ContextItem) (e : Approval)
      → evidence_of fl py now g p a ancestors items ≡ ok (some e)
      → Occurs e.1 items
  evidence_of-Occurs a ancestors [] e h = cc
  evidence_of-Occurs a ancestors (item ∷ items) e h =
      let (tokens, _, q) = bind-ok (estimate_tokens fl g item) _ (some e) h in
      inl (ap (λ (x : Approval). x.1) (sym (some_inj (ok_inj q))))

  filter_from-one :
      (stored item : ContextItem)
      → Occurs item (filter_from py (stored ∷ []) p now).0
      → ((explain py stored p now).0 ≡ true) × (item ≡ redacted py stored)
  unfolding filter_from
  filter_from-one stored item o = elim (Bool-cases (explain py stored p now).0) [
    | inl v ↦ (v, elim (rw v at o) [ inl e ↦ e | inr i ↦ absurd i ])
    | inr n ↦ absurd (rw n at o)
  ]

  permitted-some :
      (found : Option ContextItem)
      → permitted fl py now g p found ≡ true
      → (s : ContextItem) × (found ≡ some s) × ((explain py s p now).0 ≡ true)
  permitted-some none h = cc
  permitted-some (some s) h = (s, refl, h)

  -- What the check of an item and its sources lets through.
  checked-IsApproved :
      (a : Annotation) (stored : ContextItem) (sources : List (Option ContextItem)) (e : Approval)
      → get a.0 (some p.tenant_id) db ≡ ok (some stored)
      → traverse (λ source. get source (some p.tenant_id) db) (lineage a.0 p.tenant_id db)
        ≡ ok sources
      → checked fl py now g p a (lineage a.0 p.tenant_id db) stored sources ≡ ok (some e)
      → IsApproved e.1
  checked-IsApproved a stored sources e found read h =
      by_permission (all (permitted fl py now g p) sources) refl h
    where
      by_permission :
          (b : Bool)
          → b ≡ all (permitted fl py now g p) sources
          → elim b [
            | false ↦ ok none
            | true ↦
                evidence_of fl py now g p a
                  (lineage a.0 p.tenant_id db)
                  (filter_from py (stored ∷ []) p now).0
          ]
            ≡ ok (some e)
          → IsApproved e.1
      by_permission false q k = cc
      by_permission true q k =
          let ancestors = lineage a.0 p.tenant_id db in
          let (v, r) =
            filter_from-one stored e.1
              (evidence_of-Occurs a ancestors (filter_from py (stored ∷ []) p now).0 e k) in
          record {
            id = a.0;
            stored = stored;
            visible = (found, v);
            redacts = r;
            sources = λ source back.
                let (o, f, i) =
                  traverse-Occurs (λ source. get source (some p.tenant_id) db) ancestors sources
                    source read ((lineage-GoesBack a.0 p.tenant_id source db).1 back) in
                let (s, m, ok_s) =
                  permitted-some o (all-Occurs (permitted fl py now g p) sources o (sym q) i) in
                (s, (f ∙ ap ok m, ok_s));
          }

  with_sources-IsApproved :
      (a : Annotation) (found : Option ContextItem) (e : Approval)
      → get a.0 (some p.tenant_id) db ≡ ok found
      → with_sources fl py now g p a found db ≡ ok (some e)
      → IsApproved e.1
  with_sources-IsApproved a none e f h = cc
  with_sources-IsApproved a (some stored) e f h =
      let ancestors = lineage a.0 p.tenant_id db in
      let (sources, read, k) =
        bind-ok (traverse (λ source. get source (some p.tenant_id) db) ancestors) _ (some e) h in
      checked-IsApproved a stored sources e f read k

  approve-IsApproved :
      (a : Annotation) (e : Approval) → approve fl py now g p a db ≡ ok (some e) → IsApproved e.1
  unfolding approve
  approve-IsApproved a e h =
      let (found, f, k) = bind-ok (get a.0 (some p.tenant_id) db) _ (some e) h in
      with_sources-IsApproved a found e f k

  pub approvals-IsApproved :
      (annotations : List Annotation) (approved : List Approval)
      → approvals fl py now g p annotations db ≡ ok approved
      → All (λ e. IsApproved e.1) approved
  unfolding approvals
  approvals-IsApproved [] approved h = rw (sym (ok_inj h)) tt
  approvals-IsApproved (a ∷ more) approved h =
      let (found, f, k) = bind-ok (approve fl py now g p a db) _ approved h in
      let (rest, r, q) = bind-ok (approvals fl py now g p more db) _ approved k in
      rw (sym (ok_inj q)) (
        prepended found rest (λ e m. approve-IsApproved a e (f ∙ ap ok m))
          (approvals-IsApproved more rest r))
    where
      prepended :
          (found : Option Approval) (rest : List Approval)
          → ((e : Approval) → found ≡ some e → IsApproved e.1)
          → All (λ e. IsApproved e.1) rest
          → All (λ e. IsApproved e.1) (prepend fl py now g p found rest)
      prepended none rest h k = k
      prepended (some e) rest h k = (h e refl, k)

  -- The items that the keys of a selection name are approved.
  pub lookups-IsApproved :
      (approved : List Approval) (keys : List Key) (items : List ContextItem)
      → All (λ e. IsApproved e.1) approved
      → traverse (lookup_approved fl py now g p approved) keys ≡ ok items
      → All IsApproved items
  unfolding lookup_approved
  lookups-IsApproved approved keys items h k = All-of_Occurs items (λ item o.
      let (key, _, e) =
        Occurs-traverse (lookup_approved fl py now g p approved) keys items item k o in
      elim (Option-cases (find (λ a. same_key a.0.key key) approved)) [
        | inl q ↦ absurd (err-ok (ap (found_item fl py now g p) (sym q) ∙ e))
        | inr (a, q) ↦
            let (i, _) = find-Occurs (λ a. same_key a.0.key key) approved a q in
            rw (sym (ok_inj (ap (found_item fl py now g p) (sym q) ∙ e)))
              (All-at (λ e. IsApproved e.1) approved a h i)
      ])
