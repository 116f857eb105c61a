-- ===== src/Rest/Disclosure.antt =====
-- What the REST gateway hands out.
use trilith.Prelude.{
  ℕ, ◌≤◌, String, ◌≡◌, sym, ap, ◌∙◌, ◌⊎◌, inl, inr, some, List, Occurs, arith, Bool-cases, ◌==◌,
  string_eq,
}
use trilith.Exec.{ok, bind-ok, traverse, Occurs-traverse, ◌>>=◌ as bind}
use trilith.Python.{Python}
use trilith.Floats.{Floats}
use trilith.Proto.{ContextItem, ExcludedItem, AssembledContext, default_item}
use trilith.Identity.{Principal}
use trilith.Privacy.{redact}
use trilith.Database.{Row, item_of}
use trilith.Runtime.{Runtime, value}
use trilith.Runtime.Keeps.{bind-returns}
use trilith.Governor.{whole, BudgetArgument, assemble}
use trilith.Governor.Assembly.{IsAssembled, IsOffered, IsShown, assemble-IsAssembled}
use trilith.Ops.Assemble.{announce_assembly, recorded_assembly, assemble_context}
use trilith.Rest.{Web}
use trilith.Rest.Pipeline.{
  AssembleBody, IncludedPayload, ExcludedPayload, AssembledPayload, included_payload,
  excluded_payload, assembled_payload, payload_with, assemble_as, budget_of, kind_of,
}

module _ (fl : Floats) (py : Python) (web : Web fl) (now : ℕ) (p : Principal) where
  recorded-context :
      (task : String) (argument : BudgetArgument) (context context' : AssembledContext)
      (rt : Runtime)
      → (recorded_assembly now task argument (some p) context rt).1 ≡ ok context'
      → context ≡ context'
  unfolding announce_assembly
  recorded-context task argument context context' rt h = cc

  -- `assemble_context` hands on what the governor assembled.
  assemble_context-IsAssembled :
      (task : String) (argument : BudgetArgument) (rt : Runtime) (context : AssembledContext)
      → (assemble_context fl py now web.governor task argument (some p) rt).1 ≡ ok context
      → IsAssembled fl py now web.governor p rt.db.items argument context
  unfolding assemble_context
  assemble_context-IsAssembled task argument rt context h =
      let (c, e, k) =
        bind-returns (assemble fl py now web.governor task argument p)
          (recorded_assembly now task argument (some p)) rt context h in
      rw (sym (recorded-context task argument c context _ k))
        (assemble-IsAssembled fl py now web.governor p task argument rt c e)

  -- Every text that the payload of an item carries is the item's.
  included_payload-content :
      (i : ContextItem) (x : IncludedPayload)
      → included_payload fl py web now i ≡ ok x
      → x.content ≡ i.content
  unfolding included_payload
  included_payload-content i x h = ground (arith)

  excluded_payload-content :
      (e : ExcludedItem) (x : ExcludedPayload)
      → excluded_payload fl py web now e ≡ ok x
      → (x.content ≡ "") ⊎ (x.content ≡ e.item.content)
  unfolding excluded_payload
  excluded_payload-content e x h = elim (Bool-cases (kind_of e.reason == "policy")) [
    | inl k ↦ inl (ground (arith, k))
    | inr k ↦ inr (ground (arith, k))
  ]

  -- The text is that of a stored item, redacted, which has not expired and which the principal may
  -- see.
  abbrev pub IsShownText : List Row → String → Type 0
  IsShownText rows s =
      (r : Row) × Occurs r rows
      × IsShown fl py now web.governor p (item_of r)
      × (s ≡ redact py (redact py r.content))

  offered-IsShownText :
      (rows : List Row) (i : ContextItem) (s : String)
      → IsOffered fl py now web.governor p rows i
      → s ≡ i.content
      → IsShownText rows s
  unfolding item_of
  offered-IsShownText rows i s (shown, (r, o, e)) q =
      (r, o, rw e at shown, q ∙ ap (λ (i : ContextItem). i.content) e)

  pub record IsDisclosed (rows : List Row) (body : AssembleBody) (x : AssembledPayload fl)
      : Type 0 where
    pub budget : (b : ℕ) × (budget_of body.budget ≡ whole b) × (x.tokens_used ≤ b)
    pub items : (y : IncludedPayload) → Occurs y x.items → IsShownText rows y.content
    pub excluded :
        (y : ExcludedPayload)
        → Occurs y x.excluded_items
        → (y.content ≡ "") ⊎ IsShownText rows y.content

  payload-IsDisclosed :
      (rows : List Row) (body : AssembleBody) (context : AssembledContext) (x : AssembledPayload fl)
      → IsAssembled fl py now web.governor p rows (budget_of body.budget) context
      → assembled_payload fl py web now body p context ≡ ok x
      → IsDisclosed rows body x
  unfolding assembled_payload
  payload-IsDisclosed rows body context x a h =
      let (items, e, k) =
        bind-ok (traverse (included_payload fl py web now) context.items)
          (λ items.
            bind (traverse (excluded_payload fl py web now) context.excluded_items)
              (λ excluded. ok (payload_with fl py web now body p context items excluded)))
          x h in
      let (excluded, e', q) =
        bind-ok (traverse (excluded_payload fl py web now) context.excluded_items)
          (λ excluded. ok (payload_with fl py web now body p context items excluded)) x k in
      let made : x ≡ payload_with fl py web now body p context items excluded = cc in
      rw made (record {
        budget = a.budget;
        items = λ y o.
            let (i, o', m) =
              Occurs-traverse (included_payload fl py web now) context.items items y e o in
            offered-IsShownText rows i y.content (a.included i o') (included_payload-content i y m);
        excluded = λ y o.
            let (z, o', m) =
              Occurs-traverse (excluded_payload fl py web now) context.excluded_items excluded y e'
                o in
            shown_or_empty z y (a.excluded z o') (excluded_payload-content z y m);
      })
    where
      shown_or_empty :
          (z : ExcludedItem) (y : ExcludedPayload)
          → (z.item ≡ default_item) ⊎ IsOffered fl py now web.governor p rows z.item
          → (y.content ≡ "") ⊎ (y.content ≡ z.item.content)
          → (y.content ≡ "") ⊎ IsShownText rows y.content
      shown_or_empty z y s (inl e) = inl e
      shown_or_empty z y (inl d) (inr e) = inl (e ∙ ap (λ (i : ContextItem). i.content) d)
      shown_or_empty z y (inr s) (inr e) = inr (offered-IsShownText rows z.item y.content s e)

  -- An assembly answered over REST keeps to the budget that was asked for, and the content that it
  -- carries of each item, included or excluded, is empty or the redacted content of an item of the
  -- database which has not expired and which the caller may see; of an included one it is not
  -- left out.
  pub assemble-IsDisclosed :
      (body : AssembleBody) (rt : Runtime) (x : AssembledPayload fl)
      → (assemble_as fl py web now body p rt).1 ≡ ok x
      → IsDisclosed rt.db.items body x
  assemble-IsDisclosed body rt x h =
      let (context, e, k) =
        bind-returns
          (assemble_context fl py now web.governor body.task (budget_of body.budget) (some p))
          (λ context. value (assembled_payload fl py web now body p context)) rt x h in
      payload-IsDisclosed rt.db.items body context x
        (assemble_context-IsAssembled body.task (budget_of body.budget) rt context e) k
