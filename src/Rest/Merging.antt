-- ===== src/Rest/Merging.antt =====
-- The merge of `patch_item`: what the body names is changed, and nothing else.
pub mod Fields
pub mod Subtask
use text.Mathlib.TextEquality.{eq_iff}
use trilith.Prelude.{
  ℕ, zero, suc, ◌/◌, String, ◌≡◌, refl, sym, ap, ◌∙◌, ◌⊎◌, inl, inr, Bool, Bool-cases, true, false,
  List, [], ◌∷◌, ◌++◌, Option, none, some, ◌==◌, string_eq, arith, is_empty, if◌then◌else◌,
}
use trilith.Prelude.Int.{ℤ, pos, negsuc, offset_by}
use trilith.Exec.{Error, Result, ok, err, bind-ok, ◌>>=◌ as bind}
use trilith.Python.{Python}
use trilith.Floats.{Floats}
use trilith.Proto.{
  ContextItem, Tier, Scope, Timestamp, tier_eq, scope_eq, tier_beq_iff, scope_beq_iff,
}
use trilith.Database.Backend.{StoredItem}
use trilith.Rest.{Web, parse_tier, parse_scope, apply_ttl}
use trilith.Rest.Items.{
  ItemPatch, Edit, edit_content, edit_provenance, edit_owner, edit_session, edit_tier, edit_scope,
  edit_subtask, edit_ttl, merge, marked, set_tier, set_scope, same_text, text_or_none,
}
use trilith.Rest.Merging.Subtask.{
  edit_content-subtask, edit_provenance-subtask, edit_owner-subtask, edit_session-subtask,
  edit_tier-subtask, edit_scope-subtask, edit_subtask-subtask, chosen_subtask,
}
use trilith.Rest.Merging.Fields.{
  chosen, chosen_tier, chosen_scope, append-nonempty, edit_content-item, edit_content-quiet,
  edit_provenance-item, edit_provenance-quiet, edit_owner-item, edit_owner-quiet, edit_session-item,
  edit_session-quiet, edit_tier-item, edit_tier-quiet, edit_scope-item, edit_scope-quiet,
  edit_subtask-item, edit_subtask-quiet,
}

module _ (fl : Floats) (py : Python) (web : Web fl) (now : ℕ) where
  -- the old expiry, none for 0, or so many seconds after now
  abbrev pub chosen_expiry : Option ℤ → Option Timestamp → Result (Option Timestamp)
  chosen_expiry none old = ok old
  chosen_expiry (some (pos zero)) old = ok none
  chosen_expiry (some ttl) old =
      bind (web.from_seconds (offset_by (now / 1000000000) ttl)) (λ t. ok (some t))

  -- The item is re-dated, and nothing else.
  abbrev IsDated : Option ℤ → ContextItem → ContextItem → Type 0
  IsDated o item i =
      (x : Option Timestamp) × (chosen_expiry o item.expires_at ≡ ok x)
      × (i ≡ record item { expires_at = x })

  re_dated :
      (item i : ContextItem) (r : Result Timestamp)
      → bind r (λ t. ok (record item { expires_at = some t })) ≡ ok i
      → (x : Option Timestamp) × (bind r (λ t. ok (some t)) ≡ ok x)
        × (i ≡ record item { expires_at = x })
  re_dated item i r h =
      let (t, e, q) = bind-ok r (λ t. ok (record item { expires_at = some t })) i h in
      (some t, rw e refl, cc)

  apply_ttl-item :
      (item i : ContextItem) (o : Option ℤ)
      → apply_ttl fl py web now item o ≡ ok i
      → IsDated o item i
  unfolding apply_ttl
  apply_ttl-item item i none h = (item.expires_at, refl, cc)
  apply_ttl-item item i (some (pos zero)) h = (none, refl, cc)
  apply_ttl-item item i (some (pos (suc n))) h = re_dated item i _ h
  apply_ttl-item item i (some (negsuc n)) h = re_dated item i _ h

  edit_ttl-item :
      (o : Option ℤ) (e e' : Edit)
      → edit_ttl fl py web now o e ≡ ok e'
      → IsDated o e.item e'.item × (e'.subtask_id ≡ e.subtask_id)
  unfolding edit_ttl
  edit_ttl-item none e e' h = ((e.item.expires_at, refl, cc), cc)
  edit_ttl-item (some ttl) e e' h =
      let (i, a, q) =
        bind-ok (apply_ttl fl py web now e.item (some ttl)) (λ i. ok (marked "expires_at" e i)) e'
          h in
      let done : marked "expires_at" e i ≡ e' = cc in
      rw (sym done) (apply_ttl-item e.item i (some ttl) a, refl)

  edit_ttl-quiet :
      (o : Option ℤ) (e e' : Edit) → edit_ttl fl py web now o e ≡ ok e' → e'.changed ≡ [] → e' ≡ e
  unfolding edit_ttl
  edit_ttl-quiet none e e' h k = cc
  edit_ttl-quiet (some ttl) e e' h k =
      let (i, a, q) =
        bind-ok (apply_ttl fl py web now e.item (some ttl)) (λ i. ok (marked "expires_at" e i)) e'
          h in
      let done : marked "expires_at" e i ≡ e' = cc in
      absurd (append-nonempty e.changed "expires_at" (rw (sym done) at k))

  -- What a patch makes of a stored row: the fields that the body names take its values, a time to
  -- live re-dates the expiry, and every other field keeps its stored value.
  pub record IsMerged (body : ItemPatch) (stored : StoredItem) (e : Edit) : Type 0 where
    pub tier : Tier
    pub scope : Scope
    pub expires_at : Option Timestamp
    pub named_tier : chosen_tier py body.tier stored.item.tier ≡ ok tier
    pub named_scope : chosen_scope py body.scope stored.item.scope ≡ ok scope
    pub named_expiry : chosen_expiry body.ttl_seconds stored.item.expires_at ≡ ok expires_at
    pub subtask : e.subtask_id ≡ chosen_subtask body.subtask_id stored.subtask_id
    pub item : e.item ≡ record stored.item {
      content = chosen body.content stored.item.content;
      tier = tier;
      scope = scope;
      provenance = chosen body.provenance stored.item.provenance;
      owner_id = chosen body.identity.owner_id stored.item.owner_id;
      session_id = chosen body.identity.session_id stored.item.session_id;
      expires_at = expires_at;
    }
    -- where no field is named as changed, nothing is
    pub quiet : e.changed ≡ [] → (e.item ≡ stored.item) × (e.subtask_id ≡ stored.subtask_id)

  abbrev begun : StoredItem → Edit
  begun stored = record { item = stored.item; subtask_id = stored.subtask_id; changed = [] }

  -- A patch that is merged gives each field that it names the value that it says, the expiry that
  -- its seconds from now give (none for 0) and the sub-task (none for an empty text) among them; it
  -- changes no other field, and where it reports no change the row is as it was stored.
  pub merge-IsMerged :
      (body : ItemPatch) (stored : StoredItem) (e : Edit)
      → merge fl py web now body stored ≡ ok e
      → IsMerged body stored e
  unfolding merge
  merge-IsMerged body stored e h =
      let a = edit_content body.content (begun stored) in
      let (b, hb, kb) =
        bind-ok (edit_tier py body.tier a)
          (λ b. bind (edit_scope py body.scope b) (λ c. edit_ttl fl py web now body.ttl_seconds (
            edit_subtask body.subtask_id (
              edit_session body.identity.session_id
                (edit_owner body.identity.owner_id (edit_provenance body.provenance c))))))
          e h in
      let (c, hc, kc) =
        bind-ok (edit_scope py body.scope b)
          (λ c. edit_ttl fl py web now body.ttl_seconds (
            edit_subtask body.subtask_id (
              edit_session body.identity.session_id
                (edit_owner body.identity.owner_id (edit_provenance body.provenance c)))))
          e kb in
      let d = edit_provenance body.provenance c in
      let f = edit_owner body.identity.owner_id d in
      let g = edit_session body.identity.session_id f in
      let s = edit_subtask body.subtask_id g in
      let (t, ht, it) = edit_tier-item py body.tier a b hb in
      let (w, hw, iw) = edit_scope-item py body.scope b c hc in
      let ((x, hx, ix), sx) = edit_ttl-item body.ttl_seconds s e kc in
      let ib =
        it
        ∙ ap (λ (i : ContextItem). record i { tier = t })
            (edit_content-item body.content (begun stored)) in
      let ic = iw ∙ ap (λ (i : ContextItem). record i { scope = w }) ib in
      let id =
        edit_provenance-item body.provenance c
        ∙ ap (λ (i : ContextItem). record i { provenance = chosen body.provenance i.provenance })
            ic in
      let if' =
        edit_owner-item body.identity.owner_id d
        ∙ ap (λ (i : ContextItem). record i { owner_id = chosen body.identity.owner_id i.owner_id })
            id in
      let ig =
        edit_session-item body.identity.session_id f
        ∙ ap
            (λ (i : ContextItem). record i {
              session_id = chosen body.identity.session_id i.session_id;
            })
            if' in
      let is = edit_subtask-item body.subtask_id g ∙ ig in
      let kept =
        edit_session-subtask body.identity.session_id f
        ∙ edit_owner-subtask body.identity.owner_id d
        ∙ edit_provenance-subtask body.provenance c
        ∙ edit_scope-subtask py body.scope b c hc
        ∙ edit_tier-subtask py body.tier a b hb
        ∙ edit_content-subtask body.content (begun stored) in
      record {
        tier = t;
        scope = w;
        expires_at = x;
        named_tier = rw (edit_content-item body.content (begun stored)) at ht;
        named_scope = rw ib at hw;
        named_expiry = rw is at hx;
        subtask =
            sx
            ∙ edit_subtask-subtask body.subtask_id g
            ∙ ap (λ t. chosen_subtask body.subtask_id t) kept;
        item = ix ∙ ap (λ (i : ContextItem). record i { expires_at = x }) is;
        quiet = λ n.
            let qs = edit_ttl-quiet body.ttl_seconds s e kc n in
            let ns = sym (ap (λ (y : Edit). y.changed) qs) ∙ n in
            let qg = edit_subtask-quiet body.subtask_id g ns in
            let ng = sym (ap (λ (y : Edit). y.changed) qg) ∙ ns in
            let qf = edit_session-quiet body.identity.session_id f ng in
            let nf = sym (ap (λ (y : Edit). y.changed) qf) ∙ ng in
            let qd = edit_owner-quiet body.identity.owner_id d nf in
            let nd = sym (ap (λ (y : Edit). y.changed) qd) ∙ nf in
            let qc = edit_provenance-quiet body.provenance c nd in
            let nc = sym (ap (λ (y : Edit). y.changed) qc) ∙ nd in
            let qb = edit_scope-quiet py body.scope b c hc nc in
            let nb = sym (ap (λ (y : Edit). y.changed) qb) ∙ nc in
            let qa = edit_tier-quiet py body.tier a b hb nb in
            let na = sym (ap (λ (y : Edit). y.changed) qa) ∙ nb in
            let all =
              qs
              ∙ qg
              ∙ qf
              ∙ qd
              ∙ qc
              ∙ qb
              ∙ qa
              ∙ edit_content-quiet body.content (begun stored) na in
            (ap (λ (y : Edit). y.item) all, ap (λ (y : Edit). y.subtask_id) all);
      }
