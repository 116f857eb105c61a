-- ===== src/Rest/Merging/Fields.antt =====
-- The merge of `patch_item` field by field.
use text.Mathlib.TextEquality.{eq_iff}
use trilith.Prelude.{
  String, ◌≡◌, refl, sym, ◌∙◌, inl, inr, Bool, Bool-cases, true, false, List, [], ◌∷◌, ◌++◌, Option,
  none, some, ◌==◌, string_eq, arith, if◌then◌else◌,
}
use trilith.Exec.{Result, ok, bind-ok}
use trilith.Python.{Python}
use trilith.Proto.{ContextItem, Tier, Scope, tier_eq, scope_eq, tier_beq_iff, scope_beq_iff}
use trilith.Rest.{parse_tier, parse_scope}
use trilith.Rest.Items.{
  Edit, edit_content, edit_provenance, edit_owner, edit_session, edit_tier, edit_scope,
  edit_subtask, marked, set_tier, set_scope, same_text, text_or_none,
}

-- the new text, or the old one
abbrev pub chosen : Option String → String → String
chosen none old = old
chosen (some s) old = s

abbrev pub chosen_tier : Python → Option String → Tier → Result Tier
chosen_tier py none old = ok old
chosen_tier py (some name) old = parse_tier py name

abbrev pub chosen_scope : Python → Option String → Scope → Result Scope
chosen_scope py none old = ok old
chosen_scope py (some name) old = parse_scope py name

pub append-nonempty : (xs : List String) (x : String) → ¬ (xs ++ x ∷ [] ≡ [])
append-nonempty [] x h = cc
append-nonempty (y ∷ xs) x h = cc

-- One field: where the test finds no difference, the edit stays as it is.
module _ (same : Bool) (field : String) (e : Edit) (i : ContextItem) where
  abbrev pub kept_or_set : Edit
  kept_or_set = if same then e else marked field e i

  kept_or_set-item : (same ≡ true → e.item ≡ i) → kept_or_set.item ≡ i
  kept_or_set-item h = elim (Bool-cases same) [ inl q ↦ rw q (h q) | inr q ↦ rw q refl ]

  -- An edit that names no changed field has changed nothing.
  kept_or_set-quiet : kept_or_set.changed ≡ [] → kept_or_set ≡ e
  kept_or_set-quiet h = elim (Bool-cases same) [
    | inl q ↦ rw q refl
    | inr q ↦ absurd (append-nonempty e.changed field (rw q at h))
  ]

pub edit_content-item :
    (o : Option String) (e : Edit)
    → (edit_content o e).item ≡ record e.item { content = chosen o e.item.content }
unfolding edit_content
edit_content-item none e = refl
edit_content-item (some s) e =
    kept_or_set-item (s == e.item.content) "content" e (record e.item { content = s })
      (λ q. rw ((eq_iff s e.item.content).0 q) refl)

pub edit_content-quiet :
    (o : Option String) (e : Edit) → (edit_content o e).changed ≡ [] → edit_content o e ≡ e
unfolding edit_content
edit_content-quiet none e h = refl
edit_content-quiet (some s) e h =
    kept_or_set-quiet (s == e.item.content) "content" e (record e.item { content = s }) h

pub edit_provenance-item :
    (o : Option String) (e : Edit)
    → (edit_provenance o e).item ≡ record e.item { provenance = chosen o e.item.provenance }
unfolding edit_provenance
edit_provenance-item none e = refl
edit_provenance-item (some s) e =
    kept_or_set-item (s == e.item.provenance) "provenance" e (record e.item { provenance = s })
      (λ q. rw ((eq_iff s e.item.provenance).0 q) refl)

pub edit_provenance-quiet :
    (o : Option String) (e : Edit) → (edit_provenance o e).changed ≡ [] → edit_provenance o e ≡ e
unfolding edit_provenance
edit_provenance-quiet none e h = refl
edit_provenance-quiet (some s) e h =
    kept_or_set-quiet (s == e.item.provenance) "provenance" e (record e.item { provenance = s }) h

pub edit_owner-item :
    (o : Option String) (e : Edit)
    → (edit_owner o e).item ≡ record e.item { owner_id = chosen o e.item.owner_id }
unfolding edit_owner
edit_owner-item none e = refl
edit_owner-item (some s) e =
    kept_or_set-item (s == e.item.owner_id) "owner_id" e (record e.item { owner_id = s })
      (λ q. rw ((eq_iff s e.item.owner_id).0 q) refl)

pub edit_owner-quiet :
    (o : Option String) (e : Edit) → (edit_owner o e).changed ≡ [] → edit_owner o e ≡ e
unfolding edit_owner
edit_owner-quiet none e h = refl
edit_owner-quiet (some s) e h =
    kept_or_set-quiet (s == e.item.owner_id) "owner_id" e (record e.item { owner_id = s }) h

pub edit_session-item :
    (o : Option String) (e : Edit)
    → (edit_session o e).item ≡ record e.item { session_id = chosen o e.item.session_id }
unfolding edit_session
edit_session-item none e = refl
edit_session-item (some s) e =
    kept_or_set-item (s == e.item.session_id) "session_id" e (record e.item { session_id = s })
      (λ q. rw ((eq_iff s e.item.session_id).0 q) refl)

pub edit_session-quiet :
    (o : Option String) (e : Edit) → (edit_session o e).changed ≡ [] → edit_session o e ≡ e
unfolding edit_session
edit_session-quiet none e h = refl
edit_session-quiet (some s) e h =
    kept_or_set-quiet (s == e.item.session_id) "session_id" e (record e.item { session_id = s }) h

pub edit_tier-item :
    (py : Python) (o : Option String) (e e' : Edit)
    → edit_tier py o e ≡ ok e'
    → (t : Tier) × (chosen_tier py o e.item.tier ≡ ok t) × (e'.item ≡ record e.item { tier = t })
unfolding edit_tier
edit_tier-item py none e e' h = (e.item.tier, refl, cc)
edit_tier-item py (some name) e e' h =
    let (t, p, q) = bind-ok (parse_tier py name) (λ t. ok (set_tier e t)) e' h in
    let done : set_tier e t ≡ e' = cc in
    (
      t,
      p,
      rw (sym done) (
          kept_or_set-item (t == e.item.tier) "tier" e (record e.item { tier = t })
            (λ k. rw ((tier_beq_iff t e.item.tier).0 k) refl)),
    )

pub edit_tier-quiet :
    (py : Python) (o : Option String) (e e' : Edit)
    → edit_tier py o e ≡ ok e'
    → e'.changed ≡ []
    → e' ≡ e
unfolding edit_tier
edit_tier-quiet py none e e' h k = cc
edit_tier-quiet py (some name) e e' h k =
    let (t, p, q) = bind-ok (parse_tier py name) (λ t. ok (set_tier e t)) e' h in
    let done : set_tier e t ≡ e' = cc in
    sym done
    ∙ kept_or_set-quiet (t == e.item.tier) "tier" e (record e.item { tier = t })
        (rw (sym done) at k)

pub edit_scope-item :
    (py : Python) (o : Option String) (e e' : Edit)
    → edit_scope py o e ≡ ok e'
    → (t : Scope) × (chosen_scope py o e.item.scope ≡ ok t)
      × (e'.item ≡ record e.item { scope = t })
unfolding edit_scope
edit_scope-item py none e e' h = (e.item.scope, refl, cc)
edit_scope-item py (some name) e e' h =
    let (t, p, q) = bind-ok (parse_scope py name) (λ t. ok (set_scope e t)) e' h in
    let done : set_scope e t ≡ e' = cc in
    (
      t,
      p,
      rw (sym done) (
          kept_or_set-item (t == e.item.scope) "scope" e (record e.item { scope = t })
            (λ k. rw ((scope_beq_iff t e.item.scope).0 k) refl)),
    )

pub edit_scope-quiet :
    (py : Python) (o : Option String) (e e' : Edit)
    → edit_scope py o e ≡ ok e'
    → e'.changed ≡ []
    → e' ≡ e
unfolding edit_scope
edit_scope-quiet py none e e' h k = cc
edit_scope-quiet py (some name) e e' h k =
    let (t, p, q) = bind-ok (parse_scope py name) (λ t. ok (set_scope e t)) e' h in
    let done : set_scope e t ≡ e' = cc in
    sym done
    ∙ kept_or_set-quiet (t == e.item.scope) "scope" e (record e.item { scope = t })
        (rw (sym done) at k)

pub edit_subtask-item : (o : Option String) (e : Edit) → (edit_subtask o e).item ≡ e.item
unfolding edit_subtask
edit_subtask-item none e = refl
edit_subtask-item (some s) e = ground arith

pub edit_subtask-quiet :
    (o : Option String) (e : Edit) → (edit_subtask o e).changed ≡ [] → edit_subtask o e ≡ e
unfolding edit_subtask
edit_subtask-quiet none e h = refl
edit_subtask-quiet (some s) e h =
    subtask_quiet (same_text (text_or_none (some s)) e.subtask_id) e (text_or_none (some s)) h
  where
    subtask_quiet :
        (same : Bool) (e : Edit) (o : Option String)
        → (if same
            then e
            else record e { subtask_id = o; changed = e.changed ++ "subtask_id" ∷ [] }).changed
          ≡ []
        → (if same
            then e
            else record e { subtask_id = o; changed = e.changed ++ "subtask_id" ∷ [] })
          ≡ e
    subtask_quiet true e o h = refl
    subtask_quiet false e o h = absurd (append-nonempty e.changed "subtask_id" h)
