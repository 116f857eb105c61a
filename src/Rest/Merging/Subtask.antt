-- ===== src/Rest/Merging/Subtask.antt =====
-- The sub-task through the merge of `patch_item`: only its own edit changes it.
use text.Mathlib.TextEquality.{eq_iff}
use trilith.Prelude.{
  String, ◌≡◌, refl, sym, inl, inr, Bool, Bool-cases, true, Option, none, some, ◌==◌, string_eq,
}
use trilith.Exec.{ok, bind-ok}
use trilith.Python.{Python}
use trilith.Proto.{ContextItem, tier_eq, scope_eq}
use trilith.Rest.{parse_tier, parse_scope}
use trilith.Rest.Items.{
  Edit, edit_content, edit_provenance, edit_owner, edit_session, edit_tier, edit_scope,
  edit_subtask, set_tier, set_scope, same_text, text_or_none,
}
use trilith.Rest.Merging.Fields.{kept_or_set}

kept_or_set-subtask :
    (same : Bool) (field : String) (e : Edit) (i : ContextItem)
    → (kept_or_set same field e i).subtask_id ≡ e.subtask_id
kept_or_set-subtask same field e i = elim (Bool-cases same) [
  | inl q ↦ rw q refl
  | inr q ↦ rw q refl
]

pub edit_content-subtask :
    (o : Option String) (e : Edit) → (edit_content o e).subtask_id ≡ e.subtask_id
unfolding edit_content
edit_content-subtask none e = refl
edit_content-subtask (some s) e =
    kept_or_set-subtask (s == e.item.content) "content" e (record e.item { content = s })

pub edit_provenance-subtask :
    (o : Option String) (e : Edit) → (edit_provenance o e).subtask_id ≡ e.subtask_id
unfolding edit_provenance
edit_provenance-subtask none e = refl
edit_provenance-subtask (some s) e =
    kept_or_set-subtask (s == e.item.provenance) "provenance" e (record e.item { provenance = s })

pub edit_owner-subtask : (o : Option String) (e : Edit) → (edit_owner o e).subtask_id ≡ e.subtask_id
unfolding edit_owner
edit_owner-subtask none e = refl
edit_owner-subtask (some s) e =
    kept_or_set-subtask (s == e.item.owner_id) "owner_id" e (record e.item { owner_id = s })

pub edit_session-subtask :
    (o : Option String) (e : Edit) → (edit_session o e).subtask_id ≡ e.subtask_id
unfolding edit_session
edit_session-subtask none e = refl
edit_session-subtask (some s) e =
    kept_or_set-subtask (s == e.item.session_id) "session_id" e (record e.item { session_id = s })

pub edit_tier-subtask :
    (py : Python) (o : Option String) (e e' : Edit)
    → edit_tier py o e ≡ ok e'
    → e'.subtask_id ≡ e.subtask_id
unfolding edit_tier
edit_tier-subtask py none e e' h = cc
edit_tier-subtask py (some name) e e' h =
    let (t, p, q) = bind-ok (parse_tier py name) (λ t. ok (set_tier e t)) e' h in
    let done : set_tier e t ≡ e' = cc in
    rw (sym done) (kept_or_set-subtask (t == e.item.tier) "tier" e (record e.item { tier = t }))

pub edit_scope-subtask :
    (py : Python) (o : Option String) (e e' : Edit)
    → edit_scope py o e ≡ ok e'
    → e'.subtask_id ≡ e.subtask_id
unfolding edit_scope
edit_scope-subtask py none e e' h = cc
edit_scope-subtask py (some name) e e' h =
    let (t, p, q) = bind-ok (parse_scope py name) (λ t. ok (set_scope e t)) e' h in
    let done : set_scope e t ≡ e' = cc in
    rw (sym done) (kept_or_set-subtask (t == e.item.scope) "scope" e (record e.item { scope = t }))

-- the new sub-task, none where the text is empty, or the old one
abbrev pub chosen_subtask : Option String → Option String → Option String
chosen_subtask none old = old
chosen_subtask (some s) old = text_or_none (some s)

same_text-eq : (a b : Option String) → same_text a b ≡ true → a ≡ b
same_text-eq none none h = refl
same_text-eq none (some b) h = cc
same_text-eq (some a) none h = cc
same_text-eq (some a) (some b) h = rw ((eq_iff a b).0 h) refl

pub edit_subtask-subtask :
    (o : Option String) (e : Edit) → (edit_subtask o e).subtask_id ≡ chosen_subtask o e.subtask_id
unfolding edit_subtask
edit_subtask-subtask none e = refl
edit_subtask-subtask (some s) e =
    let new = text_or_none (some s) in
    elim (Bool-cases (same_text new e.subtask_id)) [
      | inl q ↦ rw q (sym (same_text-eq new e.subtask_id q))
      | inr q ↦ rw q refl
    ]
