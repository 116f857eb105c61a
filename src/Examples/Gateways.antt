-- ===== src/Examples/Gateways.antt =====
-- Requests to the gateways over the example tables, with a key of either tenant.
use trilith.Rest.Items.{
  edit_content, edit_provenance, edit_owner, edit_session, edit_subtask, edit_ttl, edit_scope,
  edit_tier, ItemPatch, Edit, merge,
}
use trilith.Rest.{apply_ttl, parse_scope, Web}
use trilith.Prelude.{ascii_upper, strip, ascii_lower, filter}
use trilith.Proto.{scope_value, tenant, tier_name, scope_name}
use trilith.Prelude.Int.{pos, pos_part}
use trilith.Exec.{ok, traverse}
use trilith.Python.{Python, plain_python}
use trilith.Floats.{naturals}
use trilith.Identity.{Principal, can, new_principal, normalize_tenant}
use trilith.Database.{KeyRow, item_of, row_to_item}
use trilith.Database.Backend.{StoredItem, query, query_rows}
use trilith.Database.Confined.{Confined}
use trilith.Auth.{enabled, new_key, parse_authorization}
use trilith.Auth.Resolve.{IsKeyPrincipal}
use trilith.Auth.Cases.{IsForeign}
use trilith.Runtime.{Runtime}
use trilith.Rest.Views.{anonymous}
use trilith.Rest.Merging.{IsMerged, merge-IsMerged}
use trilith.Rest.Serve.{Request, serve}
use trilith.Rest.Access.{serve-unauthorized, admin-forbidden}
use trilith.Gateway.{Traffic, quiet, over_rest, over_grpc, Traffic-Confined}
use trilith.Grpc.{authorization, purge_call, serve_call}
use trilith.Rest.Disclosure.{IsDisclosed, assemble-IsDisclosed}
use trilith.Rest.Pipeline.{
  AssembleBody, AssembledPayload, assemble_as, assembled_payload, included_payload,
  excluded_payload, kind_of,
}
use trilith.Ops.Assemble.{assemble_context, announce_assembly}
use trilith.Governor.{
  whole, assemble, checked_budget, collect_all, collect, audit_denied, select, select_ranked,
  selected_keys, fill,
}
use trilith.Ranking.{rank, zip, estimate_tokens}
use trilith.Privacy.{filter_from, explain, redact}
use trilith.Store.{query_for}
use trilith.Prelude.Sort.{sort_by}
use trilith.Examples.Data.{ada, note_row, tables, runtime}
use trilith.Examples.Budget.{governor}
use trilith.Prelude.{
  ◌≡◌, ◌≢◌, refl, sym, ◌∙◌, ◌⊎◌, inl, inr, String, true, false, [], ◌∷◌, none, some, any,
}
use trilith.Rest.Serve as Serve

abbrev py : Python
py = plain_python

abbrev web : Web naturals
web = record {
  require_auth = false;
  governor = governor;
  from_seconds = λ z. ok (record { seconds = pos_part z; nanos = 0 });
  to_json = λ t. "a time";
  like = λ pattern text. false;
}

abbrev acme_key : KeyRow
acme_key = new_key py "alpha" "acme" "ada" "" [] "" 5

abbrev other_key : KeyRow
other_key = new_key py "beta" "other" "bob" "" ("tenant_admin" ∷ []) "" 5

abbrev served : Runtime
served = record runtime { db = record tables { api_keys = acme_key ∷ other_key ∷ [] } }

served-enabled : enabled false served.db ≡ true
unfolding enabled
served-enabled = refl

header_read : parse_authorization py (some "beta") ≡ some "beta"
unfolding parse_authorization ascii_lower strip
header_read = refl

metadata_read : authorization py (("Authorization", "beta") ∷ []) ≡ some "beta"
unfolding authorization ascii_lower
metadata_read = refl

texts_differ : ◌≡◌ {A = String} "alpha" "beta" → ⊥
texts_differ h = cc

some_text : (s t : String) → some s ≡ some t → s ≡ t
some_text s t h = cc

names_differ : ◌≡◌ {A = String} "other" "acme" → ⊥
names_differ h = cc

other_named : normalize_tenant (some other_key.tenant_id) ≢ "acme"
unfolding normalize_tenant strip
other_named h = names_differ h

header-IsForeign : IsForeign py served.db.api_keys "acme" (some "beta")
header-IsForeign raw k found (inl e) hash =
    absurd (texts_differ ((rw e at hash) ∙ sym (some_text "beta" raw (sym header_read ∙ found))))
header-IsForeign raw k found (inr (inl e)) hash = rw e other_named
header-IsForeign raw k found (inr (inr e)) hash = absurd e

metadata-IsForeign :
    IsForeign py served.db.api_keys "acme" (authorization py (("Authorization", "beta") ∷ []))
metadata-IsForeign = rw metadata_read header-IsForeign

-- The other tenant deletes its item of the same id, and purges over gRPC.
abbrev removal : Request
removal = Serve.remove_item (some "beta") anonymous "n1"

abbrev after_removal : Runtime
after_removal = (serve naturals py web 9 removal served).0

abbrev after_purge : Runtime
after_purge =
    (serve_call naturals py false governor 9 (("Authorization", "beta") ∷ []) (purge_call none)
      after_removal).0

exchange : Traffic naturals py web (IsForeign py served.db.api_keys "acme") served after_purge
exchange = over_rest 9 removal served after_purge header-IsForeign (
    over_grpc 9 (("Authorization", "beta") ∷ []) (purge_call none) after_removal after_purge
      metadata-IsForeign (quiet after_purge))

Traffic-Confined_example : Confined (λ u. u ≢ "acme") served.db after_purge.db
Traffic-Confined_example =
    Traffic-Confined naturals py web "acme" served after_purge served-enabled exchange

no_header : (p : Principal) → ¬ IsKeyPrincipal py none served.db p
unfolding parse_authorization
no_header p (raw, k, found, o, hash, live, q) = cc

serve-unauthorized_example :
    serve naturals py web 9 (Serve.forget none anonymous "USER") served ≡ (served, 401)
serve-unauthorized_example =
    serve-unauthorized naturals py web served served-enabled 9 (Serve.forget none anonymous "USER")
      refl no_header

alpha_read : parse_authorization py (some "alpha") ≡ some "alpha"
unfolding parse_authorization ascii_lower strip
alpha_read = refl

plain_cannot : can (new_principal "acme" "ada" "" "" [] true) "tenant_admin" ≡ false
unfolding can new_principal any
plain_cannot = refl

alpha-plain :
    (p : Principal) → IsKeyPrincipal py (some "alpha") served.db p → can p "tenant_admin" ≡ false
unfolding normalize_tenant strip
alpha-plain p (raw, k, found, inl e, hash, live, q) = rw (q, e) plain_cannot
alpha-plain p (raw, k, found, inr (inl e), hash, live, q) =
    absurd (texts_differ (some_text "alpha" raw (sym alpha_read ∙ found) ∙ sym (rw e at hash)))
alpha-plain p (raw, k, found, inr (inr e), hash, live, q) = absurd e

admin-forbidden_example :
    (serve naturals py web 9 (Serve.dashboard (some "alpha") anonymous (pos 12)) served
      ≡ (served, 401))
    ⊎ (serve naturals py web 9 (Serve.dashboard (some "alpha") anonymous (pos 12)) served
        ≡ (served, 403))
admin-forbidden_example =
    admin-forbidden naturals py web served served-enabled 9
      (Serve.dashboard (some "alpha") anonymous (pos 12)) refl alpha-plain

abbrev patch : ItemPatch
patch = record {
  identity = anonymous;
  content = some "likes coffee";
  tier = none;
  scope = some "tenant";
  provenance = none;
  subtask_id = none;
  ttl_seconds = some (pos 0);
}

abbrev stored_note : StoredItem
stored_note = record { item = item_of note_row; subtask_id = none }

abbrev patched : Edit
patched = record {
  item = record stored_note.item { content = "likes coffee"; scope = tenant };
  subtask_id = none;
  changed = "content" ∷ "scope" ∷ "expires_at" ∷ [];
}

patch_run : merge naturals py web 9 patch stored_note ≡ ok patched
unfolding merge edit_tier edit_scope parse_scope scope_value ascii_upper edit_ttl apply_ttl item_of
    edit_subtask edit_session normalize_tenant edit_owner strip edit_provenance edit_content
patch_run = refl

merge-IsMerged_example : IsMerged naturals py web 9 patch stored_note patched
merge-IsMerged_example = merge-IsMerged naturals py web 9 patch stored_note patched patch_run

abbrev question : AssembleBody
question = record {
  identity = anonymous;
  task = "tea";
  budget = some (whole 10);
  requester_scope = none;
}

abbrev reply : AssembledPayload naturals
reply = record {
  items =
      record {
        id = "n1";
        tier = "SEMANTIC";
        scope = "USER";
        content = "likes tea";
        tenant_id = "acme";
        tokens = 9;
      }
      ∷ [];
  tokens_used = 9;
  budget = whole 10;
  task = "tea";
  min_score = some 0;
  excluded_items =
      record {
        id = "p1";
        tier = "PROCEDURAL";
        scope = "TENANT";
        reason = "Exceeded token budget";
        kind = "budget";
        content = "likes tea";
        tokens = 9;
      }
      ∷ record {
        id = "folded-1";
        tier = "PROCEDURAL";
        scope = "TENANT";
        reason = "Exceeded token budget";
        kind = "budget";
        content = "likes tea";
        tokens = 9;
      }
      ∷ [];
  candidates_truncated = 0;
  tenant_id = "acme";
}

reply_run : (assemble_as naturals py web 9 question ada runtime).1 ≡ ok reply
unfolding assemble_context assemble checked_budget collect_all collect query_for query traverse
    query_rows sort_by filter normalize_tenant strip row_to_item tier_name scope_name audit_denied
    filter_from explain select select_ranked selected_keys fill rank zip estimate_tokens redact
    announce_assembly assembled_payload included_payload excluded_payload kind_of
reply_run = refl

assemble-IsDisclosed_example : IsDisclosed naturals py web 9 ada tables.items question reply
assemble-IsDisclosed_example =
    assemble-IsDisclosed naturals py web 9 ada question runtime reply reply_run
