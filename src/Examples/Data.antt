-- ===== src/Examples/Data.antt =====
-- The states, callers and items of the runs.
use trilith.Prelude.{[], ◌∷◌, none, some, true}
use trilith.Proto.{ContextItem, default_item, semantic, procedural, user, tenant}
use trilith.Identity.{Principal}
use trilith.Database.{Row, Derived, Db, Decision, empty, text}
use trilith.Events.{new_log}
use trilith.Runtime.{Runtime}

abbrev pub ada : Principal
ada = record {
  tenant_id = "acme";
  owner_id = "ada";
  session_id = "s1";
  legacy_scope = "";
  capabilities = [];
  authenticated = true;
}

abbrev pub admin : Principal
admin = record ada { capabilities = "tenant_admin" ∷ [] }

abbrev pub note : ContextItem
note = record default_item {
  id = "n1";
  tier = semantic;
  content = "likes tea";
  scope = user;
  owner_id = "ada";
  tenant_id = "acme";
}

abbrev pub note_row : Row
note_row = record {
  id = "n1";
  tier = semantic;
  content = "likes tea";
  scope = user;
  provenance = "";
  created = record { seconds = 5; nanos = 0 };
  expires = none;
  embedding = none;
  subtask_id = none;
  tenant_id = "acme";
  owner_id = "ada";
  session_id = "";
}

abbrev pub step_row : Row
step_row = record note_row { id = "p1"; tier = procedural; scope = tenant; subtask_id = some "t" }

abbrev pub summary_row : Row
summary_row = record step_row { id = "folded-1"; subtask_id = none }

abbrev pub foreign_row : Row
foreign_row = record note_row { tenant_id = "other"; owner_id = "bob" }

abbrev pub edge : Derived
edge = record { tenant_id = "acme"; source_id = "p1"; summary_id = "folded-1" }

abbrev pub decision : Decision
decision = record {
  seq = 1;
  at = 7;
  tenant_id = "acme";
  owner_id = "ada";
  session_id = "s1";
  operation = "write";
  decision = "allowed";
  detail = ("item_id", text "n1") ∷ [];
}

-- a note, a step with its summary, and a row of another tenant
abbrev pub tables : Db
tables = record empty {
  items = note_row ∷ step_row ∷ summary_row ∷ foreign_row ∷ [];
  derived = edge ∷ [];
  audit = decision ∷ [];
  audit_seq = 1;
}

abbrev pub runtime : Runtime
runtime = record { db = tables; events = new_log 2 }
