-- ===== src/Database.antt =====
-- The tables of the SQLite file: core/sqlite_backend.py, core/audit.py and core/auth.py create
-- them. A table is the list of its rows in insertion order.
pub mod Cascade
pub mod Confined
pub mod Erasure
pub mod Backend
pub mod Lineage
pub mod Migration
pub mod Reads
pub mod Search
pub mod Writes
use trilith.Prelude.{
  ℕ, String, ◌≡◌, refl, Bool, true, false, not, ◌&&◌, List, [], ◌∷◌, Option, none, some, map,
  filter, ◌==◌, string_eq,
}
use trilith.Exec.{Result, ok, err, ◌>>=◌}
use trilith.Proto.{Tier, Scope, Timestamp, ContextItem, tier_name, scope_name}
use trilith.Identity.{normalize_tenant}

-- A row of context_items. A NULL is `none`.
pub record Row : Type 0 where
  pub id : String
  pub tier : Tier
  pub content : String
  pub scope : Scope
  pub provenance : String
  pub created : Timestamp
  pub expires : Option Timestamp
  pub embedding : Option (List ℕ)
  pub subtask_id : Option String
  pub tenant_id : String
  pub owner_id : String
  pub session_id : String

-- A row of derived_sources: the summary was folded from the source.
pub record Derived : Type 0 where
  pub tenant_id : String
  pub source_id : String
  pub summary_id : String

-- A value of the JSON object in the column `detail`.
pub data Value : Type 0 where
  text : String → Value
  number : ℕ → Value
  texts : List String → Value
  -- a float, as JSON writes it
  float : String → Value

-- A row of audit_decisions.
pub record Decision : Type 0 where
  pub seq : ℕ
  pub at : ℕ
  pub tenant_id : String
  pub owner_id : String
  pub session_id : String
  pub operation : String
  pub decision : String
  pub detail : List (String × Value)

-- A row of api_keys.
pub record KeyRow : Type 0 where
  pub key_hash : String
  pub fingerprint : String
  pub tenant_id : String
  pub owner_id : String
  pub name : String
  pub created_at : ℕ
  pub revoked : Bool
  pub capabilities : List String
  pub session_id : String

pub record Db : Type 0 where
  pub items : List Row
  pub derived : List Derived
  pub audit : List Decision
  -- the AUTOINCREMENT counter of audit_decisions
  pub audit_seq : ℕ
  pub api_keys : List KeyRow

abbrev pub empty : Db
empty = record { items = []; derived = []; audit = []; audit_seq = 0; api_keys = [] }

abbrev pub epoch : Option Timestamp → Timestamp
epoch none = record { seconds = 0; nanos = 0 }
epoch (some t) = t

-- `json.dumps(list(item.embedding)) if item.embedding else None`
abbrev pub embedding_column : List ℕ → Option (List ℕ)
embedding_column [] = none
embedding_column (x ∷ xs) = some (x ∷ xs)

abbrev pub embedding_field : Option (List ℕ) → List ℕ
embedding_field none = []
embedding_field (some xs) = xs

-- The values that `save` writes.
unfoldable pub row_of : ContextItem → Option String → Row
row_of item subtask_id = record {
  id = item.id;
  tier = item.tier;
  content = item.content;
  scope = item.scope;
  provenance = item.provenance;
  created = epoch item.created_at;
  expires = item.expires_at;
  embedding = embedding_column item.embedding;
  subtask_id = subtask_id;
  tenant_id = normalize_tenant (some item.tenant_id);
  owner_id = item.owner_id;
  session_id = item.session_id;
}

-- The item that a row stands for.
unfoldable pub item_of : Row → ContextItem
item_of r = record {
  id = r.id;
  tier = r.tier;
  content = r.content;
  scope = r.scope;
  provenance = r.provenance;
  created_at = some r.created;
  expires_at = r.expires;
  embedding = embedding_field r.embedding;
  tenant_id = normalize_tenant (some r.tenant_id);
  owner_id = r.owner_id;
  session_id = r.session_id;
}

-- `_row_to_item`: a tier or scope with no name raises.
unfoldable pub row_to_item : Row → Result ContextItem
unfolding item_of
row_to_item r = do _ ← tier_name r.tier; _ ← scope_name r.scope; ok (item_of r)

-- The primary key test.
abbrev pub has_key : String → String → Row → Bool
has_key tenant id r = r.tenant_id == tenant && r.id == id
