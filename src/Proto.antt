-- ===== src/Proto.antt =====
-- The messages of proto/trilith.proto that the program passes around, as core/proto gives them to
-- Python: enum values are open integers with names, and a message field may be unset.
use trilith.Prelude.{
  ℕ, ◌+◌, String, ◌≡◌, ◌↔◌, List, [], Option, none, Bool, true, arith, Eq, ◌==◌, nat_eq, string_eq,
  if◌then◌else◌, ltb, ◌||◌, ◌&&◌,
}
use trilith.Exec.{Result, ok, err, value_error}

pub data Tier : Type 0 where
  tier_unspecified semantic procedural episodic : Tier
  other : ℕ → Tier

pub data Scope : Type 0 where
  scope_unspecified user tenant session global : Scope
  other : ℕ → Scope

-- `int(tier)`
abbrev pub tier_number : Tier → ℕ
tier_number tier_unspecified = 0
tier_number semantic = 1
tier_number procedural = 2
tier_number episodic = 3
tier_number (Tier.other n) = n + 4

-- `int(scope)`
abbrev pub scope_number : Scope → ℕ
scope_number scope_unspecified = 0
scope_number user = 1
scope_number tenant = 2
scope_number session = 3
scope_number global = 4
scope_number (Scope.other n) = n + 5

pub tier_beq_iff : (a b : Tier) → ((tier_number a == tier_number b) ≡ true) ↔ (a ≡ b)
tier_beq_iff a b = ground arith

pub scope_beq_iff : (a b : Scope) → ((scope_number a == scope_number b) ≡ true) ↔ (a ≡ b)
scope_beq_iff a b = ground arith

instance abbrev pub tier_eq : Eq Tier
tier_eq = record { beq = λ a b. tier_number a == tier_number b; beq_iff = tier_beq_iff }

instance abbrev pub scope_eq : Eq Scope
scope_eq = record { beq = λ a b. scope_number a == scope_number b; beq_iff = scope_beq_iff }

-- `Tier.Name(tier)`
unfoldable pub tier_name : Tier → Result String
tier_name tier_unspecified = ok "TIER_UNSPECIFIED"
tier_name semantic = ok "SEMANTIC"
tier_name procedural = ok "PROCEDURAL"
tier_name episodic = ok "EPISODIC"
tier_name (Tier.other n) = err (value_error "no name for the Tier value")

-- `Scope.Name(scope)`
unfoldable pub scope_name : Scope → Result String
scope_name scope_unspecified = ok "SCOPE_UNSPECIFIED"
scope_name user = ok "USER"
scope_name tenant = ok "TENANT"
scope_name session = ok "SESSION"
scope_name global = ok "GLOBAL"
scope_name (Scope.other n) = err (value_error "no name for the Scope value")

-- `Tier.Value(name)`
unfoldable pub tier_value : String → Result Tier
tier_value name =
    if name == "TIER_UNSPECIFIED"
    then ok tier_unspecified
    else if name == "SEMANTIC"
    then ok semantic
    else if name == "PROCEDURAL"
    then ok procedural
    else if name == "EPISODIC"
    then ok episodic
    else err (value_error "no Tier value of the name")

-- `Scope.Value(name)`
unfoldable pub scope_value : String → Result Scope
scope_value name =
    if name == "SCOPE_UNSPECIFIED"
    then ok scope_unspecified
    else if name == "USER"
    then ok user
    else if name == "TENANT"
    then ok tenant
    else if name == "SESSION"
    then ok session
    else if name == "GLOBAL"
    then ok global
    else err (value_error "no Scope value of the name")

-- google.protobuf.Timestamp, from the epoch on.
pub record Timestamp : Type 0 where
  pub seconds : ℕ
  pub nanos : ℕ

-- `(a.seconds, a.nanos) < (b.seconds, b.nanos)`
abbrev pub time_lt : Timestamp → Timestamp → Bool
time_lt a b = ltb a.seconds b.seconds || (a.seconds == b.seconds && ltb a.nanos b.nanos)

-- The embedding is carried as the bit patterns of its floats.
pub record ContextItem : Type 0 where
  pub id : String
  pub tier : Tier
  pub content : String
  pub scope : Scope
  pub provenance : String
  pub created_at : Option Timestamp
  pub expires_at : Option Timestamp
  pub embedding : List ℕ
  pub tenant_id : String
  pub owner_id : String
  pub session_id : String

-- `ContextItem()`: every field at its default.
abbrev pub default_item : ContextItem
default_item = record {
  id = "";
  tier = tier_unspecified;
  content = "";
  scope = scope_unspecified;
  provenance = "";
  created_at = none;
  expires_at = none;
  embedding = [];
  tenant_id = "";
  owner_id = "";
  session_id = "";
}

-- `Principal` of the protocol.
pub record PrincipalPb : Type 0 where
  pub tenant_id : String
  pub owner_id : String
  pub session_id : String
  pub requester_scope : String

pub record WriteAck : Type 0 where
  pub success : Bool
  pub message : String

pub record ExcludedItem : Type 0 where
  pub item : ContextItem
  pub reason : String

pub record AssembledContext : Type 0 where
  pub items : List ContextItem
  pub tokens_used : ℕ
  pub excluded_items : List ExcludedItem
  pub candidates_truncated : ℕ
