-- ===== src/Identity/Stamp.antt =====
-- Tenant normalisation, the constructor and stamping.
use trilith.Prelude.{
  String, ◌≡◌, refl, Bool, false, List, [], Option, some, strip, strip_idem, or_text, is_empty,
}
use trilith.Identity.{
  text_or_empty, default_tenant, normalize_tenant, new_principal, from_pb, to_pb,
}

or_text-nonempty : (s t : String) → is_empty t ≡ false → is_empty (or_text s t) ≡ false
or_text-nonempty String.[] t h = h
or_text-nonempty (String.◌∷◌ c s) t h = refl

or_text_default : (s t : String) → is_empty s ≡ false → or_text s t ≡ s
or_text_default String.[] t h = cc
or_text_default (String.◌∷◌ c s) t h = refl

strip-or_text : (s t : String) → strip s ≡ s → strip t ≡ t → strip (or_text s t) ≡ or_text s t
strip-or_text String.[] t h k = k
strip-or_text (String.◌∷◌ c s) t h k = h

strip-default_tenant : strip default_tenant ≡ default_tenant
unfolding strip
strip-default_tenant = refl

pub normalize_tenant-nonempty : (t : Option String) → is_empty (normalize_tenant t) ≡ false
unfolding normalize_tenant
normalize_tenant-nonempty t = or_text-nonempty (strip (text_or_empty t)) default_tenant refl

strip-normalize_tenant : (t : Option String) → strip (normalize_tenant t) ≡ normalize_tenant t
unfolding normalize_tenant
strip-normalize_tenant t =
    strip-or_text (strip (text_or_empty t)) default_tenant (strip_idem (text_or_empty t))
      strip-default_tenant

-- What is normalised stays as it is: a stored tenant and a principal's tenant are read back alike.
pub normalize_tenant_idem :
    (t : Option String) → normalize_tenant (some (normalize_tenant t)) ≡ normalize_tenant t
normalize_tenant_idem t =
    unfold normalize_tenant in
    rw (strip-normalize_tenant t)
      (or_text_default (normalize_tenant t) default_tenant (normalize_tenant-nonempty t))

-- Every principal's tenant is a normalised one.
pub tenant-new_principal :
    (t o s l : String) (caps : List String) (auth : Bool)
    → let p = new_principal t o s l caps auth in normalize_tenant (some p.tenant_id) ≡ p.tenant_id
unfolding new_principal
tenant-new_principal t o s l caps auth = normalize_tenant_idem (some t)

or_text-empty : (s : String) → or_text s "" ≡ s
or_text-empty String.[] = refl
or_text-empty (String.◌∷◌ c s) = refl

-- A principal sent as a message and read back keeps its tenant, owner, session and legacy scope,
-- and arrives with no capability and unauthenticated.
pub from_pb-to_pb :
    (t o s l : String) (caps : List String) (auth : Bool)
    → from_pb (some (to_pb (new_principal t o s l caps auth))) "" ≡ new_principal t o s l [] false
unfolding from_pb to_pb new_principal
from_pb-to_pb t o s l caps auth = rw (
  normalize_tenant_idem (some t),
  or_text-empty (strip l),
  strip_idem o,
  strip_idem s,
  strip_idem l,
)
