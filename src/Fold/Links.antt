-- ===== src/Fold/Links.antt =====
-- The edges that a fold inserts, and the earliest expiry of its sources.
use package.text.Mathlib.TextEquality.{eq_iff}
use trilith.Prelude.{
  String, ◌≡◌, refl, sym, ◌∙◌, inl, inr, true, false, List, [], ◌∷◌, Option, none, some, Occurs,
  arith, Bool-cases, any, append-Occurs_left, append-Occurs_right, any-witness, and-true_parts,
  ◌==◌, string_eq,
}
use trilith.Proto.{ContextItem, Timestamp, scope_eq, time_lt}
use trilith.Database.{Db, Derived}
use trilith.Fold.{first_expiry, sooner, same_edge, link, link_all}

abbrev pub edge_of : String → String → ContextItem → Derived
edge_of tenant summary_id i = record {
  tenant_id = tenant;
  source_id = i.id;
  summary_id = summary_id;
}

same_edge-eq : (e d : Derived) → same_edge e d ≡ true → d ≡ e
same_edge-eq e d h =
    let (a, b) = and-true_parts (e.tenant_id == d.tenant_id) _ h in
    let (b, c) = and-true_parts (e.source_id == d.source_id) (e.summary_id == d.summary_id) b in
    let t = (eq_iff e.tenant_id d.tenant_id).0 a in
    let s = (eq_iff e.source_id d.source_id).0 b in
    let m = (eq_iff e.summary_id d.summary_id).0 c in
    sym (λ i. record { tenant_id = t i; source_id = s i; summary_id = m i })

link-Occurs : (e : Derived) (db : Db) → Occurs e (link e db).derived
link-Occurs e db = elim (Bool-cases (any (same_edge e) db.derived)) [
  | inl h ↦
      rw h
        (let (d, o, k) = any-witness (same_edge e) db.derived h in rw (sym (same_edge-eq e d k)) o)
  | inr h ↦ rw h (append-Occurs_right db.derived (e ∷ []) e (inl refl))
]

link_kept : (e d : Derived) (db : Db) → Occurs d db.derived → Occurs d (link e db).derived
link_kept e d db o = elim (Bool-cases (any (same_edge e) db.derived)) [
  | inl h ↦ rw h o
  | inr h ↦ rw h (append-Occurs_left db.derived (e ∷ []) d o)
]

pub link_items : (e : Derived) (db : Db) → (link e db).items ≡ db.items
link_items e db = ground arith

pub link_all-items :
    (tenant id : String) (items : List ContextItem) (db : Db)
    → (link_all tenant id items db).items ≡ db.items
unfolding link_all
link_all-items tenant id [] db = refl
link_all-items tenant id (i ∷ items) db =
    link_all-items tenant id items (link (edge_of tenant id i) db)
    ∙ link_items (edge_of tenant id i) db

link_all_kept :
    (tenant id : String) (items : List ContextItem) (db : Db) (d : Derived)
    → Occurs d db.derived
    → Occurs d (link_all tenant id items db).derived
unfolding link_all
link_all_kept tenant id [] db d o = o
link_all_kept tenant id (i ∷ items) db d o =
    link_all_kept tenant id items (link (edge_of tenant id i) db) d
      (link_kept (edge_of tenant id i) d db o)

pub link_all-Occurs :
    (tenant id : String) (items : List ContextItem) (db : Db) (i : ContextItem)
    → Occurs i items
    → Occurs (edge_of tenant id i) (link_all tenant id items db).derived
unfolding link_all
link_all-Occurs tenant id [] db i o = absurd o
link_all-Occurs tenant id (j ∷ items) db i (inl q) = rw q (
    link_all_kept tenant id items (link (edge_of tenant id j) db) (edge_of tenant id j)
      (link-Occurs (edge_of tenant id j) db))
link_all-Occurs tenant id (j ∷ items) db i (inr o) =
    link_all-Occurs tenant id items (link (edge_of tenant id j) db) i o

-- `u` is not after `t`.
abbrev pub NotAfter : Timestamp → Option Timestamp → Type 0
NotAfter t none = ⊥
NotAfter t (some u) = time_lt t u ≡ false

time_irrefl : (t : Timestamp) → time_lt t t ≡ false
time_irrefl t = ground arith

time_asym : (t u : Timestamp) → time_lt t u ≡ true → time_lt u t ≡ false
time_asym t u h = ground arith

time_cotrans : (t u v : Timestamp) → time_lt t u ≡ false → time_lt u v ≡ false → time_lt t v ≡ false
time_cotrans t u v h k = ground arith

sooner_left : (t : Timestamp) (rest : Option Timestamp) → NotAfter t (sooner (some t) rest)
sooner_left t none = time_irrefl t
sooner_left t (some u) = elim (Bool-cases (time_lt u t)) [
  | inl h ↦ rw h (time_asym u t h)
  | inr h ↦ rw h (time_irrefl t)
]

sooner_right :
    (t : Timestamp) (a rest : Option Timestamp) → NotAfter t rest → NotAfter t (sooner a rest)
sooner_right t none rest h = h
sooner_right t (some u) none h = absurd h
sooner_right t (some u) (some v) h = elim (Bool-cases (time_lt v u)) [
  | inl k ↦ rw k h
  | inr k ↦ rw k (time_cotrans t v u h k)
]

pub first_expiry-NotAfter :
    (items : List ContextItem) (i : ContextItem) (t : Timestamp)
    → Occurs i items
    → i.expires_at ≡ some t
    → NotAfter t (first_expiry items)
unfolding first_expiry
first_expiry-NotAfter [] i t o e = absurd o
first_expiry-NotAfter (j ∷ items) i t (inl q) e = rw (← q, e) (sooner_left t (first_expiry items))
first_expiry-NotAfter (j ∷ items) i t (inr o) e =
    sooner_right t j.expires_at (first_expiry items) (first_expiry-NotAfter items i t o e)
