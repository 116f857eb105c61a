-- ===== src/Rest/Handlers.antt =====
-- Each handler of the REST gateway changes its principal's own tenant only.
use trilith.Prelude.{ℕ, String, Bool, true, false, List, [], ◌∷◌, Option, none, some}
use trilith.Python.{Python}
use trilith.Floats.{Floats}
use trilith.Identity.{Principal}
use trilith.Runtime.{Runtime, Action, ◌>>◌, value, sees, reads}
use trilith.Runtime.Keeps.{Keeps}
use trilith.Ops.{write_item, update_item}
use trilith.Ops.Removal.{delete_item, forget_scope}
use trilith.Ops.Steps.{IsNormal, Owns, Steps, and_then, reads-Holds, value-Holds, return-Holds}
use trilith.Ops.Steps.Writing.{write_item-Holds, update_item-Holds}
use trilith.Ops.Steps.Removal.{delete_item-Holds, forget_scope-Holds}
use trilith.Ops.Steps.Reading.{assemble_context-Holds}
use trilith.Ops.Steps.Folding.{fold_subtask-Holds}
use trilith.Ops.Session.{Confined-steps}
use trilith.Ops.Assemble.{assemble_context}
use trilith.Database.Backend as Backend
use trilith.Database.Backend.{StoredItem}
use trilith.Database.Search.{search}
use trilith.Fold.{fold_subtask}
use trilith.Rest.{Web, tiers, require_admin, apply_ttl, parse_tier, parse_scope}
use trilith.Rest.Views as Views
use trilith.Rest.Views.{as_admin, Browse}
use trilith.Rest.Items as Items
use trilith.Rest.Items.{Edit, ItemPatch}
use trilith.Rest.Pipeline as Pipeline
use trilith.Ops.Confinement.{OwnOnly, link-Confined}

module _ (fl : Floats) (py : Python) (web : Web fl) (now : ℕ) where
  module _ (p : Principal) (normal : IsNormal (some p)) where
    pub own : Steps py now (some p) (OwnOnly p)
    own = Confined-steps py now p normal

    pub write-Own :
        (body : Items.WriteBody) → Keeps (OwnOnly p) (Items.write_as fl py web now body p)
    write-Own body = and_then own (value (parse_tier py body.tier)) _ (value-Holds own _) (λ tier.
        and_then own (value (parse_scope py body.scope)) _ (value-Holds own _) (λ scope.
          and_then own (value (apply_ttl fl py web now _ body.ttl_seconds)) _ (value-Holds own _)
            (λ item.
              and_then own (write_item py now item (some p) _) _
                (write_item-Holds py now (some p) normal (OwnOnly p) own item _)
                (λ ack.
                  and_then own (value (Items.accepted fl py web now ack)) _ (value-Holds own _)
                    (λ _. return-Holds own _)))))

    pub remove-Own : (id : String) → Keeps (OwnOnly p) (Items.remove_as fl py web now id p)
    remove-Own id =
        and_then own (delete_item py now id (some p)) (Items.removed fl py web now id p)
          (delete_item-Holds py now (some p) normal (OwnOnly p) own id) removed-Own
      where
        removed-Own : (b : Bool) → Keeps (OwnOnly p) (Items.removed fl py web now id p b)
        removed-Own true = return-Holds own _
        removed-Own false = value-Holds own _

    pub store_edit-Own :
        (id : String) (e : Edit) → Keeps (OwnOnly p) (Items.store_edit fl py web now id p e)
    store_edit-Own id e =
        and_then own (update_item py now e.item (some p) e.subtask_id e.changed) _
          (update_item-Holds py now (some p) normal (OwnOnly p) own e.item e.subtask_id e.changed)
          (λ ack.
            and_then own (value (Items.accepted fl py web now ack)) _ (value-Holds own _) (λ _.
              and_then own (reads (Backend.stored id (some p.tenant_id))) _ (reads-Holds own _)
                (λ refreshed.
                  and_then own (value (Items.payload_of fl py web now p refreshed)) _
                    (value-Holds own _) (λ item. return-Holds own _))))

    pub apply_edit-Own :
        (id : String) (e : Edit) (fields : List String)
        → Keeps (OwnOnly p) (Items.apply_edit fl py web now id p e fields)
    apply_edit-Own id e [] = return-Holds own _
    apply_edit-Own id e (field ∷ fields) = store_edit-Own id e

    pub patch_found-Own :
        (id : String) (body : ItemPatch) (found : Option StoredItem)
        → Keeps (OwnOnly p) (Items.patch_found fl py web now id body p found)
    patch_found-Own id body none = value-Holds own _
    patch_found-Own id body (some stored) =
        and_then own (value (Items.merge fl py web now body stored)) _ (value-Holds own _)
          (λ e. apply_edit-Own id e e.changed)

    pub patch-Own :
        (id : String) (body : ItemPatch)
        → Keeps (OwnOnly p) (Items.patch_as fl py web now id body p)
    patch-Own id body =
        and_then own (reads (Backend.stored id (some p.tenant_id))) _ (reads-Holds own _)
          (λ found. patch_found-Own id body found)

    pub assemble-Own :
        (body : Pipeline.AssembleBody)
        → Keeps (OwnOnly p) (Pipeline.assemble_as fl py web now body p)
    assemble-Own body =
        and_then own
          (assemble_context fl py now web.governor body.task (Pipeline.budget_of body.budget)
            (some p))
          _
          (assemble_context-Holds fl own own web.governor body.task
            (Pipeline.budget_of body.budget))
          (λ context. value-Holds own _)

    pub forget-Own : (scope : String) → Keeps (OwnOnly p) (Pipeline.forget_as fl py web now scope p)
    forget-Own scope =
        and_then own (forget_scope py now scope (some p)) _
          (forget_scope-Holds py now (some p) normal (OwnOnly p) own scope)
          (λ count. return-Holds own _)

    pub fold-Own :
        (subtask_id : String) → Keeps (OwnOnly p) (Pipeline.fold_as fl py web now subtask_id p)
    fold-Own subtask_id =
        and_then own (fold_subtask py now subtask_id (some p)) _
          (fold_subtask-Holds normal own (λ e db o. link-Confined (Owns (some p)) e db) subtask_id)
          (λ done. return-Holds own _)

    pub sees-Own : {A : Type 0} (f : Runtime → A) → Keeps (OwnOnly p) (sees f)
    sees-Own f = record { related = λ rt. own.same rt.db }

    pub dashboard-Own : (limit : ℕ) → Keeps (OwnOnly p) (Views.dashboard_of fl py web limit p)
    dashboard-Own limit =
        and_then own (reads (Views.recent_of fl py web p.tenant_id limit tiers)) _
          (reads-Holds own _) (λ found. sees-Own (Views.board fl py web p limit found))

    pub list_items-Own :
        (browse : Browse) → Keeps (OwnOnly p) (Views.items_of fl py web now browse p)
    list_items-Own browse =
        and_then own (value (Views.selected_tiers py browse.tier)) _ (value-Holds own _)
          (λ selected.
            and_then own (value (Views.selected_scope py browse.scope)) _ (value-Holds own _)
              (λ scope.
                and_then own
                  (reads
                    (search py web.like (Views.search_of fl py web now p browse selected scope)))
                  _ (reads-Holds own _)
                  (λ found. value-Holds own (Views.page_payload fl py web now p browse found))))

    pub get_item-Own : (id : String) → Keeps (OwnOnly p) (Views.item_of_tenant fl py web now id p)
    get_item-Own id = and_then own (value (require_admin p)) _ (value-Holds own _) (λ _.
        and_then own (reads (Backend.stored id (some p.tenant_id))) _ (reads-Holds own _)
          (λ found. value-Holds own (Views.found_payload fl py web now id p found)))

    -- what follows the check for an administrator
    pub admin-Own :
        {A : Type 0} (m : Action A)
        → Keeps (OwnOnly p) m
        → Keeps (OwnOnly p) (value (require_admin p) >> m)
    admin-Own m h =
        and_then own (value (require_admin p)) (λ _. m) (value-Holds own (require_admin p)) (λ _. h)
