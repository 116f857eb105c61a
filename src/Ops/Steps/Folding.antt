-- ===== src/Ops/Steps/Folding.antt =====
-- What holds of every statement, the insertion of edges included, holds of `fold_subtask`.
use trilith.Prelude.{ℕ, String, refl, false, List, [], ◌∷◌, Option, none, some, filter, length}
use trilith.Prelude.Sort.{sort_by}
use trilith.Python.{Python}
use trilith.Proto.{ContextItem, procedural}
use trilith.Identity.{Principal}
use trilith.Database.{Db, Derived}
use trilith.Database.Backend as Backend
use trilith.Runtime.{reads, value, changes}
use trilith.Runtime.Keeps.{Keeps, atomic_operation-Keeps}
use trilith.Ops.Steps.{IsNormal, Owns, Steps, and_then, reads-Holds, value-Holds, return-Holds}
use trilith.Fold.{
  foldable, fold_guard, earlier, summary_of, link, link_all, summarise, fold_items, fold,
  announce_fold, folded, fold_subtask,
}

module _ {py : Python} {now : ℕ} {p : Principal} (normal : IsNormal (some p)) {R : Db → Db → Type 0}
    (steps : Steps py now (some p) R)
    (links : (e : Derived) (db : Db) → Owns (some p) e.tenant_id → R db (link e db)) where
  link_all-related :
      (summary_id : String) (items : List ContextItem) (db : Db)
      → R db (link_all p.tenant_id summary_id items db)
  unfolding link_all
  link_all-related summary_id [] db = steps.same db
  link_all-related summary_id (i ∷ items) db =
      steps.both db _ _
        (links (record { tenant_id = p.tenant_id; source_id = i.id; summary_id = summary_id }) db
          refl)
        (link_all-related summary_id items _)

  summarise-Holds :
      (subtask_id : String) (items : List ContextItem)
      → Keeps R (summarise py now p subtask_id items)
  unfolding summary_of
  summarise-Holds subtask_id [] = return-Holds steps none
  summarise-Holds subtask_id (first ∷ rest) =
      let summary = summary_of py now p subtask_id first (first ∷ rest) in
      and_then steps (changes (Backend.save summary none)) _
        (record { related = λ rt. steps.saves summary none rt.db normal })
        (λ _.
          and_then steps (changes (link_all p.tenant_id summary.id (first ∷ rest))) _
            (record { related = λ rt. link_all-related summary.id (first ∷ rest) rt.db })
            (λ _. return-Holds steps (some summary)))

  fold_items-Holds :
      (subtask_id : String) (items : List ContextItem)
      → Keeps R (fold_items py now p subtask_id items)
  fold_items-Holds subtask_id [] = return-Holds steps none
  fold_items-Holds subtask_id (first ∷ rest) =
      and_then steps (value (fold_guard p first (first ∷ rest))) _ (value-Holds steps _)
        (λ _. summarise-Holds subtask_id (sort_by earlier (first ∷ rest)))

  fold-Holds : (subtask_id : String) → Keeps R (fold py now subtask_id p)
  unfolding fold
  fold-Holds subtask_id = atomic_operation-Keeps R steps.same steps.both _ (
      and_then steps
        (reads (Backend.query procedural none (some subtask_id) (some p.tenant_id) false none)) _
        (reads-Holds steps _)
        (λ items. fold_items-Holds subtask_id (filter (foldable py now p) items)))

  announced :
      (subtask_id : String) (count : ℕ) (summary : Option ContextItem)
      → Keeps R (announce_fold now subtask_id (some p) count summary)
  unfolding announce_fold
  announced subtask_id count summary = record { related = λ rt. steps.same rt.db }

  folded-Holds :
      (subtask_id : String) (items : List ContextItem)
      → Keeps R (folded py now subtask_id (some p) items)
  folded-Holds subtask_id [] = return-Holds steps (none, 0)
  folded-Holds subtask_id (i ∷ items) =
      and_then steps (fold py now subtask_id p) _ (fold-Holds subtask_id)
        (λ summary. announced subtask_id (length (i ∷ items)) summary)

  pub fold_subtask-Holds : (subtask_id : String) → Keeps R (fold_subtask py now subtask_id (some p))
  unfolding fold_subtask
  fold_subtask-Holds subtask_id = atomic_operation-Keeps R steps.same steps.both _ (
      and_then steps
        (reads (Backend.query procedural none (some subtask_id) (some p.tenant_id) false none)) _
        (reads-Holds steps _)
        (λ before. folded-Holds subtask_id (filter (foldable py now p) before)))
