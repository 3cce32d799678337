-- ===== src/Operations/Endings.antt =====
-- How an operation of internal/operations/table.go ends.
use beanstore.Base.{◌≡◌, ◌⊎◌, inl, inr, String, some, arith, eq_refl, Option-cases}
use beanstore.Operations.{
  Table, Operation, done_op, failed_with, replace, mark_done, mark_failed, get,
}
use beanstore.Operations.Phases.{Known, get-replace}

-- The operation is done, or it failed with a reason.
abbrev pub Ended : String → Table → Type 0
Ended id t = (get id t ≡ some done_op) ⊎ ((why : String) × (get id t ≡ some (failed_with why)))

replace-Known :
    (id : String) (op : Operation) (t : Table) → Known id t → get id (replace id op t) ≡ some op
replace-Known id op t h = elim (Option-cases (get id t)) [
  | inl missing ↦ absurd (h missing)
  | inr (old, e) ↦ ground (arith, get-replace id id op t, eq_refl id)
]

pub mark_done-Ended : (id : String) (t : Table) → Known id t → Ended id (mark_done id t)
unfolding mark_done
mark_done-Ended id t h = inl (replace-Known id done_op t h)

-- The operation failed with a reason.
abbrev pub Failed : String → Table → Type 0
Failed id t = (why : String) × (get id t ≡ some (failed_with why))

pub mark_failed-Failed :
    (id why : String) (t : Table) → Known id t → Failed id (mark_failed id why t)
unfolding mark_failed
mark_failed-Failed id why t h = (why, replace-Known id (failed_with why) t h)

pub mark_failed-Ended : (id why : String) (t : Table) → Known id t → Ended id (mark_failed id why t)
unfolding mark_failed
mark_failed-Ended id why t h = inr (why, replace-Known id (failed_with why) t h)
