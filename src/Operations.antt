-- ===== src/Operations.antt =====
-- internal/operations/table.go: the table of long-running operations by their caller minted ids.
-- A method runs under the table's mutex, so it is one step on the map.
pub mod Phases
pub mod Endings
use beanstore.Base.{ℕ, String, Option, none, some, []}
use beanstore.Base.Exec.{Result, ok, err}
use beanstore.Base.StringMap.{StringMap, lookup, insert}

pub data Phase : Type 0 where
  pending progressing done failed : Phase

pub record Operation : Type 0 where
  pub phase : Phase
  pub bytes_done : ℕ
  pub reason : String

-- The values that the methods store; a field that a Go literal leaves out is zero.
abbrev pub pending_op : Operation
pending_op = record { phase = pending; bytes_done = 0; reason = "" }

abbrev pub progressing_at : ℕ → Operation
progressing_at n = record { phase = progressing; bytes_done = n; reason = "" }

abbrev pub done_op : Operation
done_op = record { phase = done; bytes_done = 0; reason = "" }

abbrev pub failed_with : String → Operation
failed_with why = record { phase = failed; bytes_done = 0; reason = why }

pub record Table : Type 0 where
  pub ops : StringMap Operation

abbrev pub new_table : Table
new_table = record { ops = [] }

-- Ids are single use: reuse is an error, and the table stays as it was.
unfoldable pub begin : String → Table → Result Unit Unit × Table
begin id t = elim (lookup id t.ops) [
  | some _ ↦ (err tt, t)
  | none ↦ (ok tt, record { ops = insert id pending_op t.ops })
]

-- `if _, exists := t.ops[id]; exists { t.ops[id] = op }`, which the next three share.
pub replace : String → Operation → Table → Table
replace id op t = elim (lookup id t.ops) [ none ↦ t | some _ ↦ record { ops = insert id op t.ops } ]

pub progress : String → ℕ → Table → Table
unfolding replace
progress id n = replace id (progressing_at n)

pub mark_done : String → Table → Table
unfolding replace
mark_done id = replace id done_op

pub mark_failed : String → String → Table → Table
unfolding replace
mark_failed id why = replace id (failed_with why)

pub get : String → Table → Option Operation
get id t = lookup id t.ops
