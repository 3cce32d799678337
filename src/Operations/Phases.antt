-- ===== src/Operations/Phases.antt =====
-- The life of an operation in internal/operations/table.go.
use beanstore.Base.{
  ℕ, ◌≡◌, ◌≢◌, String, none, some, List, [], ◌∷◌, arith, str_eq, eq_iff, eq_refl, if◌then◌else◌,
}
use mathlib.Core.Option
use beanstore.Base.Exec.{ok, err}
use beanstore.Base.StringMap.{lookup-insert}
use beanstore.Operations.{
  Table, Operation, begin, pending_op, progressing_at, done_op, failed_with, replace, progress,
  mark_done, mark_failed, get,
}

-- The calls that change a table.
pub data Call : Type 0 where
  begins : String → Call
  progresses : String → ℕ → Call
  finishes : String → Call
  aborts : String → String → Call

pub step : Call → Table → Table
step (begins id) t = (begin id t).1
step (progresses id n) t = progress id n t
step (finishes id) t = mark_done id t
step (aborts id why) t = mark_failed id why t

unfoldable pub run : List Call → Table → Table
run [] t = t
run (c ∷ cs) t = run cs (step c t)

abbrev pub Known : String → Table → Type 0
Known id t = get id t ≢ none

pub step-Known : (c : Call) (id : String) (t : Table) → Known id t → Known id (step c t)
unfolding step begin progress mark_done mark_failed get
step-Known (begins j) id t h = ground (arith, lookup-insert j id pending_op t.ops)
step-Known (progresses j n) id t h = ground (arith, lookup-insert j id (progressing_at n) t.ops)
step-Known (finishes j) id t h = ground (arith, lookup-insert j id done_op t.ops)
step-Known (aborts j why) id t h = ground (arith, lookup-insert j id (failed_with why) t.ops)

pub progress-Known : (id : String) (n : ℕ) (t : Table) → Known id t → Known id (progress id n t)
unfolding step
progress-Known id n t h = step-Known (progresses id n) id t h

pub run-Known : (cs : List Call) (id : String) (t : Table) → Known id t → Known id (run cs t)
unfolding run
run-Known [] id t h = h
run-Known (c ∷ cs) id t h = run-Known cs id (step c t) (step-Known c id t h)

pub begin-fresh : (id : String) (t : Table) → (begin id t).0 ≡ ok tt → get id t ≡ none
unfolding begin get
begin-fresh id t h = ground arith

begin-used : (id : String) (t : Table) → Known id t → begin id t ≡ (err tt, t)
unfolding begin get
begin-used id t h = ground arith

pub begin-Known : (id : String) (t : Table) → Known id (begin id t).1
unfolding begin get
begin-Known id t h = ground (arith, eq_refl id, lookup-insert id id pending_op t.ops)

-- A beginning that is accepted: the id was new, and is pending.
pub begun :
    (id : String) (t : Table) (u : Unit)
    → (begin id t).0 ≡ ok u
    → (get id t ≡ none) × (get id (begin id t).1 ≡ some pending_op)
unfolding begin get
begun id t u h = ground (arith, eq_refl id, lookup-insert id id pending_op t.ops)

-- Once an id was begun, no later calls make it usable again: after any calls `cs`, a second
-- `begin` of it is refused and leaves the table as it is.
pub begin_once :
    (id : String) (t : Table) (cs : List Call)
    → begin id (run cs (begin id t).1) ≡ (err tt, run cs (begin id t).1)
begin_once id t cs = begin-used id _ (run-Known cs id _ (begin-Known id t))

pub get-replace :
    (id j : String) (op : Operation) (t : Table)
    → get j (replace id op t) ≡ (if str_eq id j then Option.map (λ _. op) (get j t) else get j t)
unfolding replace get
get-replace id j op t = ground (arith, eq_iff id j, lookup-insert id j op t.ops)

-- Recording progress, success or failure under an id overwrites the entry of that id where there
-- is one, and changes nothing where the id was never begun; all other entries stay.
pub replaces_entry :
    (id j : String) (n : ℕ) (why : String) (t : Table)
    → (get j (progress id n t)
        ≡ (if str_eq id j then Option.map (λ _. progressing_at n) (get j t) else get j t))
      × (get j (mark_done id t)
          ≡ (if str_eq id j then Option.map (λ _. done_op) (get j t) else get j t))
      × (get j (mark_failed id why t)
          ≡ (if str_eq id j then Option.map (λ _. failed_with why) (get j t) else get j t))
unfolding progress mark_done mark_failed
replaces_entry id j n why t = (
  get-replace id j (progressing_at n) t,
  get-replace id j done_op t,
  get-replace id j (failed_with why) t,
)
