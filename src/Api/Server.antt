-- ===== src/Api/Server.antt =====
-- volumeServiceServer of internal/api/api.go: the state that its handlers share, what the daemon
-- calls, and the steps on one part of the state. A call of another node is a call of `Peers`,
-- which is that node's code behind grpc.
use beanstore.Base.{ℕ, String, Bool, true, false, List}
use beanstore.Base.Exec.{ok, err, Exec}
use beanstore.Config.{Config}
use beanstore.Lvm.Interface.{Lvm}
use beanstore.Operations.{Table, begin, mark_done, mark_failed}
use beanstore.Storage.Errors.{Error}
use beanstore.Storage.Digest.{Bytes}
use beanstore.Storage.Reader.{Files, Frame}
use beanstore.Storage.Pins.{ExportPins}
use beanstore.Storage.Transfers.{Transfers}
use beanstore.Storage.Transfers.Handlers.{Node}
use beanstore.Api.Status.{Code, Status, internal, already_exists, answer_code, volume_error}
use beanstore.Api.Reservations.{NameReservations}

-- The methods of the client of TransferService at a target; an error is its code. Receive opens
-- the stream that the next three use.
pub record Peers (W : Type 0) : Type 0 where
  pub dial : String → Exec W String Unit
  pub query_transfer : String → String → Exec W Code ℕ
  pub receive : String → Exec W Code Unit
  pub send_header : String → String → Exec W Code Unit
  pub send_frame : String → Frame → Exec W Code Unit
  pub close_and_recv : String → Exec W Code Unit
  pub commit_transfer : String → String → Bytes → Exec W Code Unit
  pub abort_transfer : String → String → Exec W Code Unit
  pub query_volume : String → String → Exec W Code Bool

-- Why a long-running operation failed.
pub data Cause : Type 0 where
  stored : Error → Cause
  answered : Code → Cause
  not_dialed : String → Cause
  name_taken never_committed : Cause
  outcome_unknown : Cause → Cause

-- `text` is `err.Error()`, which is kept as the reason of a failed operation.
pub record Daemon (W : Type 0) : Type 0 where
  pub lvm : Lvm W
  pub cfg : Config
  pub files : Files W
  pub sha256 : Bytes → Bytes
  pub peers : Peers W
  pub text : Cause → String

pub record Server (W : Type 0) : Type 0 where
  pub ops : Table
  pub pins : ExportPins
  pub reserved : NameReservations
  pub transfers : Transfers
  pub world : W

-- The error of a call, mapped.
unfoldable pub map_error : {S E F A : Type 0} → (E → F) → Exec S E A → Exec S F A
map_error f m s = elim (m s).0 [ ok a ↦ (ok a, (m s).1) | err e ↦ (err (f e), (m s).1) ]

unfoldable pub require : {S : Type 0} → Bool → Code → Exec S Status Unit
require true code s = (ok tt, s)
require false code s = (err (answer_code code), s)

-- A call that changes the world only.
unfoldable pub inside : {W E A : Type 0} → Exec W E A → Exec (Server W) E A
inside m s = ((m s.world).0, record s { world = (m s.world).1 })

-- A call of the table of transfers.
unfoldable pub on_node : {W E A : Type 0} → Exec (Node W) E A → Exec (Server W) E A
on_node m s =
    let r = m (record { table = s.transfers; world = s.world }) in
    (r.0, record s { transfers = r.1.table; world = r.1.world })

-- `err` is answered by volumeError.
unfoldable pub or_volume_error : {W A : Type 0} → Exec W Error A → Exec (Server W) Status A
or_volume_error m = map_error volume_error (inside m)

-- `err` is answered by codes.Internal.
unfoldable pub or_internal : {W A : Type 0} → Exec W Error A → Exec (Server W) Status A
or_internal m = map_error (λ _. answer_code internal) (inside m)

unfoldable pub update_ops : {W : Type 0} → (Table → Table) → Server W → Server W
update_ops f s = record s { ops = f s.ops }

-- `s.ops.Begin(…)` and the answer where the id is used.
unfoldable pub begin_operation : {W : Type 0} → String → Exec (Server W) Status Unit
begin_operation op s = elim (begin op s.ops).0 [
  | ok _ ↦ (ok tt, update_ops (λ t. (begin op t).1) s)
  | err _ ↦ (err (answer_code already_exists), s)
]

module _ {W : Type 0} (d : Daemon W) where
  unfoldable pub fail_operation : String → Cause → Server W → Server W
  fail_operation op cause = update_ops (mark_failed op (d.text cause))

  -- `s.ops.Fail(…)` before the answer of a call's error.
  unfoldable pub or_fail :
      {A : Type 0} → String → Exec (Server W) Error A → Exec (Server W) Status A
  or_fail op m s = elim (m s).0 [
    | ok a ↦ (ok a, (m s).1)
    | err e ↦ (err (volume_error e), fail_operation op (stored e) (m s).1)
  ]

  -- The end of a background task: `s.ops.Fail(…)` or `s.ops.Done(…)`.
  unfoldable pub settle : String → Exec (Server W) Error Unit → Server W → Server W
  settle op m s = elim (m s).0 [
    | ok _ ↦ update_ops (mark_done op) (m s).1
    | err e ↦ fail_operation op (stored e) (m s).1
  ]

-- What a handler starts by `go`: it runs after the answer.
pub data Job : Type 0 where
  creates : String → ℕ → String → Job
  deletes : String → List String → String → Job
  pushes : String → String → String → String → Job
  copies : String → String → String → ℕ → Job
  pushes_snapshot : String → String → String → String → Job
