-- ===== src/Api/Status.antt =====
-- The answers of internal/api/api.go: gRPC codes, and how errors and states of the storage engine
-- map onto them. The messages of a status are left out.
use beanstore.Base.{String, Option, none, some, if◌then◌else◌}
pub use beanstore.Codes.{
  Code, canceled, unknown_code, invalid_argument, deadline_exceeded, missing, already_exists,
  permission_denied, resource_exhausted, failed_precondition, aborted, out_of_range, unimplemented,
  internal, unavailable, data_loss, unauthenticated,
}
use beanstore.Lvm.Errors.{LvmError, is_kind}
use beanstore.Lvm.Errors
use beanstore.Storage.State.{
  State, creating, ready, attached, pushing, committing, incoming, retired, deleting, snapshot,
  rollback, unknown, state_text,
}
use beanstore.Storage.Errors.{
  Error, lvm_failed, not_found, wrong_state, shrink, has_snapshots, export_in_progress,
  wrong_lineage, transfer_limit, transfer_used, transfer_unknown, transfer_busy, digest_mismatch,
  bad_frame,
}

-- VolumeState of the protocol.
pub data VolumeState : Type 0 where
  state_unspecified state_creating state_ready state_attached state_pushing : VolumeState
  state_committing state_incoming state_retired state_deleting : VolumeState
  state_snapshot state_rollback : VolumeState

pub VolumeState-discrete : Discrete VolumeState
VolumeState-discrete = hlevel

-- The WrongState detail is the volume and the state that was found.
pub record Status : Type 0 where
  pub code : Code
  pub detail : Option (String × VolumeState)

abbrev pub answer_code : Code → Status
answer_code c = record { code = c; detail = none }

pub proto_state : State → VolumeState
proto_state creating = state_creating
proto_state ready = state_ready
proto_state attached = state_attached
proto_state pushing = state_pushing
proto_state committing = state_committing
proto_state incoming = state_incoming
proto_state retired = state_retired
proto_state deleting = state_deleting
proto_state snapshot = state_snapshot
proto_state rollback = state_rollback
proto_state unknown = state_unspecified

pub state_name : State → String
state_name unknown = "unknown"
state_name s = state_text s

-- The cases of volumeError on an error of lvm.
unfoldable pub lvm_error : LvmError → Status
lvm_error e =
    if is_kind e Errors.in_use
    then answer_code failed_precondition
    else if is_kind e Errors.not_found
    then answer_code missing
    else if is_kind e Errors.already_exists
    then answer_code already_exists
    else answer_code internal

-- volumeError
unfoldable pub volume_error : Error → Status
unfolding proto_state
volume_error (not_found id) = answer_code missing
volume_error (shrink id old new) = answer_code failed_precondition
volume_error (has_snapshots id) = answer_code failed_precondition
volume_error (export_in_progress id) = answer_code aborted
volume_error (wrong_state id found) = record {
  code = failed_precondition;
  detail = some (id, proto_state found);
}
volume_error (wrong_lineage id origin) = answer_code failed_precondition
volume_error (lvm_failed e) = lvm_error e
volume_error _ = answer_code internal

-- transferError
unfoldable pub transfer_error : Error → Status
transfer_error (transfer_limit n) = answer_code resource_exhausted
transfer_error (transfer_used id) = answer_code already_exists
transfer_error (transfer_unknown id) = answer_code missing
transfer_error (transfer_busy id) = answer_code aborted
transfer_error bad_frame = answer_code invalid_argument
transfer_error (digest_mismatch id) = answer_code data_loss
transfer_error _ = answer_code internal
