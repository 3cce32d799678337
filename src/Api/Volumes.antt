-- ===== src/Api/Volumes.antt =====
-- The handlers of internal/api/api.go on volumes and snapshots. A handler that starts a
-- background task answers with the task, which runs later.
use beanstore.Base.{ℕ, ◌==◌, String, Bool, ◌||◌, not, List, [], ◌∷◌, ◌++◌, map, none, some, str_eq}
use beanstore.Base.Exec.{Result, ok, err, Exec, pure, ◌>>=◌, ◌>>◌}
use beanstore.Operations.{Operation, get, Table, pending, progressing, done, failed}
use beanstore.Storage.Errors.{Error}
use beanstore.Storage.Volume.{Volume, list_volumes, volume_exists}
use beanstore.Storage.Verbs
use beanstore.Storage.Verbs.{remove_volume, resize_volume, mark_deleting, detach}
use beanstore.Storage.Snapshots.{create_snapshot, delete_snapshot}
use beanstore.Api.Status.{
  Status, VolumeState, invalid_argument, already_exists, missing, answer_code, proto_state,
}
use beanstore.Api.Names.{is_volume_id}
use beanstore.Api.Reservations.{is_reserved}
use beanstore.Api.Server.{
  Daemon, Server, Job, creates, deletes, require, inside, or_volume_error, or_internal,
  begin_operation, or_fail, settle,
}

-- A volume as ListVolumes answers it.
pub record ListedVolume : Type 0 where
  pub volume_id : String
  pub state : VolumeState
  pub size_bytes : ℕ
  pub used_bytes : ℕ
  pub origin_id : String

-- GetOperationResponse
pub data OperationState : Type 0 where
  is_pending is_done : OperationState
  is_progress : ℕ → OperationState
  is_failed : String → OperationState

unfoldable pub operation_state : Operation → OperationState
operation_state op = elim op.phase [
  | pending ↦ is_pending
  | progressing ↦ is_progress op.bytes_done
  | done ↦ is_done
  | failed ↦ is_failed op.reason
]

unfoldable pub answer_get_operation : String → Table → Result Status OperationState
unfolding operation_state
answer_get_operation op t = elim (get op t) [
  | none ↦ err (answer_code missing)
  | some found ↦ ok (operation_state found)
]

unfoldable pub listed_volume : Volume → ListedVolume
listed_volume v = record {
  volume_id = v.id;
  state = proto_state v.state;
  size_bytes = v.size_bytes;
  used_bytes = v.used_bytes;
  origin_id = v.origin;
}

module _ {W : Type 0} (d : Daemon W) where
  unfoldable pub answer_create_volume : String → ℕ → String → Exec (Server W) Status Job
  answer_create_volume id size op = do
    require (is_volume_id id) invalid_argument
    require (not (size == 0)) invalid_argument
    require (not (str_eq op "")) invalid_argument
    exists ← or_internal (volume_exists d.lvm d.cfg id)
    (λ s. require (not (exists || is_reserved (id ∷ []) s.reserved)) already_exists s)
    begin_operation op
    pure (creates id size op)

  -- runCreate
  unfoldable pub run_create : String → ℕ → String → Server W → Server W
  run_create id size op = settle d op (inside (Verbs.create_volume d.lvm d.cfg id size))

  unfoldable pub answer_list_volumes : Exec (Server W) Status (List ListedVolume)
  answer_list_volumes = do
    volumes ← or_internal (list_volumes d.lvm d.cfg)
    pure (map listed_volume volumes)

  unfoldable pub answer_attach : String → Exec (Server W) Status String
  answer_attach id = do
    require (is_volume_id id) invalid_argument
    or_volume_error (Verbs.attach d.lvm d.cfg id)

  unfoldable pub answer_detach : String → Exec (Server W) Status Unit
  answer_detach id = do
    require (is_volume_id id) invalid_argument
    or_volume_error (detach d.lvm d.cfg id)

  unfoldable pub answer_delete_volume : String → Bool → String → Exec (Server W) Status Job
  answer_delete_volume id force op = do
    require (is_volume_id id) invalid_argument
    require (not (str_eq op "")) invalid_argument
    begin_operation op
    snapshots ← or_fail d op (λ s. inside (mark_deleting d.lvm d.cfg s.pins id force) s)
    pure (deletes id snapshots op)

  -- The loop of runDelete over the snapshots and then the volume.
  unfoldable pub remove_volumes : List String → Exec W Error Unit
  remove_volumes [] = pure tt
  remove_volumes (target ∷ targets) = remove_volume d.lvm d.cfg target >> remove_volumes targets

  -- runDelete
  unfoldable pub run_delete : String → List String → String → Server W → Server W
  run_delete id snapshots op = settle d op (inside (remove_volumes (snapshots ++ id ∷ [])))

  unfoldable pub answer_create_snapshot : String → String → Exec (Server W) Status Unit
  answer_create_snapshot id snapshot_id = do
    require (is_volume_id id) invalid_argument
    require (is_volume_id snapshot_id) invalid_argument
    exists ← or_internal (volume_exists d.lvm d.cfg snapshot_id)
    require (not exists) already_exists
    or_volume_error (create_snapshot d.lvm d.cfg id snapshot_id)

  unfoldable pub answer_delete_snapshot : String → Exec (Server W) Status Unit
  answer_delete_snapshot id = do
    require (is_volume_id id) invalid_argument
    λ s. or_volume_error (delete_snapshot d.lvm d.cfg s.pins id) s

  unfoldable pub answer_resize_volume : String → ℕ → Exec (Server W) Status Unit
  answer_resize_volume id size = do
    require (is_volume_id id) invalid_argument
    require (not (size == 0)) invalid_argument
    or_volume_error (resize_volume d.lvm d.cfg id size)
