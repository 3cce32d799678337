-- ===== src/Api/Copies.antt =====
-- internal/api/createfromsnapshot.go and internal/api/pushsnapshot.go: a snapshot copied to a new
-- volume, or to another node. The snapshot is pinned until the task ends.
pub mod Taken
use beanstore.Base.{ℕ, String, Bool, true, false, not, [], ◌∷◌, str_eq}
use beanstore.Base.Exec.{ok, err, Exec, pure, ◌>>=◌, ◌>>◌}
use beanstore.Lvm.Types.{no_common, no_create_thin_volume, CreateThinVolumeOptions}
use beanstore.Operations.{progress, mark_done}
use beanstore.Storage.State.{creating, ready, state_tag}
use beanstore.Storage.Errors.{Error, wrap}
use beanstore.Storage.Reader.{copy_device}
use beanstore.Storage.Volume.{lv_name, get_volume, volume_exists}
use beanstore.Storage.Verbs.{retag, remove_volume}
use beanstore.Api.Status.{
  Status, invalid_argument, already_exists, internal, answer_code, volume_error,
}
use beanstore.Api.Names.{is_volume_id, is_target_address}
use beanstore.Api.Exports.{acquire_export, release_export, get_snapshot, with_skip}
use beanstore.Api.Pushing.{
  CommitOutcome, commit_landed, commit_refused, commit_unknown, files_inside, stream_volume,
  commit_push, abort_on_target,
}
use beanstore.Api.Server.{
  Daemon, Server, Cause, stored, not_dialed, name_taken, outcome_unknown, Job, copies,
  pushes_snapshot, require, inside, begin_operation, update_ops, fail_operation,
}

abbrev pub copy_options : CreateThinVolumeOptions
copy_options = record no_create_thin_volume { add_tags = state_tag creating ∷ [] }

module _ {W : Type 0} (d : Daemon W) where
  -- A refusal once the snapshot is pinned: its pin goes, and the operation fails.
  unfoldable pub refuse_pinned :
      {A : Type 0} → String → String → Cause → Status → Exec (Server W) Status A
  refuse_pinned snapshot_id op cause answer s =
      (err answer, fail_operation d op cause (release_export d snapshot_id s))

  -- The state check behind the pin, which both handlers share.
  unfoldable pub or_refuse :
      {A : Type 0} → String → String → (Error → Status) → Exec W Error A → Exec (Server W) Status A
  or_refuse snapshot_id op answer m s = elim (inside m s).0 [
    | ok a ↦ (ok a, (inside m s).1)
    | err e ↦ refuse_pinned snapshot_id op (stored e) (answer e) (inside m s).1
  ]

  unfoldable pub accept_free : Bool → String → String → String → ℕ → Exec (Server W) Status Job
  accept_free true id snapshot_id op size =
      refuse_pinned snapshot_id op name_taken (answer_code already_exists)
  accept_free false id snapshot_id op size = pure (copies id snapshot_id op size)

  -- CreateVolumeFromSnapshot from the pin on.
  unfoldable pub accept_copy : String → String → String → Exec (Server W) Status Job
  accept_copy id snapshot_id op = do
    (λ s. (ok tt, acquire_export snapshot_id s))
    volume ← or_refuse snapshot_id op volume_error (get_snapshot d snapshot_id)
    exists ← or_refuse snapshot_id op (λ _. answer_code internal) (volume_exists d.lvm d.cfg id)
    accept_free exists id snapshot_id op volume.size_bytes

  unfoldable pub answer_create_volume_from_snapshot :
      String → String → String → Exec (Server W) Status Job
  answer_create_volume_from_snapshot id snapshot_id op = do
    require (is_volume_id id) invalid_argument
    require (is_volume_id snapshot_id) invalid_argument
    require (not (str_eq op "")) invalid_argument
    begin_operation op
    accept_copy id snapshot_id op

  unfoldable pub copy_from_snapshot : String → String → String → ℕ → Exec (Server W) Error Unit
  copy_from_snapshot id snapshot_id op size = do
    inside (wrap (d.lvm.create_volume d.cfg.volume_group d.cfg.thin_pool id size copy_options))
    target ← inside (get_volume d.lvm d.cfg id)
    inside (wrap (d.lvm.activate (lv_name d.cfg snapshot_id) with_skip))
    source ← inside (get_volume d.lvm d.cfg snapshot_id)
    copy_device d.sha256 (files_inside d.files) source.path target.path
        (λ n. update_ops (progress op n))
    inside (wrap (d.lvm.deactivate (lv_name d.cfg id) no_common))
    inside (wrap (d.lvm.change (lv_name d.cfg id) (retag creating ready)))

  -- runCopyFromSnapshot: after a failure the target is removed; that removal's failure is logged.
  unfoldable pub run_copy_from_snapshot : String → String → String → ℕ → Server W → Server W
  run_copy_from_snapshot id snapshot_id op size s =
      let r = copy_from_snapshot id snapshot_id op size s in
      release_export d snapshot_id (elim r.0 [
        | ok _ ↦ update_ops (mark_done op) r.1
        | err e ↦ (inside (remove_volume d.lvm d.cfg id) (fail_operation d op (stored e) r.1)).1
      ])

  unfoldable pub accept_snapshot_push :
      String → String → String → String → Exec (Server W) Status Job
  accept_snapshot_push id transfer_id target op = do
    (λ s. (ok tt, acquire_export id s))
    _ ← or_refuse id op volume_error (get_snapshot d id)
    pure (pushes_snapshot id transfer_id target op)

  unfoldable pub answer_push_snapshot :
      String → String → String → String → Exec (Server W) Status Job
  answer_push_snapshot id transfer_id target op = do
    require (is_volume_id id) invalid_argument
    require (is_volume_id transfer_id) invalid_argument
    require (is_target_address target) invalid_argument
    require (not (str_eq op "")) invalid_argument
    begin_operation op
    accept_snapshot_push id transfer_id target op

  unfoldable pub end_snapshot_push : String → String → String → CommitOutcome → Server W → Server W
  end_snapshot_push target transfer_id op commit_landed s = update_ops (mark_done op) s
  end_snapshot_push target transfer_id op (commit_refused cause) s = fail_operation d op cause s
  end_snapshot_push target transfer_id op (commit_unknown cause) s =
      fail_operation d op (outcome_unknown cause) (abort_on_target d target transfer_id s)

  -- runSnapshotPush behind the connection.
  unfoldable pub run_snapshot_connected : String → String → String → String → Server W → Server W
  run_snapshot_connected target id transfer_id op s =
      let streamed = stream_volume d target id transfer_id op true s in
      elim streamed.0 [
        | err cause ↦ fail_operation d op cause (abort_on_target d target transfer_id streamed.1)
        | ok digest ↦
            let r = commit_push d target transfer_id digest streamed.1 in
            end_snapshot_push target transfer_id op r.0 r.1
      ]

  unfoldable pub run_snapshot_push : String → String → String → String → Server W → Server W
  run_snapshot_push id transfer_id target op s =
      let dialed = inside (d.peers.dial target) s in
      release_export d id (elim dialed.0 [
        | err why ↦ fail_operation d op (not_dialed why) dialed.1
        | ok _ ↦ run_snapshot_connected target id transfer_id op dialed.1
      ])
