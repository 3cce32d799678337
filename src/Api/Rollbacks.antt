-- ===== src/Api/Rollbacks.antt =====
-- RollbackVolume of internal/api/rollback.go and its helpers.
pub mod Finishing
pub mod Starting
pub mod Safety
use beanstore.Base.{ℕ, zero, suc, String, Bool, true, false, ◌&&◌, [], ◌∷◌, str_eq, if◌then◌else◌}
use beanstore.Base.Exec.{Result, ok, err, Exec, pure, fail, ◌>>=◌, ◌>>◌}
use beanstore.Config.{Config}
use beanstore.Lvm.Interface.{Lvm}
use beanstore.Storage.State.{rollback}
use beanstore.Storage.Errors.{Error, not_found}
use beanstore.Storage.Volume.{Volume, get_volume, volume_exists}
use beanstore.Storage.Verbs.{is_state, remove_volume}
use beanstore.Storage.Rollback.{rollback_temp_name, begin_rollback, finish_rollback}
use beanstore.Api.Status.{Status, invalid_argument, aborted, internal, answer_code, volume_error}
use beanstore.Api.Names.{is_volume_id}
use beanstore.Api.Reservations.{reserve, release_names}
use beanstore.Api.Server.{Daemon, Server, require, inside, map_error}

module _ {W : Type 0} (lvm : Lvm W) (cfg : Config) where
  -- What follows a lookup: `rest` is skipped for a volume that is not there.
  unfoldable pub after_lookup :
      Result Error Volume → (Volume → Exec W Error Unit) → Exec W Error Unit
  after_lookup (ok volume) rest = rest volume
  after_lookup (err (not_found _)) rest = pure tt
  after_lookup (err e) rest = fail e

  unfoldable pub if_found : String → (Volume → Exec W Error Unit) → Exec W Error Unit
  if_found id rest w = after_lookup (get_volume lvm cfg id w).0 rest (get_volume lvm cfg id w).1

  -- One attempt to finish, on the name under which the copy is found.
  unfoldable pub try_finish : String → String → Exec W Error Unit
  try_finish temp id =
      if str_eq temp id
      then finish_rollback lvm cfg temp id
      else (volume_exists lvm cfg temp >>= λ exists.
          finish_rollback lvm cfg (if exists then temp else id) id)

  -- finishRollback: `n` further attempts after the first that fails.
  unfoldable pub finish_attempts : ℕ → String → String → Exec W Error Unit
  finish_attempts zero temp id w = try_finish temp id w
  finish_attempts (suc n) temp id w = elim (try_finish temp id w).0 [
    | ok _ ↦ (ok tt, (try_finish temp id w).1)
    | err _ ↦ finish_attempts n temp id (try_finish temp id w).1
  ]

  unfoldable pub finish_retried : String → String → Exec W Error Unit
  finish_retried = finish_attempts 2

  -- A rollback copy of this volume.
  unfoldable pub is_leftover : String → Volume → Bool
  is_leftover id volume = is_state volume.state rollback && str_eq volume.rollback_target id

  unfoldable pub settle_leftover : Bool → String → String → Exec W Error Unit
  settle_leftover true id temp = remove_volume lvm cfg temp
  settle_leftover false id temp = finish_retried temp id

  unfoldable pub sweep_rollback : String → String → Exec W Error Unit
  sweep_rollback id temp = if_found temp (λ leftover.
      if is_leftover id leftover
      then (volume_exists lvm cfg id >>= λ exists. settle_leftover exists id temp)
      else pure tt)

  unfoldable pub sweep_renamed_rollback : String → Exec W Error Unit
  sweep_renamed_rollback id =
      if_found id (λ current. if is_leftover id current then finish_retried id id else pure tt)

  -- RemoveVolume of the volume; where it fails, the copy goes again.
  unfoldable pub remove_or_undo : String → String → Exec W Error Unit
  remove_or_undo id temp w = elim (remove_volume lvm cfg id w).0 [
    | ok _ ↦ (ok tt, (remove_volume lvm cfg id w).1)
    | err e ↦ (err e, (remove_volume lvm cfg temp (remove_volume lvm cfg id w).1).1)
  ]

  -- Everything up to the point of no return.
  unfoldable pub start_rollback : String → String → String → Exec W Error Unit
  start_rollback id snapshot_id temp = do
    sweep_rollback id temp
    sweep_renamed_rollback id
    begin_rollback lvm cfg id snapshot_id
    remove_or_undo id temp

module _ {W : Type 0} (d : Daemon W) where
  -- RollbackVolume with the names reserved.
  unfoldable pub roll_back : String → String → Exec W Status Unit
  roll_back id snapshot_id = do
    map_error volume_error (start_rollback d.lvm d.cfg id snapshot_id (rollback_temp_name id))
    map_error (λ _. answer_code internal) (finish_retried d.lvm d.cfg (rollback_temp_name id) id)

  unfoldable pub answer_rollback_volume : String → String → Exec (Server W) Status Unit
  answer_rollback_volume id snapshot_id = do
    require (is_volume_id id) invalid_argument
    require (is_volume_id snapshot_id) invalid_argument
    λ s.
        let names = id ∷ rollback_temp_name id ∷ [] in
        let claim = reserve names s.reserved in
        if claim.0
        then (let r = inside (roll_back id snapshot_id) (record s { reserved = claim.1 }) in
            (r.0, record (r.1) { reserved = release_names names (r.1).reserved }))
        else (err (answer_code aborted), s)
