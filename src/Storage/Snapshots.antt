-- ===== src/Storage/Snapshots.antt =====
-- CreateSnapshot and DeleteSnapshot of internal/storage/volumes.go.
use beanstore.Base.{String, ◌||◌, [], ◌∷◌, if◌then◌else◌}
use beanstore.Base.Exec.{Exec, fail, ◌>>=◌, ◌>>◌}
use beanstore.Config.{Config}
use beanstore.Lvm.Types.{no_create_thin_snapshot, CreateThinSnapshotOptions}
use beanstore.Lvm.Interface.{Lvm}
use beanstore.Storage.State.{ready, attached, snapshot, state_tag, origin_tag}
use beanstore.Storage.Errors.{Error, export_in_progress, wrap}
use beanstore.Storage.Pins.{ExportPins, is_pinned}
use beanstore.Storage.Volume.{get_volume}
use beanstore.Storage.Verbs.{is_state, check_state, remove_volume}

abbrev pub snapshot_options : String → CreateThinSnapshotOptions
snapshot_options origin_id = record no_create_thin_snapshot {
  add_tags = state_tag snapshot ∷ origin_tag origin_id ∷ [];
  permission = "r";
}

module _ {W : Type 0} (lvm : Lvm W) (cfg : Config) where
  unfoldable pub create_snapshot : String → String → Exec W Error Unit
  create_snapshot origin_id snapshot_id = do
    origin ← get_volume lvm cfg origin_id
    check_state origin_id (is_state origin.state ready || is_state origin.state attached)
        origin.state
    wrap (lvm.create_snapshot cfg.volume_group origin_id snapshot_id (snapshot_options origin_id))

  unfoldable pub delete_snapshot : ExportPins → String → Exec W Error Unit
  delete_snapshot pins id = do
    volume ← get_volume lvm cfg id
    check_state id (is_state volume.state snapshot) volume.state
    if is_pinned id pins then fail (export_in_progress id) else remove_volume lvm cfg id
