-- ===== src/Storage/Rollback.antt =====
-- internal/storage/rollback.go: a volume replaced by a copy of one of its snapshots.
pub mod Beginning
use beanstore.Base.{String, Bool, true, false, some, [], ◌∷◌, cat, str_eq}
use beanstore.Base.Exec.{Exec, pure, fail, ◌>>=◌, ◌>>◌}
use beanstore.Config.{Config}
use beanstore.Lvm.Types.{
  no_common, no_change, no_create_thin_snapshot, CreateThinSnapshotOptions,
  ChangeLogicalVolumeOptions,
}
use beanstore.Lvm.Interface.{Lvm}
use beanstore.Storage.State.{ready, snapshot, rollback, state_tag, rollback_target_tag}
use beanstore.Storage.Errors.{Error, wrong_lineage, wrap}
use beanstore.Storage.Volume.{get_volume, lv_name}
use beanstore.Storage.Verbs.{is_state, check_state}

unfoldable pub rollback_temp_name : String → String
rollback_temp_name volume_id = cat volume_id "+rb"

abbrev pub temp_options : String → CreateThinSnapshotOptions
temp_options volume_id = record no_create_thin_snapshot {
  add_tags = state_tag rollback ∷ rollback_target_tag volume_id ∷ [];
  permission = "rw";
}

abbrev pub finish_options : String → ChangeLogicalVolumeOptions
finish_options target_id = record no_change {
  add_tags = state_tag ready ∷ [];
  remove_tags = state_tag rollback ∷ rollback_target_tag target_id ∷ [];
  set_activation_skip = some false;
}

unfoldable pub check_lineage : {W : Type 0} → Bool → String → String → Exec W Error Unit
check_lineage true snapshot_id origin = pure tt
check_lineage false snapshot_id origin = fail (wrong_lineage snapshot_id origin)

module _ {W : Type 0} (lvm : Lvm W) (cfg : Config) where
  unfoldable pub begin_rollback : String → String → Exec W Error Unit
  begin_rollback volume_id snapshot_id = do
    volume ← get_volume lvm cfg volume_id
    check_state volume_id (is_state volume.state ready) volume.state
    source ← get_volume lvm cfg snapshot_id
    check_state snapshot_id (is_state source.state snapshot) source.state
    check_lineage (str_eq source.origin volume_id) snapshot_id source.origin
    wrap (
        lvm.create_snapshot cfg.volume_group snapshot_id (rollback_temp_name volume_id)
          (temp_options volume_id))

  unfoldable pub rename_if : Bool → String → String → Exec W Error Unit
  rename_if true temp_id target_id = pure tt
  rename_if false temp_id target_id = wrap (lvm.rename cfg.volume_group temp_id target_id no_common)

  unfoldable pub finish_rollback : String → String → Exec W Error Unit
  finish_rollback temp_id target_id = do
    rename_if (str_eq temp_id target_id) temp_id target_id
    wrap (lvm.change (lv_name cfg target_id) (finish_options target_id))
