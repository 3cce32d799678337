-- ===== src/Storage/Recover.antt =====
-- internal/storage/recover.go: the crash rules at startup. Failures of one volume are logged and
-- leave it in its state; the loop goes on from what was changed before the failure.
use beanstore.Base.{String, ◌&&◌, not, List, [], ◌∷◌, str_eq, contains, if◌then◌else◌, map}
use beanstore.Base.Exec.{ok, Exec, pure, fail, ◌>>=◌, ◌>>◌}
use beanstore.Config.{Config}
use beanstore.Lvm.Types.{no_common, no_change, no_activate, ChangeLogicalVolumeOptions}
use beanstore.Lvm.Interface.{Lvm}
use beanstore.Storage.State.{
  State, creating, ready, attached, pushing, committing, incoming, retired, deleting, snapshot,
  rollback, unknown, origin_tag,
}
use beanstore.Storage.Errors.{Error, no_rollback_target, wrap}
use beanstore.Storage.Volume.{Volume, lv_name, list_volumes}
use beanstore.Storage.Verbs.{remove_volume}
use beanstore.Storage.Pushes.{abort_push}
use beanstore.Storage.Rollback.{finish_rollback}

abbrev pub lineage_options : String → ChangeLogicalVolumeOptions
lineage_options origin = record no_change { add_tags = origin_tag origin ∷ [] }

module _ {W : Type 0} (lvm : Lvm W) (cfg : Config) where
  -- `by_name` is the map of the scanned names, here the list of them.
  unfoldable pub recover_rollback : Volume → List String → Exec W Error Unit
  recover_rollback volume by_name =
      let target = volume.rollback_target in
      if str_eq target ""
      then fail (no_rollback_target volume.id)
      else if str_eq volume.id target
      then finish_rollback lvm cfg volume.id target
      else if contains target by_name
      then remove_volume lvm cfg volume.id
      else finish_rollback lvm cfg volume.id target

  unfoldable pub backfill_lineage : Volume → Exec W Error Unit
  backfill_lineage volume =
      if not volume.origin_tagged && not (str_eq volume.origin "")
      then wrap (lvm.change (lv_name cfg volume.id) (lineage_options volume.origin))
      else pure tt

  unfoldable pub deactivate_stray : Volume → Exec W Error Unit
  deactivate_stray volume =
      if volume.active then wrap (lvm.deactivate (lv_name cfg volume.id) no_common) else pure tt

  -- One case of the switch.
  unfoldable pub recover_by : State → Volume → List String → Exec W Error Unit
  recover_by creating volume by_name = remove_volume lvm cfg volume.id
  recover_by deleting volume by_name = remove_volume lvm cfg volume.id
  recover_by attached volume by_name = wrap (lvm.activate (lv_name cfg volume.id) no_activate)
  recover_by snapshot volume by_name = backfill_lineage volume >> deactivate_stray volume
  recover_by incoming volume by_name = remove_volume lvm cfg volume.id
  recover_by pushing volume by_name = abort_push lvm cfg volume.id
  recover_by committing volume by_name = pure tt
  recover_by rollback volume by_name = recover_rollback volume by_name
  recover_by ready volume by_name = pure tt
  recover_by retired volume by_name = pure tt
  recover_by unknown volume by_name = pure tt

  unfoldable pub recover_volume : Volume → List String → Exec W Error Unit
  recover_volume volume by_name = recover_by volume.state volume by_name

  -- The loop: an error of one volume is dropped.
  unfoldable pub recover_all : List Volume → List String → W → W
  recover_all [] by_name w = w
  recover_all (v ∷ vs) by_name w = recover_all vs by_name (recover_volume v by_name w).1

  unfoldable pub recover : Exec W Error Unit
  recover = do
    volumes ← list_volumes lvm cfg
    λ w. (ok tt, recover_all volumes (map (λ (v : Volume). v.id) volumes) w)
