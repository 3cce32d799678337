-- ===== src/Lvm/Interface.antt =====
-- What the storage engine calls of the lvm client, and the client of lvm/lv.go behind it.
use beanstore.Base.{ℕ, String, List}
use beanstore.Base.Exec.{Exec}
use beanstore.Lvm.Types.{
  LogicalVolume, CommonOptions, Selector, Size, Float64, CreateThinPoolOptions,
  CreateThinVolumeOptions, CreateThinSnapshotOptions, ListLogicalVolumesOptions,
  RemoveLogicalVolumeOptions, ChangeLogicalVolumeOptions, ActivateLogicalVolumeOptions,
  ResizeLogicalVolumeOptions,
}
use beanstore.Lvm.Errors.{LvmError}
use beanstore.Lvm.Client.{Host, Client}
use beanstore.Lvm.Volumes.{
  create_thin_pool, create_thin_volume, create_thin_snapshot, list_logical_volumes,
  remove_logical_volume, change_logical_volume, activate_logical_volume, deactivate_logical_volume,
  resize_logical_volume, rename_logical_volume,
}

-- `percent_of n p` is `uint64(float64(n) * p / 100)`, the program's one computation with floats.
pub record Lvm (W : Type 0) : Type 0 where
  pub create_pool : String → String → ℕ → CreateThinPoolOptions → Exec W LvmError Unit
  pub create_volume : String → String → String → ℕ → CreateThinVolumeOptions → Exec W LvmError Unit
  pub create_snapshot : String → String → String → CreateThinSnapshotOptions → Exec W LvmError Unit
  pub list : ListLogicalVolumesOptions → Exec W LvmError (List LogicalVolume)
  pub remove : Selector → RemoveLogicalVolumeOptions → Exec W LvmError Unit
  pub change : Selector → ChangeLogicalVolumeOptions → Exec W LvmError Unit
  pub activate : Selector → ActivateLogicalVolumeOptions → Exec W LvmError Unit
  pub deactivate : Selector → CommonOptions → Exec W LvmError Unit
  pub resize : String → Size → ResizeLogicalVolumeOptions → Exec W LvmError Unit
  pub rename : String → String → String → CommonOptions → Exec W LvmError Unit
  pub percent_of : ℕ → Float64 → ℕ

-- The daemon's client: every operation is a command of lvm/lv.go.
pub client_lvm : {W : Type 0} → Host W → Client → (ℕ → Float64 → ℕ) → Lvm W
client_lvm h c percent_of = record {
  create_pool = create_thin_pool h c;
  create_volume = create_thin_volume h c;
  create_snapshot = create_thin_snapshot h c;
  list = list_logical_volumes h c;
  remove = remove_logical_volume h c;
  change = change_logical_volume h c;
  activate = activate_logical_volume h c;
  deactivate = deactivate_logical_volume h c;
  resize = resize_logical_volume h c;
  rename = rename_logical_volume h c;
  percent_of = percent_of;
}
