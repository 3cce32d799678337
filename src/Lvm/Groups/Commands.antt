-- ===== src/Lvm/Groups/Commands.antt =====
-- The commands of lvm/vg.go that change volume groups: their options and arguments.
use beanstore.Base.{
  ℕ, String, Bool, true, false, Option, none, some, List, [], ◌∷◌, ◌++◌, not, str_eq, ◌==◌,
  if◌then◌else◌, ◌+◌,
}
use beanstore.Base.Exec.{Exec, pure, fail, ◌>>◌}
use beanstore.Lvm.Types.{CommonOptions, Selector}
use beanstore.Lvm.Errors.{LvmError, refused}
use beanstore.Lvm.Client.{Host, Client, command, metadata_command, run, run_on}
use beanstore.Lvm.Decimal.{format_uint}
use beanstore.Lvm.Volumes.{
  tag_args, bool_args, text_args, size_args, switch_args, run_quiet, run_quiet_on,
  autobackup_refused,
}

pub record CreateVolumeGroupOptions : Type 0 where
  pub common : CommonOptions
  pub add_tags : List String
  pub extent_size_bytes : ℕ
  pub set_autoactivation : Option Bool
  pub force : Bool

pub record ExtendVolumeGroupOptions : Type 0 where
  pub common : CommonOptions
  pub force : Bool
  pub restore_missing : Bool

pub record ReduceVolumeGroupOptions : Type 0 where
  pub common : CommonOptions
  pub remove_unused : Bool
  pub remove_missing : Bool
  pub force : Bool

pub record ChangeVolumeGroupOptions : Type 0 where
  pub common : CommonOptions
  pub add_tags : List String
  pub remove_tags : List String
  pub resizeable : Option Bool
  pub max_logical_volumes : Option ℕ
  pub max_physical_volumes : Option ℕ
  pub extent_size_bytes : ℕ
  pub regenerate_uuid : Bool
  pub set_autoactivation : Option Bool
  pub allocation : String

-- An unset name adds no argument.
unfoldable pub name_args : String → List String
name_args String.[] = []
name_args (String.◌∷◌ c s) = String.◌∷◌ c s ∷ []

unfoldable pub number_args : String → Option ℕ → List String
number_args flag none = []
number_args flag (some n) = flag ∷ format_uint n ∷ []

unfoldable pub has_devices : List String → Bool
has_devices [] = false
has_devices (d ∷ ds) = true

unfoldable pub equal_flags : Bool → Bool → Bool
equal_flags true b = b
equal_flags false b = not b

-- How many of the ways to name physical volumes a reduction uses.
unfoldable pub reduce_forms : List String → ReduceVolumeGroupOptions → ℕ
reduce_forms devices opts =
    (if has_devices devices then 1 else 0)
    + (if opts.remove_unused then 1 else 0)
    + (if opts.remove_missing then 1 else 0)

unfoldable pub change_group_args : ChangeVolumeGroupOptions → List String
change_group_args opts =
    tag_args "--addtag" opts.add_tags
    ++ tag_args "--deltag" opts.remove_tags
    ++ bool_args "-x" opts.resizeable
    ++ number_args "-l" opts.max_logical_volumes
    ++ number_args "-p" opts.max_physical_volumes
    ++ size_args "-s" opts.extent_size_bytes "b"
    ++ switch_args "-u" opts.regenerate_uuid
    ++ bool_args "--setautoactivation" opts.set_autoactivation
    ++ text_args "--alloc" opts.allocation

module _ {W : Type 0} (h : Host W) (c : Client) where
  -- The guard of the commands that take no autobackup setting.
  unfoldable pub without_autobackup :
      {A : Type 0} → CommonOptions → Exec W LvmError A → Exec W LvmError A
  without_autobackup common m w = elim common.autobackup [
    | some _ ↦ fail (autobackup_refused h c) w
    | none ↦ m w
  ]

  unfoldable pub create_volume_group :
      String → List String → CreateVolumeGroupOptions → Exec W LvmError Unit
  create_volume_group name devices opts = run_quiet h c (
      metadata_command c "vgcreate" opts.common
      ++ tag_args "--addtag" opts.add_tags
      ++ size_args "-s" opts.extent_size_bytes "b"
      ++ bool_args "--setautoactivation" opts.set_autoactivation
      ++ switch_args "-f" opts.force
      ++ (name ∷ devices))

  unfoldable pub remove_volume_group : String → CommonOptions → Bool → Exec W LvmError Unit
  remove_volume_group name common force =
      without_autobackup common
        (run_quiet h c (command c "vgremove" common ++ switch_args "-f" force ++ (name ∷ [])))

  unfoldable pub extend_volume_group :
      String → List String → ExtendVolumeGroupOptions → Exec W LvmError Unit
  extend_volume_group name devices opts = run_quiet h c (
      metadata_command c "vgextend" opts.common
      ++ switch_args "-f" opts.force
      ++ switch_args "--restoremissing" opts.restore_missing
      ++ (name ∷ devices))

  unfoldable pub reduce_volume_group :
      String → List String → ReduceVolumeGroupOptions → Exec W LvmError Unit
  reduce_volume_group name devices opts =
      if reduce_forms devices opts == 1
      then run_quiet h c (
          metadata_command c "vgreduce" opts.common
          ++ switch_args "-a" opts.remove_unused
          ++ switch_args "--removemissing" opts.remove_missing
          ++ switch_args "-f" opts.force
          ++ (name ∷ devices))
      else fail (
          refused
            "reducing a volume group requires exactly one of devices, RemoveUnused or RemoveMissing")

  unfoldable pub rename_volume_group : String → String → CommonOptions → Exec W LvmError Unit
  rename_volume_group old_name new_name common =
      run_quiet h c (metadata_command c "vgrename" common ++ (old_name ∷ new_name ∷ []))

  -- Every property adds arguments, so `properties == 0` is the test for no argument.
  unfoldable pub change_volume_group : Selector → ChangeVolumeGroupOptions → Exec W LvmError Unit
  change_volume_group target opts w = elim (change_group_args opts) [
    | [] ↦ fail (refused "changing a volume group requires at least one property") w
    | a ∷ args ↦ run_quiet_on h c (metadata_command c "vgchange" opts.common ++ a ∷ args) target w
  ]

  unfoldable pub activate_volume_group :
      Selector → CommonOptions → Bool → String → Exec W LvmError Unit
  activate_volume_group target common ignore_skip mode =
      run_quiet_on h c
        (metadata_command c "vgchange" common
          ++ ("-a" ∷ "y" ∷ [])
          ++ switch_args "-K" ignore_skip
          ++ text_args "--activationmode" mode)
        target

  unfoldable pub deactivate_volume_group : Selector → CommonOptions → Exec W LvmError Unit
  deactivate_volume_group target common =
      run_quiet_on h c (metadata_command c "vgchange" common ++ ("-a" ∷ "n" ∷ [])) target

  unfoldable pub check_volume_group : String → CommonOptions → Exec W LvmError Unit
  check_volume_group name common =
      without_autobackup common (run_quiet h c (command c "vgck" common ++ name_args name))

  unfoldable pub display_volume_group : String → CommonOptions → Bool → Exec W LvmError String
  display_volume_group name common short =
      without_autobackup common
        (run h (command c "vgdisplay" common ++ switch_args "-s" short ++ name_args name))

  unfoldable pub scan_volume_groups : CommonOptions → Bool → Exec W LvmError Unit
  scan_volume_groups common mk_nodes =
      without_autobackup common
        (run_quiet h c (command c "vgscan" common ++ switch_args "--mknodes" mk_nodes))

  unfoldable pub backup_volume_group_metadata :
      String → CommonOptions → String → Exec W LvmError Unit
  backup_volume_group_metadata name common file =
      without_autobackup common
        (run_quiet h c (command c "vgcfgbackup" common ++ text_args "-f" file ++ name_args name))

  unfoldable pub restore_volume_group_metadata :
      String → CommonOptions → String → Bool → Exec W LvmError Unit
  restore_volume_group_metadata name common file force = run_quiet h c (
      metadata_command c "vgcfgrestore" common
      ++ text_args "-f" file
      ++ switch_args "--force" force
      ++ (name ∷ []))

  unfoldable pub list_volume_group_metadata_backups :
      String → CommonOptions → Exec W LvmError String
  list_volume_group_metadata_backups name common =
      without_autobackup common (run h (command c "vgcfgrestore" common ++ ("-l" ∷ name ∷ [])))

  -- Runs a command on the target, where `-a` stands for all groups; its output is not read.
  unfoldable pub run_quiet_on_groups : List String → Selector → Exec W LvmError Unit
  run_quiet_on_groups cmd target = run_on h cmd target "-a" >> pure tt

  unfoldable pub export_volume_group : Selector → CommonOptions → Exec W LvmError Unit
  export_volume_group target common =
      without_autobackup common (run_quiet_on_groups (command c "vgexport" common) target)

  unfoldable pub import_volume_group : Selector → CommonOptions → Exec W LvmError Unit
  import_volume_group target common =
      without_autobackup common (run_quiet_on_groups (command c "vgimport" common) target)

  unfoldable pub merge_volume_groups : String → String → CommonOptions → Exec W LvmError Unit
  merge_volume_groups destination source common =
      run_quiet h c (metadata_command c "vgmerge" common ++ (destination ∷ source ∷ []))

  unfoldable pub split_volume_group :
      String → String → List String → CommonOptions → String → Exec W LvmError Unit
  split_volume_group source destination devices common lv_name =
      if equal_flags (has_devices devices) (not (str_eq lv_name ""))
      then fail (refused "splitting a volume group requires exactly one of devices or LVName")
      else run_quiet h c (
          metadata_command c "vgsplit" common
          ++ text_args "-n" lv_name
          ++ (source ∷ destination ∷ devices))

  unfoldable pub make_volume_group_nodes : String → CommonOptions → Exec W LvmError Unit
  make_volume_group_nodes name common =
      without_autobackup common (run_quiet h c (command c "vgmknodes" common ++ name_args name))

  unfoldable pub import_cloned_volume_group :
      List String → CommonOptions → String → Exec W LvmError Unit
  import_cloned_volume_group devices common base_name =
      without_autobackup common
        (run_quiet h c (command c "vgimportclone" common ++ text_args "-n" base_name ++ devices))

  unfoldable pub import_volume_group_devices : Selector → CommonOptions → Exec W LvmError Unit
  import_volume_group_devices target common =
      without_autobackup common (run_quiet_on_groups (command c "vgimportdevices" common) target)
