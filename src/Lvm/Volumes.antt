-- ===== src/Lvm/Volumes.antt =====
-- The logical volume commands of lvm/lv.go. Each method builds one command and runs it.
use Prim.Native.Nat.{Ordering}
use beanstore.Base.{
  ℕ, String, Bool, true, false, Option, none, some, List, [], ◌∷◌, ◌++◌, ltb, cat, if◌then◌else◌,
}
use beanstore.Base.Exec.{Result, ok, err, Exec, pure, fail, ◌>>◌}
use beanstore.Lvm.Types.{
  LogicalVolume, CommonOptions, Selector, Size, bytes, extents, percent, relative,
  CreateThinPoolOptions, CreateThinVolumeOptions, CreateThinSnapshotOptions,
  ListLogicalVolumesOptions, RemoveLogicalVolumeOptions, ChangeLogicalVolumeOptions,
  ActivateLogicalVolumeOptions, ResizeLogicalVolumeOptions,
}
use beanstore.Lvm.Errors.{LvmError, refused}
use beanstore.Lvm.Client.{Host, Client, flag_value, command, metadata_command, run, run_on}
use beanstore.Lvm.Decimal.{format_uint}
use beanstore.Lvm.Report.{parse_lv_report}

-- The option arguments: a flag with its value where the option is set.
unfoldable pub tag_args : String → List String → List String
tag_args flag [] = []
tag_args flag (t ∷ ts) = flag ∷ t ∷ tag_args flag ts

unfoldable pub bool_args : String → Option Bool → List String
bool_args flag none = []
bool_args flag (some b) = flag ∷ flag_value b ∷ []

unfoldable pub text_args : String → String → List String
text_args flag String.[] = []
text_args flag (String.◌∷◌ c s) = flag ∷ String.◌∷◌ c s ∷ []

unfoldable pub size_args : String → ℕ → String → List String
size_args flag n unit = if ltb 0 n then flag ∷ cat (format_uint n) unit ∷ [] else []

unfoldable pub switch_args : String → Bool → List String
switch_args flag true = flag ∷ []
switch_args flag false = []

-- Size.sizeArg and Size.direction; `true` for a relative size that grows.
unfoldable pub size_value : Size → String × String
size_value (bytes n) = ("-L", cat (format_uint n) "b")
size_value (extents n) = ("-l", format_uint n)
size_value (percent p base) = ("-l", cat (format_uint p) (cat "%" base))
size_value (relative inner grow) =
    ((size_value inner).0, cat (if grow then "+" else "-") (size_value inner).1)

unfoldable pub direction : Size → Ordering
direction (relative inner true) = Ordering.gt
direction (relative inner false) = Ordering.lt
direction _ = Ordering.eq

module _ {W : Type 0} (h : Host W) (c : Client) where
  -- Runs a command whose output is not read.
  unfoldable pub run_quiet : List String → Exec W LvmError Unit
  unfolding run
  run_quiet cmd = run h cmd >> pure tt

  unfoldable pub run_quiet_on : List String → Selector → Exec W LvmError Unit
  unfolding run_on
  run_quiet_on cmd target = run_on h cmd target "" >> pure tt

  unfoldable pub create_thin_pool :
      String → String → ℕ → CreateThinPoolOptions → Exec W LvmError Unit
  unfolding run_quiet
  create_thin_pool vg name size opts = run_quiet (
      metadata_command c "lvcreate" opts.common
      ++ ("--type" ∷ "thin-pool" ∷ "-L" ∷ cat (format_uint size) "b" ∷ "-n" ∷ name ∷ [])
      ++ tag_args "--addtag" opts.add_tags
      ++ size_args "-c" opts.chunk_size_bytes "b"
      ++ size_args "--poolmetadatasize" opts.metadata_size_bytes "b"
      ++ bool_args "-a" opts.activate
      ++ text_args "-p" opts.permission
      ++ text_args "-r" opts.readahead
      ++ bool_args "-C" opts.contiguous
      ++ text_args "--alloc" opts.allocation
      ++ bool_args "-k" opts.set_activation_skip
      ++ switch_args "-K" opts.ignore_activation_skip
      ++ bool_args "--setautoactivation" opts.set_autoactivation
      ++ bool_args "-Z" opts.zeroing
      ++ text_args "--discards" opts.discards
      ++ bool_args "--errorwhenfull" opts.error_when_full
      ++ bool_args "--poolmetadataspare" opts.pool_metadata_spare
      ++ (vg ∷ []))

  unfoldable pub create_thin_volume :
      String → String → String → ℕ → CreateThinVolumeOptions → Exec W LvmError Unit
  unfolding run_quiet
  create_thin_volume vg pool name virtual_size opts = run_quiet (
      metadata_command c "lvcreate" opts.common
      ++ ("--type"
          ∷ "thin"
          ∷ "--thinpool"
          ∷ pool
          ∷ "-V"
          ∷ cat (format_uint virtual_size) "b"
          ∷ "-n"
          ∷ name
          ∷ [])
      ++ tag_args "--addtag" opts.add_tags
      ++ bool_args "-a" opts.activate
      ++ text_args "-p" opts.permission
      ++ text_args "-r" opts.readahead
      ++ bool_args "-C" opts.contiguous
      ++ text_args "--alloc" opts.allocation
      ++ bool_args "-k" opts.set_activation_skip
      ++ switch_args "-K" opts.ignore_activation_skip
      ++ bool_args "--setautoactivation" opts.set_autoactivation
      ++ bool_args "-Z" opts.zeroing
      ++ bool_args "-W" opts.wipe_signatures
      ++ (vg ∷ []))

  unfoldable pub create_thin_snapshot :
      String → String → String → CreateThinSnapshotOptions → Exec W LvmError Unit
  unfolding run_quiet
  create_thin_snapshot vg origin name opts = run_quiet (
      metadata_command c "lvcreate" opts.common
      ++ ("-s" ∷ "-n" ∷ name ∷ [])
      ++ tag_args "--addtag" opts.add_tags
      ++ text_args "--thinpool" opts.pool
      ++ bool_args "-a" opts.activate
      ++ text_args "-p" opts.permission
      ++ text_args "-r" opts.readahead
      ++ bool_args "-C" opts.contiguous
      ++ text_args "--alloc" opts.allocation
      ++ bool_args "-k" opts.set_activation_skip
      ++ switch_args "-K" opts.ignore_activation_skip
      ++ bool_args "--setautoactivation" opts.set_autoactivation
      ++ (cat vg (cat "/" origin) ∷ []))

  parse_output : Result LvmError String → Result LvmError (List LogicalVolume)
  unfolding parse_lv_report
  parse_output (ok output) = parse_lv_report h output
  parse_output (err e) = err e

  list_args : ListLogicalVolumesOptions → List String
  list_args opts =
      command c "lvs" opts.common
      ++ ("--reportformat" ∷ "json" ∷ "--units" ∷ "b" ∷ "--nosuffix" ∷ "--binary" ∷ "-o"
          ∷ "lv_name,lv_uuid,vg_name,lv_size,lv_metadata_size,chunk_size,lv_attr,lv_tags,pool_lv,origin,lv_path,lv_dm_path,data_percent,metadata_percent,lv_active,lv_layout"
          ∷ [])
      ++ switch_args "-a" opts.internal
      ++ switch_args "-H" opts.history
      ++ text_args "-S" opts.selection
      ++ (elim opts.vg [ String.[] ↦ [] | String.◌∷◌ d s ↦ String.◌∷◌ d s ∷ [] ])

  unfoldable pub autobackup_refused : LvmError
  autobackup_refused =
      refused "this operation does not change metadata and does not support Autobackup"

  unfoldable pub list_logical_volumes :
      ListLogicalVolumesOptions → Exec W LvmError (List LogicalVolume)
  unfolding parse_output list_args autobackup_refused
  list_logical_volumes opts w = elim opts.common.autobackup [
    | some _ ↦ fail autobackup_refused w
    | none ↦ (parse_output (run h (list_args opts) w).0, (run h (list_args opts) w).1)
  ]

  unfoldable pub remove_logical_volume :
      Selector → RemoveLogicalVolumeOptions → Exec W LvmError Unit
  unfolding run_quiet_on autobackup_refused
  remove_logical_volume target opts w = elim opts.common.autobackup [
    | some _ ↦ fail autobackup_refused w
    | none ↦
        run_quiet_on
          (command c "lvremove" opts.common
            ++ switch_args "-f" opts.force
            ++ switch_args "--nohistory" opts.no_history)
          target w
  ]

  change_args : ChangeLogicalVolumeOptions → List String
  change_args opts =
      tag_args "--addtag" opts.add_tags
      ++ tag_args "--deltag" opts.remove_tags
      ++ text_args "-p" opts.permission
      ++ bool_args "-C" opts.contiguous
      ++ bool_args "-Z" opts.zeroing
      ++ text_args "--discards" opts.discards
      ++ bool_args "--errorwhenfull" opts.error_when_full
      ++ bool_args "-k" opts.set_activation_skip
      ++ text_args "-r" opts.readahead
      ++ text_args "--alloc" opts.allocation
      ++ bool_args "--setautoactivation" opts.set_autoactivation

  -- Every property adds arguments, so `properties == 0` is the test for no argument.
  unfoldable pub change_logical_volume :
      Selector → ChangeLogicalVolumeOptions → Exec W LvmError Unit
  unfolding change_args run_quiet_on
  change_logical_volume target opts w = elim (change_args opts) [
    | [] ↦ fail (refused "changing a logical volume requires at least one property") w
    | a ∷ args ↦ run_quiet_on (metadata_command c "lvchange" opts.common ++ a ∷ args) target w
  ]

  unfoldable pub activate_logical_volume :
      Selector → ActivateLogicalVolumeOptions → Exec W LvmError Unit
  unfolding run_quiet_on
  activate_logical_volume target opts =
      run_quiet_on
        (metadata_command c "lvchange" opts.common
          ++ ("-a" ∷ "y" ∷ [])
          ++ switch_args "-K" opts.ignore_activation_skip)
        target

  unfoldable pub deactivate_logical_volume : Selector → CommonOptions → Exec W LvmError Unit
  unfolding run_quiet_on
  deactivate_logical_volume target common =
      run_quiet_on (metadata_command c "lvchange" common ++ ("-a" ∷ "n" ∷ [])) target

  unfoldable pub resize_logical_volume :
      String → Size → ResizeLogicalVolumeOptions → Exec W LvmError Unit
  unfolding run_quiet size_value
  resize_logical_volume name size opts w = elim (direction size) [
    | Ordering.eq ↦
        run_quiet
          (metadata_command c "lvresize" opts.common
            ++ ((size_value size).0 ∷ (size_value size).1 ∷ [])
            ++ switch_args "-r" opts.resize_filesystem
            ++ size_args "--poolmetadatasize" opts.pool_metadata_size_bytes "b"
            ++ size_args "-i" opts.stripes ""
            ++ size_args "-I" opts.stripe_size_bytes "b"
            ++ text_args "--alloc" opts.allocation
            ++ (name ∷ []))
          w
    | _ ↦ fail (refused "resizing a logical volume takes an absolute size") w
  ]

  unfoldable pub rename_logical_volume :
      String → String → String → CommonOptions → Exec W LvmError Unit
  unfolding run_quiet
  rename_logical_volume vg old_name new_name common =
      run_quiet (metadata_command c "lvrename" common ++ (vg ∷ old_name ∷ new_name ∷ []))
