-- ===== src/Lvm/Physical.antt =====
-- The physical volumes of lvm/pv.go: the report of `pvs`, and one function per command.
use mathlib.Core.List.{flatten}
use beanstore.Base.{
  ℕ, String, Bool, Option, none, some, List, [], ◌∷◌, ◌++◌, cat, str_eq, ltb, if◌then◌else◌,
}
use beanstore.Base.Exec.{Result, ok, err, Exec, fail}
use beanstore.Lvm.Types.{CommonOptions, Selector}
use beanstore.Lvm.Errors.{LvmError, refused, bad_report}
use beanstore.Lvm.Client.{Host, Client, command, metadata_command, run}
use beanstore.Lvm.Decimal.{parse_uint, format_uint}
use beanstore.Lvm.Report.{split_list}
use beanstore.Lvm.Volumes.{tag_args, bool_args, text_args, switch_args, run_quiet}
use beanstore.Lvm.Groups.{◌>>=◌}
use beanstore.Lvm.Groups.Commands.{without_autobackup, name_args, run_quiet_on_groups}

pub record PhysicalVolume : Type 0 where
  pub device : String
  pub uuid : String
  pub volume_group : String
  pub size_bytes : ℕ
  pub free_bytes : ℕ
  pub device_size_bytes : ℕ
  pub attributes : String
  pub tags : List String
  pub allocatable : Bool
  pub exported : Bool
  pub missing : Bool
  pub in_use : Bool
  pub duplicate : Bool
  pub metadata_areas : ℕ
  pub used_metadata_areas : ℕ

-- A row of `pvs` as the decoder fills it.
pub record RawPv : Type 0 where
  pub name : String
  pub uuid : String
  pub vg : String
  pub size : String
  pub free : String
  pub dev_size : String
  pub attr : String
  pub tags : String
  pub allocatable : String
  pub exported : String
  pub missing : String
  pub in_use : String
  pub duplicate : String
  pub mda_count : String
  pub mda_used : String

pub record ChangePhysicalVolumeOptions : Type 0 where
  pub common : CommonOptions
  pub add_tags : List String
  pub remove_tags : List String
  pub allocatable : Option Bool
  pub metadata_ignore : Option Bool
  pub regenerate_uuid : Bool

unfoldable pub parse_pv : RawPv → Option PhysicalVolume
parse_pv pv = do
  size ← parse_uint pv.size
  free ← parse_uint pv.free
  device_size ← parse_uint pv.dev_size
  areas ← parse_uint pv.mda_count
  used_areas ← parse_uint pv.mda_used
  some (record {
    device = pv.name;
    uuid = pv.uuid;
    volume_group = pv.vg;
    size_bytes = size;
    free_bytes = free;
    device_size_bytes = device_size;
    attributes = pv.attr;
    tags = split_list pv.tags;
    allocatable = str_eq pv.allocatable "1";
    exported = str_eq pv.exported "1";
    missing = str_eq pv.missing "1";
    in_use = str_eq pv.in_use "1";
    duplicate = str_eq pv.duplicate "1";
    metadata_areas = areas;
    used_metadata_areas = used_areas;
  })

unfoldable pub parse_pvs : List RawPv → Option (List PhysicalVolume)
parse_pvs [] = some []
parse_pvs (pv ∷ pvs) = do volume ← parse_pv pv; volumes ← parse_pvs pvs; some (volume ∷ volumes)

unfoldable pub pvs_of : Option (List (List RawPv)) → Option (List PhysicalVolume)
pvs_of none = none
pvs_of (some report) = parse_pvs (flatten report)

unfoldable pub pvs_args : Client → CommonOptions → String → List String
pvs_args c common selection =
    command c "pvs" common
    ++ ("--reportformat" ∷ "json" ∷ "--units" ∷ "b" ∷ "--nosuffix" ∷ "--binary" ∷ "-o"
        ∷ "pv_name,pv_uuid,vg_name,pv_size,pv_free,dev_size,pv_attr,pv_tags,pv_allocatable,pv_exported,pv_missing,pv_in_use,pv_duplicate,pv_mda_count,pv_mda_used_count"
        ∷ [])
    ++ text_args "-S" selection

-- The size of a pv that is set, with the answer to the confirmation.
unfoldable pub pv_size_args : ℕ → List String
pv_size_args n =
    if ltb 0 n then "--setphysicalvolumesize" ∷ cat (format_uint n) "b" ∷ "-y" ∷ [] else []

unfoldable pub change_pv_args : ChangePhysicalVolumeOptions → List String
change_pv_args opts =
    tag_args "--addtag" opts.add_tags
    ++ tag_args "--deltag" opts.remove_tags
    ++ bool_args "-x" opts.allocatable
    ++ bool_args "--metadataignore" opts.metadata_ignore
    ++ switch_args "-u" opts.regenerate_uuid

module _ {W : Type 0} (h : Host W) (c : Client) where
  -- `unmarshal_pvs` is the decoder of the report.
  unfoldable pub parse_pv_report :
      (String → Option (List (List RawPv)))
      → Result LvmError String
      → Result LvmError (List PhysicalVolume)
  parse_pv_report unmarshal_pvs (err e) = err e
  parse_pv_report unmarshal_pvs (ok output) = elim (pvs_of (unmarshal_pvs output)) [
    | none ↦ err (bad_report output)
    | some volumes ↦ ok volumes
  ]

  unfoldable pub list_physical_volumes :
      (String → Option (List (List RawPv)))
      → CommonOptions
      → String
      → Exec W LvmError (List PhysicalVolume)
  list_physical_volumes unmarshal_pvs common selection = without_autobackup h c common (λ w. (
    parse_pv_report unmarshal_pvs (run h (pvs_args c common selection) w).0,
    (run h (pvs_args c common selection) w).1,
  ))

  unfoldable pub create_physical_volume : String → CommonOptions → Bool → Exec W LvmError Unit
  create_physical_volume device common force =
      without_autobackup h c common
        (run_quiet h c (command c "pvcreate" common ++ switch_args "-f" force ++ (device ∷ [])))

  unfoldable pub remove_physical_volume : String → CommonOptions → Exec W LvmError Unit
  remove_physical_volume device common =
      without_autobackup h c common (run_quiet h c (command c "pvremove" common ++ (device ∷ [])))

  -- Every property adds arguments, so `properties == 0` is the test for no argument.
  unfoldable pub change_physical_volume :
      Selector → ChangePhysicalVolumeOptions → Exec W LvmError Unit
  change_physical_volume target opts w = elim (change_pv_args opts) [
    | [] ↦ fail (refused "changing a physical volume requires at least one property") w
    | a ∷ args ↦
        run_quiet_on_groups h c (metadata_command c "pvchange" opts.common ++ a ∷ args) target w
  ]

  unfoldable pub resize_physical_volume : String → CommonOptions → ℕ → Exec W LvmError Unit
  resize_physical_volume device common size_bytes =
      run_quiet h c
        (metadata_command c "pvresize" common ++ pv_size_args size_bytes ++ (device ∷ []))

  unfoldable pub display_physical_volume : String → CommonOptions → Bool → Exec W LvmError String
  display_physical_volume device common maps =
      without_autobackup h c common
        (run h (command c "pvdisplay" common ++ switch_args "-m" maps ++ (device ∷ [])))

  unfoldable pub scan_physical_volumes : CommonOptions → String → Bool → Exec W LvmError Unit
  scan_physical_volumes common device autoactivate = without_autobackup h c common (
      run_quiet h c (
        command c "pvscan" common
        ++ ("--cache" ∷ [])
        ++ switch_args "-aay" autoactivate
        ++ name_args device))

  unfoldable pub check_physical_volume : String → CommonOptions → Exec W LvmError Unit
  check_physical_volume device common =
      without_autobackup h c common (run_quiet h c (command c "pvck" common ++ (device ∷ [])))

  unfoldable pub dump_physical_volume : String → String → CommonOptions → Exec W LvmError String
  dump_physical_volume device kind common =
      without_autobackup h c common
        (run h (command c "pvck" common ++ ("--dump" ∷ kind ∷ device ∷ [])))
