-- ===== src/Lvm/Groups.antt =====
-- The volume groups of lvm/vg.go: the report of `vgs`, and in Commands what changes groups.
pub mod Commands
use mathlib.Core.List.{flatten}
use beanstore.Base.{ℕ, String, Bool, Option, none, some, List, [], ◌∷◌, ◌++◌, str_eq}
use beanstore.Base.Exec.{Result, ok, err, Exec, fail}
use beanstore.Lvm.Types.{CommonOptions}
use beanstore.Lvm.Errors.{LvmError, bad_report}
use beanstore.Lvm.Client.{Host, Client, command, run}
use beanstore.Lvm.Decimal.{parse_uint}
use beanstore.Lvm.Report.{split_list}
use beanstore.Lvm.Volumes.{text_args, autobackup_refused}

pub record VolumeGroup : Type 0 where
  pub name : String
  pub uuid : String
  pub size_bytes : ℕ
  pub free_bytes : ℕ
  pub extent_size_bytes : ℕ
  pub extents : ℕ
  pub free_extents : ℕ
  pub pv_count : ℕ
  pub lv_count : ℕ
  pub snapshot_count : ℕ
  pub missing_pv_count : ℕ
  pub tags : List String
  pub attributes : String
  pub exported : Bool
  pub partial : Bool
  pub shared : Bool
  pub autoactivation : Bool

pub record ListVolumeGroupsOptions : Type 0 where
  pub common : CommonOptions
  pub selection : String

-- A row of `vgs` as the decoder fills it.
pub record RawVg : Type 0 where
  pub name : String
  pub uuid : String
  pub size : String
  pub free : String
  pub extent_size : String
  pub extent_count : String
  pub free_count : String
  pub pv_count : String
  pub lv_count : String
  pub snap_count : String
  pub missing_pv_count : String
  pub tags : String
  pub attr : String
  pub exported : String
  pub partial : String
  pub shared : String
  pub autoactivation : String

infixl 5 ◌>>=◌
abbrev pub ◌>>=◌ : {A B : Type 0} → Option A → (A → Option B) → Option B
none >>= f = none
some a >>= f = f a

-- The numbers are parsed in an order that Go leaves open; any that fails refuses the report.
unfoldable pub parse_vg : RawVg → Option VolumeGroup
parse_vg vg = do
  size ← parse_uint vg.size
  free ← parse_uint vg.free
  extent_size ← parse_uint vg.extent_size
  extents ← parse_uint vg.extent_count
  free_extents ← parse_uint vg.free_count
  pvs ← parse_uint vg.pv_count
  lvs ← parse_uint vg.lv_count
  snapshots ← parse_uint vg.snap_count
  missing ← parse_uint vg.missing_pv_count
  some (record {
    name = vg.name;
    uuid = vg.uuid;
    size_bytes = size;
    free_bytes = free;
    extent_size_bytes = extent_size;
    extents = extents;
    free_extents = free_extents;
    pv_count = pvs;
    lv_count = lvs;
    snapshot_count = snapshots;
    missing_pv_count = missing;
    tags = split_list vg.tags;
    attributes = vg.attr;
    exported = str_eq vg.exported "1";
    partial = str_eq vg.partial "1";
    shared = str_eq vg.shared "1";
    autoactivation = str_eq vg.autoactivation "1";
  })

unfoldable pub parse_vgs : List RawVg → Option (List VolumeGroup)
parse_vgs [] = some []
parse_vgs (vg ∷ vgs) = do group ← parse_vg vg; groups ← parse_vgs vgs; some (group ∷ groups)

unfoldable pub vgs_of : Option (List (List RawVg)) → Option (List VolumeGroup)
vgs_of none = none
vgs_of (some report) = parse_vgs (flatten report)

unfoldable pub vgs_args : Client → ListVolumeGroupsOptions → List String
vgs_args c opts =
    command c "vgs" opts.common
    ++ ("--reportformat" ∷ "json" ∷ "--units" ∷ "b" ∷ "--nosuffix" ∷ "--binary" ∷ "-o"
        ∷ "vg_name,vg_uuid,vg_size,vg_free,vg_extent_size,vg_extent_count,vg_free_count,pv_count,lv_count,snap_count,vg_missing_pv_count,vg_tags,vg_attr,vg_exported,vg_partial,vg_shared,vg_autoactivation"
        ∷ [])
    ++ text_args "-S" opts.selection

-- `unmarshal_vgs` is the decoder of the report.
module _ {W : Type 0} (h : Host W) (c : Client)
    (unmarshal_vgs : String → Option (List (List RawVg))) where
  unfoldable pub parse_vg_report : Result LvmError String → Result LvmError (List VolumeGroup)
  parse_vg_report (err e) = err e
  parse_vg_report (ok output) = elim (vgs_of (unmarshal_vgs output)) [
    | none ↦ err (bad_report output)
    | some groups ↦ ok groups
  ]

  unfoldable pub list_volume_groups : ListVolumeGroupsOptions → Exec W LvmError (List VolumeGroup)
  list_volume_groups opts w = elim opts.common.autobackup [
    | some _ ↦ fail (autobackup_refused h c) w
    | none ↦ (parse_vg_report (run h (vgs_args c opts) w).0, (run h (vgs_args c opts) w).1)
  ]
