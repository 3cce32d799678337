-- ===== src/Lvm/Types.antt =====
-- The data of lvm/options.go and lvm/lv.go. A nil pointer is `none`; an unset string is "".
use beanstore.Base.{ℕ, String, Bool, false, Option, none, List, []}

-- A float64 is kept as its bit pattern: the program computes with it once, and what it computes
-- is a parameter.
abbrev pub Float64 : Type 0
Float64 = ℕ

pub record LogicalVolume : Type 0 where
  pub name : String
  pub uuid : String
  pub volume_group : String
  pub size_bytes : ℕ
  pub metadata_size_bytes : ℕ
  pub chunk_size_bytes : ℕ
  pub attributes : String
  pub tags : List String
  pub pool : String
  pub origin : String
  pub path : String
  pub device_path : String
  pub data_percent : Float64
  pub metadata_percent : Float64
  pub active : Bool
  pub layout : List String

pub record CommonOptions : Type 0 where
  pub devices : Option (List String)
  pub autobackup : Option Bool

abbrev pub no_common : CommonOptions
no_common = record { devices = none; autobackup = none }

-- `Selector`: Device, Name, Select, All, or the nil interface.
pub data Selector : Type 0 where
  device : String → Selector
  name : String → Selector
  select : String → Selector
  all nil_selector : Selector

-- `Size`; the flag of a relative size is its sign, true for GrowBy.
pub data Size : Type 0 where
  bytes : ℕ → Size
  extents : ℕ → Size
  percent : ℕ → String → Size
  relative : Size → Bool → Size

pub record CreateThinPoolOptions : Type 0 where
  pub common : CommonOptions
  pub add_tags : List String
  pub chunk_size_bytes : ℕ
  pub metadata_size_bytes : ℕ
  pub activate : Option Bool
  pub permission : String
  pub readahead : String
  pub contiguous : Option Bool
  pub allocation : String
  pub set_activation_skip : Option Bool
  pub ignore_activation_skip : Bool
  pub set_autoactivation : Option Bool
  pub zeroing : Option Bool
  pub discards : String
  pub error_when_full : Option Bool
  pub pool_metadata_spare : Option Bool

abbrev pub no_create_thin_pool : CreateThinPoolOptions
no_create_thin_pool = record {
  common = no_common;
  add_tags = [];
  chunk_size_bytes = 0;
  metadata_size_bytes = 0;
  activate = none;
  permission = "";
  readahead = "";
  contiguous = none;
  allocation = "";
  set_activation_skip = none;
  ignore_activation_skip = false;
  set_autoactivation = none;
  zeroing = none;
  discards = "";
  error_when_full = none;
  pool_metadata_spare = none;
}

-- CreateLogicalVolumeOptions and CreateThinVolumeOptions have the same fields.
pub record CreateThinVolumeOptions : Type 0 where
  pub common : CommonOptions
  pub add_tags : List String
  pub activate : Option Bool
  pub permission : String
  pub readahead : String
  pub contiguous : Option Bool
  pub allocation : String
  pub set_activation_skip : Option Bool
  pub ignore_activation_skip : Bool
  pub set_autoactivation : Option Bool
  pub zeroing : Option Bool
  pub wipe_signatures : Option Bool

abbrev pub no_create_thin_volume : CreateThinVolumeOptions
no_create_thin_volume = record {
  common = no_common;
  add_tags = [];
  activate = none;
  permission = "";
  readahead = "";
  contiguous = none;
  allocation = "";
  set_activation_skip = none;
  ignore_activation_skip = false;
  set_autoactivation = none;
  zeroing = none;
  wipe_signatures = none;
}

-- `pool` is not a field of CreateSnapshotOptions, whose commands have `chunk_size_bytes` instead.
pub record CreateThinSnapshotOptions : Type 0 where
  pub common : CommonOptions
  pub add_tags : List String
  pub pool : String
  pub activate : Option Bool
  pub permission : String
  pub readahead : String
  pub contiguous : Option Bool
  pub allocation : String
  pub set_activation_skip : Option Bool
  pub ignore_activation_skip : Bool
  pub set_autoactivation : Option Bool

abbrev pub no_create_thin_snapshot : CreateThinSnapshotOptions
no_create_thin_snapshot = record {
  common = no_common;
  add_tags = [];
  pool = "";
  activate = none;
  permission = "";
  readahead = "";
  contiguous = none;
  allocation = "";
  set_activation_skip = none;
  ignore_activation_skip = false;
  set_autoactivation = none;
}

pub record ListLogicalVolumesOptions : Type 0 where
  pub common : CommonOptions
  pub vg : String
  pub selection : String
  pub internal : Bool
  pub history : Bool

abbrev pub no_list : ListLogicalVolumesOptions
no_list = record { common = no_common; vg = ""; selection = ""; internal = false; history = false }

pub record RemoveLogicalVolumeOptions : Type 0 where
  pub common : CommonOptions
  pub force : Bool
  pub no_history : Bool

abbrev pub no_remove : RemoveLogicalVolumeOptions
no_remove = record { common = no_common; force = false; no_history = false }

pub record ChangeLogicalVolumeOptions : Type 0 where
  pub common : CommonOptions
  pub add_tags : List String
  pub remove_tags : List String
  pub permission : String
  pub contiguous : Option Bool
  pub zeroing : Option Bool
  pub discards : String
  pub error_when_full : Option Bool
  pub set_activation_skip : Option Bool
  pub readahead : String
  pub allocation : String
  pub set_autoactivation : Option Bool

abbrev pub no_change : ChangeLogicalVolumeOptions
no_change = record {
  common = no_common;
  add_tags = [];
  remove_tags = [];
  permission = "";
  contiguous = none;
  zeroing = none;
  discards = "";
  error_when_full = none;
  set_activation_skip = none;
  readahead = "";
  allocation = "";
  set_autoactivation = none;
}

pub record ActivateLogicalVolumeOptions : Type 0 where
  pub common : CommonOptions
  pub ignore_activation_skip : Bool

abbrev pub no_activate : ActivateLogicalVolumeOptions
no_activate = record { common = no_common; ignore_activation_skip = false }

pub record ResizeLogicalVolumeOptions : Type 0 where
  pub common : CommonOptions
  pub resize_filesystem : Bool
  pub pool_metadata_size_bytes : ℕ
  pub stripes : ℕ
  pub stripe_size_bytes : ℕ
  pub allocation : String

abbrev pub no_resize : ResizeLogicalVolumeOptions
no_resize = record {
  common = no_common;
  resize_filesystem = false;
  pool_metadata_size_bytes = 0;
  stripes = 0;
  stripe_size_bytes = 0;
  allocation = "";
}
