-- ===== src/Lvm/Extending.antt =====
-- The logical volume commands of lvm/lv.go that the daemon does not call.
use Prim.Native.Nat.{Ordering}
use beanstore.Base.{ℕ, String, Bool, Option, List, [], ◌∷◌, ◌++◌, cat}
use beanstore.Base.Exec.{Exec, fail}
use beanstore.Lvm.Types.{CommonOptions, Size}
use beanstore.Lvm.Errors.{LvmError, refused}
use beanstore.Lvm.Client.{Host, Client, command, metadata_command, run}
use beanstore.Lvm.Decimal.{format_uint}
use beanstore.Lvm.Volumes.{
  tag_args, bool_args, text_args, size_args, switch_args, size_value, direction, run_quiet,
}
use beanstore.Lvm.Groups.Commands.{without_autobackup, name_args}

pub record CreateLogicalVolumeOptions : Type 0 where
  pub common : CommonOptions
  pub add_tags : List String
  pub activate : Option Bool
  pub permission : String
  pub readahead : String
  pub contiguous : Option Bool
  pub allocation : String
  pub set_activation_skip : Option Bool
  pub ignore_activation_skip : Bool
  pub set_autoactivation : Option Bool
  pub zeroing : Option Bool
  pub wipe_signatures : Option Bool

pub record CreateSnapshotOptions : Type 0 where
  pub common : CommonOptions
  pub add_tags : List String
  pub chunk_size_bytes : ℕ
  pub activate : Option Bool
  pub permission : String
  pub readahead : String
  pub contiguous : Option Bool
  pub allocation : String
  pub set_activation_skip : Option Bool
  pub ignore_activation_skip : Bool
  pub set_autoactivation : Option Bool

pub record ExtendLogicalVolumeOptions : Type 0 where
  pub common : CommonOptions
  pub resize_filesystem : Bool
  pub pool_metadata_size_bytes : ℕ
  pub stripes : ℕ
  pub stripe_size_bytes : ℕ
  pub allocation : String

module _ {W : Type 0} (h : Host W) (c : Client) where
  unfoldable pub create_logical_volume :
      String → String → ℕ → CreateLogicalVolumeOptions → Exec W LvmError Unit
  create_logical_volume vg name size opts = run_quiet h c (
      metadata_command c "lvcreate" opts.common
      ++ ("-L" ∷ cat (format_uint size) "b" ∷ "-n" ∷ name ∷ [])
      ++ tag_args "--addtag" opts.add_tags
      ++ bool_args "-a" opts.activate
      ++ text_args "-p" opts.permission
      ++ text_args "-r" opts.readahead
      ++ bool_args "-C" opts.contiguous
      ++ text_args "--alloc" opts.allocation
      ++ bool_args "-k" opts.set_activation_skip
      ++ switch_args "-K" opts.ignore_activation_skip
      ++ bool_args "--setautoactivation" opts.set_autoactivation
      ++ bool_args "-Z" opts.zeroing
      ++ bool_args "-W" opts.wipe_signatures
      ++ (vg ∷ []))

  unfoldable pub create_sized_snapshot :
      String → String → String → ℕ → CreateSnapshotOptions → Exec W LvmError Unit
  create_sized_snapshot vg origin name size opts = run_quiet h c (
      metadata_command c "lvcreate" opts.common
      ++ ("-s" ∷ "-L" ∷ cat (format_uint size) "b" ∷ "-n" ∷ name ∷ [])
      ++ tag_args "--addtag" opts.add_tags
      ++ size_args "-c" opts.chunk_size_bytes "b"
      ++ bool_args "-a" opts.activate
      ++ text_args "-p" opts.permission
      ++ text_args "-r" opts.readahead
      ++ bool_args "-C" opts.contiguous
      ++ text_args "--alloc" opts.allocation
      ++ bool_args "-k" opts.set_activation_skip
      ++ switch_args "-K" opts.ignore_activation_skip
      ++ bool_args "--setautoactivation" opts.set_autoactivation
      ++ (cat vg (cat "/" origin) ∷ []))

  unfoldable pub extend_logical_volume :
      String → Size → ExtendLogicalVolumeOptions → Exec W LvmError Unit
  extend_logical_volume name size opts w = elim (direction size) [
    | Ordering.lt ↦ fail (refused "extending a logical volume cannot use ShrinkBy") w
    | _ ↦
        run_quiet h c
          (metadata_command c "lvextend" opts.common
            ++ ((size_value size).0 ∷ (size_value size).1 ∷ [])
            ++ switch_args "-r" opts.resize_filesystem
            ++ size_args "--poolmetadatasize" opts.pool_metadata_size_bytes "b"
            ++ size_args "-i" opts.stripes ""
            ++ size_args "-I" opts.stripe_size_bytes "b"
            ++ text_args "--alloc" opts.allocation
            ++ (name ∷ []))
          w
  ]

  unfoldable pub extend_logical_volume_by_policy : String → CommonOptions → Exec W LvmError Unit
  extend_logical_volume_by_policy name common =
      run_quiet h c (metadata_command c "lvextend" common ++ ("--usepolicies" ∷ name ∷ []))

  unfoldable pub reduce_logical_volume : String → Size → CommonOptions → Bool → Exec W LvmError Unit
  reduce_logical_volume name size common resize_filesystem w = elim (direction size) [
    | Ordering.gt ↦ fail (refused "reducing a logical volume cannot use GrowBy") w
    | _ ↦
        run_quiet h c
          (metadata_command c "lvreduce" common
            ++ ((size_value size).0 ∷ (size_value size).1 ∷ "-f" ∷ [])
            ++ switch_args "-r" resize_filesystem
            ++ (name ∷ []))
          w
  ]

  unfoldable pub display_logical_volume : String → CommonOptions → Bool → Exec W LvmError String
  display_logical_volume name common maps =
      without_autobackup h c common
        (run h (command c "lvdisplay" common ++ switch_args "-m" maps ++ name_args name))

  unfoldable pub scan_logical_volumes : CommonOptions → Bool → Exec W LvmError Unit
  scan_logical_volumes common internal =
      without_autobackup h c common
        (run_quiet h c (command c "lvscan" common ++ switch_args "-a" internal))
