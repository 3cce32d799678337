-- ===== src/Storage/Setup.antt =====
-- internal/storage/storage.go: Setup, the check of the volume group and the pool at startup.
use beanstore.Base.{
  ℕ, ◌*◌, ◌/◌, ◌%◌, ◌^◌, Bool, true, false, ◌||◌, not, List, [], ◌∷◌, cat, contains, ltb, ◌==◌,
  if◌then◌else◌,
}
use beanstore.Base.Exec.{Result, ok, err, Exec, pure, fail, ◌>>=◌, ◌>>◌}
use beanstore.Config.{Config}
use beanstore.Lvm.Types.{
  LogicalVolume, ListLogicalVolumesOptions, no_list, no_common, no_create_thin_pool,
}
use beanstore.Lvm.Errors.{LvmError}
use beanstore.Lvm.Groups.{VolumeGroup, ListVolumeGroupsOptions}
use beanstore.Lvm.Interface.{Lvm}
use beanstore.Storage.Digest.{transfer_chunk_bytes}

-- Why the daemon does not start.
pub data SetupError : Type 0 where
  lookup_failed create_failed unreadable_pool : LvmError → SetupError
  no_group not_a_pool no_pool no_created_pool : SetupError
  unsafe_chunk_size : ℕ → SetupError

unfoldable pub wrap_result_with :
    {A : Type 0} → (LvmError → SetupError) → Result LvmError A → Result SetupError A
wrap_result_with f (ok a) = ok a
wrap_result_with f (err e) = err (f e)

unfoldable pub wrap_with :
    {W A : Type 0} → (LvmError → SetupError) → Exec W LvmError A → Exec W SetupError A
wrap_with f m w = (wrap_result_with f (m w).0, (m w).1)

unfoldable pub check_chunk_size : {W : Type 0} → LogicalVolume → Exec W SetupError Unit
check_chunk_size pool =
    let chunk = pool.chunk_size_bytes in
    if chunk == 0 || not (transfer_chunk_bytes % chunk == 0)
    then fail (unsafe_chunk_size chunk)
    else pure tt

-- The size of a pool that is created; the product wraps around.
unfoldable pub bootstrap_size : Config → VolumeGroup → ℕ
bootstrap_size cfg vg =
    if ltb 0 cfg.pool_size.percent
    then vg.free_bytes / 100 * cfg.pool_size.percent % 2 ^ 64
    else cfg.pool_size.bytes

abbrev pub pool_query : Config → ListLogicalVolumesOptions
pool_query cfg = record no_list {
  vg = cfg.volume_group;
  selection = cat "lv_name = " cfg.thin_pool;
}

-- The read of a pool that was created; none that is found is an error too.
unfoldable pub created_pool : {W : Type 0} → List LogicalVolume → Exec W SetupError Unit
created_pool [] = fail no_created_pool
created_pool (pool ∷ _) = check_chunk_size pool

-- `groups` is ListVolumeGroups of the client.
module _ {W : Type 0} (lvm : Lvm W)
    (groups : ListVolumeGroupsOptions → Exec W LvmError (List VolumeGroup)) (cfg : Config) where
  unfoldable pub create_missing : Bool → VolumeGroup → Exec W SetupError Unit
  create_missing false vg = fail no_pool
  create_missing true vg = do
    wrap_with create_failed
        (lvm.create_pool cfg.volume_group cfg.thin_pool (bootstrap_size cfg vg) no_create_thin_pool)
    pools ← wrap_with unreadable_pool (lvm.list (pool_query cfg))
    created_pool pools

  unfoldable pub check_pools : VolumeGroup → List LogicalVolume → Exec W SetupError Unit
  check_pools vg [] = create_missing cfg.create_pool vg
  check_pools vg (pool ∷ _) =
      if contains "pool" pool.layout then check_chunk_size pool else fail not_a_pool

  unfoldable pub check_groups : List VolumeGroup → Exec W SetupError Unit
  check_groups [] = fail no_group
  check_groups (vg ∷ _) = do
    pools ← wrap_with lookup_failed (lvm.list (pool_query cfg))
    check_pools vg pools

  unfoldable pub setup : Exec W SetupError Unit
  setup = do
    vgs ←
        wrap_with lookup_failed
          (groups (record { common = no_common; selection = cat "vg_name = " cfg.volume_group }))
    check_groups vgs
