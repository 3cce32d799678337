-- ===== src/Examples/Start.antt =====
-- A start of the daemon on a node whose pool exists.
use beanstore.Base.{
  ◌≡◌, refl, ◌≤◌, ◌*◌, ◌/◌, arith, false, true, some, [], ◌∷◌, contains, cut_prefix, cat,
}
use beanstore.Base.Exec.{ok}
use beanstore.Config.{Config}
use beanstore.Lvm.Groups.{VolumeGroup}
use beanstore.Storage.Digest.{transfer_chunk_bytes}
use beanstore.Storage.Setup.{
  wrap_with, wrap_result_with, check_groups, check_pools, check_chunk_size, setup, bootstrap_size,
}
use beanstore.Storage.Starting.{HasPool, setup_finds_pool, bootstrap_fits}
use beanstore.Examples.Lawful.{toy_laws}
use beanstore.Examples.Toy.{World, toy, toy_config, lv_of, found, select_rows}

abbrev vg0 : VolumeGroup
vg0 = record {
  name = "vg";
  uuid = "";
  size_bytes = 1073741824;
  free_bytes = 1073741824;
  extent_size_bytes = 4194304;
  extents = 256;
  free_extents = 256;
  pv_count = 1;
  lv_count = 1;
  snapshot_count = 0;
  missing_pv_count = 0;
  tags = [];
  attributes = "";
  exported = false;
  partial = false;
  shared = false;
  autoactivation = true;
}

abbrev with_pool : World
with_pool = some (record {
  lv = record (lv_of "pool" [] 536870912) {
    chunk_size_bytes = 65536;
    layout = "thin" ∷ "pool" ∷ [];
  };
  skip = false;
})

starts : (setup toy (λ q w. (ok (vg0 ∷ []), w)) toy_config with_pool).0 ≡ ok tt
unfolding setup wrap_with wrap_result_with check_groups check_pools check_chunk_size
    transfer_chunk_bytes contains cut_prefix cat found select_rows
starts = refl

setup_finds_pool_example :
    HasPool toy_config
      (toy_laws.view with_pool "pool")
      (toy_laws.view (setup toy (λ q w. (ok (vg0 ∷ []), w)) toy_config with_pool).1 "pool")
setup_finds_pool_example =
    setup_finds_pool toy (λ q w. (ok (vg0 ∷ []), w)) toy_config toy_laws with_pool (λ q w j. refl)
      starts

abbrev ninety : Config
ninety = record toy_config { pool_size = record { bytes = 0; percent = 90 } }

bootstrap_fits_example :
    (bootstrap_size ninety vg0 ≡ vg0.free_bytes / 100 * 90)
    × (bootstrap_size ninety vg0 ≤ vg0.free_bytes)
bootstrap_fits_example = bootstrap_fits ninety vg0 (omega arith) (omega arith) (omega arith)
