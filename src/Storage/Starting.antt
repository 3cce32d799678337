-- ===== src/Storage/Starting.antt =====
-- What a start of the daemon has checked once Setup of internal/storage/storage.go succeeds.
use mathlib.Core.Path.{subst}
use beanstore.Base.{
  ◌≡◌, refl, sym, ap, ◌∙◌, ◌⊎◌, inl, inr, Option, none, String, ℕ, zero, suc, ◌≤◌, ◌*◌, ◌/◌, ◌%◌,
  ◌<◌, Bool, true, false, ◌||◌, not, some, List, [], ◌∷◌, cat, contains, ◌==◌, arith, Bool-cases,
}
use beanstore.Base.Exec.{Result, ok, err, Exec, bind_rule}
use beanstore.Config.{Config}
use beanstore.Lvm.Types.{LogicalVolume, no_common, no_create_thin_pool}
use beanstore.Lvm.Errors.{LvmError}
use beanstore.Lvm.Groups.{VolumeGroup, ListVolumeGroupsOptions}
use beanstore.Lvm.Interface.{Lvm}
use beanstore.Lvm.Laws.{Entry, rows}
use beanstore.Storage.Digest.{transfer_chunk_bytes}
use beanstore.Storage.Node.{NodeLaws}
use beanstore.Storage.Setup.{
  SetupError, create_failed, unreadable_pool, lookup_failed, wrap_with, wrap_result_with,
  check_chunk_size, bootstrap_size, pool_query, created_pool, create_missing, check_pools,
  check_groups, setup,
}

wrap_result_with-ok :
    {A : Type 0} (f : LvmError → SetupError) (r : Result LvmError A) (a : A)
    → wrap_result_with f r ≡ ok a
    → r ≡ ok a
unfolding wrap_result_with
wrap_result_with-ok f (ok b) a h = cc h
wrap_result_with-ok f (err e) a h = absurd (cc h)

-- The chunk size of an lv is above 0 and divides the chunk of transfers.
abbrev pub Divides : LogicalVolume → Type 0
Divides pool = (0 < pool.chunk_size_bytes) × (transfer_chunk_bytes % pool.chunk_size_bytes ≡ 0)

-- What stands under the pool's name before and after: a thin pool that stays as it is, or nothing
-- and then the lv that was created, which a configuration has to allow.
abbrev pub HasPool : Config → Option Entry → Option Entry → Type 0
HasPool cfg before after =
    ((e : Entry) × (before ≡ some e)
      × (after ≡ some e)
      × (contains "pool" e.lv.layout ≡ true)
      × Divides e.lv)
    ⊎ ((before ≡ none) × (cfg.create_pool ≡ true) × ((e : Entry) × (after ≡ some e) × Divides e.lv))

check_chunk_size_rule :
    {W : Type 0} (Q : Result SetupError Unit × W → Type 0) (pool : LogicalVolume) (w : W)
    → (Divides pool → Q (ok tt, w))
    → ((x : SetupError) → Q (err x, w))
    → Q (check_chunk_size pool w)
unfolding check_chunk_size
check_chunk_size_rule Q pool w good bad =
    let size = pool.chunk_size_bytes in
    elim (Bool-cases (size == 0 || not (transfer_chunk_bytes % size == 0))) [
      | inl refuses ↦ rw refuses (bad _)
      | inr passes ↦ rw passes (good (ground arith, ground arith))
    ]

no_rows : (o : Option Entry) → [] ≡ rows o → o ≡ none
no_rows none h = refl
no_rows (some e) h = absurd (cc h)

first_row :
    (o : Option Entry) (pool : LogicalVolume) (rest : List LogicalVolume)
    → pool ∷ rest ≡ rows o
    → (e : Entry) × (o ≡ some e) × (e.lv ≡ pool)
first_row none pool rest h = absurd (cc h)
first_row (some e) pool rest h = (e, refl, cc h)

module _ {W : Type 0} (lvm : Lvm W)
    (groups : ListVolumeGroupsOptions → Exec W LvmError (List VolumeGroup)) (cfg : Config)
    (laws : NodeLaws lvm cfg) where
  abbrev pool_in : W → Option Entry
  pool_in w = laws.view w cfg.thin_pool

  -- A call that ends well only where `before` and the state after it are as HasPool says.
  abbrev Safe : Option Entry → Result SetupError Unit × W → Type 0
  Safe before r = r.0 ≡ ok tt → HasPool cfg before (pool_in r.1)

  -- The pools that a report on the pool's name has, in the state before it and after it.
  listed :
      (w : W) (pools : List LogicalVolume)
      → (lvm.list (pool_query cfg) w).0 ≡ ok pools
      → (pools ≡ rows (pool_in w)) × (pool_in (lvm.list (pool_query cfg) w).1 ≡ pool_in w)
  listed w pools h =
      (laws.list_named cfg.thin_pool w pools h, laws.list_keeps (pool_query cfg) w cfg.thin_pool)

  created_pool-Safe :
      (pools : List LogicalVolume) (w : W)
      → cfg.create_pool ≡ true
      → pools ≡ rows (pool_in w)
      → Safe none (created_pool pools w)
  unfolding created_pool
  created_pool-Safe [] w allowed h = λ k. absurd (cc k)
  created_pool-Safe (pool ∷ rest) w allowed h =
      let (e, at, same) = first_row (pool_in w) pool rest h in
      check_chunk_size_rule (Safe none) pool w
        (λ good k. inr (refl, allowed, (e, at, subst Divides (sym same) good)))
        (λ x k. absurd (cc k))

  create_missing-Safe :
      (b : Bool) (vg : VolumeGroup) (w : W)
      → cfg.create_pool ≡ b
      → Safe none (create_missing lvm groups cfg b vg w)
  unfolding create_missing wrap_with
  create_missing-Safe false vg w allowed = λ k. absurd (cc k)
  create_missing-Safe true vg w allowed =
      bind_rule (Safe none)
        (wrap_with create_failed (
          lvm.create_pool cfg.volume_group cfg.thin_pool (bootstrap_size cfg vg)
            no_create_thin_pool))
        _ w
        (λ a e.
          bind_rule (Safe none) (wrap_with unreadable_pool (lvm.list (pool_query cfg))) _ _
            (λ pools h.
              let (row, kept) = listed _ pools (wrap_result_with-ok unreadable_pool _ pools h) in
              created_pool-Safe pools _ allowed (row ∙ ap rows (sym kept)))
            (λ x h k. absurd (cc k)))
        (λ x h k. absurd (cc k))

  check_pools-Safe :
      (before : Option Entry) (vg : VolumeGroup) (pools : List LogicalVolume) (w : W)
      → pools ≡ rows before
      → pool_in w ≡ before
      → Safe before (check_pools lvm groups cfg vg pools w)
  unfolding check_pools
  check_pools-Safe before vg [] w h same =
      rw (no_rows before h) (create_missing-Safe cfg.create_pool vg w refl)
  check_pools-Safe before vg (pool ∷ rest) w h same =
      let (e, at, is) = first_row before pool rest h in
      elim (Bool-cases (contains "pool" pool.layout)) [
        | inl is_pool ↦ rw is_pool (
            check_chunk_size_rule (Safe before) pool w
              (λ good k. inl (
                e,
                at,
                same ∙ at,
                ap (λ (x : LogicalVolume). contains "pool" x.layout) is ∙ is_pool,
                subst Divides (sym is) good,
              ))
              (λ x k. absurd (cc k)))
        | inr other ↦ rw other (λ k. absurd (cc k))
      ]

  check_groups-Safe :
      (vgs : List VolumeGroup) (w : W) → Safe (pool_in w) (check_groups lvm groups cfg vgs w)
  unfolding check_groups wrap_with
  check_groups-Safe [] w = λ k. absurd (cc k)
  check_groups-Safe (vg ∷ _) w =
      bind_rule (Safe (pool_in w)) (wrap_with lookup_failed (lvm.list (pool_query cfg))) _ w
        (λ pools h.
          let (row, kept) = listed w pools (wrap_result_with-ok lookup_failed _ pools h) in
          check_pools-Safe (pool_in w) vg pools _ row kept)
        (λ x h k. absurd (cc k))

  -- Where the report on volume groups changes no lv, and Setup succeeds: under the pool's name
  -- there was a thin pool, which is still there as it was; or there was nothing, the configuration
  -- allows to create the pool, and there is an lv now. In both cases its chunk size is above 0 and
  -- divides the chunk of transfers.
  pub setup_finds_pool :
      (w : W)
      → ((q : ListVolumeGroupsOptions) (w' : W) (j : String)
          → laws.view (groups q w').1 j ≡ laws.view w' j)
      → (setup lvm groups cfg w).0 ≡ ok tt
      → HasPool cfg (laws.view w cfg.thin_pool) (laws.view (setup lvm groups cfg w).1 cfg.thin_pool)
  unfolding setup wrap_with
  setup_finds_pool w quiet =
      let q : ListVolumeGroupsOptions = record {
        common = no_common;
        selection = cat "vg_name = " cfg.volume_group;
      } in
      bind_rule (Safe (pool_in w)) (wrap_with lookup_failed (groups q)) _ w
        (λ vgs h.
          subst (λ o. Safe o (check_groups lvm groups cfg vgs (groups q w).1))
            (quiet q w cfg.thin_pool) (check_groups-Safe vgs (groups q w).1))
        (λ x h k. absurd (cc k))

mul_le_right : (q p n : ℕ) → p ≤ n → q * p ≤ q * n
mul_le_right zero p n h = omega arith
mul_le_right (suc q) p n h = let k = mul_le_right q p n h in omega arith

-- A pool that is created with a percentage of at most 100 has at most as many bytes as the volume
-- group has free, which is a number of 64 bits: the product does not wrap around.
pub bootstrap_fits :
    (cfg : Config) (vg : VolumeGroup)
    → 0 < cfg.pool_size.percent
    → cfg.pool_size.percent ≤ 100
    → vg.free_bytes < 18446744073709551616
    → (bootstrap_size cfg vg ≡ vg.free_bytes / 100 * cfg.pool_size.percent)
      × (bootstrap_size cfg vg ≤ vg.free_bytes)
unfolding bootstrap_size
bootstrap_fits cfg vg set most small =
    let k = mul_le_right (vg.free_bytes / 100) cfg.pool_size.percent 100 most in
    (ground arith, ground arith)
