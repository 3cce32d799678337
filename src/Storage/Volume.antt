-- ===== src/Storage/Volume.antt =====
-- Reading volumes: volumeFromLV, ListVolumes, GetVolume, VolumeExists and SnapshotsOf of
-- internal/storage/volumes.go.
use beanstore.Base.{
  ℕ, String, Bool, true, false, ◌&&◌, not, Option, none, some, List, [], ◌∷◌, cat, str_eq,
  if◌then◌else◌,
}
use beanstore.Base.Exec.{Result, ok, err, Exec, pure, ◌>>=◌}
use beanstore.Config.{Config}
use beanstore.Lvm.Types.{LogicalVolume, ListLogicalVolumesOptions, no_list, Selector, name}
use beanstore.Lvm.Interface.{Lvm}
use beanstore.Storage.State.{
  State, snapshot, unknown, state_of, tag_value, origin_tag_prefix, transfer_tag_prefix,
  target_tag_prefix, rollback_target_tag_prefix,
}
use beanstore.Storage.Errors.{Error, not_found, wrap}

pub record Volume : Type 0 where
  pub id : String
  pub state : State
  pub size_bytes : ℕ
  pub used_bytes : ℕ
  pub path : String
  pub origin : String
  pub origin_tagged : Bool
  pub active : Bool
  pub transfer : String
  pub push_target : String
  pub rollback_target : String

unfoldable pub state_or_unknown : Option State → State
state_or_unknown none = unknown
state_or_unknown (some s) = s

is_snapshot : State → Bool
is_snapshot snapshot = true
is_snapshot _ = false

unfoldable pub is_owned : LogicalVolume → Bool
is_owned lv = elim (state_of lv.tags) [ none ↦ false | some _ ↦ true ]

-- The selections `lv_name = id` and `pool_lv = pool` within the configured vg.
abbrev pub by_name : Config → String → ListLogicalVolumesOptions
by_name cfg id = record no_list { vg = cfg.volume_group; selection = cat "lv_name = " id }

abbrev pub in_pool : Config → ListLogicalVolumesOptions
in_pool cfg = record no_list { vg = cfg.volume_group; selection = cat "pool_lv = " cfg.thin_pool }

-- lvm.Name(cfg.VolumeGroup + "/" + id)
abbrev pub full_name : Config → String → String
full_name cfg id = cat cfg.volume_group (cat "/" id)

abbrev pub lv_name : Config → String → Selector
lv_name cfg id = name (full_name cfg id)

module _ {W : Type 0} (lvm : Lvm W) where
  unfoldable pub volume_from_lv : LogicalVolume → Volume
  unfolding is_snapshot state_or_unknown
  volume_from_lv lv =
      let state = state_or_unknown (state_of lv.tags) in
      let tag = tag_value lv.tags origin_tag_prefix in
      let tagged = not (str_eq tag "") in
      record {
        id = lv.name;
        state = state;
        size_bytes = lv.size_bytes;
        used_bytes = lvm.percent_of lv.size_bytes lv.data_percent;
        path = lv.path;
        origin = if not tagged && is_snapshot state then lv.origin else tag;
        origin_tagged = tagged;
        active = lv.active;
        transfer = tag_value lv.tags transfer_tag_prefix;
        push_target = tag_value lv.tags target_tag_prefix;
        rollback_target = tag_value lv.tags rollback_target_tag_prefix;
      }

  -- The loop of ListVolumes: foreign lvs are skipped.
  unfoldable pub owned_volumes : List LogicalVolume → List Volume
  owned_volumes [] = []
  owned_volumes (lv ∷ lvs) =
      let rest = owned_volumes lvs in if is_owned lv then volume_from_lv lv ∷ rest else rest

  module _ (cfg : Config) where
    unfoldable pub list_volumes : Exec W Error (List Volume)
    unfolding wrap owned_volumes
    list_volumes = do lvs ← wrap (lvm.list (in_pool cfg)); pure (owned_volumes lvs)

    unfoldable pub volume_exists : String → Exec W Error Bool
    unfolding wrap
    volume_exists id = do
      lvs ← wrap (lvm.list (by_name cfg id))
      pure (elim lvs [ [] ↦ false | _ ∷ _ ↦ true ])

    unfoldable pub head_volume : String → List LogicalVolume → Result Error Volume
    head_volume id [] = err (not_found id)
    head_volume id (lv ∷ _) = if is_owned lv then ok (volume_from_lv lv) else err (not_found id)

    unfoldable pub get_volume : String → Exec W Error Volume
    unfolding wrap head_volume
    get_volume id = do lvs ← wrap (lvm.list (by_name cfg id)); λ w. (head_volume id lvs, w)

    unfoldable pub snapshots_in : String → List Volume → List String
    unfolding is_snapshot
    snapshots_in id [] = []
    snapshots_in id (v ∷ vs) =
        let rest = snapshots_in id vs in
        if is_snapshot v.state && str_eq v.origin id then v.id ∷ rest else rest

    unfoldable pub snapshots_of : String → Exec W Error (List String)
    unfolding list_volumes snapshots_in
    snapshots_of id = do volumes ← list_volumes; pure (snapshots_in id volumes)
