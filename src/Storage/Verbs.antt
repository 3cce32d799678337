-- ===== src/Storage/Verbs.antt =====
-- The verbs on volumes in internal/storage/volumes.go: create, attach, detach, resize, mark for
-- deletion, remove.
use beanstore.Base.{
  str_eq, ℕ, String, Bool, true, false, ◌||◌, Option, none, some, List, [], ◌∷◌, leb, if◌then◌else◌,
}
use beanstore.Base.Exec.{Exec, pure, fail, ◌>>=◌, ◌>>◌}
use beanstore.Config.{Config}
use beanstore.Lvm.Types.{
  bytes, no_common, no_create_thin_volume, no_change, no_activate, no_remove, no_resize,
  CreateThinVolumeOptions, ChangeLogicalVolumeOptions,
}
use beanstore.Lvm.Interface.{Lvm}
use beanstore.Storage.State.{
  State, creating, ready, attached, retired, deleting, snapshot, state_tag, state_text,
}
use beanstore.Storage.Errors.{Error, wrong_state, shrink, has_snapshots, export_in_progress, wrap}
use beanstore.Storage.Pins.{ExportPins, is_pinned}
use beanstore.Storage.Volume.{lv_name, full_name, get_volume, snapshots_of}

-- `a == b` on states, which Go holds as strings.
unfoldable pub is_state : State → State → Bool
is_state a b = str_eq (state_text a) (state_text b)

-- The change that retags from one state to another.
abbrev pub retag : State → State → ChangeLogicalVolumeOptions
retag from to = record no_change { add_tags = state_tag to ∷ []; remove_tags = state_tag from ∷ [] }

-- `if volume.State != … { return &WrongStateError{…} }`
unfoldable pub check_state : {W : Type 0} → String → Bool → State → Exec W Error Unit
check_state id true found = pure tt
check_state id false found = fail (wrong_state id found)

abbrev pub creating_options : CreateThinVolumeOptions
creating_options = record no_create_thin_volume {
  add_tags = state_tag creating ∷ [];
  activate = some false;
}

-- The first snapshot with a live export.
unfoldable pub first_pinned : ExportPins → List String → Option String
unfolding is_pinned
first_pinned pins [] = none
first_pinned pins (s ∷ ss) =
    let rest = first_pinned pins ss in if is_pinned s pins then some s else rest

-- `len(snapshots) > 0 && !force`, and the loop over the pins.
unfoldable pub check_snapshots :
    {W : Type 0} → ExportPins → String → Bool → List String → Exec W Error Unit
unfolding first_pinned
check_snapshots pins id force [] = pure tt
check_snapshots pins id false (s ∷ ss) = fail (has_snapshots id)
check_snapshots pins id true (s ∷ ss) = elim (first_pinned pins (s ∷ ss)) [
  | none ↦ pure tt
  | some pinned ↦ fail (export_in_progress pinned)
]

module _ {W : Type 0} (lvm : Lvm W) (cfg : Config) where
  unfoldable pub create_volume : String → ℕ → Exec W Error Unit
  create_volume id size = do
    wrap (lvm.create_volume cfg.volume_group cfg.thin_pool id size creating_options)
    wrap (lvm.change (lv_name cfg id) (retag creating ready))

  unfoldable pub attach : String → Exec W Error String
  attach id = do
    volume ← get_volume lvm cfg id
    check_state id (is_state volume.state ready) volume.state
    wrap (lvm.change (lv_name cfg id) (retag ready attached))
    wrap (lvm.activate (lv_name cfg id) no_activate)
    volume' ← get_volume lvm cfg id
    pure volume'.path

  unfoldable pub detach : String → Exec W Error Unit
  detach id = do
    volume ← get_volume lvm cfg id
    check_state id (is_state volume.state attached) volume.state
    wrap (lvm.deactivate (lv_name cfg id) no_common)
    wrap (lvm.change (lv_name cfg id) (retag attached ready))

  unfoldable pub resize_volume : String → ℕ → Exec W Error Unit
  resize_volume id size = do
    volume ← get_volume lvm cfg id
    check_state id (is_state volume.state ready || is_state volume.state attached) volume.state
    if leb size volume.size_bytes
        then fail (shrink id volume.size_bytes size)
        else wrap (lvm.resize (full_name cfg id) (bytes size) no_resize)

  unfoldable pub remove_volume : String → Exec W Error Unit
  remove_volume id = wrap (lvm.remove (lv_name cfg id) (record no_remove { force = true }))

  -- The first failure ends the loop; the snapshots before it stay marked.
  unfoldable pub mark_snapshots : List String → Exec W Error Unit
  mark_snapshots [] = pure tt
  mark_snapshots (s ∷ ss) =
      wrap (lvm.change (lv_name cfg s) (retag snapshot deleting)) >> mark_snapshots ss

  unfoldable pub mark_deleting : ExportPins → String → Bool → Exec W Error (List String)
  mark_deleting pins id force = do
    volume ← get_volume lvm cfg id
    check_state id (is_state volume.state ready || is_state volume.state retired) volume.state
    snapshots ← snapshots_of lvm cfg id
    check_snapshots pins id force snapshots
    mark_snapshots snapshots
    wrap (lvm.change (lv_name cfg id) (retag volume.state deleting))
    pure snapshots
