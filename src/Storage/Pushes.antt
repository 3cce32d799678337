-- ===== src/Storage/Pushes.antt =====
-- internal/storage/pushes.go: the source's side of a move between nodes.
use beanstore.Base.{String, Bool, true, false, ◌||◌, [], ◌∷◌}
use beanstore.Base.Exec.{Exec, pure, ◌>>=◌, ◌>>◌}
use beanstore.Config.{Config}
use beanstore.Lvm.Types.{no_common, no_change}
use beanstore.Lvm.Interface.{Lvm}
use beanstore.Storage.State.{
  State, ready, pushing, committing, retired, state_tag, transfer_tag, target_tag,
}
use beanstore.Storage.Errors.{Error, wrap}
use beanstore.Storage.Volume.{Volume, lv_name, get_volume}
use beanstore.Storage.Verbs.{is_state, check_state, retag}

module _ {W : Type 0} (lvm : Lvm W) (cfg : Config) where
  unfoldable pub mark_pushing : String → String → String → Exec W Error Unit
  mark_pushing id transfer_id target = do
    volume ← get_volume lvm cfg id
    check_state id (is_state volume.state ready) volume.state
    wrap (
        lvm.change (lv_name cfg id) (record no_change {
          add_tags = state_tag pushing ∷ transfer_tag transfer_id ∷ target_tag target ∷ [];
          remove_tags = state_tag ready ∷ [];
        }))

  unfoldable pub mark_committing : String → Exec W Error Unit
  mark_committing id = do
    volume ← get_volume lvm cfg id
    check_state id (is_state volume.state pushing) volume.state
    wrap (lvm.change (lv_name cfg id) (retag pushing committing))

  unfoldable pub deactivate_if : Bool → String → Exec W Error Unit
  deactivate_if false id = pure tt
  deactivate_if true id = wrap (lvm.deactivate (lv_name cfg id) no_common)

  unfoldable pub deactivate_pushed : Volume → Exec W Error Unit
  deactivate_pushed volume = deactivate_if volume.active volume.id

  -- The change that ends a push: the state tag gives way to `to`, and the push tags go.
  unfoldable pub end_push : String → Volume → State → Exec W Error Unit
  end_push id volume to = wrap (
      lvm.change (lv_name cfg id) (record no_change {
        add_tags = state_tag to ∷ [];
        remove_tags =
            state_tag volume.state
            ∷ transfer_tag volume.transfer
            ∷ target_tag volume.push_target
            ∷ [];
      }))

  unfoldable pub retire_pushed : String → Exec W Error Unit
  retire_pushed id = do
    volume ← get_volume lvm cfg id
    check_state id (is_state volume.state committing) volume.state
    deactivate_pushed volume
    end_push id volume retired

  unfoldable pub abort_push : String → Exec W Error Unit
  abort_push id = do
    volume ← get_volume lvm cfg id
    check_state id (is_state volume.state pushing || is_state volume.state committing) volume.state
    deactivate_pushed volume
    end_push id volume ready
