-- ===== src/Storage/Pushing.antt =====
-- The start of a push in internal/storage/pushes.go: READY to PUSHING to COMMITTING.
pub mod Ending
pub mod Stages
use mathlib.Core.Path.{subst}
use beanstore.Base.{
  cut_prefix, cat, ◌≡◌, ◌≢◌, refl, ap, sym, ◌∙◌, inl, inr, String, Bool, true, false, ◌||◌, some,
  [], ◌∷◌,
}
use beanstore.Base.Exec.{Result, err, Exec, ◌>>=◌, ◌>>◌}
use beanstore.Config.{Config}
use beanstore.Lvm.Types.{ChangeLogicalVolumeOptions, no_change, no_common}
use beanstore.Lvm.Interface.{Lvm}
use beanstore.Lvm.Errors.{LvmError}
use beanstore.Lvm.Laws.{Entry, View}
use beanstore.Storage.State.{
  State, ready, pushing, committing, retired, unknown, state_text, state_tag, transfer_tag,
  target_tag,
}
use beanstore.Storage.Errors.{Error, lvm_failed, wrap}
use beanstore.Storage.Volume.{Volume, volume_from_lv, get_volume, lv_name}
use beanstore.Storage.Verbs.{is_state, check_state, retag}
use beanstore.Storage.Pushes.{
  mark_pushing, mark_committing, retire_pushed, abort_push, deactivate_if, deactivate_pushed,
  end_push,
}
use beanstore.Storage.Tags.Values.{values_of}
use beanstore.Storage.Attaching.{retag-Swaps}
use beanstore.Storage.Node.{
  NodeLaws, state_in, entry_state, Same, Same-trans, IsTagged, IsTagged-Same, SameBut-trans,
  Same-refl,
}
use beanstore.Storage.Node.Changes.{
  put_self, Puts, Puts-self, Swaps, Retagged, change_Retagged, Same-Retagged,
}
use beanstore.Storage.Node.Calm.{Calm, Calm-trans, Same-Calm, Puts-Calm}
use beanstore.Storage.Node.Guard.{guard_rule}
use beanstore.Storage.Node.Ends.{
  Ends, Refused-Ends, is_state-eq, is_active, wrap_rule, wrap_last_rule,
}

abbrev pushing_options : String → String → ChangeLogicalVolumeOptions
pushing_options transfer_id target = record no_change {
  add_tags = state_tag pushing ∷ transfer_tag transfer_id ∷ target_tag target ∷ [];
  remove_tags = state_tag ready ∷ [];
}

pushing_options-Swaps :
    (transfer_id target : String) → Swaps (pushing_options transfer_id target) ready pushing
unfolding state_tag transfer_tag target_tag values_of cut_prefix cat
pushing_options-Swaps transfer_id target = record { adds = refl; removes = refl }

module _ {W : Type 0} (lvm : Lvm W) (cfg : Config) (laws : NodeLaws lvm cfg) where
  -- A move of one volume from one state to another that is done whole or not at all.
  abbrev pub Switches : String → State → State → View → Result Error Unit × W → Type 0
  Switches id from to v r =
      Ends id (λ s. is_state s from) v (λ _ v'. (state_in v id ≡ some from) × Retagged id to v v')
        (λ _. ⊥) r.0 (laws.view r.1)

  -- A verb whose body is one change of tags.
  switches :
      (id : String) (from to : State) (q : ChangeLogicalVolumeOptions) (w : W)
      → Swaps q from to
      → from ≢ unknown
      → to ≢ from
      → IsTagged (laws.view w)
      → Switches id from to (laws.view w) (
          (get_volume lvm cfg id >>= λ v.
          check_state id (is_state v.state from) v.state >> wrap (lvm.change (lv_name cfg id) q))
            w)
  switches id from to q w swaps readable moved t =
      guard_rule lvm cfg laws (Switches id from to (laws.view w)) id (λ s. is_state s from) _ w
        (λ v e w1 s at eq state test.
          let h1 : state_in (laws.view w1) id ≡ some from =
            ap entry_state (s.same id ∙ at) ∙ state ∙ ap some (is_state-eq v.state from test) in
          wrap_last_rule (Switches id from to (laws.view w)) (lvm.change (lv_name cfg id) q) w1
            (λ a h. (
              ap entry_state (sym (s.same id)) ∙ h1,
              Same-Retagged s (
                  change_Retagged lvm cfg laws id q from to w1 swaps readable moved
                    (IsTagged-Same s t) h1 h),
            ))
            (λ x h. inl (Same-trans s (record { same = laws.change_fails id q w1 x h }))))
        (λ x w1 s r.
          Refused-Ends {A = Unit} id (λ y. is_state y from) (laws.view w) (laws.view w1)
            (λ _ v'. (state_in (laws.view w) id ≡ some from) × Retagged id to (laws.view w) v')
            (λ _. ⊥) x s r)

  -- Where no lv has two state tags: a push starts from READY, the volume becomes PUSHING and no
  -- other volume changes. A missing volume and any other state are refused, and then, as when
  -- lvm fails, nothing changes at all.
  pub mark_pushing_ends :
      (id transfer_id target : String) (w : W)
      → IsTagged (laws.view w)
      → Switches id ready pushing (laws.view w) (mark_pushing lvm cfg id transfer_id target w)
  unfolding mark_pushing
  mark_pushing_ends id transfer_id target w t =
      switches id ready pushing (pushing_options transfer_id target) w
        (pushing_options-Swaps transfer_id target) (cc) (cc) t

  -- Where no lv has two state tags: only a PUSHING volume becomes COMMITTING, and no other volume
  -- changes. Every other outcome is a refusal or a failure of lvm that changes nothing.
  pub mark_committing_ends :
      (id : String) (w : W)
      → IsTagged (laws.view w)
      → Switches id pushing committing (laws.view w) (mark_committing lvm cfg id w)
  unfolding mark_committing
  mark_committing_ends id w t =
      switches id pushing committing (retag pushing committing) w (retag-Swaps pushing committing)
        (cc) (cc) t
