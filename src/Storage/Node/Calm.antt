-- ===== src/Storage/Node/Calm.antt =====
-- Calls that leave every state as it is and touch one lv at most.
use mathlib.Core.Path.{subst}
use beanstore.Base.{some_injective, ◌≡◌, ◌≢◌, refl, ap, sym, ◌∙◌, String, some, [], arith}
use beanstore.Config.{Config}
use beanstore.Lvm.Types.{no_common, ActivateLogicalVolumeOptions, ChangeLogicalVolumeOptions}
use beanstore.Lvm.Interface.{Lvm}
use beanstore.Lvm.Laws.{Entry, View}
use beanstore.Storage.State.{State, unknown, state_text, state_tag_prefix, state_of}
use beanstore.Storage.Errors.{wrap}
use beanstore.Storage.Volume.{lv_name}
use beanstore.Storage.Tags.{AtMostOne, has_value}
use beanstore.Storage.Tags.Values.{values_of, state_of-has, state_of_only}
use beanstore.Storage.Tags.Change.{keeps_values}
use beanstore.Storage.Node.{
  NodeLaws, state_in, entry_state, Same, Same-SameBut, IsTagged, IsTagged-Same, SameBut,
  SameBut-trans,
}
use beanstore.Storage.Node.Changes.{
  Puts, Puts-SameBut, Puts-IsTagged, Puts-SameStates, SameStates, Same-SameStates, SameStates-trans,
}
use beanstore.Storage.Node.Ends.{wrap_last_rule}

pub record Calm (id : String) (v v' : View) : Type 0 where
  pub states : SameStates v v'
  pub but : SameBut id v v'
  pub tagged : IsTagged v'

pub Same-Calm : {v v' : View} (id : String) → IsTagged v → Same v v' → Calm id v v'
Same-Calm id t s = record {
  states = Same-SameStates s;
  but = Same-SameBut id s;
  tagged = IsTagged-Same s t;
}

pub Calm-trans : {u v w : View} (id : String) → Calm id u v → Calm id v w → Calm id u w
Calm-trans id a b = record {
  states = SameStates-trans a.states b.states;
  but = SameBut-trans id a.but b.but;
  tagged = b.tagged;
}

-- A new entry for the lv with the tags of the old one.
pub Puts-Calm :
    {id : String} {e e' : Entry} {v v' : View}
    → IsTagged v
    → v id ≡ some e
    → Puts id (some e') v v'
    → e'.lv.tags ≡ e.lv.tags
    → Calm id v v'
Puts-Calm {id} {e} {e'} {v} {v'} t at p same = record {
  states = Puts-SameStates p at (ap state_of same);
  but = Puts-SameBut p;
  tagged = Puts-IsTagged p t (λ x k.
      subst (λ (y : Entry). AtMostOne state_tag_prefix y.lv.tags) (some_injective k)
        (subst (AtMostOne state_tag_prefix) (sym same) (t.one_state id e at)));
}

module _ {W : Type 0} (lvm : Lvm W) (cfg : Config) (laws : NodeLaws lvm cfg) where
  pub activate-Calm :
      (id : String) (q : ActivateLogicalVolumeOptions) (w : W)
      → IsTagged (laws.view w)
      → Calm id (laws.view w) (laws.view (wrap (lvm.activate (lv_name cfg id) q) w).1)
  activate-Calm id q w t =
      wrap_last_rule (λ r. Calm id (laws.view w) (laws.view r.1)) (lvm.activate (lv_name cfg id) q)
        w
        (λ a h.
          let (e, at, puts) = laws.activate_done id q w h in
          Puts-Calm t at (record { puts = puts }) (ground arith))
        (λ x h. Same-Calm id t (record { same = laws.activate_fails id q w x h }))

  pub deactivate-Calm :
      (id : String) (w : W)
      → IsTagged (laws.view w)
      → Calm id (laws.view w) (laws.view (wrap (lvm.deactivate (lv_name cfg id) no_common) w).1)
  deactivate-Calm id w t =
      wrap_last_rule (λ r. Calm id (laws.view w) (laws.view r.1))
        (lvm.deactivate (lv_name cfg id) no_common) w
        (λ a h.
          let (e, at, puts) = laws.deactivate_done id no_common w h in
          Puts-Calm t at (record { puts = puts }) refl)
        (λ x h. Same-Calm id t (record { same = laws.deactivate_fails id no_common w x h }))

  -- A change of tags that are no state tags, on a volume in a readable state.
  pub change-Calm :
      (id : String) (q : ChangeLogicalVolumeOptions) (s : State) (w : W)
      → values_of state_tag_prefix q.add_tags ≡ []
      → values_of state_tag_prefix q.remove_tags ≡ []
      → s ≢ unknown
      → state_in (laws.view w) id ≡ some s
      → IsTagged (laws.view w)
      → Calm id (laws.view w) (laws.view (wrap (lvm.change (lv_name cfg id) q) w).1)
  change-Calm id q s w adds removes readable h t =
      wrap_last_rule (λ r. Calm id (laws.view w) (laws.view r.1)) (lvm.change (lv_name cfg id) q) w
        (λ a done.
          let (e, at, puts) = laws.change_done id q w done in
          let keep : (u : String)
              → has_value state_tag_prefix u (laws.retag e.lv.tags q.add_tags q.remove_tags)
                ≡ has_value state_tag_prefix u e.lv.tags =
            keeps_values laws.retag laws.retag_kept laws.retag_dropped state_tag_prefix e.lv.tags
              q.add_tags q.remove_tags adds removes in
          let one : AtMostOne state_tag_prefix (laws.retag e.lv.tags q.add_tags q.remove_tags) =
            λ x y hx hy. t.one_state id e at x y (sym (keep x) ∙ hx) (sym (keep y) ∙ hy) in
          let before : state_of e.lv.tags ≡ some s = sym (ap entry_state at) ∙ h in
          let after : state_of (laws.retag e.lv.tags q.add_tags q.remove_tags) ≡ some s =
            state_of_only _ s one
              (keep (state_text s) ∙ state_of-has e.lv.tags s before readable) in
          let p : Puts id _ (laws.view w) (laws.view (lvm.change (lv_name cfg id) q w).1) = record {
            puts = puts;
          } in
          record {
            states = Puts-SameStates p at (after ∙ sym before);
            but = Puts-SameBut p;
            tagged = Puts-IsTagged p t (λ x k.
                subst (λ (y : Entry). AtMostOne state_tag_prefix y.lv.tags) (some_injective k) one);
          })
        (λ x k. Same-Calm id t (record { same = laws.change_fails id q w x k }))
