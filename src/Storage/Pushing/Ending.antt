-- ===== src/Storage/Pushing/Ending.antt =====
-- The ends of a push in internal/storage/pushes.go: COMMITTING to RETIRED, and back to READY.
use mathlib.Core.Path.{subst}
use beanstore.Base.{
  cut_prefix, cat, ◌≡◌, ◌≢◌, refl, ap, sym, ◌∙◌, inl, inr, String, Bool, true, false, ◌||◌, some,
  [], ◌∷◌,
}
use beanstore.Base.Exec.{Result, err, Exec, ◌>>=◌, ◌>>◌}
use beanstore.Config.{Config}
use beanstore.Lvm.Types.{ChangeLogicalVolumeOptions, no_change, no_common}
use beanstore.Lvm.Interface.{Lvm}
use beanstore.Lvm.Errors.{LvmError}
use beanstore.Lvm.Laws.{Entry, View}
use beanstore.Storage.State.{
  State, ready, pushing, committing, retired, unknown, state_text, state_tag, transfer_tag,
  target_tag,
}
use beanstore.Storage.Errors.{Error, lvm_failed}
use beanstore.Storage.Volume.{Volume, volume_from_lv, get_volume, lv_name}
use beanstore.Storage.Verbs.{is_state, check_state}
use beanstore.Storage.Pushes.{retire_pushed, abort_push, deactivate_if, deactivate_pushed, end_push}
use beanstore.Storage.Tags.Values.{values_of}
use beanstore.Storage.Node.{
  NodeLaws, state_in, entry_state, Same, Same-trans, IsTagged, IsTagged-Same, SameBut-trans,
  Same-refl,
}
use beanstore.Storage.Node.Changes.{put_self, Puts, Puts-self, Swaps, Retagged, change_Retagged}
use beanstore.Storage.Node.Calm.{Calm, Calm-trans, Same-Calm, Puts-Calm}
use beanstore.Storage.Node.Guard.{guard_rule}
use beanstore.Storage.Node.Ends.{Ends, Refused-Ends, is_active, wrap_rule, wrap_last_rule}

abbrev end_options : Volume → State → ChangeLogicalVolumeOptions
end_options volume to = record no_change {
  add_tags = state_tag to ∷ [];
  remove_tags =
      state_tag volume.state ∷ transfer_tag volume.transfer ∷ target_tag volume.push_target ∷ [];
}

end_options-Swaps : (volume : Volume) (to : State) → Swaps (end_options volume to) volume.state to
unfolding state_tag transfer_tag target_tag values_of cut_prefix cat
end_options-Swaps volume to = record { adds = refl; removes = refl }

module _ {W : Type 0} (lvm : Lvm W) (cfg : Config) (laws : NodeLaws lvm cfg) where
  -- What a deactivation leaves: every state, and all other volumes.
  record Kept (id : String) (v v' : View) : Type 0 where
    calm : Calm id v v'
    inactive : is_active (v' id) ≡ false

  deactivate_rule :
      (Q : Result Error Unit × W → Type 0) (b : Bool) (id : String) (rest : Exec W Error Unit)
      (w : W) (e : Entry)
      → laws.view w id ≡ some e
      → e.lv.active ≡ b
      → IsTagged (laws.view w)
      → ((w1 : W) → Kept id (laws.view w) (laws.view w1) → Q (rest w1))
      → ((x : LvmError) (w1 : W) → Same (laws.view w) (laws.view w1) → Q (err (lvm_failed x), w1))
      → Q ((deactivate_if lvm cfg b id >> rest) w)
  unfolding deactivate_if
  deactivate_rule Q false id rest w e at off t done failed =
      done w (record {
        calm = Same-Calm id t (Same-refl (laws.view w));
        inactive = ap is_active at ∙ off;
      })
  deactivate_rule Q true id rest w e at on t done failed =
      wrap_rule Q (lvm.deactivate (lv_name cfg id) no_common) (λ _. rest) w
        (λ a h.
          let (e1, at1, puts) = laws.deactivate_done id no_common w h in
          let p : Puts id (some (record e1 { lv = record (e1.lv) { active = false; path = "" } }))
              (laws.view w) (laws.view (lvm.deactivate (lv_name cfg id) no_common w).1) =
            record { puts = puts } in
          done _ (record { calm = Puts-Calm t at1 p refl; inactive = ap is_active (Puts-self p) }))
        (λ x h. failed x _ (record { same = laws.deactivate_fails id no_common w x h }))

  -- The end of a push in a state with `test`: the volume gets the state `to` and is inactive. If
  -- a command failed, nothing changed but that the volume may have been deactivated.
  abbrev pub PushEnds : String → (State → Bool) → State → View → Result Error Unit × W → Type 0
  PushEnds id test to v r =
      Ends id test v
        (λ _ v'.
          ((s : State) × (state_in v id ≡ some s) × (test s ≡ true))
          × Retagged id to v v'
          × (is_active (v' id) ≡ false))
        (λ v'. Calm id v v' × (is_active (v' id) ≡ false)) r.0 (laws.view r.1)

  -- The change of tags, once the volume is inactive.
  retag_pushed :
      (id : String) (test : State → Bool) (volume : Volume) (to : State) (v : View) (w : W)
      → (state_in v id ≡ some volume.state)
      → (test volume.state ≡ true)
      → (volume.state ≢ unknown)
      → (to ≢ volume.state)
      → Kept id v (laws.view w)
      → PushEnds id test to v (end_push lvm cfg id volume to w)
  unfolding end_push
  retag_pushed id test volume to v w before good readable moved kept =
      let here : state_in (laws.view w) id ≡ some volume.state =
        kept.calm.states.states id ∙ before in
      wrap_last_rule (PushEnds id test to v) (lvm.change (lv_name cfg id) (end_options volume to)) w
        (λ a h.
          let r =
            change_Retagged lvm cfg laws id (end_options volume to) volume.state to w
              (end_options-Swaps volume to) readable moved kept.calm.tagged here h in
          let (e1, at1, puts) = laws.change_done id (end_options volume to) w h in
          (
            (volume.state, before, good),
            record {
              state = r.state;
              but = SameBut-trans id kept.calm.but r.but;
              tagged = r.tagged;
            },
            ap is_active (puts id ∙ put_self id _ (laws.view w))
                ∙ sym (ap is_active at1)
                ∙ kept.inactive,
          ))
        (λ x h.
          let same : Same (laws.view w)
              (laws.view (lvm.change (lv_name cfg id) (end_options volume to) w).1) =
            record { same = laws.change_fails id (end_options volume to) w x h } in
          inr (
            Calm-trans id kept.calm (Same-Calm id kept.calm.tagged same),
            ap is_active (same.same id) ∙ kept.inactive,
          ))

  ends_push :
      (id : String) (test : State → Bool) (to : State) (w : W)
      → (test unknown ≡ false)
      → (test to ≡ false)
      → IsTagged (laws.view w)
      → PushEnds id test to (laws.view w) (
          (get_volume lvm cfg id >>= λ v.
          check_state id (test v.state) v.state
          >> (deactivate_pushed lvm cfg v >> end_push lvm cfg id v to))
            w)
  unfolding deactivate_pushed
  ends_push id test to w readable moved t =
      guard_rule lvm cfg laws (PushEnds id test to (laws.view w)) id test _ w
        (λ v e w1 s at eq state good.
          let name_eq : v.id ≡ id =
            ap (λ (y : Volume). y.id) eq ∙ unfold volume_from_lv in laws.view_name w id e at in
          let active_eq : e.lv.active ≡ v.active =
            sym (ap (λ (y : Volume). y.active) eq ∙ unfold volume_from_lv in refl) in
          let h1 : state_in (laws.view w1) id ≡ some v.state =
            ap entry_state (s.same id ∙ at) ∙ state in
          subst
            (λ (i : String).
              PushEnds id test to (laws.view w)
                ((deactivate_if lvm cfg v.active i >> end_push lvm cfg id v to) w1))
            (sym name_eq)
            (deactivate_rule (PushEnds id test to (laws.view w)) v.active id
              (end_push lvm cfg id v to) w1 e (s.same id ∙ at) active_eq (IsTagged-Same s t)
              (λ w2 kept.
                retag_pushed id test v to (laws.view w) w2 (ap entry_state at ∙ state) good
                  (λ k. cc (ap test k)) (λ k. cc (ap test k))
                  (record {
                    calm = Calm-trans id (Same-Calm id t s) kept.calm;
                    inactive = kept.inactive;
                  }))
              (λ x w2 s2. inl (Same-trans s s2))))
        (λ x w1 s r.
          Refused-Ends {A = Unit} id test (laws.view w) (laws.view w1)
            (λ _ v'.
              ((y : State) × (state_in (laws.view w) id ≡ some y) × (test y ≡ true))
              × Retagged id to (laws.view w) v'
              × (is_active (v' id) ≡ false))
            (λ v'. Calm id (laws.view w) v' × (is_active (v' id) ≡ false)) x s r)

  -- Where no lv has two state tags: only a COMMITTING volume is retired, it becomes RETIRED and
  -- inactive, and no other volume changes. Where a command fails, every state is as before, and
  -- no other volume changes. A refusal changes nothing.
  pub retire_pushed_ends :
      (id : String) (w : W)
      → IsTagged (laws.view w)
      → PushEnds id (λ s. is_state s committing) retired (laws.view w) (retire_pushed lvm cfg id w)
  unfolding retire_pushed
  retire_pushed_ends id w t =
      ends_push id (λ s. is_state s committing) retired w (unfold is_state state_text in refl)
        (unfold is_state state_text in refl) t

  -- Where no lv has two state tags: a PUSHING or COMMITTING volume whose push is aborted becomes
  -- READY and inactive, and no other volume changes. Where a command fails, every state is as
  -- before, and no other volume changes. A refusal changes nothing.
  pub abort_push_ends :
      (id : String) (w : W)
      → IsTagged (laws.view w)
      → PushEnds id
          (λ s. is_state s pushing || is_state s committing)
          ready
          (laws.view w)
          (abort_push lvm cfg id w)
  unfolding abort_push
  abort_push_ends id w t =
      ends_push id (λ s. is_state s pushing || is_state s committing) ready w
        (unfold is_state state_text in refl) (unfold is_state state_text in refl) t
