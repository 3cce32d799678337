-- ===== src/Storage/Recovery/Finishing.antt =====
-- FinishRollback of internal/storage/rollback.go as recovery calls it: on a ROLLBACK copy, with
-- its target, which is the copy's own name or a free one.
use mathlib.Core.Path.{subst}
use beanstore.Base.{
  some_injective, cut_prefix, cat, ◌≡◌, ◌≢◌, refl, ap, sym, ◌∙◌, inl, inr, String, none, some,
  Bool-cases, str_eq, eq_iff,
}
use beanstore.Base.Exec.{ok}
use beanstore.Config.{Config}
use beanstore.Lvm.Types.{no_common}
use beanstore.Lvm.Interface.{Lvm}
use beanstore.Lvm.Laws.{Entry, View, put}
use beanstore.Storage.State.{ready, rollback, state_tag, state_tag_prefix, rollback_target_tag}
use beanstore.Storage.Errors.{wrap}
use beanstore.Storage.Volume.{lv_name}
use beanstore.Storage.Rollback.{finish_rollback, finish_options, rename_if}
use beanstore.Storage.Tags.{AtMostOne}
use beanstore.Storage.Tags.Values.{values_of}
use beanstore.Storage.Node.{NodeLaws, state_in, entry_state, Same, IsTagged, IsTagged-Same}
use beanstore.Storage.Node.Changes.{Puts-IsTagged, Swaps, change_Retagged, put_self, put_ne}
use beanstore.Storage.Node.Ends.{wrap_rule, wrap_last_rule}
use beanstore.Storage.Recovery.{
  Lands, stays, lands_rollback, lands_ready, Settles, lands, removed, finished, rollback_garbage,
}

pub finish_options-Swaps : (id : String) → Swaps (finish_options id) rollback ready
unfolding state_tag rollback_target_tag values_of cut_prefix cat
finish_options-Swaps id = record { adds = refl; removes = refl }

-- The copy `temp` is settled, other names that are not the target stay, and the target, if it is
-- another name, at most received the copy.
pub record Finished (temp target : String) (v v' : View) : Type 0 where
  pub copy : Settles (state_in v temp) (state_in v' temp)
  pub other : (j : String) → temp ≢ j → target ≢ j → v' j ≡ v j
  pub landing : temp ≢ target → Lands (state_in v target) (state_in v' target)
  pub tagged : IsTagged v'

Same-Finished :
    (temp target : String) (v v' : View) → Same v v' → IsTagged v → Finished temp target v v'
Same-Finished temp target v v' s t = record {
  copy = lands (stays (ap entry_state (s.same temp)));
  other = λ j _ _. s.same j;
  landing = λ _. stays (ap entry_state (s.same target));
  tagged = IsTagged-Same s t;
}

module _ {W : Type 0} (lvm : Lvm W) (cfg : Config) (laws : NodeLaws lvm cfg) where
  -- The copy already has its target's name.
  finish_same :
      (id : String) (w : W)
      → state_in (laws.view w) id ≡ some rollback
      → IsTagged (laws.view w)
      → Finished id id
          (laws.view w)
          (laws.view (wrap (lvm.change (lv_name cfg id) (finish_options id)) w).1)
  finish_same id w h t =
      wrap_last_rule (λ r. Finished id id (laws.view w) (laws.view r.1))
        (lvm.change (lv_name cfg id) (finish_options id)) w
        (λ a done.
          let r =
            change_Retagged lvm cfg laws id (finish_options id) rollback ready w
              (finish_options-Swaps id) (cc) (cc) t h done in
          record {
            copy = finished h r.state;
            other = λ j n _. r.but.others j n;
            landing = λ n. absurd (n refl);
            tagged = r.tagged;
          })
        (λ x e.
          Same-Finished id id (laws.view w) _
            (record { same = laws.change_fails id (finish_options id) w x e }) t)

  -- The renamed copy, before its tags are changed.
  pub record Renamed (temp target : String) (v v' : View) : Type 0 where
    pub gone : v' temp ≡ none
    pub free : v target ≡ none
    pub here : state_in v' target ≡ some rollback
    pub other : (j : String) → temp ≢ j → target ≢ j → v' j ≡ v j
    pub tagged : IsTagged v'

  Renamed-Finished :
      (temp target : String) (v : View) (w : W)
      → state_in v temp ≡ some rollback
      → temp ≢ target
      → Renamed temp target v (laws.view w)
      → Finished temp target v
          (laws.view (wrap (lvm.change (lv_name cfg target) (finish_options target)) w).1)
  Renamed-Finished temp target v w h n r =
      wrap_last_rule (λ r. Finished temp target v (laws.view r.1))
        (lvm.change (lv_name cfg target) (finish_options target)) w
        (λ a done.
          let m =
            change_Retagged lvm cfg laws target (finish_options target) rollback ready w
              (finish_options-Swaps target) (cc) (cc) r.tagged r.here done in
          record {
            copy =
                removed rollback rollback_garbage h
                  (ap entry_state (m.but.others temp (λ e. n (sym e)) ∙ r.gone));
            other = λ j a b. m.but.others j b ∙ r.other j a b;
            landing = λ _. lands_ready (ap entry_state r.free) m.state;
            tagged = m.tagged;
          })
        (λ x e.
          let s : Same (laws.view w)
              (laws.view (lvm.change (lv_name cfg target) (finish_options target) w).1) =
            record { same = laws.change_fails target (finish_options target) w x e } in
          record {
            copy = removed rollback rollback_garbage h (ap entry_state (s.same temp ∙ r.gone));
            other = λ j a b. s.same j ∙ r.other j a b;
            landing = λ _.
                lands_rollback (ap entry_state r.free) (ap entry_state (s.same target) ∙ r.here);
            tagged = IsTagged-Same s r.tagged;
          })

  pub rename_Renamed :
      (temp target : String) (w : W)
      → state_in (laws.view w) temp ≡ some rollback
      → temp ≢ target
      → IsTagged (laws.view w)
      → (lvm.rename cfg.volume_group temp target no_common w).0 ≡ ok tt
      → Renamed temp target
          (laws.view w)
          (laws.view (lvm.rename cfg.volume_group temp target no_common w).1)
  rename_Renamed temp target w h n t done =
      let (e, at, free, puts) = laws.rename_done temp target no_common w done in
      record {
        gone =
            puts temp
            ∙ put_ne target _ (put temp none (laws.view w)) temp (λ k. n (sym k))
            ∙ put_self temp none (laws.view w);
        free = free;
        here =
            ap entry_state (puts target ∙ put_self target _ (put temp none (laws.view w)))
            ∙ sym (ap entry_state at)
            ∙ h;
        other = λ j a b.
            puts j
            ∙ put_ne target _ (put temp none (laws.view w)) j b
            ∙ put_ne temp none (laws.view w) j a;
        tagged =
            Puts-IsTagged {v = put temp none (laws.view w)} (record { puts = puts })
              (Puts-IsTagged {o = none} {v = laws.view w} (record { puts = λ j. refl }) t
                (λ x k. cc))
              (λ x k.
                subst (λ (y : Entry). AtMostOne state_tag_prefix y.lv.tags) (some_injective k)
                  (t.one_state temp e at));
      }

  pub finish_rollback-Finished :
      (temp target : String) (w : W)
      → state_in (laws.view w) temp ≡ some rollback
      → IsTagged (laws.view w)
      → Finished temp target (laws.view w) (laws.view (finish_rollback lvm cfg temp target w).1)
  unfolding finish_rollback rename_if
  finish_rollback-Finished temp target w h t = elim (Bool-cases (str_eq temp target)) [
    | inl same ↦ rw same (
        subst
          (λ (i : String).
            Finished temp i (laws.view w)
              (laws.view (wrap (lvm.change (lv_name cfg i) (finish_options i)) w).1))
          ((eq_iff temp target).0 same) (finish_same temp w h t))
    | inr other ↦
        let n : temp ≢ target = λ k. cc ((eq_iff temp target).1 k, other) in
        rw other (
          wrap_rule (λ r. Finished temp target (laws.view w) (laws.view r.1))
            (lvm.rename cfg.volume_group temp target no_common)
            (λ _. wrap (lvm.change (lv_name cfg target) (finish_options target))) w
            (λ a done.
              Renamed-Finished temp target (laws.view w) _ h n
                (rename_Renamed temp target w h n t done))
            (λ x e.
              Same-Finished temp target (laws.view w) _
                (record { same = laws.rename_fails temp target no_common w x e }) t))
  ]
