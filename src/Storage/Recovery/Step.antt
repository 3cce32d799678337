-- ===== src/Storage/Recovery/Step.antt =====
-- One round of the loop of internal/storage/recover.go: what recoverVolume does to the volume
-- that it visits, to the other names of the scan, and to all other names.
use mathlib.Core.Path.{subst}
use beanstore.Base.{
  cut_prefix, cat, ◌≡◌, ◌≢◌, refl, ap, ◌∙◌, ◌⊎◌, inl, inr, String, true, false, not, ◌&&◌, ◌||◌,
  none, some, List, Bool-cases, str_eq, eq_iff, contains,
}
use beanstore.Base.Exec.{Result, ok, err, ◌>>◌, bind_rule}
use beanstore.Config.{Config}
use beanstore.Lvm.Types.{no_activate, no_remove}
use beanstore.Lvm.Interface.{Lvm}
use beanstore.Lvm.Laws.{View}
use beanstore.Storage.State.{
  State, creating, ready, attached, pushing, committing, incoming, retired, deleting, snapshot,
  rollback, unknown, origin_tag,
}
use beanstore.Storage.Errors.{Error, lvm_failed}
use beanstore.Storage.Volume.{Volume, lv_name}
use beanstore.Storage.Verbs.{is_state, remove_volume}
use beanstore.Storage.Pushes.{abort_push}
use beanstore.Storage.Pushing.Ending.{abort_push_ends}
use beanstore.Storage.Recover.{
  lineage_options, recover_rollback, backfill_lineage, deactivate_stray, recover_by, recover_volume,
}
use beanstore.Storage.Tags.Values.{values_of}
use beanstore.Storage.Node.{NodeLaws, state_in, entry_state, Same, SameBut, IsTagged, Same-refl}
use beanstore.Storage.Node.Changes.{Puts, Puts-self, Puts-SameBut, Puts-IsTagged, Retagged}
use beanstore.Storage.Node.Calm.{
  Calm, Same-Calm, Calm-trans, activate-Calm, deactivate-Calm, change-Calm,
}
use beanstore.Storage.Node.Ends.{Ends, is_active, wrap_last_rule}
use beanstore.Storage.Recovery.{
  Lands, stays, Settles, lands, removed, reverted, IsGarbage, creating_garbage, deleting_garbage,
  incoming_garbage, rollback_garbage,
}
use beanstore.Storage.Recovery.Finishing.{Finished, finish_rollback-Finished}

pub record Stepped (id : String) (names : List String) (v v' : View) : Type 0 where
  pub visited : Settles (state_in v id) (state_in v' id)
  pub scanned : (j : String) → contains j names ≡ true → id ≢ j → v' j ≡ v j
  pub others : (j : String) → id ≢ j → Lands (state_in v j) (state_in v' j)
  pub tagged : IsTagged v'

but-Stepped :
    {id : String} (names : List String) {v v' : View}
    → Settles (state_in v id) (state_in v' id)
    → SameBut id v v'
    → IsTagged v'
    → Stepped id names v v'
but-Stepped names s b t = record {
  visited = s;
  scanned = λ j _ n. b.others j n;
  others = λ j n. stays (ap entry_state (b.others j n));
  tagged = t;
}

Calm-Stepped :
    {id : String} (names : List String) {v v' : View} → Calm id v v' → Stepped id names v v'
Calm-Stepped {id} names c = but-Stepped names (lands (stays (c.states.states id))) c.but c.tagged

Same-Stepped :
    (id : String) (names : List String) {v v' : View}
    → IsTagged v
    → Same v v'
    → Stepped id names v v'
Same-Stepped id names t s = Calm-Stepped names (Same-Calm id t s)

module _ {W : Type 0} (lvm : Lvm W) (cfg : Config) (laws : NodeLaws lvm cfg) where
  abbrev After : String → List String → W → Result Error Unit × W → Type 0
  After id names w r = Stepped id names (laws.view w) (laws.view r.1)

  remove-Stepped :
      (id : String) (names : List String) (g : State) (w : W)
      → IsGarbage g
      → state_in (laws.view w) id ≡ some g
      → IsTagged (laws.view w)
      → After id names w (remove_volume lvm cfg id w)
  unfolding remove_volume
  remove-Stepped id names g w garbage h t =
      wrap_last_rule (After id names w)
        (lvm.remove (lv_name cfg id) (record no_remove { force = true })) w
        (λ a done.
          let p : Puts id none (laws.view w)
              (laws.view (lvm.remove (lv_name cfg id) (record no_remove { force = true }) w).1) =
            record { puts = laws.remove_done id (record no_remove { force = true }) w done } in
          but-Stepped names (removed g garbage h (ap entry_state (Puts-self p))) (Puts-SameBut p)
            (Puts-IsTagged p t (λ x k. cc)))
        (λ x k.
          Same-Stepped id names t
            (record { same = laws.remove_fails id (record no_remove { force = true }) w x k }))

  abort-Stepped :
      (id : String) (names : List String) (w : W)
      → state_in (laws.view w) id ≡ some pushing
      → IsTagged (laws.view w)
      → After id names w (abort_push lvm cfg id w)
  abort-Stepped id names w h t =
      go (abort_push lvm cfg id w).0 (laws.view (abort_push lvm cfg id w).1)
        (abort_push_ends lvm cfg laws id w t)
    where
      go :
          (r : Result Error Unit) (v' : View)
          → Ends id
              (λ s. is_state s pushing || is_state s committing)
              (laws.view w)
              (λ _ v''.
                ((s : State) × (state_in (laws.view w) id ≡ some s)
                  × ((is_state s pushing || is_state s committing) ≡ true))
                × Retagged id ready (laws.view w) v''
                × (is_active (v'' id) ≡ false))
              (λ v''. Calm id (laws.view w) v'' × (is_active (v'' id) ≡ false))
              r
              v'
          → Stepped id names (laws.view w) v'
      go (ok _) v' d = but-Stepped names (reverted h d.1.state) d.1.but d.1.tagged
      go (err (lvm_failed x)) v' (inl s) = Same-Stepped id names t s
      go (err (lvm_failed x)) v' (inr c) = Calm-Stepped names c.0
      go (err _) v' d = Same-Stepped id names t d.0

  backfill-Calm :
      (volume : Volume) (w : W)
      → state_in (laws.view w) volume.id ≡ some snapshot
      → IsTagged (laws.view w)
      → Calm volume.id (laws.view w) (laws.view (backfill_lineage lvm cfg volume w).1)
  unfolding backfill_lineage
  backfill-Calm volume w h t =
      elim (Bool-cases (not volume.origin_tagged && not (str_eq volume.origin ""))) [
        | inl old ↦ rw old (
            change-Calm lvm cfg laws volume.id (lineage_options volume.origin) snapshot w
              (unfold origin_tag values_of cut_prefix cat in refl) (unfold values_of in refl) (cc) h
              t)
        | inr new ↦ rw new (Same-Calm volume.id t (Same-refl (laws.view w)))
      ]

  stray-Calm :
      (volume : Volume) (w : W)
      → IsTagged (laws.view w)
      → Calm volume.id (laws.view w) (laws.view (deactivate_stray lvm cfg volume w).1)
  unfolding deactivate_stray
  stray-Calm volume w t = elim (Bool-cases volume.active) [
    | inl on ↦ rw on (deactivate-Calm lvm cfg laws volume.id w t)
    | inr off ↦ rw off (Same-Calm volume.id t (Same-refl (laws.view w)))
  ]

  snapshot-Stepped :
      (volume : Volume) (names : List String) (w : W)
      → state_in (laws.view w) volume.id ≡ some snapshot
      → IsTagged (laws.view w)
      → After volume.id names w
          ((backfill_lineage lvm cfg volume >> deactivate_stray lvm cfg volume) w)
  snapshot-Stepped volume names w h t =
      bind_rule (After volume.id names w) (backfill_lineage lvm cfg volume)
        (λ _. deactivate_stray lvm cfg volume) w
        (λ a k. Calm-Stepped names (
          Calm-trans volume.id (backfill-Calm volume w h t)
            (stray-Calm volume _ (backfill-Calm volume w h t).tagged)))
        (λ x k. Calm-Stepped names (backfill-Calm volume w h t))

  -- The target is the copy itself or was not in the scan.
  Finished-Stepped :
      {id target : String} (names : List String) {v v' : View}
      → ((id ≡ target) ⊎ (contains target names ≡ false))
      → Finished id target v v'
      → Stepped id names v v'
  Finished-Stepped {id} {target} names (inl same) f = record {
    visited = f.copy;
    scanned = λ j _ n. f.other j n (λ k. n (same ∙ k));
    others = λ j n. stays (ap entry_state (f.other j n (λ k. n (same ∙ k))));
    tagged = f.tagged;
  }
  Finished-Stepped {id} {target} names {v} {v'} (inr new) f = record {
    visited = f.copy;
    scanned =
        λ j listed n. f.other j n (λ k. cc (ap (λ (i : String). contains i names) k, new, listed));
    others = λ j n. elim (Bool-cases (str_eq target j)) [
      | inl same ↦
          subst (λ (i : String). Lands (state_in v i) (state_in v' i)) ((eq_iff target j).0 same)
            (f.landing (λ k. n (k ∙ (eq_iff target j).0 same)))
      | inr other ↦ stays (ap entry_state (f.other j n (λ k. cc ((eq_iff target j).1 k, other))))
    ];
    tagged = f.tagged;
  }

  rollback-Stepped :
      (volume : Volume) (names : List String) (w : W)
      → state_in (laws.view w) volume.id ≡ some rollback
      → IsTagged (laws.view w)
      → After volume.id names w (recover_rollback lvm cfg volume names w)
  unfolding recover_rollback
  rollback-Stepped volume names w h t = elim (Bool-cases (str_eq volume.rollback_target "")) [
    | inl untagged ↦ rw untagged (Same-Stepped volume.id names t (Same-refl (laws.view w)))
    | inr tagged ↦ rw tagged (elim (Bool-cases (str_eq volume.id volume.rollback_target)) [
      | inl renamed ↦ rw renamed (
          Finished-Stepped names (inl ((eq_iff volume.id volume.rollback_target).0 renamed))
            (finish_rollback-Finished lvm cfg laws volume.id volume.rollback_target w h t))
      | inr copy ↦ rw copy (elim (Bool-cases (contains volume.rollback_target names)) [
        | inl target_there ↦
            rw target_there (remove-Stepped volume.id names rollback w rollback_garbage h t)
        | inr target_gone ↦ rw target_gone (
            Finished-Stepped names (inr target_gone)
              (finish_rollback-Finished lvm cfg laws volume.id volume.rollback_target w h t))
      ])
    ])
  ]

  recover_by-Stepped :
      (s : State) (volume : Volume) (names : List String) (w : W)
      → state_in (laws.view w) volume.id ≡ some s
      → IsTagged (laws.view w)
      → After volume.id names w (recover_by lvm cfg s volume names w)
  unfolding recover_by
  recover_by-Stepped creating volume names w h t =
      remove-Stepped volume.id names creating w creating_garbage h t
  recover_by-Stepped deleting volume names w h t =
      remove-Stepped volume.id names deleting w deleting_garbage h t
  recover_by-Stepped attached volume names w h t =
      Calm-Stepped names (activate-Calm lvm cfg laws volume.id no_activate w t)
  recover_by-Stepped snapshot volume names w h t = snapshot-Stepped volume names w h t
  recover_by-Stepped incoming volume names w h t =
      remove-Stepped volume.id names incoming w incoming_garbage h t
  recover_by-Stepped pushing volume names w h t = abort-Stepped volume.id names w h t
  recover_by-Stepped rollback volume names w h t = rollback-Stepped volume names w h t
  recover_by-Stepped committing volume names w h t =
      Same-Stepped volume.id names t (Same-refl (laws.view w))
  recover_by-Stepped ready volume names w h t =
      Same-Stepped volume.id names t (Same-refl (laws.view w))
  recover_by-Stepped retired volume names w h t =
      Same-Stepped volume.id names t (Same-refl (laws.view w))
  recover_by-Stepped unknown volume names w h t =
      Same-Stepped volume.id names t (Same-refl (laws.view w))

  -- One round, on a volume that is in the scanned state.
  pub recover_volume-Stepped :
      (volume : Volume) (names : List String) (w : W)
      → state_in (laws.view w) volume.id ≡ some volume.state
      → IsTagged (laws.view w)
      → After volume.id names w (recover_volume lvm cfg volume names w)
  unfolding recover_volume
  recover_volume-Stepped volume names w h t = recover_by-Stepped volume.state volume names w h t
