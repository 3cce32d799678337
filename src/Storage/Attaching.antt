-- ===== src/Storage/Attaching.antt =====
-- Attach of internal/storage/volumes.go: what each ending means for the node.
use mathlib.Core.Path.{subst}
use beanstore.Base.{
  some_injective, if◌then◌else◌, ◌&&◌, arith, cut_prefix, cat, ◌≡◌, refl, ap, sym, ◌∙◌, ◌⊎◌, inl,
  inr, String, true, false, none, some,
}
use beanstore.Base.Exec.{Result, ok, err, pure, ◌>>=◌, ◌>>◌, bind_rule}
use beanstore.Config.{Config}
use beanstore.Lvm.Types.{no_activate}
use beanstore.Lvm.Interface.{Lvm}
use beanstore.Lvm.Laws.{Entry, View}
use beanstore.Storage.State.{State, ready, attached, state_tag}
use beanstore.Lvm.Errors.{LvmError}
use beanstore.Storage.Errors.{lvm_failed, not_found, Error, wrap}
use beanstore.Storage.Node.Reads.{get_volume-ok, get_volume-err}
use beanstore.Storage.Volume.{Volume, volume_from_lv, get_volume, lv_name}
use beanstore.Storage.Verbs.{is_state, retag, attach}
use beanstore.Storage.Tags.Values.{values_of}
use beanstore.Storage.Node.{Same-trans, NodeLaws, state_in, entry_state, IsTagged, IsTagged-Same}
use beanstore.Storage.Node.Changes.{
  Same-Retagged, Retagged-Puts, Retagged-Same, put_self, Puts, Puts-self, Swaps, Retagged,
  change_Retagged,
}
use beanstore.Storage.Node.Guard.{guard_rule}
use beanstore.Storage.Node.Ends.{Ends, Refused-Ends, is_state-eq, is_active, wrap_rule}

pub retag-Swaps : (from to : State) → Swaps (retag from to) from to
unfolding state_tag values_of cut_prefix cat
retag-Swaps from to = record { adds = refl; removes = refl }

-- The lv after `lvchange -a y` without -K.
abbrev activated : String → Entry → Entry
activated path e =
    if e.skip && true then e else record e { lv = record (e.lv) { active = true; path = path } }

activated-tags : (path : String) (e : Entry) → (activated path e).lv.tags ≡ e.lv.tags
activated-tags path e = ground arith

activated_runs :
    (path : String) (e : Entry)
    → e.skip ≡ false
    → ((activated path e).lv.active ≡ true) × ((activated path e).lv.path ≡ path)
activated_runs path e h = ground arith

module _ {W : Type 0} (lvm : Lvm W) (cfg : Config) (laws : NodeLaws lvm cfg) where
  abbrev AttachDone : String → View → String → View → Type 0
  AttachDone id v path v' =
      (state_in v id ≡ some ready)
      × Retagged id attached v v'
      × ((e : Entry)
          → v id ≡ some e
          → e.skip ≡ false
          → (is_active (v' id) ≡ true) × (path ≡ laws.device id))

  abbrev pub AttachPartial : String → View → View → Type 0
  AttachPartial id v v' = (state_in v id ≡ some ready) × Retagged id attached v v'

  abbrev AttachEnds : String → View → Result Error String × W → Type 0
  AttachEnds id v r =
      Ends id (λ s. is_state s ready) v (AttachDone id v) (AttachPartial id v) r.0 (laws.view r.1)

  -- The lookup of the path of the activated volume, which is there.
  read_path :
      (id : String) (v : View) (w : W) (e : Entry)
      → (state_in v id ≡ some ready)
      → Retagged id attached v (laws.view w)
      → laws.view w id ≡ some (activated (laws.device id) e)
      → ((e' : Entry) → v id ≡ some e' → e'.skip ≡ e.skip)
      → AttachEnds id v ((get_volume lvm cfg id >>= λ volume. pure volume.path) w)
  read_path id v w e before r found skips =
      bind_rule (AttachEnds id v) (get_volume lvm cfg id) _ w
        (λ x h.
          let (same, e2, at, eq, _) = get_volume-ok lvm cfg laws id w x h in
          let e2-eq : e2 ≡ activated (laws.device id) e = some_injective (sym at ∙ found) in
          (
            before,
            Retagged-Same r same,
            λ e' was plain.
                let runs = activated_runs (laws.device id) e (sym (skips e' was) ∙ plain) in
                (
                  ap is_active (same.same id ∙ found) ∙ runs.0,
                  ap (λ (y : Volume). y.path) eq
                      ∙ unfold volume_from_lv in (ap (λ (y : Entry). y.lv.path) e2-eq ∙ runs.1),
                ),
          ))
        (λ x h.
          let (same, why) = get_volume-err lvm cfg laws id w x h in
          lost x why (Retagged-Same r same))
    where
      lost :
          (x : Error)
          → ((x ≡ not_found id) × (state_in (laws.view w) id ≡ none))
            ⊎ ((l : LvmError) × (x ≡ lvm_failed l))
          → Retagged id attached v (laws.view (get_volume lvm cfg id w).1)
          → AttachEnds id v (err x, (get_volume lvm cfg id w).1)
      lost x (inl (_, none_there)) r' = absurd (cc (r.state, none_there))
      lost x (inr (l, e')) r' = rw e' (inr (before, r'))

  -- From the retagged volume on: the activation, and the lookup of the path.
  attach_activating :
      (id : String) (v : View) (w : W) (e : Entry)
      → AttachPartial id v (laws.view w)
      → laws.view w id ≡ some e
      → ((e' : Entry) → v id ≡ some e' → e'.skip ≡ e.skip)
      → AttachEnds id v (
          (wrap (lvm.activate (lv_name cfg id) no_activate)
              >> (get_volume lvm cfg id >>= λ volume. pure volume.path))
            w)
  attach_activating id v w e p found skips =
      wrap_rule (AttachEnds id v) (lvm.activate (lv_name cfg id) no_activate) _ w
        (λ a h.
          let (e2, found2, puts) = laws.activate_done id no_activate w h in
          let same_e : e2 ≡ e = some_injective (sym found2 ∙ found) in
          let p2 : Puts id (some (activated (laws.device id) e2)) (laws.view w)
              (laws.view (lvm.activate (lv_name cfg id) no_activate w).1) =
            record { puts = puts } in
          read_path id v _ e2 p.0 (Retagged-Puts p.1 found2 p2 (activated-tags (laws.device id) e2))
            (Puts-self p2) (λ e' was. skips e' was ∙ ap (λ (y : Entry). y.skip) (sym same_e)))
        (λ x h.
          inr (p.0, Retagged-Same p.1 (record { same = laws.activate_fails id no_activate w x h })))

  attach_outcome :
      (id : String) (w : W)
      → IsTagged (laws.view w)
      → AttachEnds id (laws.view w) (attach lvm cfg id w)
  unfolding attach
  attach_outcome id w t =
      guard_rule lvm cfg laws (AttachEnds id (laws.view w)) id (λ s. is_state s ready) _ w
        (λ v e w1 s at eq state test.
          let h1 : state_in (laws.view w1) id ≡ some ready =
            ap entry_state (s.same id ∙ at) ∙ state ∙ ap some (is_state-eq v.state ready test) in
          wrap_rule (AttachEnds id (laws.view w))
            (lvm.change (lv_name cfg id) (retag ready attached)) _ w1
            (λ a h.
              let r =
                change_Retagged lvm cfg laws id (retag ready attached) ready attached w1
                  (retag-Swaps ready attached) (cc) (cc) (IsTagged-Same s t) h1 h in
              let (e1, found1, puts) = laws.change_done id (retag ready attached) w1 h in
              attach_activating id (laws.view w) _ _
                (ap entry_state (sym (s.same id)) ∙ h1, Same-Retagged s r)
                (puts id ∙ put_self id _ (laws.view w1))
                (λ e' was.
                  ap (λ (y : Entry). y.skip) (some_injective (sym was ∙ sym (s.same id) ∙ found1))))
            (λ x h. inl (
              Same-trans s (record { same = laws.change_fails id (retag ready attached) w1 x h }))))
        (λ x w1 s r.
          Refused-Ends id (λ y. is_state y ready) (laws.view w) (laws.view w1)
            (AttachDone id (laws.view w)) (AttachPartial id (laws.view w)) x s r)

  forget_path :
      (id : String) (v : View) (r : Result Error String) (v' : View)
      → Ends id (λ s. is_state s ready) v (AttachDone id v) (AttachPartial id v) r v'
      → Ends id (λ s. is_state s ready) v (λ path. AttachPartial id v) (AttachPartial id v) r v'
  forget_path id v (ok path) v' e = (e.0, e.1)
  forget_path id v (err (lvm_failed x)) v' e = e
  forget_path id v (err _) v' e = e

  -- Where no lv has two state tags: Attach of a volume that is READY makes it ATTACHED, changes
  -- no other volume and leaves no lv with two state tags. Where a command fails, nothing changed
  -- or this much was done. A volume that is missing or in another state is refused with that
  -- reason, and nothing changes.
  pub attach-Ends :
      (id : String) (w : W)
      → IsTagged (laws.view w)
      → Ends id
          (λ s. is_state s ready)
          (laws.view w)
          (λ path. AttachPartial id (laws.view w))
          (AttachPartial id (laws.view w))
          (attach lvm cfg id w).0
          (laws.view (attach lvm cfg id w).1)
  attach-Ends id w t = forget_path id (laws.view w) _ _ (attach_outcome id w t)

  -- Where no lv has two state tags: an attach that succeeds on a volume which lvm does not flag
  -- to be skipped leaves it active, and returns the path of its device.
  pub attach_runs :
      (id : String) (w : W) (e : Entry) (path : String)
      → IsTagged (laws.view w)
      → laws.view w id ≡ some e
      → e.skip ≡ false
      → (attach lvm cfg id w).0 ≡ ok path
      → (is_active (laws.view (attach lvm cfg id w).1 id) ≡ true) × (path ≡ laws.device id)
  attach_runs id w e path t at plain h =
      let done =
        subst
          (λ (r : Result Error String).
            Ends id (λ s. is_state s ready) (laws.view w) (AttachDone id (laws.view w))
              (AttachPartial id (laws.view w)) r (laws.view (attach lvm cfg id w).1))
          h (attach_outcome id w t) in
      done.2 e at plain
