-- ===== src/Api/Rollbacks/Starting.antt =====
-- RollbackVolume of internal/api/rollback.go up to the point of no return.
use mathlib.Core.Path.{subst}
use beanstore.Base.{
  ◌≡◌, ◌≢◌, refl, ap, sym, ◌∙◌, inl, inr, String, true, none, some, cat, some_injective,
}
use beanstore.Base.Exec.{Result, ok, err, Exec, bind_rule, Result-cases}
use beanstore.Config.{Config}
use beanstore.Lvm.Types.{no_remove}
use beanstore.Lvm.Interface.{Lvm}
use beanstore.Lvm.Laws.{Entry, View}
use beanstore.Storage.State.{ready, state_of, state_text}
use beanstore.Storage.Errors.{Error, not_found}
use beanstore.Storage.Volume.{Volume, lv_name, get_volume}
use beanstore.Storage.Verbs.{is_state, remove_volume}
use beanstore.Storage.Rollback.{rollback_temp_name, begin_rollback}
use beanstore.Storage.Rollback.Beginning.{entry_origin, Copies, Begun, begin_rollback-Begun}
use beanstore.Storage.Node.{
  NodeLaws, state_in, entry_state, Same, Same-trans, IsTagged, IsTagged-Same,
}
use beanstore.Storage.Node.Reads.{get_volume-ok, get_volume-err}
use beanstore.Storage.Node.Changes.{Puts, Puts-IsTagged, put_ne}
use beanstore.Storage.Node.Ends.{wrap_last_rule}
use beanstore.Api.Rollbacks.{
  after_lookup, if_found, is_leftover, sweep_rollback, sweep_renamed_rollback, remove_or_undo,
  start_rollback,
}
use beanstore.Api.Rollbacks.Finishing.{Copied}

cat-longer : (s : String) → cat s "+rb" ≢ s
unfolding cat
cat-longer String.[] h = cc
cat-longer (String.◌∷◌ c s) h = cat-longer s (cc h)

pub temp_name-differs : (id : String) → rollback_temp_name id ≢ id
unfolding rollback_temp_name
temp_name-differs id = cat-longer id

module _ {W : Type 0} (lvm : Lvm W) (cfg : Config) (laws : NodeLaws lvm cfg) where
  -- What follows a lookup changes nothing if `rest` does not on the volume that was found.
  after_lookup-Same :
      (v : View) (rest : Volume → Exec W Error Unit) (r : Result Error Volume) (w1 : W)
      → Same v (laws.view w1)
      → ((x : Volume) → r ≡ ok x → Same v (laws.view (rest x w1).1))
      → Same v (laws.view (after_lookup lvm cfg r rest w1).1)
  unfolding after_lookup
  after_lookup-Same v rest (ok x) w1 s k = k x refl
  after_lookup-Same v rest (err (not_found _)) w1 s k = s
  after_lookup-Same v rest (err _) w1 s k = s

  if_found-Same :
      (id : String) (rest : Volume → Exec W Error Unit) (w : W)
      → ((v : Volume) (e : Entry) (w1 : W)
          → Same (laws.view w) (laws.view w1)
          → laws.view w id ≡ some e
          → state_of e.lv.tags ≡ some v.state
          → Same (laws.view w) (laws.view (rest v w1).1))
      → Same (laws.view w) (laws.view (if_found lvm cfg id rest w).1)
  unfolding if_found
  if_found-Same id rest w k =
      after_lookup-Same (laws.view w) rest (get_volume lvm cfg id w).0 (get_volume lvm cfg id w).1
        (elim (Result-cases (get_volume lvm cfg id w).0) [
          | inl (v, h) ↦ (get_volume-ok lvm cfg laws id w v h).0
          | inr (x, h) ↦ (get_volume-err lvm cfg laws id w x h).0
        ])
        (λ v h.
          let (same, e, at, _, state) = get_volume-ok lvm cfg laws id w v h in
          k v e (get_volume lvm cfg id w).1 same at state)

  -- Without a leftover the sweeps change nothing.
  sweep_rollback-Same :
      (id temp : String) (w : W)
      → laws.view w temp ≡ none
      → Same (laws.view w) (laws.view (sweep_rollback lvm cfg id temp w).1)
  unfolding sweep_rollback
  sweep_rollback-Same id temp w free =
      if_found-Same temp _ w (λ v e w1 s at state. absurd (cc (at, free)))

  sweep_renamed-Same :
      (id : String) (w : W)
      → state_in (laws.view w) id ≡ some ready
      → Same (laws.view w) (laws.view (sweep_renamed_rollback lvm cfg id w).1)
  unfolding sweep_renamed_rollback is_leftover is_state state_text
  sweep_renamed-Same id w h = if_found-Same id _ w (λ v e w1 s at state.
      let plain : v.state ≡ ready = some_injective (sym state ∙ sym (ap entry_state at) ∙ h) in
      rw plain s)

  remove_others :
      (id : String) (w : W) (j : String)
      → id ≢ j
      → laws.view (remove_volume lvm cfg id w).1 j ≡ laws.view w j
  unfolding remove_volume
  remove_others id w j n =
      let q = record no_remove { force = true } in
      wrap_last_rule (λ r. laws.view r.1 j ≡ laws.view w j) (lvm.remove (lv_name cfg id) q) w
        (λ a h. laws.remove_done id q w h j ∙ put_ne id none (laws.view w) j n)
        (λ x h. laws.remove_fails id q w x h j)

  pub remove-ok :
      (id : String) (w : W)
      → (remove_volume lvm cfg id w).0 ≡ ok tt
      → Puts id none (laws.view w) (laws.view (remove_volume lvm cfg id w).1)
  unfolding remove_volume
  remove-ok id w =
      let q = record no_remove { force = true } in
      wrap_last_rule
        (λ (r : Result Error Unit × W). r.0 ≡ ok tt → Puts id none (laws.view w) (laws.view r.1))
        (lvm.remove (lv_name cfg id) q) w (λ a h _. record { puts = laws.remove_done id q w h })
        (λ x h e. absurd (cc e))

  remove-err :
      (id : String) (w : W) (x : Error)
      → (remove_volume lvm cfg id w).0 ≡ err x
      → Same (laws.view w) (laws.view (remove_volume lvm cfg id w).1)
  unfolding remove_volume
  remove-err id w y =
      let q = record no_remove { force = true } in
      wrap_last_rule
        (λ (r : Result Error Unit × W). r.0 ≡ err y → Same (laws.view w) (laws.view r.1))
        (lvm.remove (lv_name cfg id) q) w (λ a h e. absurd (cc e))
        (λ x h _. record { same = laws.remove_fails id q w x h })

  -- Up to the point of no return: the volume is gone and its copy stands, or every lv but the copy
  -- is as it was.
  abbrev pub Started : String → String → View → Result Error Unit × W → Type 0
  Started id source v0 (ok u, w) = Copied id (rollback_temp_name id) source v0 (laws.view w)
  Started id source v0 (err x, w) = (j : String) → rollback_temp_name id ≢ j → laws.view w j ≡ v0 j

  remove-Started :
      (id source : String) (v0 : View) (w : W)
      → Copies lvm cfg laws (rollback_temp_name id) source v0 (laws.view w)
      → Started id source v0 (remove_or_undo lvm cfg id (rollback_temp_name id) w)
  unfolding remove_or_undo
  remove-Started id source v0 w c =
      let temp = rollback_temp_name id in
      elim (Result-cases (remove_volume lvm cfg id w).0) [
        | inl (u, e) ↦
            let p = remove-ok id w e in
            rw (e, remove_or_undo)
              (record {
                copy =
                    ap entry_state (
                      p.puts temp
                      ∙ put_ne id none (laws.view w) temp (λ k. temp_name-differs id (sym k)))
                    ∙ c.copy;
                from =
                    ap entry_origin (
                      p.puts temp
                      ∙ put_ne id none (laws.view w) temp (λ k. temp_name-differs id (sym k)))
                    ∙ c.from;
                others = λ j a b. p.puts j ∙ put_ne id none (laws.view w) j a ∙ c.others j b;
                tagged = Puts-IsTagged p c.tagged (λ x k. absurd (cc k));
              })
        | inr (x, e) ↦
            rw (e, remove_or_undo)
              (λ j n.
                remove_others temp (remove_volume lvm cfg id w).1 j n
                ∙ (remove-err id w x e).same j
                ∙ c.others j n)
      ]

  pub start-Started :
      (id snapshot_id : String) (w : W)
      → IsTagged (laws.view w)
      → state_in (laws.view w) id ≡ some ready
      → laws.view w (rollback_temp_name id) ≡ none
      → Started id snapshot_id
          (laws.view w)
          (start_rollback lvm cfg id snapshot_id (rollback_temp_name id) w)
  unfolding start_rollback
  start-Started id snapshot_id w t h free =
      let temp = rollback_temp_name id in
      let s1 = sweep_rollback-Same id temp w free in
      let w1 = (sweep_rollback lvm cfg id temp w).1 in
      let s2 = Same-trans s1 (sweep_renamed-Same id w1 (ap entry_state (s1.same id) ∙ h)) in
      let w2 = (sweep_renamed_rollback lvm cfg id w1).1 in
      let begun = begin_rollback-Begun lvm cfg laws id snapshot_id w2 (IsTagged-Same s2 t) in
      bind_rule (Started id snapshot_id (laws.view w)) (sweep_rollback lvm cfg id temp) _ w
        (λ _ _.
          bind_rule (Started id snapshot_id (laws.view w)) (sweep_renamed_rollback lvm cfg id) _ w1
            (λ _ _.
              bind_rule (Started id snapshot_id (laws.view w))
                (begin_rollback lvm cfg id snapshot_id) _ w2
                (λ u e.
                  let c =
                    subst
                      (λ r.
                        Begun lvm cfg laws temp snapshot_id w2
                          (r, (begin_rollback lvm cfg id snapshot_id w2).1))
                      e begun in
                  remove-Started id snapshot_id (laws.view w)
                    (begin_rollback lvm cfg id snapshot_id w2).1
                    (record {
                      free = sym (s2.same temp) ∙ c.free;
                      copy = c.copy;
                      from = c.from;
                      others = λ j n. c.others j n ∙ s2.same j;
                      tagged = c.tagged;
                    }))
                (λ x e j n.
                  let s3 =
                    subst
                      (λ r.
                        Begun lvm cfg laws temp snapshot_id w2
                          (r, (begin_rollback lvm cfg id snapshot_id w2).1))
                      e begun in
                  s3.same j ∙ s2.same j))
            (λ x e j n. s2.same j))
        (λ x e j n. s1.same j)
