-- ===== src/Api/Copies/Taken.antt =====
-- A copy of internal/api/createfromsnapshot.go onto a name that was taken in the meantime.
use beanstore.Base.{◌≡◌, refl, ap, ◌∙◌, inl, inr, ℕ, String, none, some, str_eq, eq_iff, Bool-cases}
use beanstore.Base.Exec.{ok, err, Exec, Result-cases, bind_err}
use beanstore.Lvm.Types.{no_common}
use beanstore.Lvm.Errors.{LvmError}
use beanstore.Lvm.Laws.{Entry}
use beanstore.Storage.Errors.{lvm_failed, wrap}
use beanstore.Storage.Volume.{lv_name}
use beanstore.Storage.Verbs.{remove_volume}
use beanstore.Storage.Pins.{release}
use beanstore.Storage.Node.{NodeLaws}
use beanstore.Storage.Node.Changes.{Puts-self, put_ne}
use beanstore.Api.Server.{Daemon, Server, stored, inside, fail_operation, update_ops}
use beanstore.Api.Exports.{release_export}
use beanstore.Api.Copies.{copy_options, copy_from_snapshot, run_copy_from_snapshot}
use beanstore.Api.Rollbacks.Starting.{remove-ok}

module _ {W : Type 0} (d : Daemon W) (laws : NodeLaws d.lvm d.cfg) where
  -- Releasing an export brings no lv back.
  release_export-none :
      (id snapshot_id : String) (s : Server W)
      → laws.view s.world id ≡ none
      → laws.view (release_export d snapshot_id s).world id ≡ none
  unfolding release_export
  release_export-none id snapshot_id s h = elim (Bool-cases (release snapshot_id s.pins).0) [
    | inr more ↦ rw more h
    | inl last ↦ rw last deactivated
  ]
    where
      deactivated :
          laws.view (d.lvm.deactivate (lv_name d.cfg snapshot_id) no_common s.world).1 id ≡ none
      deactivated =
          elim (Result-cases (d.lvm.deactivate (lv_name d.cfg snapshot_id) no_common s.world).0) [
            | inr (x, e) ↦ laws.deactivate_fails snapshot_id no_common s.world x e id ∙ h
            | inl (a, e) ↦
                let (entry, at, puts) = laws.deactivate_done snapshot_id no_common s.world e in
                elim (Bool-cases (str_eq snapshot_id id)) [
                  | inl same ↦
                      absurd (cc (ap (laws.view s.world) ((eq_iff snapshot_id id).0 same), at, h))
                  | inr other ↦
                      puts id
                      ∙ put_ne snapshot_id _ (laws.view s.world) id
                          (λ k. cc ((eq_iff snapshot_id id).1 k, other))
                      ∙ h
                ]
          ]

  abbrev pub create_target : String → ℕ → Exec W LvmError Unit
  create_target id size =
      d.lvm.create_volume d.cfg.volume_group d.cfg.thin_pool id size copy_options

  copy-refused :
      (id snapshot_id op : String) (size : ℕ) (s : Server W) (x : LvmError)
      → (create_target id size s.world).0 ≡ err x
      → copy_from_snapshot d id snapshot_id op size s
        ≡ (err (lvm_failed x), (inside (create_target id size) s).1)
  unfolding copy_from_snapshot inside wrap
  copy-refused id snapshot_id op size s x h =
      bind_err (inside (wrap (create_target id size))) _ s (lvm_failed x) (rw (h, wrap) refl)

  -- The task of a copy whose target's name an lv has by then: where lvm can remove that lv after
  -- the refused creation, no lv has the name when the task has ended.
  pub copy_removes_taken :
      (id snapshot_id op : String) (size : ℕ) (s : Server W) (e : Entry)
      → laws.view s.world id ≡ some e
      → (remove_volume d.lvm d.cfg id (create_target id size s.world).1).0 ≡ ok tt
      → laws.view (run_copy_from_snapshot d id snapshot_id op size s).world id ≡ none
  unfolding run_copy_from_snapshot fail_operation update_ops inside
  copy_removes_taken id snapshot_id op size s e at removed =
      elim (Result-cases (create_target id size s.world).0) [
        | inl (a, h) ↦
            let free = (laws.create_done id size copy_options s.world h).1 in absurd (cc (at, free))
        | inr (x, h) ↦
            let same = ap (λ r. r.1.world) (copy-refused id snapshot_id op size s x h) in
            let gone = Puts-self (
              remove-ok d.lvm d.cfg laws id (copy_from_snapshot d id snapshot_id op size s).1.world
                (rw same removed)) in
            rw (ap (λ r. r.0) (copy-refused id snapshot_id op size s x h)) (
              release_export-none id snapshot_id
                (inside (remove_volume d.lvm d.cfg id) (
                  fail_operation d op (stored (lvm_failed x))
                    (copy_from_snapshot d id snapshot_id op size s).1)).1
                gone)
      ]
