-- ===== src/Storage/Recovery/Safety.antt =====
-- Recover of internal/storage/recover.go as a whole: what a start of the daemon does to the
-- state of every volume of the node, whichever commands fail.
use mathlib.Core.Path.{subst}
use beanstore.Base.{◌≡◌, refl, ap, ◌∙◌, inl, inr, String, List, [], ◌∷◌, Bool-cases, contains}
use beanstore.Base.Exec.{Result, ok, err, bind_rule}
use beanstore.Config.{Config}
use beanstore.Lvm.Types.{LogicalVolume}
use beanstore.Lvm.Interface.{Lvm}
use beanstore.Lvm.Laws.{View}
use beanstore.Storage.Errors.{Error, wrap}
use beanstore.Storage.Volume.{Volume, owned_volumes, list_volumes, in_pool}
use beanstore.Storage.Recover.{recover, recover_all}
use beanstore.Storage.Node.{NodeLaws, state_in, entry_state, Same, IsTagged, IsTagged-Same}
use beanstore.Storage.Node.Reads.{wrap-ok}
use beanstore.Storage.Recovery.{Settles, lands, stays, stays-Settles}
use beanstore.Storage.Recovery.Loop.{ids, Awaiting, Recovered, recover_all-Recovered}
use beanstore.Storage.Recovery.Scan.{owned-Awaiting, owned-DistinctIds}

Awaiting-Same :
    (names : List String) (v v' : View) (vs : List Volume)
    → Same v v'
    → Awaiting names v vs
    → Awaiting names v' vs
Awaiting-Same names v v' [] s a = tt
Awaiting-Same names v v' (u ∷ us) s a =
    ((ap entry_state (s.same u.id) ∙ a.0.0, a.0.1), Awaiting-Same names v v' us s a.1)

Recovered-Settles :
    (vs : List Volume) (names : List String) (v v' : View)
    → Recovered vs names v v'
    → (j : String) → Settles (state_in v j) (state_in v' j)
Recovered-Settles vs names v v' r j = elim (Bool-cases (contains j (ids vs))) [
  | inl m ↦ r.settled j m
  | inr n ↦ lands (r.others j n)
]

module _ {W : Type 0} (lvm : Lvm W) (cfg : Config) (laws : NodeLaws lvm cfg) where
  abbrev Settled : View → View → Type 0
  Settled v v' = IsTagged v' × ((j : String) → Settles (state_in v j) (state_in v' j))

  Settled-Same : (u v v' : View) → Same u v → Settled v v' → Settled u v'
  Settled-Same u v v' s (t, k) = (t, λ j. stays-Settles (ap entry_state (s.same j)) (k j))

  -- The loop over the volumes of a report.
  scanned-Settled :
      (w w' : W) (lvs : List LogicalVolume)
      → Same (laws.view w) (laws.view w')
      → (lvm.list (in_pool cfg) w).0 ≡ ok lvs
      → IsTagged (laws.view w)
      → Settled
          (laws.view w)
          (laws.view (recover_all lvm cfg (owned_volumes lvm lvs) (ids (owned_volumes lvm lvs)) w'))
  scanned-Settled w w' lvs s e t =
      let vs = owned_volumes lvm lvs in
      let r =
        recover_all-Recovered lvm cfg laws vs (ids vs) w'
          (Awaiting-Same (ids vs) (laws.view w) (laws.view w') vs s (
            owned-Awaiting lvm (laws.view w) (ids vs) lvs (laws.list_pool_sound w lvs e)
              (λ i h. h)))
          (owned-DistinctIds lvm lvs (laws.list_pool_distinct w lvs e)) (IsTagged-Same s t) in
      Settled-Same (laws.view w) (laws.view w') _ s
        (r.tagged, Recovered-Settles vs (ids vs) (laws.view w') _ r)

  -- What a scan says: the volumes of one report of the pool, which changed nothing.
  abbrev Scanned : W → Result Error (List Volume) × W → Type 0
  Scanned w (ok vs, w') =
      Same (laws.view w) (laws.view w')
      × (lvs : List LogicalVolume) × ((lvm.list (in_pool cfg) w).0 ≡ ok lvs)
      × (vs ≡ owned_volumes lvm lvs)
  Scanned w (err x, w') = Same (laws.view w) (laws.view w')

  list_volumes-Scanned : (w : W) → Scanned w (list_volumes lvm cfg w)
  unfolding list_volumes wrap
  list_volumes-Scanned w =
      bind_rule (Scanned w) (wrap (lvm.list (in_pool cfg))) _ w
        (λ lvs h. (unchanged, lvs, wrap-ok (lvm.list (in_pool cfg)) w lvs h, refl))
        (λ x h. unchanged)
    where
      unchanged : Same (laws.view w) (laws.view (lvm.list (in_pool cfg) w).1)
      unchanged = record { same = laws.list_keeps (in_pool cfg) w }

  -- Where no lv has two state tags, a start of the daemon leaves every name in one of these ways,
  -- whichever commands fail: a volume keeps its state; one in CREATING, DELETING, INCOMING or
  -- ROLLBACK may be gone; one in PUSHING may be READY; one in ROLLBACK may be READY; a name
  -- without a volume may hold one in ROLLBACK or READY. No lv gets two state tags.
  pub recover-Settles :
      (w : W)
      → IsTagged (laws.view w)
      → IsTagged (laws.view (recover lvm cfg w).1)
        × ((j : String)
            → Settles (state_in (laws.view w) j) (state_in (laws.view (recover lvm cfg w).1) j))
  unfolding recover
  recover-Settles w t =
      bind_rule (λ r. Settled (laws.view w) (laws.view r.1)) (list_volumes lvm cfg) _ w
        (λ vs h.
          let (s, lvs, e, eq) =
            subst (λ r. Scanned w (r, (list_volumes lvm cfg w).1)) h (list_volumes-Scanned w) in
          rw eq (scanned-Settled w _ lvs s e t))
        (λ x h.
          let s =
            subst (λ r. Scanned w (r, (list_volumes lvm cfg w).1)) h (list_volumes-Scanned w) in
          (IsTagged-Same s t, λ j. lands (stays (ap entry_state (s.same j)))))
