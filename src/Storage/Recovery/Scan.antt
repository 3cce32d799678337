-- ===== src/Storage/Recovery/Scan.antt =====
-- The scan that crash recovery starts from: the volumes of ListVolumes (internal/storage/volumes.go)
-- wait in their states, under distinct names.
use beanstore.Base.{
  ◌≡◌, refl, ap, sym, ◌∙◌, inl, inr, String, true, false, some, List, [], ◌∷◌, arith, Bool-cases,
  Option-cases, str_eq, eq_refl, contains,
}
use mathlib.Core.Path.{subst}
use beanstore.Lvm.Types.{LogicalVolume}
use beanstore.Lvm.Interface.{Lvm}
use beanstore.Lvm.Laws.{Entry, View, All, lists_name, Distinct}
use beanstore.Storage.State.{state_of}
use beanstore.Storage.Volume.{Volume, volume_from_lv, owned_volumes, is_owned}
use beanstore.Storage.Node.{state_in, entry_state}
use beanstore.Storage.Node.Reads.{is_owned-none, volume_from_lv-state}
use beanstore.Storage.Recovery.Loop.{ids, Awaiting, DistinctIds}

abbrev Reported : View → List LogicalVolume → Type 0
Reported v = All (λ (lv : LogicalVolume). (e : Entry) × (v lv.name ≡ some e) × (e.lv ≡ lv))

contains_self : (i : String) (l : List String) → contains i (i ∷ l) ≡ true
unfolding contains
contains_self i l = ground (arith, eq_refl i)

contains-tail : (i j : String) (l : List String) → contains i l ≡ true → contains i (j ∷ l) ≡ true
unfolding contains
contains-tail i j l h = ground arith

module _ {W : Type 0} (lvm : Lvm W) where
  volume_id : (lv : LogicalVolume) → (volume_from_lv lvm lv).id ≡ lv.name
  unfolding volume_from_lv
  volume_id lv = refl

  -- One lv of the scan, by whether the daemon owns it.
  pub owned_volumes-own :
      (lv : LogicalVolume) (lvs : List LogicalVolume)
      → is_owned lv ≡ true
      → owned_volumes lvm (lv ∷ lvs) ≡ volume_from_lv lvm lv ∷ owned_volumes lvm lvs
  unfolding owned_volumes
  owned_volumes-own lv lvs h = rw h

  pub owned_volumes-foreign :
      (lv : LogicalVolume) (lvs : List LogicalVolume)
      → is_owned lv ≡ false
      → owned_volumes lvm (lv ∷ lvs) ≡ owned_volumes lvm lvs
  unfolding owned_volumes
  owned_volumes-foreign lv lvs h = rw h

  owned_volumes-nil : owned_volumes lvm [] ≡ []
  unfolding owned_volumes
  owned_volumes-nil = refl

  -- A name that no row has is the name of no volume.
  pub owned-names :
      (id : String) (lvs : List LogicalVolume)
      → lists_name id lvs ≡ false
      → contains id (ids (owned_volumes lvm lvs)) ≡ false
  unfolding contains
  owned-names id [] h = rw owned_volumes-nil
  owned-names id (lv ∷ lvs) h = elim (Bool-cases (is_owned lv)) [
    | inl own ↦
        rw (owned_volumes-own lv lvs own)
          (ground (arith, owned-names id lvs, ap (str_eq id) (volume_id lv)))
    | inr foreign ↦ rw (owned_volumes-foreign lv lvs foreign) (owned-names id lvs (ground arith))
  ]

  pub owned-DistinctIds :
      (lvs : List LogicalVolume) → Distinct lvs → DistinctIds (owned_volumes lvm lvs)
  owned-DistinctIds [] d = rw owned_volumes-nil tt
  owned-DistinctIds (lv ∷ lvs) d = elim (Bool-cases (is_owned lv)) [
    | inl own ↦
        rw (owned_volumes-own lv lvs own)
          (rw (volume_id lv) (owned-names lv.name lvs d.0), owned-DistinctIds lvs d.1)
    | inr foreign ↦ rw (owned_volumes-foreign lv lvs foreign) (owned-DistinctIds lvs d.1)
  ]

  owned_state :
      (v : View) (lv : LogicalVolume) (e : Entry)
      → v lv.name ≡ some e
      → e.lv ≡ lv
      → is_owned lv ≡ true
      → state_in v (volume_from_lv lvm lv).id ≡ some (volume_from_lv lvm lv).state
  owned_state v lv e at same own = elim (Option-cases (state_of lv.tags)) [
    | inl foreign ↦ absurd (cc (is_owned-none lv foreign, own))
    | inr (s, is) ↦
        ap (λ (i : String). entry_state (v i)) (volume_id lv)
        ∙ ap entry_state at
        ∙ ap (λ (l : LogicalVolume). state_of l.tags) same
        ∙ is
        ∙ ap some (sym (volume_from_lv-state lvm lv s is))
  ]

  -- Each volume of the scan is in the state that was read, and its name is among the names.
  pub owned-Awaiting :
      (v : View) (names : List String) (lvs : List LogicalVolume)
      → Reported v lvs
      → ((i : String) → contains i (ids (owned_volumes lvm lvs)) ≡ true → contains i names ≡ true)
      → Awaiting names v (owned_volumes lvm lvs)
  owned-Awaiting v names [] r sub = rw owned_volumes-nil tt
  owned-Awaiting v names (lv ∷ lvs) r sub = elim (Bool-cases (is_owned lv)) [
    | inl own ↦
        let inside : (i : String)
            → contains i ((volume_from_lv lvm lv).id ∷ ids (owned_volumes lvm lvs)) ≡ true
            → contains i names ≡ true =
          subst
            (λ (us : List Volume).
              (i : String) → contains i (ids us) ≡ true → contains i names ≡ true)
            (owned_volumes-own lv lvs own) sub in
        rw (owned_volumes-own lv lvs own) (
          (
            owned_state v lv r.0.0 r.0.1 r.0.2 own,
            inside (volume_from_lv lvm lv).id (contains_self (volume_from_lv lvm lv).id _),
          ),
          owned-Awaiting v names lvs r.1 (λ i h. inside i (contains-tail i _ _ h)),
        )
    | inr foreign ↦ rw (owned_volumes-foreign lv lvs foreign) (
        owned-Awaiting v names lvs r.1 (
          subst
            (λ (us : List Volume).
              (i : String) → contains i (ids us) ≡ true → contains i names ≡ true)
            (owned_volumes-foreign lv lvs foreign) sub))
  ]
