-- ===== src/Storage/Recovery/Loop.antt =====
-- The loop of Recover in internal/storage/recover.go over the volumes of the scan.
use beanstore.Base.{
  ◌≡◌, ◌≢◌, refl, ap, sym, ◌∙◌, ◌⊎◌, inl, inr, String, true, false, some, List, [], ◌∷◌, arith,
  eq_iff, contains, map,
}
use beanstore.Config.{Config}
use beanstore.Lvm.Interface.{Lvm}
use beanstore.Lvm.Laws.{View, All}
use beanstore.Storage.Volume.{Volume}
use beanstore.Storage.Recover.{recover_volume, recover_all}
use beanstore.Storage.Node.{NodeLaws, state_in, entry_state, IsTagged}
use beanstore.Storage.Recovery.{Lands, Lands-trans, stays, Settles, Settles-stays, stays-Settles}
use beanstore.Storage.Recovery.Step.{Stepped, recover_volume-Stepped}

abbrev pub ids : List Volume → List String
ids = map (λ (v : Volume). v.id)

-- The volumes of a scan that are still to be visited: each in the state that was scanned.
abbrev pub Awaiting : List String → View → List Volume → Type 0
Awaiting names v =
    All (λ (u : Volume). (state_in v u.id ≡ some u.state) × (contains u.id names ≡ true))

abbrev pub DistinctIds : List Volume → Type 0
DistinctIds [] = Unit
DistinctIds (u ∷ us) = (contains u.id (ids us) ≡ false) × DistinctIds us

pub record Recovered (vs : List Volume) (names : List String) (v v' : View) : Type 0 where
  pub settled : (j : String) → contains j (ids vs) ≡ true → Settles (state_in v j) (state_in v' j)
  pub rest : (j : String) → contains j names ≡ true → contains j (ids vs) ≡ false → v' j ≡ v j
  pub others : (j : String) → contains j (ids vs) ≡ false → Lands (state_in v j) (state_in v' j)
  pub tagged : IsTagged v'

contains-head :
    (j i : String) (l : List String) → contains j (i ∷ l) ≡ true → (j ≡ i) ⊎ (contains j l ≡ true)
unfolding contains
contains-head j i l h = ground (arith, eq_iff j i)

not-contains-cons :
    (j i : String) (l : List String) → contains j (i ∷ l) ≡ false → (j ≢ i) × (contains j l ≡ false)
unfolding contains
not-contains-cons j i l h = (λ k. ground (arith, eq_iff j i), ground arith)

Awaiting-names :
    (names : List String) (v : View) (vs : List Volume) (j : String)
    → Awaiting names v vs
    → contains j (ids vs) ≡ true
    → contains j names ≡ true
Awaiting-names names v [] j a h = absurd (unfold contains in cc)
Awaiting-names names v (u ∷ us) j a h = elim (contains-head j u.id (ids us) h) [
  | inl e ↦ rw e a.0.1
  | inr k ↦ Awaiting-names names v us j a.1 k
]

-- A visit of another volume leaves those that wait as they were.
Awaiting-Stepped :
    (id : String) (names : List String) (v v' : View) (us : List Volume)
    → Stepped id names v v'
    → contains id (ids us) ≡ false
    → Awaiting names v us
    → Awaiting names v' us
Awaiting-Stepped id names v v' [] s n a = tt
Awaiting-Stepped id names v v' (u ∷ us) s n a =
    let (ne, n') = not-contains-cons id u.id (ids us) n in
    (
      (ap entry_state (s.scanned u.id a.0.1 ne) ∙ a.0.0, a.0.1),
      Awaiting-Stepped id names v v' us s n' a.1,
    )

Recovered-cons :
    (u : Volume) (us : List Volume) (names : List String) (v v1 v' : View)
    → Stepped u.id names v v1
    → contains u.id names ≡ true
    → contains u.id (ids us) ≡ false
    → Awaiting names v us
    → Recovered us names v1 v'
    → Recovered (u ∷ us) names v v'
Recovered-cons u us names v v1 v' s listed fresh a r = record {
  settled = settled;
  rest = λ j m n.
      let (ne, n') = not-contains-cons j u.id (ids us) n in
      r.rest j m n' ∙ s.scanned j m (λ k. ne (sym k));
  others = λ j n.
      let (ne, n') = not-contains-cons j u.id (ids us) n in
      Lands-trans (s.others j (λ k. ne (sym k))) (r.others j n');
  tagged = r.tagged;
}
  where
    visited : (j : String) → j ≡ u.id → Settles (state_in v j) (state_in v' j)
    visited j e = rw e (Settles-stays s.visited (ap entry_state (r.rest u.id listed fresh)))

    later : (j : String) → contains j (ids us) ≡ true → Settles (state_in v j) (state_in v' j)
    later j m =
        stays-Settles
          (ap entry_state (
            s.scanned j (Awaiting-names names v us j a m)
              (λ k. cc (ap (λ (i : String). contains i (ids us)) k, m, fresh))))
          (r.settled j m)

    settled :
        (j : String) → contains j (ids (u ∷ us)) ≡ true → Settles (state_in v j) (state_in v' j)
    settled j h = elim (contains-head j u.id (ids us) h) [ inl e ↦ visited j e | inr m ↦ later j m ]

module _ {W : Type 0} (lvm : Lvm W) (cfg : Config) (laws : NodeLaws lvm cfg) where
  pub recover_all-Recovered :
      (vs : List Volume) (names : List String) (w : W)
      → Awaiting names (laws.view w) vs
      → DistinctIds vs
      → IsTagged (laws.view w)
      → Recovered vs names (laws.view w) (laws.view (recover_all lvm cfg vs names w))
  unfolding recover_all
  recover_all-Recovered [] names w a d t = record {
    settled = λ j h. absurd (unfold contains in cc);
    rest = λ j _ _. refl;
    others = λ j _. stays refl;
    tagged = t;
  }
  recover_all-Recovered (u ∷ us) names w a d t =
      let s = recover_volume-Stepped lvm cfg laws u names w a.0.0 t in
      Recovered-cons u us names (laws.view w) (laws.view (recover_volume lvm cfg u names w).1) _ s
        a.0.1 d.0 a.1
        (recover_all-Recovered us names (recover_volume lvm cfg u names w).1
          (Awaiting-Stepped u.id names (laws.view w) _ us s d.0 a.1) d.1 s.tagged)
