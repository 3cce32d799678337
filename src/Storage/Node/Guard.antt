-- ===== src/Storage/Node/Guard.antt =====
-- The head that the verbs of internal/storage/ share: look the volume up, check its state.
use beanstore.Base.{◌≡◌, refl, ap, ◌∙◌, ◌⊎◌, inl, inr, String, Bool, true, false, none, some}
use beanstore.Base.Exec.{Result, err, Exec, bind_rule, ◌>>=◌, ◌>>◌}
use beanstore.Config.{Config}
use beanstore.Lvm.Errors.{LvmError}
use beanstore.Lvm.Interface.{Lvm}
use beanstore.Lvm.Laws.{Entry, View}
use beanstore.Storage.State.{State, state_of}
use beanstore.Storage.Errors.{Error, lvm_failed, not_found, wrong_state}
use beanstore.Storage.Volume.{Volume, volume_from_lv, get_volume}
use beanstore.Storage.Verbs.{check_state}
use beanstore.Storage.Node.{NodeLaws, state_in, Same, entry_state}
use beanstore.Storage.Node.Reads.{get_volume-ok, get_volume-err}

-- Why a verb that wants a state with `test` refuses the volume `id`: there is none, its state
-- is another, or lvm failed.
abbrev pub Refused : String → (State → Bool) → View → Error → Type 0
Refused id test v (not_found i) = (i ≡ id) × (state_in v id ≡ none)
Refused id test v (wrong_state i s) = (i ≡ id) × (state_in v id ≡ some s) × (test s ≡ false)
Refused id test v (lvm_failed x) = Unit
Refused id test v _ = ⊥

check_rule :
    {W A : Type 0} (Q : Result Error A × W → Type 0) (id : String) (b : Bool) (s : State)
    (rest : Exec W Error A) (w : W)
    → (b ≡ true → Q (rest w))
    → (b ≡ false → Q (err (wrong_state id s), w))
    → Q ((check_state id b s >> rest) w)
unfolding check_state
check_rule Q id true s rest w kt kf = kt refl
check_rule Q id false s rest w kt kf = kf refl

module _ {W : Type 0} (lvm : Lvm W) (cfg : Config) (laws : NodeLaws lvm cfg) where
  -- What holds of a verb: by what its body does to a volume in a state that it accepts, and by
  -- its refusals, which change nothing.
  pub guard_rule :
      {A : Type 0} (Q : Result Error A × W → Type 0) (id : String) (test : State → Bool)
      (rest : Volume → Exec W Error A) (w : W)
      → ((v : Volume) (e : Entry) (w1 : W)
          → Same (laws.view w) (laws.view w1)
          → laws.view w id ≡ some e
          → v ≡ volume_from_lv lvm e.lv
          → state_of e.lv.tags ≡ some v.state
          → test v.state ≡ true
          → Q (rest v w1))
      → ((x : Error) (w1 : W)
          → Same (laws.view w) (laws.view w1)
          → Refused id test (laws.view w) x
          → Q (err x, w1))
      → Q ((get_volume lvm cfg id >>= λ v. check_state id (test v.state) v.state >> rest v) w)
  guard_rule Q id test rest w body refusal =
      bind_rule Q (get_volume lvm cfg id) (λ v. check_state id (test v.state) v.state >> rest v) w
        (λ v h.
          let (same, e, at, eq, state) = get_volume-ok lvm cfg laws id w v h in
          check_rule Q id (test v.state) v.state (rest v) _ (body v e _ same at eq state)
            (λ bad. refusal (wrong_state id v.state) _ same (refl, ap entry_state at ∙ state, bad)))
        (λ x h.
          let (same, why) = get_volume-err lvm cfg laws id w x h in
          refusal x _ same (refused x why))
    where
      refused :
          (x : Error)
          → ((x ≡ not_found id) × (state_in (laws.view w) id ≡ none))
            ⊎ ((l : LvmError) × (x ≡ lvm_failed l))
          → Refused id test (laws.view w) x
      refused x (inl (e, missing)) = rw e (refl, missing)
      refused x (inr (l, e)) = rw e tt
