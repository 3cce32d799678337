-- ===== src/Storage/Pushing/Stages.antt =====
-- How far a push has come on its source, step by step: the volume's state, with all other volumes
-- as they were when the push began.
use beanstore.Base.{◌≡◌, refl, ◌∙◌, ◌⊎◌, inl, inr, String, Bool, true, ◌||◌, some, false}
use beanstore.Base.Exec.{Result, ok, err, Result-cases}
use beanstore.Config.{Config}
use beanstore.Lvm.Interface.{Lvm}
use beanstore.Lvm.Laws.{View}
use beanstore.Storage.State.{State, ready, pushing, committing, retired}
use beanstore.Storage.Errors.{Error, lvm_failed}
use beanstore.Storage.Volume.{get_volume}
use beanstore.Storage.Verbs.{is_state}
use beanstore.Storage.Pushes.{mark_committing, retire_pushed, abort_push}
use beanstore.Storage.Node.{NodeLaws, state_in, Same, SameBut-trans}
use beanstore.Storage.Node.Changes.{Retagged, Retagged-Same}
use beanstore.Storage.Node.Reads.{get_volume-ok, get_volume-err}
use beanstore.Storage.Node.Calm.{Calm}
use beanstore.Storage.Node.Ends.{Ends, is_active}
use beanstore.Storage.Pushing.{Switches, mark_committing_ends}
use beanstore.Storage.Pushing.Ending.{PushEnds, retire_pushed_ends, abort_push_ends}

Ends-err :
    {A : Type 0} (id : String) (test : State → Bool) (v v' : View) (Done : A → View → Type 0)
    (Partial : View → Type 0) (x : Error)
    → Ends id test v Done Partial (err x) v'
    → Same v v' ⊎ Partial v'
Ends-err id test v v' Done Partial (lvm_failed x) h = h
Ends-err id test v v' Done Partial _ h = inl h.0

-- A further step that changes the one volume.
Retagged-step :
    {u v w : View} {id : String} {s t : State}
    → Retagged id s u v
    → Retagged id t v w
    → Retagged id t u w
Retagged-step {id = id} a b = record {
  state = b.state;
  but = SameBut-trans id a.but b.but;
  tagged = b.tagged;
}

pub Retagged-Calm :
    {u v w : View} {id : String} {s : State} → Retagged id s u v → Calm id v w → Retagged id s u w
Retagged-Calm {id = id} a c = record {
  state = c.states.states id ∙ a.state;
  but = SameBut-trans id a.but c.but;
  tagged = c.tagged;
}

module _ {W : Type 0} (lvm : Lvm W) (cfg : Config) (laws : NodeLaws lvm cfg) (id : String)
    (v0 : View) where
  -- The volume is in the state, and all other volumes are as at `v0`.
  abbrev pub At : State → W → Type 0
  At s w = Retagged id s v0 (laws.view w)

  pub get_volume-At : (s : State) (w : W) → At s w → At s (get_volume lvm cfg id w).1
  get_volume-At s w h = Retagged-Same h (elim (Result-cases (get_volume lvm cfg id w).0) [
    | inl (v, k) ↦ (get_volume-ok lvm cfg laws id w v k).0
    | inr (x, k) ↦ (get_volume-err lvm cfg laws id w x k).0
  ])

  -- A verb that moves the volume to a new state, or fails and leaves it in the old one.
  abbrev Moves : State → State → Result Error Unit × W → Type 0
  Moves from to (r, w') = ((r ≡ ok tt) × At to w') ⊎ ((x : Error) × (r ≡ err x) × At from w')

  switched-At :
      (from to : State) (w w' : W) (r : Result Error Unit)
      → At from w
      → Switches lvm cfg laws id from to (laws.view w) (r, w')
      → Moves from to (r, w')
  switched-At from to w w' (ok a) h (_, now) = inl (refl, Retagged-step h now)
  switched-At from to w w' (err x) h ends =
      let same : Same (laws.view w) (laws.view w') ⊎ ⊥ =
        Ends-err {A = Unit} id (λ s. is_state s from) (laws.view w) (laws.view w')
          (λ _ v'. (state_in (laws.view w) id ≡ some from) × Retagged id to (laws.view w) v')
          (λ _. ⊥) x ends in
      inr (x, refl, elim same [ inl s ↦ Retagged-Same h s | inr never ↦ absurd never ])

  ended-At :
      (test : State → Bool) (from to : State) (w w' : W) (r : Result Error Unit)
      → At from w
      → PushEnds lvm cfg laws id test to (laws.view w) (r, w')
      → Moves from to (r, w')
  ended-At test from to w w' (ok a) h (_, now, _) = inl (refl, Retagged-step h now)
  ended-At test from to w w' (err x) h ends =
      let left : Same (laws.view w) (laws.view w')
          ⊎ (Calm id (laws.view w) (laws.view w') × (is_active (laws.view w' id) ≡ false)) =
        Ends-err {A = Unit} id test (laws.view w) (laws.view w')
          (λ _ v'.
            ((s : State) × (state_in (laws.view w) id ≡ some s) × (test s ≡ true))
            × Retagged id to (laws.view w) v'
            × (is_active (v' id) ≡ false))
          (λ v'. Calm id (laws.view w) v' × (is_active (v' id) ≡ false)) x ends in
      inr (
        x,
        refl,
        elim left [ inl same ↦ Retagged-Same h same | inr (calm, _) ↦ Retagged-Calm h calm ],
      )

  pub mark_committing-At :
      (w : W) → At pushing w → Moves pushing committing (mark_committing lvm cfg id w)
  mark_committing-At w h =
      switched-At pushing committing w _ _ h (mark_committing_ends lvm cfg laws id w h.tagged)

  pub retire_pushed-At :
      (w : W) → At committing w → Moves committing retired (retire_pushed lvm cfg id w)
  retire_pushed-At w h =
      ended-At (λ s. is_state s committing) committing retired w _ _ h
        (retire_pushed_ends lvm cfg laws id w h.tagged)

  pub abort_push-At :
      (from : State) (w : W) → At from w → Moves from ready (abort_push lvm cfg id w)
  abort_push-At from w h =
      ended-At (λ s. is_state s pushing || is_state s committing) from ready w _ _ h
        (abort_push_ends lvm cfg laws id w h.tagged)
