-- ===== src/Api/Pushing/Outcome.antt =====
-- Where a push of internal/api/push.go leaves the volume on its source, against its target.
use mathlib.Core.Path.{subst}
use beanstore.Base.{
  ◌≡◌, refl, ◌∙◌, ◌⊎◌, inl, inr, ℕ, zero, suc, String, Bool, true, false, Bool-cases,
}
use beanstore.Base.Exec.{Result, Exec, Result-cases}
use beanstore.Base.Keeps.{Keeps}
use beanstore.Lvm.Laws.{View}
use beanstore.Storage.State.{State, ready, pushing, committing, retired}
use beanstore.Storage.Errors.{wrap}
use beanstore.Storage.Pushes.{mark_committing, retire_pushed, abort_push}
use beanstore.Storage.Node.{NodeLaws}
use beanstore.Storage.Node.Changes.{Retagged-Same}
use beanstore.Storage.Node.Calm.{deactivate-Calm}
use beanstore.Storage.Pushing.Stages.{At, Retagged-Calm, retire_pushed-At, abort_push-At}
use beanstore.Api.Status.{Code, data_loss}
use beanstore.Api.Server.{Daemon, Server, Cause, inside, update_ops, fail_operation}
use beanstore.Api.Pushing.{
  commit_refused, commit_unknown, commit_error, attempts, abort_on_target, fail_push, retire,
  settle_push, resolve_push,
}
use beanstore.Api.Pushing.Target.{
  TargetLaws, mark_committing-Keeps, retire_pushed-Keeps, abort_push-Keeps,
}

-- What holds of one call holds of the last of several.
pub attempts_rule :
    {S A : Type 0} (P : S → Type 0) (Q : Result Cause A × S → Type 0) (m : Exec S Cause A)
    (stop : Cause → Bool)
    → Keeps P m
    → ((s : S) → P s → Q (m s))
    → (n : ℕ) (s : S) → P s
    → Q (attempts n stop m s)
unfolding attempts
attempts_rule P Q m stop k q zero s h = q s h
attempts_rule P Q m stop k q (suc n) s h = elim (Result-cases (m s).0) [
  | inl (a, e) ↦ rw (e, attempts) (subst (λ r. Q (r, (m s).1)) e (q s h))
  | inr (x, e) ↦ elim (Bool-cases (stop x)) [
    | inl final ↦ rw (e, final, attempts) (subst (λ r. Q (r, (m s).1)) e (q s h))
    | inr again ↦ rw (e, again, attempts) (attempts_rule P Q m stop k q n (m s).1 (k s h))
  ]
]

pub commit_error-cases :
    (c : Code) (cause : Cause)
    → ((c ≡ data_loss) × (commit_error c cause ≡ commit_refused cause))
      ⊎ (commit_error c cause ≡ commit_unknown cause)
unfolding commit_error
commit_error-cases data_loss cause = inl (refl, refl)
commit_error-cases _ cause = inr refl

module _ {W : Type 0} (d : Daemon W) (laws : NodeLaws d.lvm d.cfg)
    (target id transfer_id op : String) (there : TargetLaws d laws target id transfer_id)
    (v0 : View) where
  abbrev pub Here : State → W → Type 0
  Here = At d.lvm d.cfg laws id v0

  -- Where the volume is: moved to the target, kept as READY, kept because the push could not even
  -- be undone, or COMMITTING, which a later resolution settles. No other volume changed.
  pub data Outcome (w : W) : Type 0 where
    moved : Here retired w → there.arrived w ≡ true → Outcome w
    kept : Here ready w → there.arrived w ≡ false → Outcome w
    unstarted : Here pushing w → there.arrived w ≡ false → Outcome w
    unresolved : Here committing w → Outcome w

  pub retire_arrived : (b : Bool) → Keeps (λ w. there.arrived w ≡ b) (retire_pushed d.lvm d.cfg id)
  retire_arrived b =
      retire_pushed-Keeps d.lvm d.cfg (λ w. there.arrived w ≡ b) (λ q w h. there.list_local q w ∙ h)
        (λ x q w h. there.change_local x q w ∙ h) (λ x q w h. there.deactivate_local x q w ∙ h) id

  pub abort_arrived : (b : Bool) → Keeps (λ w. there.arrived w ≡ b) (abort_push d.lvm d.cfg id)
  abort_arrived b =
      abort_push-Keeps d.lvm d.cfg (λ w. there.arrived w ≡ b) (λ q w h. there.list_local q w ∙ h)
        (λ x q w h. there.change_local x q w ∙ h) (λ x q w h. there.deactivate_local x q w ∙ h) id

  pub mark_arrived : (b : Bool) → Keeps (λ w. there.arrived w ≡ b) (mark_committing d.lvm d.cfg id)
  mark_arrived b =
      mark_committing-Keeps d.lvm d.cfg (λ w. there.arrived w ≡ b)
        (λ q w h. there.list_local q w ∙ h) (λ x q w h. there.change_local x q w ∙ h)
        (λ x q w h. there.deactivate_local x q w ∙ h) id

  pub retire-Outcome :
      (s : Server W)
      → Here committing s.world
      → there.arrived s.world ≡ true
      → Outcome (retire d id op s).world
  unfolding retire inside update_ops fail_operation
  retire-Outcome s h a = elim (retire_pushed-At d.lvm d.cfg laws id v0 s.world h) [
    | inl (e, now) ↦ rw (e, retire) (moved now (retire_arrived true s.world a))
    | inr (x, e, still) ↦ rw (e, retire) (unresolved still)
  ]

  pub fail_push-Outcome :
      (from : State) (cause : Cause) (s : Server W)
      → ((w : W) → Here from w → there.arrived w ≡ false → Outcome w)
      → Here from s.world
      → there.arrived s.world ≡ false
      → Outcome (fail_push d id op cause s).world
  unfolding fail_push inside update_ops fail_operation
  fail_push-Outcome from cause s stays h a =
      elim (abort_push-At d.lvm d.cfg laws id v0 from s.world h) [
        | inl (_, now) ↦ kept now (abort_arrived false s.world a)
        | inr (_, _, still) ↦ stays _ still (abort_arrived false s.world a)
      ]

  -- The abort on the target, and failPush.
  pub abort-Outcome :
      (from : State) (cause : Cause) (s : Server W)
      → ((w : W) → Here from w → there.arrived w ≡ false → Outcome w)
      → Here from s.world
      → there.arrived s.world ≡ false
      → Outcome (fail_push d id op cause (abort_on_target d target transfer_id s)).world
  unfolding abort_on_target inside
  abort-Outcome from cause s stays h a =
      fail_push-Outcome from cause (abort_on_target d target transfer_id s) stays
        (Retagged-Same h (there.abort_remote s.world)) (there.abort_keeps s.world ∙ a)

  pub settle_push-Outcome :
      (committed : Bool) (cause : Cause) (s : Server W)
      → Here committing s.world
      → there.arrived s.world ≡ committed
      → Outcome (settle_push d target committed id transfer_id op cause s).world
  unfolding settle_push
  settle_push-Outcome true cause s h a = retire-Outcome s h a
  settle_push-Outcome false cause s h a =
      abort-Outcome committing cause s (λ w k _. unresolved k) h a

  pub resolve_push-Outcome :
      (cause : Cause) (s : Server W)
      → Here committing s.world
      → Outcome (resolve_push d target id transfer_id op cause s).world
  unfolding resolve_push inside update_ops fail_operation wrap
  resolve_push-Outcome cause s h =
      let asked = d.peers.query_volume target id in
      let still : Here committing (asked s.world).1 =
        Retagged-Same h (there.query_remote s.world) in
      elim (Result-cases (asked s.world).0) [
        | inl (b, e) ↦
            rw (e, resolve_push)
              (settle_push-Outcome b cause (inside asked s).1 still
                (there.query_keeps s.world ∙ there.query_answers s.world b e))
        | inr (x, e) ↦
            rw (e, resolve_push)
              (unresolved (
                Retagged-Calm still
                  (deactivate-Calm d.lvm d.cfg laws id (asked s.world).1 still.tagged)))
      ]
