-- ===== src/Api/Pushing/Safety.antt =====
-- A push of internal/api/push.go as a whole: the volume is never given up on its source before it
-- is on the target, and never readied on its source once it is there.
use mathlib.Core.Path.{subst}
use beanstore.Base.{◌≡◌, refl, ap, sym, ◌∙◌, ◌⊎◌, inl, inr, String, true, false, some}
use beanstore.Base.Exec.{Result, ok, err, Exec, Result-cases}
use beanstore.Base.Keeps.{Keeps}
use beanstore.Storage.State.{State, pushing, committing}
use beanstore.Storage.Errors.{Error, wrap}
use beanstore.Storage.Digest.{Bytes}
use beanstore.Storage.Pushes.{mark_committing}
use beanstore.Storage.Node.{NodeLaws, state_in, Same, Same-refl, IsTagged, Same-SameBut}
use beanstore.Storage.Node.Changes.{Retagged-Same}
use beanstore.Storage.Node.Calm.{activate-Calm}
use beanstore.Storage.Pushing.Stages.{Retagged-Calm, get_volume-At, mark_committing-At}
use beanstore.Api.Status.{Code, data_loss}
use beanstore.Api.Server.{
  Daemon, Server, Cause, stored, answered, not_dialed, inside, map_error, update_ops,
}
use beanstore.Api.Pushing.{
  commit_outcome, cause_code, ends_commit, attempts, files_inside, call, store, stream_volume,
  commit_push, finish_push, run_marked, run_connected, run_push,
}
use beanstore.Api.Pushing.Streams.{StreamsKeep, stream_volume-Keeps}
use beanstore.Api.Pushing.Target.{TargetLaws, get_volume-Keeps}
use beanstore.Api.Pushing.Outcome.{
  Here, Outcome, unresolved, unstarted, attempts_rule, commit_error-cases, retire-Outcome,
  fail_push-Outcome, abort-Outcome, resolve_push-Outcome, mark_arrived,
}

module _ {W A : Type 0} (d : Daemon W) (m : Exec W Error A) (s : Server W) where
  store-ok : (a : A) → (m s.world).0 ≡ ok a → (store d m s).0 ≡ ok a
  unfolding store map_error inside
  store-ok a e = rw (e, store, map_error) refl

  store-err : (x : Error) → (m s.world).0 ≡ err x → (store d m s).0 ≡ err (stored x)
  unfolding store map_error inside
  store-err x e = rw (e, store, map_error) refl

  store-after : (store d m s).1 ≡ (inside m s).1
  unfolding store map_error inside
  store-after = elim (Result-cases (m s.world).0) [
    | inl (a, e) ↦ rw (e, store, map_error) refl
    | inr (x, e) ↦ rw (e, store, map_error) refl
  ]

module _ {W : Type 0} (d : Daemon W) (laws : NodeLaws d.lvm d.cfg)
    (target id transfer_id op : String) (there : TargetLaws d laws target id transfer_id) where
  module _ (w0 : W) where
    abbrev In : State → W → Type 0
    In s w = Here d laws target id transfer_id op there (laws.view w0) s w

    abbrev Ends : W → Type 0
    Ends = Outcome d laws target id transfer_id op there (laws.view w0)

    -- What one call of CommitTransfer says.
    abbrev Committed : Result Cause Unit × Server W → Type 0
    Committed r =
        In committing r.1.world
        × (((r.0 ≡ ok tt) × (there.arrived r.1.world ≡ true))
            ⊎ ((c : Code) × (r.0 ≡ err (answered c))
                × (c ≡ data_loss → there.arrived r.1.world ≡ false)))

    commit_once :
        (digest : Bytes) (s : Server W)
        → In committing s.world
        → Committed (call d (d.peers.commit_transfer target transfer_id digest) s)
    unfolding call map_error inside
    commit_once digest s h =
        let asks = d.peers.commit_transfer target transfer_id digest in
        let still : In committing (asks s.world).1 =
          Retagged-Same h (there.commit_remote digest s.world) in
        elim (Result-cases (asks s.world).0) [
          | inl (a, e) ↦ rw (e, map_error) (still, inl (refl, there.commit_lands digest s.world e))
          | inr (c, e) ↦
              rw (e, map_error)
                (
                  still,
                  inr (c, refl, λ lost. there.commit_refuses digest s.world (e ∙ ap err lost)),
                )
        ]

    commit_push-Committed :
        (digest : Bytes) (s : Server W)
        → In committing s.world
        → Committed (
            attempts 4
              (λ e. ends_commit (cause_code e))
              (call d (d.peers.commit_transfer target transfer_id digest))
              s)
    commit_push-Committed digest s h =
        attempts_rule (λ s'. In committing s'.world) Committed
          (call d (d.peers.commit_transfer target transfer_id digest))
          (λ e. ends_commit (cause_code e)) (λ s' k. (commit_once digest s' k).0)
          (commit_once digest) 4 s h

    finish_push-Ends :
        (digest : Bytes) (s : Server W)
        → In committing s.world
        → Ends (finish_push d target id transfer_id op digest s).world
    unfolding finish_push commit_push commit_outcome cause_code
    finish_push-Ends digest s h =
        let (still, said) = commit_push-Committed digest s h in
        elim said [
          | inl (e, a) ↦
              rw (e, finish_push)
                (retire-Outcome d laws target id transfer_id op there (laws.view w0) _ still a)
          | inr (c, e, refused) ↦ elim (commit_error-cases c (answered c)) [
            | inl (lost, k) ↦
                rw (e, k, finish_push)
                  (fail_push-Outcome d laws target id transfer_id op there (laws.view w0) committing
                    (answered c) _ (λ w now _. unresolved now) still (refused lost))
            | inr k ↦
                rw (e, k, finish_push)
                  (resolve_push-Outcome d laws target id transfer_id op there (laws.view w0)
                    (answered c) _ still)
          ]
        ]

    run_marked-Ends :
        (digest : Bytes) (s : Server W)
        → In pushing s.world
        → there.arrived s.world ≡ false
        → Ends (run_marked d target id transfer_id op digest s).world
    unfolding run_marked
    run_marked-Ends digest s h a =
        let marks = mark_committing d.lvm d.cfg id in
        let after = ap (λ (y : Server W). y.world) (sym (store-after d marks s)) in
        let absent =
          subst (λ w. there.arrived w ≡ false) after
            (unfold inside in
              mark_arrived d laws target id transfer_id op there (laws.view w0) false s.world a) in
        elim (mark_committing-At d.lvm d.cfg laws id (laws.view w0) s.world h) [
          | inl (e, now) ↦
              rw (store-ok d marks s tt e, run_marked)
                (finish_push-Ends digest (store d marks s).1
                  (subst (In committing) after (unfold inside in now)))
          | inr (x, e, still) ↦
              rw (store-err d marks s x e, run_marked)
                (abort-Outcome d laws target id transfer_id op there (laws.view w0) pushing
                  (stored x) (store d marks s).1 (λ w k b. unstarted k b)
                  (subst (In pushing) after (unfold inside in still)) absent)
        ]

    -- What a stream keeps: the volume is PUSHING, and it is not on the target.
    abbrev Streaming : Server W → Type 0
    Streaming s = In pushing s.world × (there.arrived s.world ≡ false)

    remote-Streaming :
        {A : Type 0} (m : Exec W Code A)
        → ((w : W) → Same (laws.view w) (laws.view (m w).1))
        → ((w : W) → there.arrived (m w).1 ≡ there.arrived w)
        → Keeps Streaming (inside m)
    unfolding inside
    remote-Streaming m same keeps s (h, a) = (Retagged-Same h (same s.world), keeps s.world ∙ a)

    beside-Streaming :
        (s : Server W) (w : W)
        → Streaming s
        → Same (laws.view s.world) (laws.view w) × (there.arrived w ≡ there.arrived s.world)
        → Streaming (record s { world = w })
    beside-Streaming s w (h, a) (same, keeps) = (Retagged-Same h same, keeps ∙ a)

    streams-Streaming : StreamsKeep d Streaming id op target transfer_id
    unfolding inside files_inside update_ops wrap
    streams-Streaming = record {
      activates = λ skip s h. (
        Retagged-Calm h.0 (activate-Calm d.lvm d.cfg laws id _ s.world h.0.tagged),
        there.activate_local _ _ s.world ∙ h.1,
      );
      looks_up = λ s h. (
        get_volume-At d.lvm d.cfg laws id (laws.view w0) pushing s.world h.0,
        get_volume-Keeps d.lvm d.cfg (λ w. there.arrived w ≡ false)
            (λ q w k. there.list_local q w ∙ k) (λ x q w k. there.change_local x q w ∙ k)
            (λ x q w k. there.deactivate_local x q w ∙ k) id s.world h.1,
      );
      queries =
          remote-Streaming (d.peers.query_transfer target transfer_id) there.query_transfer_remote
            there.query_transfer_keeps;
      receives = remote-Streaming (d.peers.receive target) there.receive_remote there.receive_keeps;
      sends_header =
          remote-Streaming (d.peers.send_header target transfer_id) there.header_remote
            there.header_keeps;
      sends_frame = λ f.
          remote-Streaming (d.peers.send_frame target f) (there.frame_remote f)
            (there.frame_keeps f);
      closes =
          remote-Streaming (d.peers.close_and_recv target) there.close_remote there.close_keeps;
      files = record {
        open_file = λ p s h.
            beside-Streaming s _ h ((there.files_local s.world).open_file p s.world (beside s));
        seek_end = λ p s h.
            beside-Streaming s _ h ((there.files_local s.world).seek_end p s.world (beside s));
        seek_start = λ p s h.
            beside-Streaming s _ h ((there.files_local s.world).seek_start p s.world (beside s));
        read = λ p o n s h.
            beside-Streaming s _ h ((there.files_local s.world).read p o n s.world (beside s));
        write_at = λ p o b s h.
            beside-Streaming s _ h ((there.files_local s.world).write_at p o b s.world (beside s));
        sync =
            λ p s h. beside-Streaming s _ h ((there.files_local s.world).sync p s.world (beside s));
        alive =
            λ s h. beside-Streaming s _ h ((there.files_local s.world).alive s.world (beside s));
      };
      progresses = λ n s h. h;
    }
      where
        beside :
            (s : Server W)
            → Same (laws.view s.world) (laws.view s.world)
              × (there.arrived s.world ≡ there.arrived s.world)
        beside s = (Same-refl (laws.view s.world), refl)

    run_connected-Ends :
        (s : Server W) → Streaming s → Ends (run_connected d target id transfer_id op s).world
    unfolding run_connected
    run_connected-Ends s h =
        let kept =
          stream_volume-Keeps d Streaming id op target transfer_id streams-Streaming false s h in
        elim (Result-cases (stream_volume d target id transfer_id op false s).0) [
          | inl (digest, e) ↦ rw (e, run_connected) (run_marked-Ends digest _ kept.0 kept.1)
          | inr (x, e) ↦
              rw (e, run_connected)
                (abort-Outcome d laws target id transfer_id op there (laws.view w0) pushing x _
                  (λ w k b. unstarted k b) kept.0 kept.1)
        ]

  -- For a PUSHING volume that is not on the target, where no lv has two state tags and the target
  -- does what TargetLaws says: whichever commands and calls fail, the push ends with the volume
  -- RETIRED and on the target, or READY and not on the target, or PUSHING and not on the target,
  -- or COMMITTING. No other volume of the source changes.
  pub run_push_keeps_one :
      (s : Server W)
      → IsTagged (laws.view s.world)
      → state_in (laws.view s.world) id ≡ some pushing
      → there.arrived s.world ≡ false
      → Outcome d laws target id transfer_id op there
          (laws.view s.world)
          (run_push d id transfer_id target op s).world
  unfolding run_push inside
  run_push_keeps_one s t h a =
      let start : In s.world pushing (d.peers.dial target s.world).1 =
        Retagged-Same
          (record { state = h; but = Same-SameBut id (Same-refl (laws.view s.world)); tagged = t })
          (there.dial_remote s.world) in
      let absent = there.dial_keeps s.world ∙ a in
      elim (Result-cases (d.peers.dial target s.world).0) [
        | inl (u, e) ↦
            rw (e, run_push)
              (run_connected-Ends s.world (inside (d.peers.dial target) s).1 (start, absent))
        | inr (x, e) ↦
            rw (e, run_push)
              (fail_push-Outcome d laws target id transfer_id op there (laws.view s.world) pushing
                (not_dialed x) (inside (d.peers.dial target) s).1 (λ w k b. unstarted k b) start
                absent)
      ]
