-- ===== src/Api/Jobs/Ends.antt =====
-- Every background task of internal/api/ ends its operation.
use beanstore.Base.{◌≡◌, refl, ◌⊎◌, inl, inr, ℕ, String, Bool, true, false, Bool-cases}
use beanstore.Base.Exec.{Exec, Result-cases}
use beanstore.Base.Keeps.{Keeps, then-Keeps}
use beanstore.Operations.{progress}
use beanstore.Operations.Phases.{Known, progress-Known}
use beanstore.Operations.Endings.{Ended, mark_done-Ended, mark_failed-Ended}
use beanstore.Lvm.Types.{no_common}
use beanstore.Storage.Errors.{Error, wrap}
use beanstore.Storage.Digest.{Bytes}
use beanstore.Storage.Volume.{lv_name, get_volume}
use beanstore.Storage.Pushes.{retire_pushed, mark_committing}
use beanstore.Storage.Pins.{release}
use beanstore.Storage.Reader.{copy_device}
use beanstore.Storage.Reader.Keeping.{copy_device-Keeps}
use beanstore.Api.Server.{
  Daemon, Server, Cause, stored, Job, creates, deletes, pushes, copies, pushes_snapshot, inside,
  update_ops, fail_operation, settle,
}
use beanstore.Api.Exports.{release_export}
use beanstore.Api.Volumes.{run_create, run_delete}
use beanstore.Api.Pushing.{
  CommitOutcome, commit_landed, commit_refused, commit_unknown, files_inside, call, store,
  abort_on_target, fail_push, retire, stream_volume, commit_push, settle_push, resolve_push,
  finish_push, run_marked, run_connected, run_push, cause_code, ends_commit,
}
use beanstore.Api.Pushing.Streams.{
  StreamsKeep, stream_volume-Keeps, map_error-Keeps, attempts-Keeps,
}
use beanstore.Api.Copies.{
  copy_from_snapshot, run_copy_from_snapshot, end_snapshot_push, run_snapshot_connected,
  run_snapshot_push,
}
use beanstore.Api.Jobs.{run_job}

abbrev pub job_operation : Job → String
job_operation (creates id size op) = op
job_operation (deletes id snapshots op) = op
job_operation (pushes id transfer_id target op) = op
job_operation (copies id snapshot_id op size) = op
job_operation (pushes_snapshot id transfer_id target op) = op

pub CommitOutcome-cases :
    (o : CommitOutcome)
    → (o ≡ commit_landed)
      ⊎ (((c : Cause) × (o ≡ commit_refused c)) ⊎ ((c : Cause) × (o ≡ commit_unknown c)))
CommitOutcome-cases commit_landed = inl refl
CommitOutcome-cases (commit_refused c) = inr (inl (c, refl))
CommitOutcome-cases (commit_unknown c) = inr (inr (c, refl))

module _ {W : Type 0} (d : Daemon W) (op : String) where
  abbrev Has : Server W → Type 0
  Has s = Known op s.ops

  abbrev Over : Server W → Type 0
  Over s = Ended op s.ops

  fail_operation-Over : (cause : Cause) (s : Server W) → Has s → Over (fail_operation d op cause s)
  unfolding fail_operation update_ops
  fail_operation-Over cause s h = mark_failed-Ended op (d.text cause) s.ops h

  inside-Has : {E A : Type 0} (m : Exec W E A) → Keeps Has (inside m)
  unfolding inside
  inside-Has m s h = h

  settle-Over :
      (m : Exec (Server W) Error Unit) (s : Server W) → Keeps Has m → Has s → Over (settle d op m s)
  unfolding update_ops settle
  settle-Over m s k h = elim (Result-cases (m s).0) [
    | inl (a, e) ↦ rw (e, settle) (mark_done-Ended op _ (k s h))
    | inr (x, e) ↦ rw (e, settle) (fail_operation-Over _ _ (k s h))
  ]

  streams-Has : (id target transfer_id : String) → StreamsKeep d Has id op target transfer_id
  unfolding files_inside inside update_ops
  streams-Has id target transfer_id = record {
    activates = λ skip s h. h;
    looks_up = λ s h. h;
    queries = λ s h. h;
    receives = λ s h. h;
    sends_header = λ s h. h;
    sends_frame = λ f s h. h;
    closes = λ s h. h;
    files = record {
      open_file = λ p s h. h;
      seek_end = λ p s h. h;
      seek_start = λ p s h. h;
      read = λ p o n s h. h;
      write_at = λ p o b s h. h;
      sync = λ p s h. h;
      alive = λ s h. h;
    };
    progresses = λ n s h. progress-Known op n s.ops h;
  }

  commit_push-Has :
      (target transfer_id : String) (digest : Bytes) (s : Server W)
      → Has s
      → Has (commit_push d target transfer_id digest s).1
  unfolding commit_push call
  commit_push-Has target transfer_id digest s h =
      attempts-Keeps Has 4 (λ e. ends_commit (cause_code e)) _
        (map_error-Keeps Has _ (inside (d.peers.commit_transfer target transfer_id digest))
          (inside-Has (d.peers.commit_transfer target transfer_id digest)))
        s h

  fail_push-Over :
      (id : String) (cause : Cause) (s : Server W) → Has s → Over (fail_push d id op cause s)
  unfolding fail_push inside
  fail_push-Over id cause s h = fail_operation-Over cause _ h

  retire-Over : (id : String) (s : Server W) → Has s → Over (retire d id op s)
  unfolding update_ops inside retire
  retire-Over id s h = elim (Result-cases (inside (retire_pushed d.lvm d.cfg id) s).0) [
    | inl (a, e) ↦ rw (e, retire) (mark_done-Ended op s.ops h)
    | inr (x, e) ↦ rw (e, retire) (fail_operation-Over _ _ h)
  ]

  settle_push-Over :
      (target : String) (committed : Bool) (id transfer_id : String) (cause : Cause) (s : Server W)
      → Has s
      → Over (settle_push d target committed id transfer_id op cause s)
  unfolding settle_push abort_on_target inside
  settle_push-Over target true id transfer_id cause s h = retire-Over id s h
  settle_push-Over target false id transfer_id cause s h = fail_push-Over id cause _ h

  resolve_push-Over :
      (target id transfer_id : String) (cause : Cause) (s : Server W)
      → Has s
      → Over (resolve_push d target id transfer_id op cause s)
  unfolding inside resolve_push
  resolve_push-Over target id transfer_id cause s h =
      elim (Result-cases (inside (d.peers.query_volume target id) s).0) [
        | inl (a, e) ↦ rw (e, resolve_push) (settle_push-Over target a id transfer_id cause _ h)
        | inr (x, e) ↦ rw (e, resolve_push) (fail_operation-Over _ _ h)
      ]

  finish_push-Over :
      (target id transfer_id : String) (digest : Bytes) (s : Server W)
      → Has s
      → Over (finish_push d target id transfer_id op digest s)
  unfolding finish_push
  finish_push-Over target id transfer_id digest s h =
      elim (CommitOutcome-cases (commit_push d target transfer_id digest s).0) [
        | inl e ↦
            rw (e, finish_push) (retire-Over id _ (commit_push-Has target transfer_id digest s h))
        | inr (inl (c, e)) ↦
            rw (e, finish_push)
              (fail_push-Over id c _ (commit_push-Has target transfer_id digest s h))
        | inr (inr (c, e)) ↦
            rw (e, finish_push)
              (resolve_push-Over target id transfer_id c _
                (commit_push-Has target transfer_id digest s h))
      ]

  marked_rule :
      (target id transfer_id : String) (digest : Bytes) (s : Server W)
      → Has s
      → Over (run_marked d target id transfer_id op digest s)
  unfolding run_marked store
  marked_rule target id transfer_id digest s h =
      let marked = store d (mark_committing d.lvm d.cfg id) in
      let kept =
        map_error-Keeps Has stored (inside (mark_committing d.lvm d.cfg id)) (inside-Has _) s h in
      elim (Result-cases (marked s).0) [
        | inl (a, e) ↦ rw (e, run_marked) (finish_push-Over target id transfer_id digest _ kept)
        | inr (x, e) ↦
            rw (e, run_marked) (unfold abort_on_target inside in fail_push-Over id x _ kept)
      ]

  run_connected-Over :
      (target id transfer_id : String) (s : Server W)
      → Has s
      → Over (run_connected d target id transfer_id op s)
  unfolding run_connected abort_on_target inside
  run_connected-Over target id transfer_id s h =
      let kept =
        stream_volume-Keeps d Has id op target transfer_id (streams-Has id target transfer_id) false
          s h in
      elim (Result-cases (stream_volume d target id transfer_id op false s).0) [
        | inl (digest, e) ↦ rw (e, run_connected) (marked_rule target id transfer_id digest _ kept)
        | inr (x, e) ↦ rw (e, run_connected) (fail_push-Over id x _ kept)
      ]

  run_push-Over :
      (id transfer_id target : String) (s : Server W)
      → Has s
      → Over (run_push d id transfer_id target op s)
  unfolding run_push inside
  run_push-Over id transfer_id target s h = elim (Result-cases (inside (d.peers.dial target) s).0) [
    | inl (a, e) ↦ rw (e, run_push) (run_connected-Over target id transfer_id _ h)
    | inr (x, e) ↦ rw (e, run_push) (fail_push-Over id _ _ h)
  ]

  release_export-Over : (id : String) (s : Server W) → Over s → Over (release_export d id s)
  unfolding release_export
  release_export-Over id s h = elim (Bool-cases (release id s.pins).0) [
    | inl last ↦ rw last h
    | inr more ↦ rw more h
  ]

  copy_from_snapshot-Has :
      (id snapshot_id : String) (size : ℕ) → Keeps Has (copy_from_snapshot d id snapshot_id op size)
  unfolding copy_from_snapshot
  copy_from_snapshot-Has id snapshot_id size =
      then-Keeps Has (inside (wrap (d.lvm.create_volume _ _ id size _))) _ (inside-Has _) (λ _.
        then-Keeps Has (inside (get_volume d.lvm d.cfg id)) _ (inside-Has _) (λ target.
          then-Keeps Has (inside (wrap (d.lvm.activate (lv_name d.cfg snapshot_id) _))) _
            (inside-Has _)
            (λ _.
              then-Keeps Has (inside (get_volume d.lvm d.cfg snapshot_id)) _ (inside-Has _)
                (λ source.
                  then-Keeps Has
                    (copy_device d.sha256 (files_inside d.files) source.path target.path
                      (λ n. update_ops (progress op n)))
                    _
                    (copy_device-Keeps Has d.sha256 (files_inside d.files)
                      ((streams-Has id "" "").files) source.path target.path
                      (λ n. update_ops (progress op n)) ((streams-Has id "" "").progresses))
                    (λ _.
                      then-Keeps Has (inside (wrap (d.lvm.deactivate (lv_name d.cfg id) no_common)))
                        _ (inside-Has _) (λ _. inside-Has _))))))

  run_copy-Over :
      (id snapshot_id : String) (size : ℕ) (s : Server W)
      → Has s
      → Over (run_copy_from_snapshot d id snapshot_id op size s)
  unfolding run_copy_from_snapshot update_ops
  run_copy-Over id snapshot_id size s h =
      let kept = copy_from_snapshot-Has id snapshot_id size s h in
      elim (Result-cases (copy_from_snapshot d id snapshot_id op size s).0) [
        | inl (a, e) ↦
            rw (e, run_copy_from_snapshot)
              (release_export-Over snapshot_id _ (mark_done-Ended op _ kept))
        | inr (x, e) ↦
            rw (e, run_copy_from_snapshot)
              (release_export-Over snapshot_id _
                (unfold inside in fail_operation-Over (stored x) _ kept))
      ]

  end_snapshot_push-Over :
      (target transfer_id : String) (o : CommitOutcome) (s : Server W)
      → Has s
      → Over (end_snapshot_push d target transfer_id op o s)
  unfolding end_snapshot_push update_ops abort_on_target inside
  end_snapshot_push-Over target transfer_id commit_landed s h = mark_done-Ended op s.ops h
  end_snapshot_push-Over target transfer_id (commit_refused c) s h = fail_operation-Over c s h
  end_snapshot_push-Over target transfer_id (commit_unknown c) s h = fail_operation-Over _ _ h

  run_snapshot_connected-Over :
      (target id transfer_id : String) (s : Server W)
      → Has s
      → Over (run_snapshot_connected d target id transfer_id op s)
  unfolding run_snapshot_connected abort_on_target inside
  run_snapshot_connected-Over target id transfer_id s h =
      let kept =
        stream_volume-Keeps d Has id op target transfer_id (streams-Has id target transfer_id) true
          s h in
      elim (Result-cases (stream_volume d target id transfer_id op true s).0) [
        | inl (digest, e) ↦
            rw (e, run_snapshot_connected)
              (end_snapshot_push-Over target transfer_id _ _
                (commit_push-Has target transfer_id digest _ kept))
        | inr (x, e) ↦ rw (e, run_snapshot_connected) (fail_operation-Over x _ kept)
      ]

  run_snapshot_push-Over :
      (id transfer_id target : String) (s : Server W)
      → Has s
      → Over (run_snapshot_push d id transfer_id target op s)
  unfolding run_snapshot_push inside
  run_snapshot_push-Over id transfer_id target s h =
      elim (Result-cases (inside (d.peers.dial target) s).0) [
        | inl (a, e) ↦
            rw (e, run_snapshot_push)
              (release_export-Over id _ (run_snapshot_connected-Over target id transfer_id _ h))
        | inr (x, e) ↦
            rw (e, run_snapshot_push) (release_export-Over id _ (fail_operation-Over _ _ h))
      ]

module _ {W : Type 0} (d : Daemon W) where
  -- A background task on a server whose table knows its operation ends with the operation done or
  -- failed, whatever lvm, the files and the target answer, and however often they fail.
  pub run_job_ends :
      (j : Job) (s : Server W)
      → Known (job_operation j) s.ops
      → Ended (job_operation j) (run_job d j s).ops
  unfolding run_job run_create run_delete inside
  run_job_ends (creates id size op) s h = settle-Over d op _ s (λ s' k. k) h
  run_job_ends (deletes id snapshots op) s h = settle-Over d op _ s (λ s' k. k) h
  run_job_ends (pushes id transfer_id target op) s h = run_push-Over d op id transfer_id target s h
  run_job_ends (copies id snapshot_id op size) s h = run_copy-Over d op id snapshot_id size s h
  run_job_ends (pushes_snapshot id transfer_id target op) s h =
      run_snapshot_push-Over d op id transfer_id target s h
