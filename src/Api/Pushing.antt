-- ===== src/Api/Pushing.antt =====
-- internal/api/push.go: a push as the source drives it, from the request to its outcome. The
-- delays between attempts are left out. Connections are named by their targets.
pub mod Streams
pub mod Target
pub mod Outcome
pub mod Safety
use beanstore.Base.{ℕ, zero, suc, String, Bool, true, false, not, str_eq, ltb, if◌then◌else◌}
use beanstore.Base.Exec.{Result, ok, err, Exec, pure, fail, ◌>>=◌, ◌>>◌}
use beanstore.Lvm.Types.{no_common, no_activate}
use beanstore.Operations.{progress, mark_done}
use beanstore.Storage.Errors.{Error, sink_failed, wrap}
use beanstore.Storage.Digest.{Bytes}
use beanstore.Storage.Reader.{Files, Frame, read_device, byte_count}
use beanstore.Storage.Volume.{lv_name, get_volume}
use beanstore.Storage.Transfers.{frame_end}
use beanstore.Storage.Pushes.{mark_pushing, mark_committing, retire_pushed, abort_push}
use beanstore.Api.Status.{
  Code, Status, unknown_code, invalid_argument, already_exists, missing, failed_precondition,
  data_loss,
}
use beanstore.Api.Names.{is_volume_id, is_target_address}
use beanstore.Api.Exports.{as_sink}
use beanstore.Api.Server.{
  Daemon, Server, Cause, stored, answered, not_dialed, outcome_unknown, Job, pushes, require,
  inside, map_error, begin_operation, or_fail, update_ops, fail_operation,
}

abbrev pub push_attempts : ℕ
push_attempts = 5

-- `status.Code(err)`: an error that is no status is Unknown.
unfoldable pub cause_code : Cause → Code
cause_code (answered c) = c
cause_code (stored (sink_failed c)) = c
cause_code (outcome_unknown cause) = cause_code cause
cause_code _ = unknown_code

unfoldable pub is_definitive_code : Code → Bool
is_definitive_code missing = true
is_definitive_code invalid_argument = true
is_definitive_code already_exists = true
is_definitive_code failed_precondition = true
is_definitive_code data_loss = true
is_definitive_code _ = false

-- definitivePushError
unfoldable pub is_definitive_push_error : Cause → Bool
unfolding is_definitive_code cause_code
is_definitive_push_error cause = is_definitive_code (cause_code cause)

-- `for attempt := range n + 1`: the first success, or the first error that a retry cannot
-- change, or the last error.
unfoldable pub attempts : {S A : Type 0} → ℕ → (Cause → Bool) → Exec S Cause A → Exec S Cause A
attempts zero stop m s = m s
attempts (suc n) stop m s = elim (m s).0 [
  | ok a ↦ (ok a, (m s).1)
  | err e ↦ elim (stop e) [ true ↦ (err e, (m s).1) | false ↦ attempts n stop m (m s).1 ]
]

-- The operations on files, as steps on the server.
unfoldable pub files_inside : {W : Type 0} → Files W → Files (Server W)
files_inside f = record {
  open_file = λ p. inside (f.open_file p);
  seek_end = λ p. inside (f.seek_end p);
  seek_start = λ p. inside (f.seek_start p);
  read = λ p o n. inside (f.read p o n);
  write_at = λ p o b. inside (f.write_at p o b);
  sync = λ p. inside (f.sync p);
  alive = inside f.alive;
}

-- commitOutcome, with the error that the caller reads.
pub data CommitOutcome : Type 0 where
  commit_landed : CommitOutcome
  commit_refused commit_unknown : Cause → CommitOutcome

unfoldable pub ends_commit : Code → Bool
ends_commit data_loss = true
ends_commit missing = true
ends_commit _ = false

unfoldable pub commit_error : Code → Cause → CommitOutcome
commit_error data_loss cause = commit_refused cause
commit_error _ cause = commit_unknown cause

unfoldable pub commit_outcome : Result Cause Unit → CommitOutcome
unfolding commit_error cause_code
commit_outcome (ok _) = commit_landed
commit_outcome (err cause) = commit_error (cause_code cause) cause

module _ {W : Type 0} (d : Daemon W) where
  unfoldable pub call : {A : Type 0} → Exec W Code A → Exec (Server W) Cause A
  call m = map_error answered (inside m)

  unfoldable pub store : {A : Type 0} → Exec W Error A → Exec (Server W) Cause A
  store m = map_error stored (inside m)

  -- abortTransfer: a failure is logged.
  unfoldable pub abort_on_target : String → String → Server W → Server W
  abort_on_target target transfer_id s = (inside (d.peers.abort_transfer target transfer_id) s).1

  -- failPush: a failed abort is logged.
  unfoldable pub fail_push : String → String → Cause → Server W → Server W
  fail_push id op cause s = fail_operation d op cause (inside (abort_push d.lvm d.cfg id) s).1

  -- retirePushed
  unfoldable pub retire : String → String → Server W → Server W
  retire id op s =
      let r = inside (retire_pushed d.lvm d.cfg id) s in
      elim r.0 [ ok _ ↦ update_ops (mark_done op) r.1 | err e ↦ fail_operation d op (stored e) r.1 ]

  -- What streamOnce does with a frame: those below the offset are not sent.
  unfoldable pub send_from : String → ℕ → String → Frame → Exec (Server W) Error Unit
  send_from target next op frame =
      if ltb frame.offset next
      then pure tt
      else (as_sink (inside (d.peers.send_frame target frame)) >> λ s.
          (ok tt, update_ops (progress op (frame_end frame.offset (byte_count frame.payload))) s))

  unfoldable pub send_volume : String → String → String → String → ℕ → Exec (Server W) Error Bytes
  send_volume target path transfer_id op next = do
    as_sink (inside (d.peers.send_header target transfer_id))
    content ← read_device d.sha256 (files_inside d.files) path (send_from target next op)
    pure content.1

  -- A failed send hides its cause, which the end of the stream surfaces.
  unfoldable pub surface : String → Error → Exec (Server W) Cause Bytes
  surface target (sink_failed c) =
      call (d.peers.close_and_recv target) >> fail (stored (sink_failed c))
  surface target e = fail (stored e)

  unfoldable pub or_surface : String → Exec (Server W) Error Bytes → Exec (Server W) Cause Bytes
  or_surface target m s = elim (m s).0 [
    | ok digest ↦ (ok digest, (m s).1)
    | err e ↦ surface target e (m s).1
  ]

  unfoldable pub stream_once : String → String → String → String → Exec (Server W) Cause Bytes
  stream_once target path transfer_id op = do
    next ← call (d.peers.query_transfer target transfer_id)
    call (d.peers.receive target)
    digest ← or_surface target (send_volume target path transfer_id op next)
    call (d.peers.close_and_recv target)
    pure digest

  unfoldable pub stream_volume :
      String → String → String → String → Bool → Exec (Server W) Cause Bytes
  stream_volume target id transfer_id op ignore_skip = do
    store (
        wrap (
          d.lvm.activate (lv_name d.cfg id)
            (record no_activate { ignore_activation_skip = ignore_skip })))
    volume ← store (get_volume d.lvm d.cfg id)
    attempts 4 is_definitive_push_error (stream_once target volume.path transfer_id op)

  unfoldable pub commit_push : String → String → Bytes → Server W → CommitOutcome × Server W
  commit_push target transfer_id digest s =
      let r =
        attempts 4 (λ e. ends_commit (cause_code e))
          (call (d.peers.commit_transfer target transfer_id digest)) s in
      (commit_outcome r.0, r.1)

  unfoldable pub settle_push :
      String → Bool → String → String → String → Cause → Server W → Server W
  settle_push target true id transfer_id op cause s = retire id op s
  settle_push target false id transfer_id op cause s =
      fail_push id op cause (abort_on_target target transfer_id s)

  unfoldable pub resolve_push : String → String → String → String → Cause → Server W → Server W
  resolve_push target id transfer_id op cause s =
      let r = inside (d.peers.query_volume target id) s in
      elim r.0 [
        | ok committed ↦ settle_push target committed id transfer_id op cause r.1
        | err _ ↦
            fail_operation d op (outcome_unknown cause)
              (inside (d.lvm.deactivate (lv_name d.cfg id) no_common) r.1).1
      ]

  unfoldable pub finish_push : String → String → String → String → Bytes → Server W → Server W
  finish_push target id transfer_id op digest s =
      let r = commit_push target transfer_id digest s in
      elim r.0 [
        | commit_landed ↦ retire id op r.1
        | commit_refused cause ↦ fail_push id op cause r.1
        | commit_unknown cause ↦ resolve_push target id transfer_id op cause r.1
      ]

  -- runPush behind the stream.
  unfoldable pub run_marked : String → String → String → String → Bytes → Server W → Server W
  run_marked target id transfer_id op digest s =
      let marked = store (mark_committing d.lvm d.cfg id) s in
      elim marked.0 [
        | err cause ↦ fail_push id op cause (abort_on_target target transfer_id marked.1)
        | ok _ ↦ finish_push target id transfer_id op digest marked.1
      ]

  -- runPush behind the connection.
  unfoldable pub run_connected : String → String → String → String → Server W → Server W
  run_connected target id transfer_id op s =
      let streamed = stream_volume target id transfer_id op false s in
      elim streamed.0 [
        | err cause ↦ fail_push id op cause (abort_on_target target transfer_id streamed.1)
        | ok digest ↦ run_marked target id transfer_id op digest streamed.1
      ]

  unfoldable pub run_push : String → String → String → String → Server W → Server W
  run_push id transfer_id target op s =
      let dialed = inside (d.peers.dial target) s in
      elim dialed.0 [
        | err why ↦ fail_push id op (not_dialed why) dialed.1
        | ok _ ↦ run_connected target id transfer_id op dialed.1
      ]

  unfoldable pub answer_push_volume : String → String → String → String → Exec (Server W) Status Job
  answer_push_volume id transfer_id target op = do
    require (is_volume_id id) invalid_argument
    require (is_volume_id transfer_id) invalid_argument
    require (is_target_address target) invalid_argument
    require (not (str_eq op "")) invalid_argument
    begin_operation op
    or_fail d op (inside (mark_pushing d.lvm d.cfg id transfer_id target))
    pure (pushes id transfer_id target op)
