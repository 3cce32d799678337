-- ===== src/Api/Receiving.antt =====
-- PrepareReceive of the volume service and the transfer service of internal/api/api.go.
use beanstore.Base.{ℕ, ◌==◌, String, Bool, not, List, [], ◌∷◌}
use beanstore.Base.Exec.{Result, ok, err, Exec, ◌>>◌}
use beanstore.Storage.State.{incoming}
use beanstore.Storage.Errors.{not_found}
use beanstore.Storage.Digest.{Bytes}
use beanstore.Storage.Volume.{get_volume}
use beanstore.Storage.Verbs.{is_state}
use beanstore.Storage.Transfers.{next_offset_of, attach_stream, detach_stream}
use beanstore.Storage.Transfers.Handlers.{prepare_receive, write, commit, abort}
use beanstore.Api.Status.{
  Code, Status, invalid_argument, already_exists, missing, internal, answer_code, volume_error,
  transfer_error,
}
use beanstore.Api.Names.{is_volume_id}
use beanstore.Api.Reservations.{is_reserved}
use beanstore.Api.Server.{Daemon, Server, require, inside, on_node, map_error}

-- What arrives on the stream of Receive; the end of the list is io.EOF.
pub data Message : Type 0 where
  header : String → Message
  frame : ℕ → Bytes → Message
  lost : Code → Message

unfoldable pub map_result : {E F A : Type 0} → (E → F) → Result E A → Result F A
map_result f (ok a) = ok a
map_result f (err e) = err (f e)

module _ {W : Type 0} (d : Daemon W) where
  -- The lookup of PrepareReceive: a volume that is not there is wanted.
  unfoldable pub require_free : String → Exec W Status Unit
  require_free id w = elim (get_volume d.lvm d.cfg id w).0 [
    | ok _ ↦ (err (answer_code already_exists), (get_volume d.lvm d.cfg id w).1)
    | err (not_found _) ↦ (ok tt, (get_volume d.lvm d.cfg id w).1)
    | err e ↦ (err (volume_error e), (get_volume d.lvm d.cfg id w).1)
  ]

  unfoldable pub answer_prepare_receive : String → String → ℕ → Exec (Server W) Status Unit
  answer_prepare_receive id transfer_id size = do
    require (is_volume_id id) invalid_argument
    require (is_volume_id transfer_id) invalid_argument
    require (not (size == 0)) invalid_argument
    (λ s. require (not (is_reserved (id ∷ []) s.reserved)) already_exists s)
    inside (require_free id)
    map_error transfer_error (on_node (prepare_receive d.lvm d.cfg transfer_id id size))

  unfoldable pub answer_query_transfer : String → Exec (Server W) Status ℕ
  answer_query_transfer transfer_id s =
      (map_result (λ _. answer_code missing) (next_offset_of transfer_id s.transfers), s)

  -- The loop of Receive.
  unfoldable pub receive_frames : String → List Message → Exec (Server W) Status Unit
  receive_frames transfer_id [] s = (ok tt, s)
  receive_frames transfer_id (lost c ∷ rest) s = (err (answer_code c), s)
  receive_frames transfer_id (header _ ∷ rest) s = (err (answer_code invalid_argument), s)
  receive_frames transfer_id (frame offset payload ∷ rest) s =
      (map_error transfer_error (on_node (write d.sha256 d.files transfer_id offset payload))
          >> receive_frames transfer_id rest)
        s

  -- The stream is detached however the loop ends.
  unfoldable pub receive_attached : String → List Message → Exec (Server W) Status Unit
  receive_attached transfer_id rest s =
      let r = receive_frames transfer_id rest s in
      (r.0, record (r.1) { transfers = detach_stream transfer_id (r.1).transfers })

  unfoldable pub answer_receive : List Message → Exec (Server W) Status Unit
  answer_receive (header transfer_id ∷ rest) s =
      (map_error transfer_error (λ s.
            let r = attach_stream transfer_id s.transfers in (r.0, record s { transfers = r.1 }))
          >> receive_attached transfer_id rest)
        s
  answer_receive _ s = (err (answer_code invalid_argument), s)

  unfoldable pub answer_commit_transfer : String → Bytes → Exec (Server W) Status Unit
  answer_commit_transfer transfer_id digest =
      map_error transfer_error (on_node (commit d.lvm d.cfg d.sha256 d.files transfer_id digest))

  unfoldable pub answer_abort_transfer : String → Exec (Server W) Status Unit
  answer_abort_transfer transfer_id = on_node (λ n. (ok tt, abort d.lvm d.cfg transfer_id n))

  unfoldable pub answer_query_volume : String → Exec (Server W) Status Bool
  answer_query_volume id = inside (λ w. elim (get_volume d.lvm d.cfg id w).0 [
    | ok volume ↦ (ok (not (is_state volume.state incoming)), (get_volume d.lvm d.cfg id w).1)
    | err (not_found _) ↦ (ok Bool.false, (get_volume d.lvm d.cfg id w).1)
    | err _ ↦ (err (answer_code internal), (get_volume d.lvm d.cfg id w).1)
  ])
