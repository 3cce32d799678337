-- ===== src/Storage/Transfers/Handlers.antt =====
-- The operations of internal/storage/transfers.go that call lvm or write to a device.
use beanstore.Base.{
  ℕ, String, Bool, true, false, ◌||◌, none, some, ◌∷◌, leb, contains, if◌then◌else◌,
}
use beanstore.Base.StringMap.{lookup}
use beanstore.Base.Exec.{ok, err, Exec, pure, ◌>>=◌, ◌>>◌}
use beanstore.Config.{Config}
use beanstore.Lvm.Types.{no_common}
use beanstore.Lvm.Interface.{Lvm}
use beanstore.Storage.Errors.{
  Error, wrap, transfer_limit, transfer_used, transfer_unknown, transfer_busy, digest_mismatch,
  bad_frame,
}
use beanstore.Storage.Volume.{lv_name, get_volume}
use beanstore.Storage.Verbs.{remove_volume}
use beanstore.Storage.Digest.{Bytes, add_chunk, sum}
use beanstore.Storage.Reader.{Files, io, byte_count}
use beanstore.Storage.Transfers.{
  frame_end, Session, Transfers, new_session, live_sessions, finish, put_session, live_session,
  is_bad_frame, incoming_options, commit_options, equal_bytes, add_gaps,
}

-- The table of transfers and the state of the world.
pub record Node (W : Type 0) : Type 0 where
  pub table : Transfers
  pub world : W

-- A call that the table is not part of.
unfoldable pub outside : {W A : Type 0} → Exec W Error A → Exec (Node W) Error A
outside m n = ((m n.world).0, record n { world = (m n.world).1 })

unfoldable pub update : {W : Type 0} → (Transfers → Transfers) → Exec (Node W) Error Unit
update f n = (ok tt, record n { table = f n.table })

unfoldable pub has_session : String → Transfers → Bool
has_session id t = elim (lookup id t.sessions) [ none ↦ false | some _ ↦ true ]

unfoldable pub commit_answer : {W : Type 0} → String → Error → Exec (Node W) Error Unit
commit_answer id e n = if contains id n.table.committed then (ok tt, n) else (err e, n)

-- The digest over what was received, with the chunks that were skipped at the end.
unfoldable pub received_digest : (Bytes → Bytes) → Session → Bytes
received_digest sha256 s =
    (sum sha256 s.size_bytes
      (add_gaps sha256 s.size_bytes s.next_offset s.size_bytes s.size_bytes s.digest)).0

module _ {W : Type 0} (lvm : Lvm W) (cfg : Config) where
  -- destroy: the session ends, and its volume is removed; a failure of that is logged.
  unfoldable pub destroy : String → Node W → Node W
  destroy id n = elim (live_session id n.table) [
    | none ↦ n
    | some s ↦ record {
      table = finish id n.table;
      world = (remove_volume lvm cfg s.volume_id n.world).1;
    }
  ]

  -- A step whose failure ends the transfer.
  unfoldable pub or_destroy : {A : Type 0} → String → Exec (Node W) Error A → Exec (Node W) Error A
  or_destroy id m n = elim (m n).0 [ ok a ↦ (ok a, (m n).1) | err e ↦ (err e, destroy id (m n).1) ]

  -- A step whose failure finishes the transfer without touching its volume.
  unfoldable pub or_finish : {A : Type 0} → String → Exec (Node W) Error A → Exec (Node W) Error A
  or_finish id m n = elim (m n).0 [
    | ok a ↦ (ok a, (m n).1)
    | err e ↦ (err e, record ((m n).1) { table = finish id ((m n).1).table })
  ]

  -- PrepareReceive from the reservation of the id on.
  unfoldable pub receive : String → String → ℕ → Exec (Node W) Error Unit
  receive id volume_id size_bytes = do
    update (put_session id (new_session volume_id size_bytes))
    or_finish id (
        outside (
          wrap (
            lvm.create_volume cfg.volume_group cfg.thin_pool volume_id size_bytes
              (incoming_options id))))
    volume ← or_destroy id (outside (get_volume lvm cfg volume_id))
    update (
        put_session id
          (record (new_session volume_id size_bytes) { path = volume.path; grace_armed = true }))

  unfoldable pub prepare_receive : String → String → ℕ → Exec (Node W) Error Unit
  prepare_receive id volume_id size_bytes n =
      if contains id n.table.dead || has_session id n.table
      then (err (transfer_used id), n)
      else if leb cfg.max_inbound_transfers (live_sessions n.table.sessions)
      then (err (transfer_limit (live_sessions n.table.sessions)), n)
      else receive id volume_id size_bytes n

  -- Abort, and what the grace timer runs.
  unfoldable pub abort : String → Node W → Node W
  abort id n = destroy id n

  -- Commit once the digest matched: sync and close, deactivate, retag, and end the transfer.
  unfoldable pub commit_volume : Files W → String → Session → Exec (Node W) Error Unit
  commit_volume files id s = do
    or_destroy id (if s.device_open then outside (io (files.sync s.path)) else pure tt)
    or_destroy id (outside (wrap (lvm.deactivate (lv_name cfg s.volume_id) no_common)))
    or_destroy id (outside (wrap (lvm.change (lv_name cfg s.volume_id) (commit_options id))))
    update (λ t. finish id (record t { committed = id ∷ t.committed }))

  unfoldable pub commit : (Bytes → Bytes) → Files W → String → Bytes → Exec (Node W) Error Unit
  commit sha256 files id digest n = elim (lookup id n.table.sessions) [
    | none ↦ commit_answer id (transfer_unknown id) n
    | some s ↦
        if s.terminal || s.streaming
        then commit_answer id (if s.streaming then transfer_busy id else transfer_unknown id) n
        else if equal_bytes (received_digest sha256 s) digest
        then commit_volume files id s n
        else (err (digest_mismatch id), destroy id n)
  ]

module _ {W : Type 0} (sha256 : Bytes → Bytes) (files : Files W) where
  -- The device is opened on the first frame.
  unfoldable pub open_device : String → Session → Exec (Node W) Error Unit
  open_device id s = if s.device_open then pure tt else outside (io (files.open_file s.path))

  -- The session once a frame entered the digest.
  unfoldable pub digested : ℕ → Bytes → Session → Session
  digested offset bytes s = record s {
    device_open = true;
    digest =
        add_chunk sha256 bytes (add_gaps sha256 offset s.next_offset offset s.size_bytes s.digest);
  }

  -- Write; the digest keeps a frame whose writing fails.
  unfoldable pub write : String → ℕ → Bytes → Exec (Node W) Error Unit
  write id offset bytes n = elim (lookup id n.table.sessions) [
    | none ↦ (err (transfer_unknown id), n)
    | some s ↦
        if is_bad_frame s offset (byte_count bytes)
        then (err bad_frame, n)
        else (open_device id s
              >> (update (put_session id (digested offset bytes s))
                  >> (outside (io (files.write_at s.path offset bytes))
                      >> update (
                          put_session id (record (digested offset bytes s) {
                            next_offset = frame_end offset (byte_count bytes);
                          })))))
            n
  ]
