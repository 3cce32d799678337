-- ===== src/Storage/Transfers/Limited.antt =====
-- No calls bring the inbound transfers of internal/storage/transfers.go above their limit.
use beanstore.Base.{
  ◌≡◌, refl, ℕ, ◌≤◌, String, Bool, true, false, ◌||◌, some, List, [], ◌∷◌, contains, if◌then◌else◌,
  leb, arith, Bool-cases, Option-cases, inl, inr,
}
use beanstore.Base.StringMap.{lookup}
use beanstore.Base.Exec.{Exec, pure}
use beanstore.Base.Keeps.{Keeps, then-Keeps, if-Keeps}
use beanstore.Config.{Config}
use beanstore.Lvm.Interface.{Lvm}
use beanstore.Lvm.Types.{no_common}
use beanstore.Storage.Digest.{Bytes}
use beanstore.Storage.Errors.{Error, wrap}
use beanstore.Storage.Reader.{Files, io, byte_count}
use beanstore.Storage.Volume.{lv_name, get_volume}
use beanstore.Storage.Transfers.{
  Session, Transfers, frame_end, equal_bytes, new_session, incoming_options, commit_options,
  live_sessions, live_session, put_session, attach_stream, detach_stream, is_bad_frame,
}
use beanstore.Storage.Transfers.Handlers.{
  Node, outside, update, digested, received_digest, has_session, receive, prepare_receive, commit,
  commit_volume, commit_answer, write, open_device, abort,
}
use beanstore.Storage.Transfers.Limit.{
  IsWithin, IsHeld, live-insert, lookup-put, put-IsHeld, finish-IsWithin, outside-Keeps,
  update-Keeps, destroy-IsWithin, or_destroy_then, or_finish_then,
}
use beanstore.Storage.Transfers.Once.{
  TransferCall, prepares, attaches, detaches, aborts, expires, writes, commits, transfer_step,
  transfer_run,
}

live_session-lookup :
    (id : String) (t : Transfers) (s : Session)
    → live_session id t ≡ some s
    → lookup id t.sessions ≡ some s
unfolding live_session
live_session-lookup id t s h = ground (arith, h)

module _ (cfg : Config) where
  attach-IsWithin :
      (id : String) (t : Transfers) → IsWithin cfg t → IsWithin cfg (attach_stream id t).1
  unfolding attach_stream
  attach-IsWithin id t w = elim (Option-cases (live_session id t)) [
    | inl e ↦ rw (e, attach_stream) w
    | inr (s, e) ↦ elim (Bool-cases s.streaming) [
      | inl busy ↦ rw (e, attach_stream) (rw busy w)
      | inr free ↦
          rw (e, attach_stream)
            (rw free
              (put-IsHeld cfg id s.terminal _ t refl
                (w, (s, (live_session-lookup id t s e, refl)))).0)
    ]
  ]

  detach-IsWithin :
      (id : String) (t : Transfers) → IsWithin cfg t → IsWithin cfg (detach_stream id t)
  unfolding detach_stream
  detach-IsWithin id t w = elim (Option-cases (live_session id t)) [
    | inl e ↦ rw (e, detach_stream) w
    | inr (s, e) ↦
        rw (e, detach_stream)
          (put-IsHeld cfg id s.terminal _ t refl (w, (s, (live_session-lookup id t s e, refl)))).0
  ]

module _ {W : Type 0} (lvm : Lvm W) (cfg : Config) where
  receive-IsWithin :
      (id v : String) (size : ℕ) (n : Node W)
      → IsHeld cfg id false (put_session id (new_session v size) n.table)
      → IsWithin cfg (receive lvm cfg id v size n).1.table
  unfolding receive update
  receive-IsWithin id v size n h =
      or_finish_then cfg lvm (IsHeld cfg id false) (λ t k. k.0) id
        (outside
          (wrap (lvm.create_volume cfg.volume_group cfg.thin_pool v size (incoming_options id))))
        _ (outside-Keeps cfg (IsHeld cfg id false) _)
        (λ _.
          or_destroy_then cfg lvm (IsHeld cfg id false) (λ t k. k.0) id
            (outside (get_volume lvm cfg v)) _ (outside-Keeps cfg (IsHeld cfg id false) _)
            (λ volume n' k. (put-IsHeld cfg id false _ n'.table refl k).0))
        (record n { table = put_session id (new_session v size) n.table }) h

  reserved :
      (id v : String) (size : ℕ) (t : Transfers)
      → leb cfg.max_inbound_transfers (live_sessions t.sessions) ≡ false
      → IsHeld cfg id false (put_session id (new_session v size) t)
  unfolding put_session
  reserved id v size t room = (
    ground (arith, live-insert id (new_session v size) t.sessions),
    (new_session v size, (lookup-put id (new_session v size) t, refl)),
  )

  prepare-IsWithin :
      (id v : String) (size : ℕ) (n : Node W)
      → IsWithin cfg n.table
      → IsWithin cfg (prepare_receive lvm cfg id v size n).1.table
  unfolding prepare_receive
  prepare-IsWithin id v size n w =
      elim (Bool-cases (contains id n.table.dead || has_session id n.table)) [
        | inl used ↦ rw used w
        | inr fresh ↦
            elim (Bool-cases (leb cfg.max_inbound_transfers (live_sessions n.table.sessions))) [
              | inl full ↦ rw (fresh, full) w
              | inr room ↦
                  rw (fresh, room) (receive-IsWithin id v size n (reserved id v size n.table room))
            ]
      ]

  abbrev synced : Files W → Bool → String → Exec (Node W) Error Unit
  synced files b path = if b then outside (io (files.sync path)) else pure tt

  synced-IsWithin :
      (files : Files W) (b : Bool) (path : String)
      → Keeps (λ n. IsWithin cfg n.table) (synced files b path)
  synced-IsWithin files true path = outside-Keeps cfg (IsWithin cfg) (io (files.sync path))
  synced-IsWithin files false path = λ n h. h

  commit_volume-IsWithin :
      (files : Files W) (id : String) (s : Session) (n : Node W)
      → IsWithin cfg n.table
      → IsWithin cfg (commit_volume lvm cfg files id s n).1.table
  unfolding commit_volume update
  commit_volume-IsWithin files id s =
      or_destroy_then cfg lvm (IsWithin cfg) (λ t k. k) id (synced files s.device_open s.path) _
        (synced-IsWithin files s.device_open s.path)
        (λ _.
          or_destroy_then cfg lvm (IsWithin cfg) (λ t k. k) id
            (outside (wrap (lvm.deactivate (lv_name cfg s.volume_id) no_common))) _
            (outside-Keeps cfg (IsWithin cfg) _)
            (λ _.
              or_destroy_then cfg lvm (IsWithin cfg) (λ t k. k) id
                (outside (wrap (lvm.change (lv_name cfg s.volume_id) (commit_options id)))) _
                (outside-Keeps cfg (IsWithin cfg) _)
                (λ _ n k.
                  finish-IsWithin cfg id (record (n.table) { committed = id ∷ n.table.committed })
                    k)))

  answer-IsWithin :
      (id : String) (e : Error)
      → Keeps {S = Node W} (λ n. IsWithin cfg n.table) (commit_answer id e)
  unfolding commit_answer
  answer-IsWithin id e n h = elim (Bool-cases (contains id n.table.committed)) [
    | inl c ↦ rw c h
    | inr d ↦ rw d h
  ]

  commit-IsWithin :
      (sha256 : Bytes → Bytes) (files : Files W) (id : String) (d : Bytes)
      → Keeps (λ n. IsWithin cfg n.table) (commit lvm cfg sha256 files id d)
  unfolding commit
  commit-IsWithin sha256 files id d n h = elim (Option-cases (lookup id n.table.sessions)) [
    | inl e ↦ rw (e, commit) (answer-IsWithin id _ n h)
    | inr (s, e) ↦ elim (Bool-cases (s.terminal || s.streaming)) [
      | inl held ↦ rw (e, commit) (rw held (answer-IsWithin id _ n h))
      | inr free ↦ elim (Bool-cases (equal_bytes (received_digest sha256 s) d)) [
        | inl same ↦ rw (e, commit) (rw (free, same) (commit_volume-IsWithin files id s n h))
        | inr bad ↦ rw (e, commit) (rw (free, bad) (destroy-IsWithin cfg lvm id n h))
      ]
    ]
  ]

  module _ (sha256 : Bytes → Bytes) (files : Files W) where
    put-Keeps :
        (id : String) (b : Bool) (s : Session)
        → s.terminal ≡ b
        → Keeps {S = Node W} (λ n. IsHeld cfg id b n.table) (update (put_session id s))
    put-Keeps id b s e =
        update-Keeps cfg (IsHeld cfg id b) (put_session id s) (λ t. put-IsHeld cfg id b s t e)

    open_device-Keeps :
        (id : String) (b : Bool) (s : Session)
        → Keeps (λ n. IsHeld cfg id b n.table) (open_device sha256 files id s)
    unfolding open_device
    open_device-Keeps id b s =
        if-Keeps (λ n. IsHeld cfg id b n.table) s.device_open (pure tt)
          (outside (io (files.open_file s.path))) (λ n h. h)
          (outside-Keeps cfg (IsHeld cfg id b) (io (files.open_file s.path)))

    write-IsWithin :
        (id : String) (o : ℕ) (d : Bytes)
        → Keeps (λ n. IsWithin cfg n.table) (write sha256 files id o d)
    unfolding write digested
    write-IsWithin id o d n h = elim (Option-cases (lookup id n.table.sessions)) [
      | inl e ↦ rw (e, write) h
      | inr (s, e) ↦ elim (Bool-cases (is_bad_frame s o (byte_count d))) [
        | inl bad ↦ rw (e, write) (rw bad h)
        | inr good ↦
            let P : Node W → Type 0 = λ n. IsHeld cfg id s.terminal n.table in
            let s1 = digested sha256 files o d s in
            rw (e, write)
              (rw good
                (then-Keeps P (open_device sha256 files id s) _ (open_device-Keeps id s.terminal s)
                  (λ _.
                    then-Keeps P (update (put_session id s1)) _ (put-Keeps id s.terminal s1 refl)
                      (λ _.
                        then-Keeps P (outside (io (files.write_at s.path o d))) _
                          (outside-Keeps cfg (IsHeld cfg id s.terminal) _)
                          (λ _.
                            put-Keeps id s.terminal
                              (record s1 { next_offset = frame_end o (byte_count d) }) refl)))
                  n (h, (s, (e, refl)))).0)
      ]
    ]

    step-IsWithin :
        (c : TransferCall) (n : Node W)
        → IsWithin cfg n.table
        → IsWithin cfg (transfer_step lvm cfg sha256 files c n).table
    unfolding transfer_step abort
    step-IsWithin (prepares id v size) n h = prepare-IsWithin id v size n h
    step-IsWithin (attaches id) n h = attach-IsWithin cfg id n.table h
    step-IsWithin (detaches id) n h = detach-IsWithin cfg id n.table h
    step-IsWithin (aborts id) n h = destroy-IsWithin cfg lvm id n h
    step-IsWithin (expires id) n h = destroy-IsWithin cfg lvm id n h
    step-IsWithin (writes id o d) n h = write-IsWithin id o d n h
    step-IsWithin (commits id d) n h = commit-IsWithin sha256 files id d n h

    -- Any calls on a node whose live inbound transfers are at most the configured limit leave at
    -- most as many as that limit, a grace timer that fires included.
    pub transfers_limited :
        (cs : List TransferCall) (n : Node W)
        → live_sessions n.table.sessions ≤ cfg.max_inbound_transfers
        → live_sessions (transfer_run lvm cfg sha256 files cs n).table.sessions
          ≤ cfg.max_inbound_transfers
    unfolding transfer_run
    transfers_limited [] n h = h
    transfers_limited (c ∷ cs) n h = transfers_limited cs _ (step-IsWithin c n h)
