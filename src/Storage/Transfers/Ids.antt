-- ===== src/Storage/Transfers/Ids.antt =====
-- The ids of inbound transfers (internal/storage/transfers.go) are single use.
use beanstore.Base.{
  ◌≡◌, ℕ, String, Bool, true, false, ◌||◌, ◌∷◌, contains, eq_iff, if◌then◌else◌, leb, arith,
  Bool-cases, Option-cases, inl, inr,
}
use beanstore.Base.StringMap.{lookup, lookup-erase, lookup-insert}
use beanstore.Base.Exec.{Exec, pure, ◌>>=◌, ◌>>◌, bind_rule, Result-cases}
use beanstore.Config.{Config}
use beanstore.Lvm.Types.{no_common}
use beanstore.Storage.Volume.{Volume, lv_name, get_volume}
use beanstore.Lvm.Interface.{Lvm}
use beanstore.Storage.Errors.{wrap, Error}
use beanstore.Storage.Digest.{Bytes}
use beanstore.Storage.Reader.{Files, io, byte_count}
use beanstore.Storage.Transfers.{
  frame_end, equal_bytes, live_sessions, new_session, incoming_options, commit_options, Session,
  Transfers, finish, put_session, live_session, attach_stream, detach_stream, is_bad_frame,
}
use beanstore.Storage.Transfers.Handlers.{
  digested, received_digest, Node, outside, update, destroy, or_destroy, or_finish, has_session,
  receive, prepare_receive, commit, commit_volume, commit_answer, write, open_device,
}

abbrev pub IsUsed : String → Transfers → Type 0
IsUsed id t = contains id t.dead || has_session id t ≡ true

put-IsUsed :
    (id j : String) (s : Session) (t : Transfers) → IsUsed id t → IsUsed id (put_session j s t)
unfolding put_session has_session
put-IsUsed id j s t h = ground (arith, lookup-insert j id s t.sessions)

finish-IsUsed : (id j : String) (t : Transfers) → IsUsed id t → IsUsed id (finish j t)
unfolding finish has_session contains
finish-IsUsed id j t h = ground (arith, lookup-erase j id t.sessions, eq_iff j id, eq_iff id j)

pub attach-IsUsed : (id j : String) (t : Transfers) → IsUsed id t → IsUsed id (attach_stream j t).1
unfolding attach_stream
attach-IsUsed id j t h = elim (Option-cases (live_session j t)) [
  | inl e ↦ rw (e, attach_stream) h
  | inr (s, e) ↦ elim (Bool-cases s.streaming) [
    | inl busy ↦ rw (e, attach_stream) (rw busy h)
    | inr free ↦ rw (e, attach_stream) (rw free (put-IsUsed id j _ t h))
  ]
]

pub detach-IsUsed : (id j : String) (t : Transfers) → IsUsed id t → IsUsed id (detach_stream j t)
unfolding detach_stream
detach-IsUsed id j t h = elim (Option-cases (live_session j t)) [
  | inl e ↦ rw (e, detach_stream) h
  | inr (s, e) ↦ rw (e, detach_stream) (put-IsUsed id j _ t h)
]

-- A call that keeps an id used, whichever way it ends.
abbrev pub Keeps : {W A : Type 0} → String → Exec (Node W) Error A → Type 0
Keeps {W} id m = (n : Node W) → IsUsed id n.table → IsUsed id (m n).1.table

update-Keeps :
    {W : Type 0} (id : String) (f : Transfers → Transfers)
    → ((t : Transfers) → IsUsed id t → IsUsed id (f t))
    → Keeps {W = W} id (update f)
unfolding update
update-Keeps id f k n h = k n.table h

outside-Keeps : {W A : Type 0} (id : String) (m : Exec W Error A) → Keeps id (outside m)
unfolding outside
outside-Keeps id m n h = h

then-Keeps :
    {W A B : Type 0} (id : String) (m : Exec (Node W) Error A) (f : A → Exec (Node W) Error B)
    → Keeps id m
    → ((a : A) → Keeps id (f a))
    → Keeps id (m >>= f)
then-Keeps id m f km kf n h =
    bind_rule (λ r. IsUsed id r.1.table) m f n (λ a _. kf a _ (km n h)) (λ e _. km n h)

module _ {W : Type 0} (lvm : Lvm W) (cfg : Config) where
  pub destroy-Keeps :
      (id j : String) (n : Node W) → IsUsed id n.table → IsUsed id (destroy lvm cfg j n).table
  unfolding destroy
  destroy-Keeps id j n h = elim (Option-cases (live_session j n.table)) [
    | inl e ↦ rw (e, destroy) h
    | inr (s, e) ↦ rw (e, destroy) (finish-IsUsed id j n.table h)
  ]

  or_destroy-Keeps :
      {A : Type 0} (id j : String) (m : Exec (Node W) Error A)
      → Keeps id m
      → Keeps id (or_destroy lvm cfg j m)
  unfolding or_destroy
  or_destroy-Keeps id j m k n h = elim (Result-cases (m n).0) [
    | inl (a, e) ↦ rw (e, or_destroy) (k n h)
    | inr (x, e) ↦ rw (e, or_destroy) (destroy-Keeps id j (m n).1 (k n h))
  ]

  or_finish-Keeps :
      {A : Type 0} (id j : String) (m : Exec (Node W) Error A)
      → Keeps id m
      → Keeps id (or_finish lvm cfg j m)
  unfolding or_finish
  or_finish-Keeps id j m k n h = elim (Result-cases (m n).0) [
    | inl (a, e) ↦ rw (e, or_finish) (k n h)
    | inr (x, e) ↦ rw (e, or_finish) (finish-IsUsed id j (m n).1.table (k n h))
  ]

  abbrev created : String → String → ℕ → Exec W Error Unit
  created j v size =
      wrap (lvm.create_volume cfg.volume_group cfg.thin_pool v size (incoming_options j))

  abbrev prepared : String → ℕ → Volume → Session
  prepared v size volume = record (new_session v size) { path = volume.path; grace_armed = true }

  receive-Keeps : (id j v : String) (size : ℕ) → Keeps id (receive lvm cfg j v size)
  unfolding receive
  receive-Keeps id j v size =
      then-Keeps id (update (put_session j (new_session v size))) _
        (update-Keeps id _ (put-IsUsed id j (new_session v size)))
        (λ _.
          then-Keeps id (or_finish lvm cfg j (outside (created j v size))) _
            (or_finish-Keeps id j (outside (created j v size))
              (outside-Keeps id (created j v size)))
            (λ _.
              then-Keeps id (or_destroy lvm cfg j (outside (get_volume lvm cfg v))) _
                (or_destroy-Keeps id j (outside (get_volume lvm cfg v))
                  (outside-Keeps id (get_volume lvm cfg v)))
                (λ volume. update-Keeps id _ (put-IsUsed id j (prepared v size volume)))))

  pub prepare-Keeps : (id j v : String) (size : ℕ) → Keeps id (prepare_receive lvm cfg j v size)
  unfolding prepare_receive
  prepare-Keeps id j v size n h =
      elim (Bool-cases (contains j n.table.dead || has_session j n.table)) [
        | inl used ↦ rw used h
        | inr fresh ↦
            elim (Bool-cases (leb cfg.max_inbound_transfers (live_sessions n.table.sessions))) [
              | inl full ↦ rw (fresh, full) h
              | inr room ↦ rw (fresh, room) (receive-Keeps id j v size n h)
            ]
      ]

  answer-Keeps : (id j : String) (e : Error) → Keeps {W = W} id (commit_answer j e)
  unfolding commit_answer
  answer-Keeps id j e n h = elim (Bool-cases (contains j n.table.committed)) [
    | inl c ↦ rw c h
    | inr d ↦ rw d h
  ]

  abbrev synced : Files W → Bool → String → Exec (Node W) Error Unit
  synced files b path = if b then outside (io (files.sync path)) else pure tt

  synced-Keeps :
      (files : Files W) (id : String) (b : Bool) (path : String) → Keeps id (synced files b path)
  synced-Keeps files id true path = outside-Keeps id (io (files.sync path))
  synced-Keeps files id false path = λ n h. h

  commit_volume-Keeps :
      (files : Files W) (id j : String) (s : Session) → Keeps id (commit_volume lvm cfg files j s)
  unfolding commit_volume has_session
  commit_volume-Keeps files id j s =
      then-Keeps id (or_destroy lvm cfg j (synced files s.device_open s.path)) _
        (or_destroy-Keeps id j (synced files s.device_open s.path)
          (synced-Keeps files id s.device_open s.path))
        (λ _.
          then-Keeps id
            (or_destroy lvm cfg j
              (outside (wrap (lvm.deactivate (lv_name cfg s.volume_id) no_common))))
            _
            (or_destroy-Keeps id j _
              (outside-Keeps id (wrap (lvm.deactivate (lv_name cfg s.volume_id) no_common))))
            (λ _.
              then-Keeps id
                (or_destroy lvm cfg j
                  (outside (wrap (lvm.change (lv_name cfg s.volume_id) (commit_options j)))))
                _
                (or_destroy-Keeps id j _ (
                  outside-Keeps id
                    (wrap (lvm.change (lv_name cfg s.volume_id) (commit_options j)))))
                (λ _.
                  update-Keeps id _
                    (λ t h. finish-IsUsed id j (record t { committed = j ∷ t.committed }) h))))

  open_device-Keeps :
      (sha256 : Bytes → Bytes) (files : Files W) (id j : String) (s : Session)
      → Keeps id (open_device sha256 files j s)
  unfolding open_device
  open_device-Keeps sha256 files id j s n h = elim (Bool-cases s.device_open) [
    | inl o ↦ rw o h
    | inr c ↦ rw c (outside-Keeps id (io (files.open_file s.path)) n h)
  ]

  pub commit-Keeps :
      (sha256 : Bytes → Bytes) (files : Files W) (id j : String) (d : Bytes)
      → Keeps id (commit lvm cfg sha256 files j d)
  unfolding commit
  commit-Keeps sha256 files id j d n h = elim (Option-cases (lookup j n.table.sessions)) [
    | inl e ↦ rw (e, commit) (answer-Keeps id j _ n h)
    | inr (s, e) ↦ elim (Bool-cases (s.terminal || s.streaming)) [
      | inl held ↦ rw (e, commit) (rw held (answer-Keeps id j _ n h))
      | inr free ↦ elim (Bool-cases (equal_bytes (received_digest sha256 s) d)) [
        | inl same ↦ rw (e, commit) (rw (free, same) (commit_volume-Keeps files id j s n h))
        | inr bad ↦ rw (e, commit) (rw (free, bad) (destroy-Keeps id j n h))
      ]
    ]
  ]

  pub write-Keeps :
      (sha256 : Bytes → Bytes) (files : Files W) (id j : String) (o : ℕ) (d : Bytes)
      → Keeps id (write sha256 files j o d)
  unfolding write
  write-Keeps sha256 files id j o d n h = elim (Option-cases (lookup j n.table.sessions)) [
    | inl e ↦ rw (e, write) h
    | inr (s, e) ↦ elim (Bool-cases (is_bad_frame s o (byte_count d))) [
      | inl bad ↦ rw (e, write) (rw bad h)
      | inr good ↦ rw (e, write) (rw good (frame_Keeps s n h))
    ]
  ]
    where
      frame_Keeps :
          (s : Session)
          → Keeps id (
              open_device sha256 files j s
              >> (update (put_session j (digested sha256 files o d s))
                  >> (outside (io (files.write_at s.path o d))
                      >> update (
                          put_session j (record (digested sha256 files o d s) {
                            next_offset = frame_end o (byte_count d);
                          })))))
      frame_Keeps s =
          then-Keeps id (open_device sha256 files j s) _ (open_device-Keeps sha256 files id j s)
            (λ _.
              then-Keeps id (update (put_session j (digested sha256 files o d s))) _
                (update-Keeps id _ (put-IsUsed id j (digested sha256 files o d s)))
                (λ _.
                  then-Keeps id (outside (io (files.write_at s.path o d))) _
                    (outside-Keeps id (io (files.write_at s.path o d)))
                    (λ _. update-Keeps id _ (
                      put-IsUsed id j (record (digested sha256 files o d s) {
                        next_offset = frame_end o (byte_count d);
                      })))))
