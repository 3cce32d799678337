-- ===== src/Api/Pushing/Streams.antt =====
-- What streamVolume and commitPush of internal/api/push.go keep: any property of the server that
-- their calls and the recorded progress keep.
use beanstore.Base.{ℕ, zero, suc, String, Bool, ltb, Bool-cases, inl, inr}
use beanstore.Base.Exec.{Exec, Result-cases}
use beanstore.Base.Keeps.{Keeps, then-Keeps, if-Keeps}
use beanstore.Lvm.Types.{no_activate}
use beanstore.Operations.{progress}
use beanstore.Storage.Errors.{Error, sink_failed, wrap}
use beanstore.Storage.Digest.{Bytes}
use beanstore.Storage.Reader.{Frame, read_device}
use beanstore.Storage.Reader.Keeping.{FilesKeep, read_device-Keeps}
use beanstore.Storage.Volume.{lv_name, get_volume}
use beanstore.Api.Exports.{as_sink}
use beanstore.Api.Server.{Daemon, Server, Cause, stored, answered, inside, map_error, update_ops}
use beanstore.Api.Pushing.{
  attempts, is_definitive_push_error, files_inside, call, store, send_from, send_volume, surface,
  or_surface, stream_once, stream_volume,
}

pub map_error-Keeps :
    {S E F A : Type 0} (P : S → Type 0) (f : E → F) (m : Exec S E A)
    → Keeps P m
    → Keeps P (map_error f m)
unfolding map_error
map_error-Keeps P f m k s h = elim (Result-cases (m s).0) [
  | inl (a, e) ↦ rw (e, map_error) (k s h)
  | inr (x, e) ↦ rw (e, map_error) (k s h)
]

pub attempts-Keeps :
    {S A : Type 0} (P : S → Type 0) (n : ℕ) (stop : Cause → Bool) (m : Exec S Cause A)
    → Keeps P m
    → Keeps P (attempts n stop m)
unfolding attempts
attempts-Keeps P zero stop m k s h = k s h
attempts-Keeps P (suc n) stop m k s h = elim (Result-cases (m s).0) [
  | inl (a, e) ↦ rw (e, attempts) (k s h)
  | inr (x, e) ↦ elim (Bool-cases (stop x)) [
    | inl final ↦ rw (e, final, attempts) (k s h)
    | inr again ↦ rw (e, again, attempts) (attempts-Keeps P n stop m k (m s).1 (k s h))
  ]
]

-- The calls of streamVolume keep `P`.
pub record StreamsKeep {W : Type 0} (d : Daemon W) (P : Server W → Type 0)
    (id op target transfer_id : String) : Type 0 where
  pub activates :
      (skip : Bool)
      → Keeps P (
          inside (
            wrap (
              d.lvm.activate
                (lv_name d.cfg id)
                (record no_activate { ignore_activation_skip = skip }))))
  pub looks_up : Keeps P (inside (get_volume d.lvm d.cfg id))
  pub queries : Keeps P (inside (d.peers.query_transfer target transfer_id))
  pub receives : Keeps P (inside (d.peers.receive target))
  pub sends_header : Keeps P (inside (d.peers.send_header target transfer_id))
  pub sends_frame : (f : Frame) → Keeps P (inside (d.peers.send_frame target f))
  pub closes : Keeps P (inside (d.peers.close_and_recv target))
  pub files : FilesKeep P (files_inside d.files)
  pub progresses : (n : ℕ) (s : Server W) → P s → P (update_ops (progress op n) s)

module _ {W : Type 0} (d : Daemon W) (P : Server W → Type 0) (id op target transfer_id : String)
    (keep : StreamsKeep d P id op target transfer_id) where
  send_from-Keeps : (next : ℕ) (f : Frame) → Keeps P (send_from d target next op f)
  unfolding send_from as_sink
  send_from-Keeps next f =
      if-Keeps P (ltb f.offset next) _ _ (λ s h. h)
        (then-Keeps P (as_sink (inside (d.peers.send_frame target f))) _
          (map_error-Keeps P sink_failed (inside (d.peers.send_frame target f))
            (keep.sends_frame f))
          (λ _ s h. keep.progresses _ s h))

  send_volume-Keeps :
      (path : String) (next : ℕ) → Keeps P (send_volume d target path transfer_id op next)
  unfolding send_volume as_sink
  send_volume-Keeps path next =
      then-Keeps P (as_sink (inside (d.peers.send_header target transfer_id))) _
        (map_error-Keeps P sink_failed (inside (d.peers.send_header target transfer_id))
          keep.sends_header)
        (λ _.
          then-Keeps P
            (read_device d.sha256 (files_inside d.files) path (send_from d target next op)) _
            (read_device-Keeps P d.sha256 (files_inside d.files) keep.files path
              (send_from d target next op) (send_from-Keeps next))
            (λ _ s h. h))

  close-Keeps : Keeps P (call d (d.peers.close_and_recv target))
  unfolding call
  close-Keeps = map_error-Keeps P answered (inside (d.peers.close_and_recv target)) keep.closes

  surface-Keeps : (e : Error) → Keeps P (surface d target e)
  unfolding surface
  surface-Keeps (sink_failed c) s h =
      then-Keeps P (call d (d.peers.close_and_recv target)) _ close-Keeps (λ _ s h. h) s h
  surface-Keeps _ s h = h

  or_surface-Keeps : (m : Exec (Server W) Error Bytes) → Keeps P m → Keeps P (or_surface d target m)
  unfolding or_surface
  or_surface-Keeps m k s h = elim (Result-cases (m s).0) [
    | inl (a, e) ↦ rw (e, or_surface) (k s h)
    | inr (x, e) ↦ rw (e, or_surface) (surface-Keeps x (m s).1 (k s h))
  ]

  stream_once-Keeps : (path : String) → Keeps P (stream_once d target path transfer_id op)
  unfolding stream_once call
  stream_once-Keeps path =
      then-Keeps P (call d (d.peers.query_transfer target transfer_id)) _
        (map_error-Keeps P answered (inside (d.peers.query_transfer target transfer_id))
          keep.queries)
        (λ next.
          then-Keeps P (call d (d.peers.receive target)) _
            (map_error-Keeps P answered (inside (d.peers.receive target)) keep.receives)
            (λ _.
              then-Keeps P (or_surface d target (send_volume d target path transfer_id op next)) _
                (or_surface-Keeps (send_volume d target path transfer_id op next)
                  (send_volume-Keeps path next))
                (λ digest.
                  then-Keeps P (call d (d.peers.close_and_recv target)) _ close-Keeps
                    (λ _ s h. h))))

  pub stream_volume-Keeps : (skip : Bool) → Keeps P (stream_volume d target id transfer_id op skip)
  unfolding stream_volume store
  stream_volume-Keeps skip =
      then-Keeps P (store d (wrap (d.lvm.activate (lv_name d.cfg id) _))) _
        (map_error-Keeps P stored (inside (wrap (d.lvm.activate (lv_name d.cfg id) _)))
          (keep.activates skip))
        (λ _.
          then-Keeps P (store d (get_volume d.lvm d.cfg id)) _
            (map_error-Keeps P stored (inside (get_volume d.lvm d.cfg id)) keep.looks_up)
            (λ volume.
              attempts-Keeps P 4 is_definitive_push_error
                (stream_once d target volume.path transfer_id op) (stream_once-Keeps volume.path)))
