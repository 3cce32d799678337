-- ===== src/Api/Exports.antt =====
-- Export and releaseExport of internal/api/api.go. The stream of an export is a parameter: `send`
-- sends a frame and `send_trailer` the trailer.
pub mod Balance
use beanstore.Base.{ℕ, String, true, if◌then◌else◌}
use beanstore.Base.Exec.{Exec, pure, ◌>>=◌, ◌>>◌}
use beanstore.Lvm.Types.{no_common, no_activate, ActivateLogicalVolumeOptions}
use beanstore.Storage.State.{snapshot}
use beanstore.Storage.Errors.{Error, sink_failed, wrap}
use beanstore.Storage.Digest.{Bytes}
use beanstore.Storage.Reader.{Frame, read_device}
use beanstore.Storage.Pins.{acquire, release}
use beanstore.Storage.Volume.{Volume, lv_name, get_volume}
use beanstore.Storage.Verbs.{is_state, check_state}
use beanstore.Api.Status.{Code, Status, invalid_argument, answer_code}
use beanstore.Api.Names.{is_volume_id}
use beanstore.Api.Server.{Daemon, Server, require, inside, map_error, or_volume_error, or_internal}

abbrev pub with_skip : ActivateLogicalVolumeOptions
with_skip = record no_activate { ignore_activation_skip = true }

unfoldable pub acquire_export : {W : Type 0} → String → Server W → Server W
acquire_export id s = record s { pins = (acquire id s.pins).1 }

-- An error of a caller's stream, as ReadDevice passes it on.
unfoldable pub as_sink : {S A : Type 0} → Exec S Code A → Exec S Error A
as_sink = map_error sink_failed

module _ {W : Type 0} (d : Daemon W) where
  -- A failed deactivation is logged.
  unfoldable pub release_export : String → Server W → Server W
  release_export id s =
      let released = record s { pins = (release id s.pins).1 } in
      if (release id s.pins).0
      then record released { world = (d.lvm.deactivate (lv_name d.cfg id) no_common s.world).1 }
      else released

  -- The lookup of a snapshot, which the exporting handlers share.
  unfoldable pub get_snapshot : String → Exec W Error Volume
  get_snapshot id = do
    volume ← get_volume d.lvm d.cfg id
    check_state id (is_state volume.state snapshot) volume.state
    pure volume

  -- Export once the snapshot is pinned.
  unfoldable pub export_pinned :
      String
      → (Frame → Exec W Code Unit)
      → (ℕ → Bytes → Exec W Code Unit)
      → Exec (Server W) Status Unit
  export_pinned id send send_trailer = do
    _ ← or_volume_error (get_snapshot id)
    or_internal (wrap (d.lvm.activate (lv_name d.cfg id) with_skip))
    volume ← or_volume_error (get_volume d.lvm d.cfg id)
    content ← or_internal (read_device d.sha256 d.files volume.path (λ frame. as_sink (send frame)))
    map_error answer_code (inside (send_trailer content.0 content.1))

  unfoldable pub answer_export :
      String
      → (Frame → Exec W Code Unit)
      → (ℕ → Bytes → Exec W Code Unit)
      → Exec (Server W) Status Unit
  answer_export id send send_trailer = do
    require (is_volume_id id) invalid_argument
    λ s.
        let r = export_pinned id send send_trailer (acquire_export id s) in
        (r.0, release_export id r.1)
