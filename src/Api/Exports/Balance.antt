-- ===== src/Api/Exports/Balance.antt =====
-- Export of internal/api/api.go gives back the pin that it takes.
use beanstore.Base.{◌≡◌, refl, ap, ◌∙◌, inl, inr, ℕ, String, arith, Bool-cases}
use beanstore.Base.Exec.{Exec}
use beanstore.Base.Keeps.{Keeps, then-Keeps}
use beanstore.Storage.Errors.{wrap}
use beanstore.Storage.Digest.{Bytes}
use beanstore.Storage.Reader.{Frame, read_device}
use beanstore.Storage.Pins.{ExportPins, acquire, release, count}
use beanstore.Storage.Pins.Counting.{count-acquire, count-release}
use beanstore.Storage.Volume.{get_volume, lv_name}
use beanstore.Api.Status.{Code, answer_code, volume_error}
use beanstore.Api.Names.{is_volume_id}
use beanstore.Api.Server.{Daemon, Server, require, inside, map_error, or_volume_error, or_internal}
use beanstore.Api.Exports.{
  acquire_export, release_export, export_pinned, answer_export, get_snapshot, with_skip, as_sink,
}
use beanstore.Api.Pushing.Streams.{map_error-Keeps}

module _ {W : Type 0} (d : Daemon W) where
  abbrev Pins : ExportPins → Server W → Type 0
  Pins p s = s.pins ≡ p

  mapped-Pins :
      {E F A : Type 0} (p : ExportPins) (f : E → F) (m : Exec W E A)
      → Keeps (Pins p) (map_error f (inside m))
  unfolding inside
  mapped-Pins p f m = map_error-Keeps (Pins p) f (inside m) (λ s h. h)

  export_pinned-Pins :
      (id : String) (send : Frame → Exec W Code Unit) (send_trailer : ℕ → Bytes → Exec W Code Unit)
      (p : ExportPins)
      → Keeps (Pins p) (export_pinned d id send send_trailer)
  unfolding export_pinned or_volume_error or_internal
  export_pinned-Pins id send send_trailer p =
      then-Keeps (Pins p) (or_volume_error (get_snapshot d id)) _ (mapped-Pins p volume_error _)
        (λ _.
          then-Keeps (Pins p) (or_internal (wrap (d.lvm.activate (lv_name d.cfg id) with_skip))) _
            (mapped-Pins p _ _)
            (λ _.
              then-Keeps (Pins p) (or_volume_error (get_volume d.lvm d.cfg id)) _
                (mapped-Pins p volume_error _)
                (λ volume.
                  then-Keeps (Pins p)
                    (or_internal
                      (read_device d.sha256 d.files volume.path (λ frame. as_sink (send frame))))
                    _ (mapped-Pins p _ _) (λ content. mapped-Pins p answer_code _))))

  release_export-pins :
      (id : String) (s : Server W) → (release_export d id s).pins ≡ (release id s.pins).1
  unfolding release_export
  release_export-pins id s = elim (Bool-cases (release id s.pins).0) [
    | inl last ↦ rw last refl
    | inr more ↦ rw more refl
  ]

  acquire-release :
      (j id : String) (p : ExportPins) → count j (release id (acquire id p).1).1 ≡ count j p
  acquire-release j id p = ground (arith, count-release id j (acquire id p).1, count-acquire id j p)

  -- However an export ends, it leaves as many pins on each snapshot as there were.
  pub export_balances :
      (id j : String) (send : Frame → Exec W Code Unit)
      (send_trailer : ℕ → Bytes → Exec W Code Unit) (s : Server W)
      → count j (answer_export d id send send_trailer s).1.pins ≡ count j s.pins
  unfolding answer_export acquire_export
  export_balances id j send send_trailer s = elim (Bool-cases (is_volume_id id)) [
    | inr bad ↦ rw bad (unfold require in refl)
    | inl good ↦ rw good (
        unfold require in
        (ap (count j)
            (release_export-pins id (export_pinned d id send send_trailer (acquire_export id s)).1)
          ∙ ap (λ p. count j (release id p).1)
              (export_pinned-Pins id send send_trailer (acquire id s.pins).1 (acquire_export id s)
                refl)
          ∙ acquire-release j id s.pins))
  ]
