-- ===== src/Storage/Reader/Copying.antt =====
-- A copy of internal/storage/copy.go has the content of its source.
use mathlib.Core.Path.{subst}
use beanstore.Base.{
  ◌≡◌, refl, sym, ap, ◌∙◌, ℕ, zero, suc, ◌+◌, ◌-◌, ◌≤◌, ◌<◌, min, String, false, ◌&&◌, ltb, leb,
  if◌then◌else◌, arith, Bool-cases, inl, inr, str_eq, eq_refl,
}
use beanstore.Base.Exec.{ok, Exec, bind_ok_then, bind_rule}
use beanstore.Storage.Digest.{Bytes, transfer_chunk_bytes, DigestBuilder, new_digest_builder}
use beanstore.Storage.Errors.{Error}
use beanstore.Storage.Reader.Sequential.{read_chunks_at, read_device_at, read_device_lem}
use beanstore.Storage.Reader.{
  Files, Frame, io, byte_count, take_chunk, read_device, write_frame, copy_device,
}
use beanstore.Storage.Reader.Content.{FileLaws, slice, nth, slice-agrees, io_ok}
use beanstore.Storage.Reader.Written.{
  Copied-same, Copied, chunk_positive, Copied-written, Copied-zero,
}
use beanstore.Storage.Reader.Digests.{read_device_at-Reading}
use beanstore.Storage.Reader.Turns.{Sink, turn, stop, done, took, io_keeps, fits_chunk, sink_kept}

more_fuel : (size o fuel : ℕ) → size ≤ o + suc fuel → size ≤ o + transfer_chunk_bytes + fuel
more_fuel size o fuel h = omega (arith, chunk_positive)

io_other : {W A : Type 0} (m : Exec W String A) (w : W) (P : W → Type 0) → P (m w).1 → P (io m w).1
unfolding io
io_other m w P p = p

module _ (sha256 : Bytes → Bytes) {W : Type 0} (files : Files W) (laws : FileLaws files)
    (target path : String) (progress : ℕ → W → W) (apart : str_eq target path ≡ false)
    (quiet : (n : ℕ) (x : W) (q : String) (i : ℕ)
      → laws.byte (progress n x) q i ≡ laws.byte x q i) where
  abbrev copy_sink : Sink sha256 files laws
  copy_sink = write_frame sha256 files target progress

  -- A frame that was written stands on the target.
  frame_written :
      (f : Frame) (w : W)
      → (copy_sink f w).0 ≡ ok tt
      → (i : ℕ)
      → laws.byte (copy_sink f w).1 target i ≡ (
          if leb f.offset i && ltb i (f.offset + byte_count f.payload)
          then nth f.payload (i - f.offset)
          else laws.byte w target i)
  unfolding write_frame
  frame_written f w h i =
      bind_ok_then (io (files.write_at target f.offset f.payload)) _ w tt h (λ _ wrote _ e.
        ap (λ r. laws.byte r.1 target i) e
        ∙ quiet _ _ target i
        ∙ unfold io in
          laws.write_done target f.offset f.payload w
            (io_ok (files.write_at target f.offset f.payload) w tt wrote) target i
          ∙ rw (eq_refl target) refl)

  -- A frame leaves the source as it is, even where its writing fails.
  frame_others :
      (f : Frame) (w : W) (i : ℕ) → laws.byte (copy_sink f w).1 path i ≡ laws.byte w path i
  unfolding write_frame
  frame_others f w i =
      bind_rule (λ r. laws.byte r.1 path i ≡ laws.byte w path i)
        (io (files.write_at target f.offset f.payload)) _ w (λ _ _. quiet _ _ path i ∙ kept)
        (λ _ _. kept)
    where
      kept :
          laws.byte (io (files.write_at target f.offset f.payload) w).1 path i ≡ laws.byte w path i
      kept =
          io_other (files.write_at target f.offset f.payload) w
            (λ x. laws.byte x path i ≡ laws.byte w path i)
            (laws.write_others target f.offset f.payload w path i apart)

  -- One turn of the loop brings the copy one chunk further.
  turn-Copied :
      (src : ℕ → ℕ) (size o : ℕ) (chunk : Bytes) (b b1 : DigestBuilder) (w : W)
      → chunk ≡ slice src o (min transfer_chunk_bytes (size - o))
      → Copied size o src (laws.byte w target)
      → (take_chunk sha256 files copy_sink o chunk b w).0 ≡ ok b1
      → Copied size
          (o + transfer_chunk_bytes)
          src
          (laws.byte (take_chunk sha256 files copy_sink o chunk b w).1 target)
  turn-Copied src size o chunk b b1 w is c h =
      elim (took sha256 files laws copy_sink o chunk b b1 w
        (fits_chunk sha256 files laws chunk src o (size - o) is) h).1 [
          | inl (z, e) ↦
              Copied-zero size o src (laws.byte w target) _ chunk c is z
                (λ i. ap (λ x. laws.byte x target i) e)
          | inr (sent, e) ↦ Copied-written size o src (laws.byte w target) _ chunk c is (λ i.
              ap (λ x. laws.byte x target i) e
              ∙ frame_written (record { offset = o; payload = chunk }) w sent i)
        ]

  read_chunks_at-Copied :
      (src : ℕ → ℕ) (size fuel o : ℕ) (b last : DigestBuilder) (w : W)
      → ((i : ℕ) → laws.byte w path i ≡ src i)
      → Copied size o src (laws.byte w target)
      → size ≤ o + fuel
      → (read_chunks_at sha256 files path copy_sink size fuel o b w).0 ≡ ok last
      → (i : ℕ) → i < size
      → laws.byte (read_chunks_at sha256 files path copy_sink size fuel o b w).1 target i ≡ src i
  read_chunks_at-Copied src size zero o b last w same c enough h i within =
      ap (λ r. laws.byte r.1 target i) (done sha256 files laws path copy_sink size o b w)
      ∙ c.copied i (omega arith) within
  read_chunks_at-Copied src size (suc fuel) o b last w same c enough h i within =
      elim (Bool-cases (ltb o size)) [
        | inr end ↦
            ap (λ r. laws.byte r.1 target i)
              (stop sha256 files laws path copy_sink size fuel o b w end)
            ∙ c.copied i (ground arith) within
        | inl more ↦
            let (chunk, w2, b1, is, kept, sent, e) =
              turn sha256 files laws path copy_sink size fuel o b w last more h in
            let is_src : chunk ≡ slice src o (min transfer_chunk_bytes (size - o)) =
              is ∙ slice-agrees (laws.byte w path) src o _ same in
            ap (λ r. laws.byte r.1 target i) e
            ∙ read_chunks_at-Copied src size fuel (o + transfer_chunk_bytes) b1 last _
                (λ k.
                  sink_kept sha256 files laws copy_sink o chunk b w2 path frame_others
                    (took sha256 files laws copy_sink o chunk b b1 w2
                      (fits_chunk sha256 files laws chunk src o (size - o) is_src) sent).1
                    k
                  ∙ kept path k
                  ∙ same k)
                (turn-Copied src size o chunk b b1 w2 is_src (Copied-same c (λ k. kept target k))
                  sent)
                (more_fuel size o fuel enough) (ap (λ r. r.0) (sym e) ∙ h) i within
      ]

  -- The reading of the source writes its content to a clear target.
  read_at_copies :
      (w : W) (n : ℕ) (digest : Bytes)
      → ((i : ℕ) → laws.byte w target i ≡ 0)
      → (read_device_at sha256 files path copy_sink w).0 ≡ ok (n, digest)
      → (i : ℕ) → i < laws.size_of w path
      → laws.byte (read_device_at sha256 files path copy_sink w).1 target i ≡ laws.byte w path i
  read_at_copies w n digest clear h i within =
      let (w0, b, same, sized, looped, _, e) =
        read_device_at-Reading sha256 files laws path copy_sink w n digest h in
      ap (λ x. laws.byte x target i) e
      ∙ read_chunks_at-Copied (laws.byte w path) n n 0 new_digest_builder b w0 (same path)
          (record {
            copied = λ k lt _. absurd (omega arith);
            fresh = λ k _. same target k ∙ clear k;
          })
          (omega arith) looped i (subst (λ k. i < k) (sym sized) within)

  read_copies :
      (w : W) (n : ℕ) (digest : Bytes)
      → ((i : ℕ) → laws.byte w target i ≡ 0)
      → (read_device sha256 files path copy_sink w).0 ≡ ok (n, digest)
      → (i : ℕ) → i < laws.size_of w path
      → laws.byte (read_device sha256 files path copy_sink w).1 target i ≡ laws.byte w path i
  read_copies w n digest clear =
      subst
        (λ (m : Exec W Error (ℕ × Bytes)).
          (m w).0 ≡ ok (n, digest)
          → (i : ℕ) → i < laws.size_of w path
          → laws.byte (m w).1 target i ≡ laws.byte w path i)
        (sym (read_device_lem sha256 files path copy_sink)) (read_at_copies w n digest clear)

  -- A copy that succeeds, onto a target that reads as zeros and is another device than the
  -- source, leaves on the target every byte of the source, whichever chunks were skipped as zero;
  -- the progress callback is assumed to change no device.
  pub copy_device_copies :
      (w : W)
      → ((i : ℕ) → laws.byte w target i ≡ 0)
      → (copy_device sha256 files path target progress w).0 ≡ ok tt
      → (i : ℕ) → i < laws.size_of w path
      → laws.byte (copy_device sha256 files path target progress w).1 target i ≡ laws.byte w path i
  unfolding copy_device
  copy_device_copies w clear h i within =
      bind_ok_then (io (files.open_file target)) _ w tt h (λ _ _ h1 e1.
        bind_ok_then (read_device sha256 files path copy_sink) _ _ tt h1
          (λ (n, digest) readed h2 e2.
            ap (λ r. laws.byte r.1 target i) (e1 ∙ e2)
            ∙ io_keeps sha256 files laws (files.sync target) _ (λ q k. laws.sync_keeps target q _ k)
                target i
            ∙ read_copies (io (files.open_file target) w).1 n digest
                (λ k. opened target k ∙ clear k) readed i (subst (λ k. i < k) (sym sizes) within)
            ∙ opened path i))
    where
      opened :
          (q : String) (k : ℕ) → laws.byte (io (files.open_file target) w).1 q k ≡ laws.byte w q k
      opened =
          io_keeps sha256 files laws (files.open_file target) w
            (λ q k. laws.open_keeps target q w k)

      sizes : laws.size_of (io (files.open_file target) w).1 path ≡ laws.size_of w path
      sizes =
          io_other (files.open_file target) w (λ x. laws.size_of x path ≡ laws.size_of w path)
            (laws.open_size target path w)
