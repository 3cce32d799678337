-- ===== src/Storage/Reader/Digests.antt =====
-- The digest that internal/storage/reader.go computes is that of the whole device.
use mathlib.Core.Path.{subst}
use beanstore.Base.{
  ◌≡◌, refl, sym, ap, ◌∙◌, ℕ, zero, suc, ◌+◌, ◌-◌, ◌≤◌, min, String, ltb, Bool-cases, inl, inr,
}
use beanstore.Base.Exec.{ok, bind_ok_then}
use beanstore.Storage.Digest.{
  Bytes, transfer_chunk_bytes, append, put_uint64, DigestBuilder, new_digest_builder, sum,
}
use beanstore.Storage.Reader.Sequential.{read_chunks_at, read_device_at, read_device_lem}
use beanstore.Storage.Reader.{Files, Frame, io, byte_count, take_chunk, read_device}
use beanstore.Storage.Reader.Content.{
  FileLaws, slice, slice-agrees, ok_injective, io_ok, append_nil, append_assoc,
}
use beanstore.Storage.Reader.Turns.{
  outer_nil, outer_more, outer_end, Sink, content_digest, done, fits_chunk, io_keeps, outer_of,
  sink_kept, stop, took, turn,
}

module _ (sha256 : Bytes → Bytes) {W : Type 0} (files : Files W) (laws : FileLaws files) where
  -- The loop adds the hashes of all the chunks that are left.
  pub read_chunks_at-outer :
      (path : String) (sink : Sink sha256 files laws) (at : ℕ → ℕ) (size fuel o : ℕ)
      (b last : DigestBuilder) (w : W)
      → ((f : Frame) (x : W) (i : ℕ) → laws.byte (sink f x).1 path i ≡ laws.byte x path i)
      → ((i : ℕ) → laws.byte w path i ≡ at i)
      → (read_chunks_at sha256 files path sink size fuel o b w).0 ≡ ok last
      → last.outer ≡ append b.outer (outer_of sha256 at size fuel o)
  read_chunks_at-outer path sink at size zero o b last w keeps same h =
      ap (λ (x : DigestBuilder). x.outer)
        (sym (ok_injective (ap (λ r. r.0) (sym (done sha256 files laws path sink size o b w)) ∙ h)))
      ∙ sym (append_nil b.outer)
      ∙ ap (append b.outer) (sym (outer_nil sha256 at size o))
  read_chunks_at-outer path sink at size (suc fuel) o b last w keeps same h =
      elim (Bool-cases (ltb o size)) [
        | inl more ↦
            let (chunk, w2, b1, is, kept, sent, e) =
              turn sha256 files laws path sink size fuel o b w last more h in
            let n = min transfer_chunk_bytes (size - o) in
            let is_at : chunk ≡ slice at o n = is ∙ slice-agrees (laws.byte w path) at o n same in
            let fits : byte_count chunk ≤ transfer_chunk_bytes =
              fits_chunk sha256 files laws chunk at o (size - o) is_at in
            let (added, after) = took sha256 files laws sink o chunk b b1 w2 fits sent in
            let rest =
              read_chunks_at-outer path sink at size fuel (o + transfer_chunk_bytes) b1 last
                (take_chunk sha256 files sink o chunk b w2).1 keeps
                (λ i.
                  sink_kept sha256 files laws sink o chunk b w2 path keeps after i
                  ∙ kept path i
                  ∙ same i)
                (ap (λ r. r.0) (sym e) ∙ h) in
            rest
            ∙ ap (λ (x : Bytes). append x (outer_of sha256 at size fuel (o + transfer_chunk_bytes)))
                (added ∙ ap (λ (x : Bytes). append b.outer (sha256 x)) is_at)
            ∙ append_assoc b.outer _ _
            ∙ ap (append b.outer) (sym (outer_more sha256 at size fuel o more))
        | inr end ↦
            ap (λ (x : DigestBuilder). x.outer)
              (sym (
                ok_injective
                  (ap (λ r. r.0) (sym (stop sha256 files laws path sink size fuel o b w end)) ∙ h)))
            ∙ sym (append_nil b.outer)
            ∙ ap (append b.outer) (sym (outer_end sha256 at size fuel o end))
      ]

  -- A reading that succeeds: its loop, and what stood on the devices when the loop began.
  abbrev pub Reading : String → Sink sha256 files laws → W → ℕ → Bytes → Type 0
  Reading path sink w n digest =
      (w0 : W) × (b : DigestBuilder) × ((q : String) (i : ℕ) → laws.byte w0 q i ≡ laws.byte w q i)
      × (n ≡ laws.size_of w path)
      × ((read_chunks_at sha256 files path sink n n 0 new_digest_builder w0).0 ≡ ok b)
      × (digest ≡ (sum sha256 n b).0)
      × ((read_device_at sha256 files path sink w).1
          ≡ (read_chunks_at sha256 files path sink n n 0 new_digest_builder w0).1)

  pub read_device_at-Reading :
      (path : String) (sink : Sink sha256 files laws) (w : W) (n : ℕ) (digest : Bytes)
      → (read_device_at sha256 files path sink w).0 ≡ ok (n, digest)
      → Reading path sink w n digest
  unfolding read_device_at
  read_device_at-Reading path sink w n digest h =
      bind_ok_then (io (files.open_file path)) _ w (n, digest) h
        (λ _ _ h1 e1.
          bind_ok_then (io (files.seek_end path)) _ (io (files.open_file path) w).1 (n, digest) h1
            (λ size sized h2 e2.
              bind_ok_then (io (files.seek_start path)) _ _ (n, digest) h2
                (λ _ _ h3 e3.
                  bind_ok_then
                    (read_chunks_at sha256 files path sink size size 0 new_digest_builder) _ _
                    (n, digest) h3
                    (λ b looped h4 e4.
                      (looped_Reading size b (e1 ∙ e2 ∙ e3 ∙ e4) sized looped (ok_injective h4))))))
    where
      w1 : W
      w1 = (io (files.open_file path) w).1

      w2 : W
      w2 = (io (files.seek_end path) w1).1

      w3 : W
      w3 = (io (files.seek_start path) w2).1

      looped_Reading :
          (size : ℕ) (b : DigestBuilder)
          → read_device_at sha256 files path sink w ≡ (
            ok (size, (sum sha256 size b).0),
            (read_chunks_at sha256 files path sink size size 0 new_digest_builder w3).1,
          )
          → (io (files.seek_end path) w1).0 ≡ ok size
          → (read_chunks_at sha256 files path sink size size 0 new_digest_builder w3).0 ≡ ok b
          → ◌≡◌ {A = ℕ × Bytes} (size, (sum sha256 size b).0) (n, digest)
          → Reading path sink w n digest
      looped_Reading size b e sized looped same =
          subst (λ (p : ℕ × Bytes). Reading path sink w p.0 p.1) same
            (
              w3,
              b,
              λ q i.
                  io_keeps sha256 files laws (files.seek_start path) w2
                    (λ q i. laws.start_keeps path q w2 i) q i
                  ∙ io_keeps sha256 files laws (files.seek_end path) w1
                      (λ q i. laws.end_keeps path q w1 i) q i
                  ∙ io_keeps sha256 files laws (files.open_file path) w
                      (λ q i. laws.open_keeps path q w i) q i,
              laws.end_done path w1 size (io_ok (files.seek_end path) w1 size sized)
                  ∙ unfold io in laws.open_size path path w,
              looped,
              refl,
              ap (λ r. r.1) e,
            )

  -- Reading a device with a sink that leaves it as it is gives its size and the digest of all its
  -- content, zero chunks included, whichever chunks the sink was sent.
  pub read_device_digest :
      (path : String) (sink : Sink sha256 files laws) (w : W) (n : ℕ) (digest : Bytes)
      → ((f : Frame) (x : W) (i : ℕ) → laws.byte (sink f x).1 path i ≡ laws.byte x path i)
      → (read_device sha256 files path sink w).0 ≡ ok (n, digest)
      → (n ≡ laws.size_of w path) × (digest ≡ content_digest sha256 (laws.byte w path) n)
  read_device_digest path sink w n digest keeps h =
      let (w0, b, same, sized, looped, is, _) =
        read_device_at-Reading path sink w n digest
          (ap (λ m. (m w).0) (sym (read_device_lem sha256 files path sink)) ∙ h) in
      (
        sized,
        is
            ∙ unfold sum in
              (ap (λ (x : Bytes). sha256 (append x (put_uint64 n)))
                (read_chunks_at-outer path sink (laws.byte w path) n n 0 new_digest_builder b w0
                  keeps (same path) looped)),
      )
