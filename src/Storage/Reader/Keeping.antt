-- ===== src/Storage/Reader/Keeping.antt =====
-- What the readings of internal/storage/reader.go and the copies of copy.go keep: any property
-- of the state that the operations on files and the sink keep.
use mathlib.Core.Path.{subst, sym}
use beanstore.Base.{ℕ, zero, suc, ◌+◌, ◌-◌, min, String, ltb, Bool-cases, inl, inr}
use beanstore.Base.Exec.{Exec, ◌>>=◌, ◌>>◌}
use beanstore.Base.Keeps.{Keeps, then-Keeps, if-Keeps}
use beanstore.Storage.Errors.{Error}
use beanstore.Storage.Digest.{Bytes, transfer_chunk_bytes, DigestBuilder, new_digest_builder}
use beanstore.Storage.Reader.Sequential.{read_chunks_at, read_device_at, read_device_lem}
use beanstore.Storage.Reader.{
  Frame, Files, io, is_zero, take_chunk, read_device, write_frame, copy_device,
}

pub record FilesKeep {W : Type 0} (P : W → Type 0) (files : Files W) : Type 0 where
  pub open_file : (p : String) → Keeps P (files.open_file p)
  pub seek_end : (p : String) → Keeps P (files.seek_end p)
  pub seek_start : (p : String) → Keeps P (files.seek_start p)
  pub read : (p : String) (o n : ℕ) → Keeps P (files.read p o n)
  pub write_at : (p : String) (o : ℕ) (b : Bytes) → Keeps P (files.write_at p o b)
  pub sync : (p : String) → Keeps P (files.sync p)
  pub alive : Keeps P files.alive

io-Keeps : {W A : Type 0} (P : W → Type 0) (m : Exec W String A) → Keeps P m → Keeps P (io m)
unfolding io
io-Keeps P m k = k

module _ {W : Type 0} (P : W → Type 0) (sha256 : Bytes → Bytes) (files : Files W)
    (keep : FilesKeep P files) where
  take_chunk-Keeps :
      (sink : Frame → Exec W Error Unit) (offset : ℕ) (chunk : Bytes) (b : DigestBuilder)
      → ((f : Frame) → Keeps P (sink f))
      → Keeps P (take_chunk sha256 files sink offset chunk b)
  unfolding take_chunk
  take_chunk-Keeps sink offset chunk b k =
      if-Keeps P (is_zero chunk) _ _ (λ s h. h)
        (then-Keeps P (sink (record { offset = offset; payload = chunk })) _ (k _) (λ _ s h. h))

  -- One turn of the loop, before `rest`.
  turn-Keeps :
      (path : String) (sink : Frame → Exec W Error Unit) (size offset : ℕ) (b : DigestBuilder)
      (rest : DigestBuilder → Exec W Error DigestBuilder)
      → ((f : Frame) → Keeps P (sink f))
      → ((b' : DigestBuilder) → Keeps P (rest b'))
      → Keeps P (
          io files.alive
          >> (io (files.read path offset (min transfer_chunk_bytes (size - offset))) >>= λ chunk.
              take_chunk sha256 files sink offset chunk b >>= rest))
  turn-Keeps path sink size offset b rest k kr =
      then-Keeps P (io files.alive) _ (io-Keeps P files.alive keep.alive) (λ _.
        then-Keeps P (io (files.read path offset (min transfer_chunk_bytes (size - offset)))) _
          (io-Keeps P (files.read path offset _) (keep.read path offset _))
          (λ chunk.
            then-Keeps P (take_chunk sha256 files sink offset chunk b) _
              (take_chunk-Keeps sink offset chunk b k) kr))

  read_chunks_at-Keeps :
      (path : String) (sink : Frame → Exec W Error Unit) (size fuel offset : ℕ) (b : DigestBuilder)
      → ((f : Frame) → Keeps P (sink f))
      → Keeps P (read_chunks_at sha256 files path sink size fuel offset b)
  unfolding read_chunks_at
  read_chunks_at-Keeps path sink size zero offset b k s h = h
  read_chunks_at-Keeps path sink size (suc fuel) offset b k s h =
      elim (Bool-cases (ltb offset size)) [
        | inl more ↦
            rw (more, read_chunks_at)
              (turn-Keeps path sink size offset b
                (read_chunks_at sha256 files path sink size fuel (offset + transfer_chunk_bytes)) k
                (λ b'.
                  read_chunks_at-Keeps path sink size fuel (offset + transfer_chunk_bytes) b' k)
                s h)
        | inr over ↦ rw (over, read_chunks_at) h
      ]

  read_device_at-Keeps :
      (path : String) (sink : Frame → Exec W Error Unit)
      → ((f : Frame) → Keeps P (sink f))
      → Keeps P (read_device_at sha256 files path sink)
  unfolding read_device_at
  read_device_at-Keeps path sink k =
      then-Keeps P (io (files.open_file path)) _
        (io-Keeps P (files.open_file path) (keep.open_file path))
        (λ _.
          then-Keeps P (io (files.seek_end path)) _
            (io-Keeps P (files.seek_end path) (keep.seek_end path))
            (λ size.
              then-Keeps P (io (files.seek_start path)) _
                (io-Keeps P (files.seek_start path) (keep.seek_start path))
                (λ _.
                  then-Keeps P
                    (read_chunks_at sha256 files path sink size size 0 new_digest_builder) _
                    (read_chunks_at-Keeps path sink size size 0 new_digest_builder k)
                    (λ _ s h. h))))

  pub read_device-Keeps :
      (path : String) (sink : Frame → Exec W Error Unit)
      → ((f : Frame) → Keeps P (sink f))
      → Keeps P (read_device sha256 files path sink)
  read_device-Keeps path sink k =
      subst (Keeps P) (sym (read_device_lem sha256 files path sink))
        (read_device_at-Keeps path sink k)

  pub copy_device-Keeps :
      (source target : String) (progress : ℕ → W → W)
      → ((n : ℕ) (s : W) → P s → P (progress n s))
      → Keeps P (copy_device sha256 files source target progress)
  unfolding copy_device write_frame
  copy_device-Keeps source target progress k =
      then-Keeps P (io (files.open_file target)) _
        (io-Keeps P (files.open_file target) (keep.open_file target))
        (λ _.
          then-Keeps P (read_device sha256 files source (write_frame sha256 files target progress))
            _
            (read_device-Keeps source (write_frame sha256 files target progress) (λ f.
              then-Keeps P (io (files.write_at target f.offset f.payload)) _
                (io-Keeps P (files.write_at target f.offset f.payload)
                  (keep.write_at target f.offset f.payload))
                (λ _ s h. k _ s h)))
            (λ _. io-Keeps P (files.sync target) (keep.sync target)))
