-- ===== src/Storage/Reader.antt =====
-- internal/storage/reader.go and internal/storage/copy.go: a device read chunk by chunk, and its
-- copy to another device. The operations on files are a parameter.
pub mod Content
pub mod Sequential
pub mod Written
pub mod Turns
pub mod Digests
pub mod Copying
pub mod Keeping
use beanstore.Base.{
  ℕ, zero, suc, ◌+◌, ◌-◌, min, String, Bool, true, false, ◌&&◌, List, [], ◌∷◌, ltb, ◌==◌,
  if◌then◌else◌,
}
use beanstore.Base.Exec.{Result, ok, err, Exec, pure, ◌>>=◌, ◌>>◌}
use beanstore.Storage.Errors.{Error, io_failed}
use beanstore.Storage.Digest.{
  Bytes, transfer_chunk_bytes, DigestBuilder, new_digest_builder, add_chunk, add_zero_chunk, sum,
}

pub record Frame : Type 0 where
  pub offset : ℕ
  pub payload : Bytes

-- `read path position n` is io.ReadFull of n bytes from where the file stands, which is the
-- program's to keep; `alive` is ctx.Err.
pub record Files (W : Type 0) : Type 0 where
  pub open_file : String → Exec W String Unit
  pub seek_end : String → Exec W String ℕ
  pub seek_start : String → Exec W String Unit
  pub read : String → ℕ → ℕ → Exec W String Bytes
  pub write_at : String → ℕ → Bytes → Exec W String Unit
  pub sync : String → Exec W String Unit
  pub alive : Exec W String Unit

io_result : {A : Type 0} → Result String A → Result Error A
io_result (ok a) = ok a
io_result (err why) = err (io_failed why)

unfoldable pub io : {W A : Type 0} → Exec W String A → Exec W Error A
unfolding io_result
io m w = (io_result (m w).0, (m w).1)

-- bytes.Equal(chunk, zeroChunk[:len(chunk)])
unfoldable pub is_zero : Bytes → Bool
is_zero [] = true
is_zero (b ∷ bs) = b == 0 && is_zero bs

unfoldable pub byte_count : Bytes → ℕ
byte_count [] = 0
byte_count (b ∷ bs) = suc (byte_count bs)

-- device.Seek(0, io.SeekStart), with where the file stands then.
unfoldable pub rewind : {W : Type 0} → Files W → String → Exec W Error ℕ
rewind files path = io (files.seek_start path) >> pure 0

module _ {W : Type 0} (sha256 : Bytes → Bytes) (files : Files W) where
  -- The end of one turn of the loop: a zero chunk is not sent.
  unfoldable pub take_chunk :
      (Frame → Exec W Error Unit) → ℕ → Bytes → DigestBuilder → Exec W Error DigestBuilder
  unfolding byte_count
  take_chunk sink offset chunk b =
      if is_zero chunk
      then pure (add_zero_chunk sha256 (byte_count chunk) b)
      else sink (record { offset = offset; payload = chunk }) >> pure (add_chunk sha256 chunk b)

  -- The loop, on fuel; the size of the device is enough. `position` is where the file stands:
  -- io.ReadFull reads from there and moves it by the bytes that it read.
  unfoldable pub read_chunks :
      String
      → (Frame → Exec W Error Unit)
      → ℕ
      → ℕ
      → ℕ
      → ℕ
      → DigestBuilder
      → Exec W Error DigestBuilder
  read_chunks path sink size zero position offset b = pure b
  read_chunks path sink size (suc fuel) position offset b = elim (ltb offset size) [
    | false ↦ pure b
    | true ↦
        io files.alive
        >> (io (files.read path position (min transfer_chunk_bytes (size - offset))) >>= λ chunk.
            take_chunk sink offset chunk b >>= λ b'.
            read_chunks path sink size fuel (position + min transfer_chunk_bytes (size - offset))
              (offset + transfer_chunk_bytes) b')
  ]

  unfoldable pub read_device : String → (Frame → Exec W Error Unit) → Exec W Error (ℕ × Bytes)
  read_device path sink = do
    io (files.open_file path)
    size ← io (files.seek_end path)
    position ← rewind files path
    b ← read_chunks path sink size size position 0 new_digest_builder
    pure (size, (sum sha256 size b).0)

  -- The sink of a copy. `progress` is the caller's callback.
  unfoldable pub write_frame : String → (ℕ → W → W) → Frame → Exec W Error Unit
  write_frame target progress frame = io (files.write_at target frame.offset frame.payload) >> λ w.
      (ok tt, progress (frame.offset + byte_count frame.payload) w)

  unfoldable pub copy_device : String → String → (ℕ → W → W) → Exec W Error Unit
  copy_device source target progress = do
    io (files.open_file target)
    _ ← read_device source (write_frame target progress)
    io (files.sync target)
