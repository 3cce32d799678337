-- ===== src/Storage/Reader/Sequential.antt =====
-- The sequential reads of internal/storage/reader.go take each chunk at its own offset.
use beanstore.Base.{
  ◌≡◌, refl, ap, ◌∙◌, fun_ext, ℕ, zero, suc, ◌+◌, ◌-◌, min, String, true, false, ltb, arith,
  Bool-cases, inl, inr,
}
use beanstore.Base.Exec.{Result-cases, Exec, pure, ◌>>=◌, ◌>>◌}
use beanstore.Storage.Errors.{Error}
use beanstore.Storage.Digest.{Bytes, transfer_chunk_bytes, DigestBuilder, new_digest_builder, sum}
use beanstore.Storage.Reader.{Frame, Files, io, take_chunk, read_chunks, rewind, read_device}

module _ {W : Type 0} (sha256 : Bytes → Bytes) (files : Files W) where
  abbrev Sink : Type 0
  Sink = Frame → Exec W Error Unit

  -- The loop that reads each chunk at its offset.
  unfoldable pub read_chunks_at :
      String → Sink → ℕ → ℕ → ℕ → DigestBuilder → Exec W Error DigestBuilder
  read_chunks_at path sink size zero offset b = pure b
  read_chunks_at path sink size (suc fuel) offset b = elim (ltb offset size) [
    | false ↦ pure b
    | true ↦
        io files.alive
        >> (io (files.read path offset (min transfer_chunk_bytes (size - offset))) >>= λ chunk.
            take_chunk sha256 files sink offset chunk b >>= λ b'.
            read_chunks_at path sink size fuel (offset + transfer_chunk_bytes) b')
  ]

  unfoldable pub read_device_at : String → Sink → Exec W Error (ℕ × Bytes)
  read_device_at path sink = do
    io (files.open_file path)
    size ← io (files.seek_end path)
    io (files.seek_start path)
    b ← read_chunks_at path sink size size 0 new_digest_builder
    pure (size, (sum sha256 size b).0)

  next_position :
      (size position offset : ℕ)
      → position ≡ offset
      → ltb (offset + transfer_chunk_bytes) size ≡ true
      → position + min transfer_chunk_bytes (size - offset) ≡ offset + transfer_chunk_bytes
  unfolding transfer_chunk_bytes
  next_position size position offset same more = ground arith

  -- While chunks are left, a file that stands at the offset stays in step with it.
  read_chunks_lem :
      (path : String) (sink : Sink) (size fuel position offset : ℕ) (b : DigestBuilder)
      → (ltb offset size ≡ true → position ≡ offset)
      → read_chunks sha256 files path sink size fuel position offset b
        ≡ read_chunks_at path sink size fuel offset b
  unfolding read_chunks read_chunks_at
  read_chunks_lem path sink size zero position offset b same = refl
  read_chunks_lem path sink size (suc fuel) position offset b same =
      elim (Bool-cases (ltb offset size)) [
        | inr end ↦ rw (end, read_chunks, read_chunks_at) refl
        | inl more ↦
            let n = min transfer_chunk_bytes (size - offset) in
            let rest = fun_ext (λ (b' : DigestBuilder).
              read_chunks_lem path sink size fuel (position + n) (offset + transfer_chunk_bytes) b'
                (next_position size position offset (same more))) in
            rw (more, read_chunks, read_chunks_at)
              (ap
                  (λ (k : DigestBuilder → Exec W Error DigestBuilder).
                    (io files.alive
                      >> (io (files.read path position n) >>= λ chunk.
                          take_chunk sha256 files sink offset chunk b >>= k)))
                  rest
                ∙ ap
                    (λ (at : ℕ).
                      (io files.alive
                        >> (io (files.read path at n) >>= λ chunk.
                            take_chunk sha256 files sink offset chunk b >>= λ b'.
                            read_chunks_at path sink size fuel (offset + transfer_chunk_bytes) b')))
                    (same more))
      ]

  after_rewind :
      {A : Type 0} (path : String) (k : ℕ → Exec W Error A)
      → (rewind files path >>= k) ≡ (io (files.seek_start path) >>= λ _. k 0)
  unfolding rewind
  after_rewind path k = fun_ext (λ w. elim (Result-cases (io (files.seek_start path) w).0) [
    | inl (_, e) ↦ rw e refl
    | inr (_, e) ↦ rw e refl
  ])

  pub read_device_lem :
      (path : String) (sink : Sink) → read_device sha256 files path sink ≡ read_device_at path sink
  unfolding read_device read_device_at
  read_device_lem path sink =
      ap
        (λ (k : ℕ → Exec W Error (ℕ × Bytes)).
          (io (files.open_file path) >>= λ _. io (files.seek_end path) >>= k))
        (fun_ext (λ (size : ℕ).
          after_rewind path (λ position.
            read_chunks sha256 files path sink size size position 0 new_digest_builder >>= λ b.
            pure (size, (sum sha256 size b).0))
          ∙ ap
              (λ (m : Exec W Error DigestBuilder).
                (io (files.seek_start path) >>= λ _. m >>= λ b. pure (size, (sum sha256 size b).0)))
              (read_chunks_lem path sink size size 0 0 new_digest_builder (λ _. refl))))
