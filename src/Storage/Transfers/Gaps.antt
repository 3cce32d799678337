-- ===== src/Storage/Transfers/Gaps.antt =====
-- The skipped chunks of internal/storage/transfers.go in the digest: they count as chunks of zeros.
use mathlib.Core.Path.{subst}
use beanstore.Base.{
  ◌≡◌, refl, sym, ap, ◌∙◌, ℕ, zero, suc, ◌+◌, ◌-◌, ◌%◌, ◌^◌, ◌≤◌, min, true, false, ltb, arith,
  Bool-cases, inl, inr,
}
use beanstore.Storage.Digest.{
  Bytes, transfer_chunk_bytes, append, put_uint64, DigestBuilder, add_zero_chunk, sum,
}
use beanstore.Storage.Reader.{is_zero}
use beanstore.Storage.Reader.Content.{slice, append_nil, append_assoc, byte_count-slice}
use beanstore.Storage.Reader.Turns.{outer_of, outer_nil, outer_more, outer_end, zero_chunk_outer}
use beanstore.Storage.Transfers.{Session, add_gaps}
use beanstore.Storage.Transfers.Handlers.{received_digest}

-- A device that holds zeros only.
abbrev pub all_zero : ℕ → ℕ
all_zero i = 0

slice-zeros : (o n : ℕ) → is_zero (slice all_zero o n) ≡ true
unfolding slice is_zero
slice-zeros o zero = refl
slice-zeros o (suc n) = ground (arith, slice-zeros (o + 1) n)

no_wrap :
    (gap size : ℕ)
    → size ≤ 18446744073708503040
    → ltb gap size ≡ true
    → (min transfer_chunk_bytes ((size + 2 ^ 64 - gap) % 2 ^ 64)
        ≡ min transfer_chunk_bytes (size - gap))
      × ((gap + transfer_chunk_bytes) % 2 ^ 64 ≡ gap + transfer_chunk_bytes)
unfolding transfer_chunk_bytes
no_wrap gap size fits more = (ground arith, ground arith)

least : (a b : ℕ) → min a b ≤ a
least a b = ground arith

module _ (sha256 : Bytes → Bytes) where
  zero_chunk-outer :
      (o n : ℕ) (b : DigestBuilder)
      → n ≤ transfer_chunk_bytes
      → (add_zero_chunk sha256 n b).outer ≡ append b.outer (sha256 (slice all_zero o n))
  zero_chunk-outer o n b le =
      let count = byte_count-slice all_zero o n in
      ap (λ k. (add_zero_chunk sha256 k b).outer) (sym count)
      ∙ zero_chunk_outer sha256 (slice all_zero o n) b (slice-zeros o n)
          (subst (λ k. k ≤ transfer_chunk_bytes) (sym count) le)

  gaps_more :
      (fuel gap until size : ℕ) (b : DigestBuilder)
      → ltb gap until ≡ true
      → add_gaps sha256 (suc fuel) gap until size b
        ≡ add_gaps sha256 fuel
            ((gap + transfer_chunk_bytes) % 2 ^ 64)
            until
            size
            (add_zero_chunk sha256 (min transfer_chunk_bytes ((size + 2 ^ 64 - gap) % 2 ^ 64)) b)
  unfolding add_gaps
  gaps_more fuel gap until size b more = rw more refl

  gaps_end :
      (fuel gap until size : ℕ) (b : DigestBuilder)
      → ltb gap until ≡ false
      → add_gaps sha256 (suc fuel) gap until size b ≡ b
  unfolding add_gaps
  gaps_end fuel gap until size b end = rw end refl

  gaps_none : (gap until size : ℕ) (b : DigestBuilder) → add_gaps sha256 zero gap until size b ≡ b
  unfolding add_gaps
  gaps_none gap until size b = refl

  -- The loop adds the hashes of the chunks of zeros up to the end of the volume.
  gaps-outer :
      (fuel gap size : ℕ) (b : DigestBuilder)
      → size ≤ 18446744073708503040
      → (add_gaps sha256 fuel gap size size b).outer
        ≡ append b.outer (outer_of sha256 all_zero size fuel gap)
  gaps-outer zero gap size b fits =
      ap (λ (x : DigestBuilder). x.outer) (gaps_none gap size size b)
      ∙ sym (append_nil b.outer)
      ∙ ap (append b.outer) (sym (outer_nil sha256 all_zero size gap))
  gaps-outer (suc fuel) gap size b fits = elim (Bool-cases (ltb gap size)) [
    | inl more ↦
        let (length, next) = no_wrap gap size fits more in
        let n = min transfer_chunk_bytes (size - gap) in
        ap (λ (x : DigestBuilder). x.outer) (gaps_more fuel gap size size b more)
        ∙ ap
            (λ (k : ℕ).
              (add_gaps sha256 fuel k size size (
                add_zero_chunk sha256 (min transfer_chunk_bytes ((size + 2 ^ 64 - gap) % 2 ^ 64))
                  b)).outer)
            next
        ∙ ap
            (λ (k : ℕ).
              (add_gaps sha256 fuel (gap + transfer_chunk_bytes) size size
                (add_zero_chunk sha256 k b)).outer)
            length
        ∙ gaps-outer fuel (gap + transfer_chunk_bytes) size (add_zero_chunk sha256 n b) fits
        ∙ ap
            (λ (x : Bytes).
              append x (outer_of sha256 all_zero size fuel (gap + transfer_chunk_bytes)))
            (zero_chunk-outer gap n b (least transfer_chunk_bytes (size - gap)))
        ∙ append_assoc b.outer _ _
        ∙ ap (append b.outer) (sym (outer_more sha256 all_zero size fuel gap more))
    | inr end ↦
        ap (λ (x : DigestBuilder). x.outer) (gaps_end fuel gap size size b end)
        ∙ sym (append_nil b.outer)
        ∙ ap (append b.outer) (sym (outer_end sha256 all_zero size fuel gap end))
  ]

  -- The digest of what a session has hashed and of zeros from its next offset to the end.
  abbrev pub digest_of_session : Session → Bytes
  digest_of_session s = sha256 (
      append
        (append s.digest.outer (outer_of sha256 all_zero s.size_bytes s.size_bytes s.next_offset))
        (put_uint64 s.size_bytes))

  pub received_digest_lem :
      (s : Session)
      → s.size_bytes ≤ 18446744073708503040
      → received_digest sha256 s ≡ digest_of_session s
  unfolding received_digest sum
  received_digest_lem s fits =
      ap (λ (x : Bytes). sha256 (append x (put_uint64 s.size_bytes)))
        (gaps-outer s.size_bytes s.next_offset s.size_bytes s.digest fits)
