-- ===== src/Storage/Digest.antt =====
-- internal/storage/digest.go: the content digest of a volume. sha256 is a parameter; the hash
-- that a builder writes to is kept as what was written.
use beanstore.Base.{ℕ, zero, suc, ◌/◌, ◌%◌, ◌^◌, List, [], ◌∷◌, leb, if◌then◌else◌}

-- A byte is a number below 256.
abbrev pub Bytes : Type 0
Bytes = List ℕ

-- The chunk and frame size, 1 << 20.
unfoldable pub transfer_chunk_bytes : ℕ
transfer_chunk_bytes = 1048576

-- `make([]byte, n)`
unfoldable pub zeros : ℕ → Bytes
zeros zero = []
zeros (suc n) = 0 ∷ zeros n

unfoldable pub append : Bytes → Bytes → Bytes
append [] bs = bs
append (x ∷ xs) bs = x ∷ append xs bs

-- binary.BigEndian.PutUint64
abbrev pub put_uint64 : ℕ → Bytes
put_uint64 n =
    n / 2 ^ 56 % 256
    ∷ n / 2 ^ 48 % 256
    ∷ n / 2 ^ 40 % 256
    ∷ n / 2 ^ 32 % 256
    ∷ n / 2 ^ 24 % 256
    ∷ n / 2 ^ 16 % 256
    ∷ n / 2 ^ 8 % 256
    ∷ n % 256
    ∷ []

pub record DigestBuilder : Type 0 where
  pub outer : Bytes

abbrev pub new_digest_builder : DigestBuilder
new_digest_builder = record { outer = [] }

module _ (sha256 : Bytes → Bytes) where
  unfoldable pub add_chunk : Bytes → DigestBuilder → DigestBuilder
  unfolding append
  add_chunk chunk b = record { outer = append b.outer (sha256 chunk) }

  unfoldable pub add_zero_chunk : ℕ → DigestBuilder → DigestBuilder
  unfolding append zeros transfer_chunk_bytes
  add_zero_chunk length b =
      if leb transfer_chunk_bytes length
      then record { outer = append b.outer (sha256 (zeros transfer_chunk_bytes)) }
      else record { outer = append b.outer (sha256 (zeros length)) }

  -- The digest, and the builder with the size written to its hash.
  unfoldable pub sum : ℕ → DigestBuilder → Bytes × DigestBuilder
  unfolding append
  sum size_bytes b =
      let outer = append b.outer (put_uint64 size_bytes) in (sha256 outer, record { outer = outer })
