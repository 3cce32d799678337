-- ===== src/Storage/Reader/Written.antt =====
-- How far a copy has come: what a written chunk and a zero chunk add to it.
use mathlib.Core.Path.{subst}
use beanstore.Base.{
  ◌≡◌, refl, sym, ap, ◌∙◌, ℕ, ◌+◌, ◌-◌, ◌≤◌, ◌<◌, min, true, false, ◌&&◌, ltb, leb, if◌then◌else◌,
  arith, Bool-cases, inl, inr, ltb→lt,
}
use beanstore.Storage.Digest.{Bytes, transfer_chunk_bytes}
use beanstore.Storage.Reader.{is_zero, byte_count}
use beanstore.Storage.Reader.Content.{slice, nth, byte_count-slice, nth-slice, nth-zero}

pub chunk_positive : 0 < transfer_chunk_bytes
unfolding transfer_chunk_bytes
chunk_positive = omega arith

-- How far a copy has come: the target agrees with the source up to an offset, and is zero behind.
pub record Copied (size o : ℕ) (src tgt : ℕ → ℕ) : Type 0 where
  pub copied : (i : ℕ) → i < o → i < size → tgt i ≡ src i
  pub fresh : (i : ℕ) → o ≤ i → tgt i ≡ 0

pub Copied-same :
    {size o : ℕ} {src tgt tgt' : ℕ → ℕ}
    → Copied size o src tgt
    → ((i : ℕ) → tgt' i ≡ tgt i)
    → Copied size o src tgt'
Copied-same c h = record {
  copied = λ i lt within. h i ∙ c.copied i lt within;
  fresh = λ i le. h i ∙ c.fresh i le;
}

-- The byte of a written chunk.
pub written_byte :
    (size o i : ℕ) (src : ℕ → ℕ) (chunk : Bytes)
    → chunk ≡ slice src o (min transfer_chunk_bytes (size - o))
    → o ≤ i
    → i < o + transfer_chunk_bytes
    → i < size
    → nth chunk (i - o) ≡ src i
written_byte size o i src chunk is le lt within =
    ap (λ c. nth c (i - o)) is
    ∙ nth-slice src o (min transfer_chunk_bytes (size - o)) (i - o) (ground arith)
    ∙ ap src (omega arith)

pub written_inside :
    (o k i x y : ℕ) → o ≤ i → i < o + k → (if leb o i && ltb i (o + k) then x else y) ≡ x
written_inside o k i x y le lt = ground arith

pub written_outside :
    (o k i x y : ℕ)
    → (leb o i && ltb i (o + k)) ≡ false
    → (if leb o i && ltb i (o + k) then x else y) ≡ y
written_outside o k i x y h = rw h refl

pub Copied-written :
    (size o : ℕ) (src tgt tgt' : ℕ → ℕ) (chunk : Bytes)
    → Copied size o src tgt
    → chunk ≡ slice src o (min transfer_chunk_bytes (size - o))
    → ((i : ℕ)
        → tgt' i ≡ (if leb o i && ltb i (o + byte_count chunk) then nth chunk (i - o) else tgt i))
    → Copied size (o + transfer_chunk_bytes) src tgt'
Copied-written size o src tgt tgt' chunk c is h = record {
  copied = λ i lt within. elim (Bool-cases (ltb i o)) [
    | inl before ↦
        h i
        ∙ written_outside o (byte_count chunk) i _ _ (ground arith)
        ∙ c.copied i (ltb→lt i o before) within
    | inr behind ↦
        h i
        ∙ written_inside o (byte_count chunk) i _ _ (ground arith)
            (subst (λ k. i < o + k) (sym count) (ground arith))
        ∙ written_byte size o i src chunk is (ground arith) lt within
  ];
  fresh = λ i le.
      h i
      ∙ written_outside o (byte_count chunk) i _ _
          (subst (λ k. (leb o i && ltb i (o + k)) ≡ false) (sym count) (ground arith))
      ∙ c.fresh i (omega arith);
}
  where
    count : byte_count chunk ≡ min transfer_chunk_bytes (size - o)
    count = ap byte_count is ∙ byte_count-slice src o (min transfer_chunk_bytes (size - o))

-- A zero chunk is there already.
pub Copied-zero :
    (size o : ℕ) (src tgt tgt' : ℕ → ℕ) (chunk : Bytes)
    → Copied size o src tgt
    → chunk ≡ slice src o (min transfer_chunk_bytes (size - o))
    → is_zero chunk ≡ true
    → ((i : ℕ) → tgt' i ≡ tgt i)
    → Copied size (o + transfer_chunk_bytes) src tgt'
Copied-zero size o src tgt tgt' chunk c is z h = record {
  copied = λ i lt within. elim (Bool-cases (ltb i o)) [
    | inl before ↦ h i ∙ c.copied i (ltb→lt i o before) within
    | inr behind ↦
        h i
        ∙ c.fresh i (ground arith)
        ∙ sym (nth-zero chunk (i - o) z)
        ∙ written_byte size o i src chunk is (ground arith) lt within
  ];
  fresh = λ i le. h i ∙ c.fresh i (omega arith);
}
