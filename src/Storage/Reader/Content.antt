-- ===== src/Storage/Reader/Content.antt =====
-- The content of a device, as the theorems on internal/storage/reader.go see it, and what the
-- program relies on of files.
use beanstore.Base.{
  ◌≡◌, refl, ap, ◌∙◌, ℕ, zero, suc, ◌+◌, ◌-◌, ◌<◌, String, true, false, ◌&&◌, [], ◌∷◌, ltb, leb,
  if◌then◌else◌, arith, str_eq,
}
use beanstore.Base.Exec.{Result, ok, Exec}
use beanstore.Storage.Digest.{Bytes, zeros, append}
use beanstore.Storage.Reader.{Files, io, is_zero, byte_count}

-- A device by its bytes; `slice at o n` are the n bytes from o on.
unfoldable pub slice : (ℕ → ℕ) → ℕ → ℕ → Bytes
slice at o zero = []
slice at o (suc n) = at o ∷ slice at (o + 1) n

-- The byte at an index, zero behind the end.
unfoldable pub nth : Bytes → ℕ → ℕ
nth [] i = 0
nth (b ∷ bs) zero = b
nth (b ∷ bs) (suc i) = nth bs i

-- What the files rely on: reads return the bytes that are there and change none; a write that
-- is done puts its bytes at their place on its device.
pub record FileLaws {W : Type 0} (files : Files W) : Type 0 where
  pub byte : W → String → ℕ → ℕ
  pub size_of : W → String → ℕ
  pub open_keeps : (p q : String) (w : W) (i : ℕ) → byte (files.open_file p w).1 q i ≡ byte w q i
  pub open_size : (p q : String) (w : W) → size_of (files.open_file p w).1 q ≡ size_of w q
  pub end_keeps : (p q : String) (w : W) (i : ℕ) → byte (files.seek_end p w).1 q i ≡ byte w q i
  pub end_done : (p : String) (w : W) (n : ℕ) → (files.seek_end p w).0 ≡ ok n → n ≡ size_of w p
  pub start_keeps : (p q : String) (w : W) (i : ℕ) → byte (files.seek_start p w).1 q i ≡ byte w q i
  pub read_keeps :
      (p : String) (o n : ℕ) (q : String) (w : W) (i : ℕ)
      → byte (files.read p o n w).1 q i ≡ byte w q i
  pub read_done :
      (p : String) (o n : ℕ) (w : W) (d : Bytes)
      → (files.read p o n w).0 ≡ ok d
      → d ≡ slice (byte w p) o n
  pub write_done :
      (p : String) (o : ℕ) (d : Bytes) (w : W)
      → (files.write_at p o d w).0 ≡ ok tt
      → (q : String) (i : ℕ)
      → byte (files.write_at p o d w).1 q i
        ≡ (if str_eq p q && leb o i && ltb i (o + byte_count d) then nth d (i - o) else byte w q i)
  pub write_others :
      (p : String) (o : ℕ) (d : Bytes) (w : W) (q : String) (i : ℕ)
      → str_eq p q ≡ false
      → byte (files.write_at p o d w).1 q i ≡ byte w q i
  pub sync_keeps : (p q : String) (w : W) (i : ℕ) → byte (files.sync p w).1 q i ≡ byte w q i
  pub alive_keeps : (q : String) (w : W) (i : ℕ) → byte (files.alive w).1 q i ≡ byte w q i

pub slice-agrees : (f g : ℕ → ℕ) (o n : ℕ) → ((i : ℕ) → f i ≡ g i) → slice f o n ≡ slice g o n
unfolding slice
slice-agrees f g o zero h = refl
slice-agrees f g o (suc n) h = cc (h o, slice-agrees f g (o + 1) n h)

pub byte_count-slice : (at : ℕ → ℕ) (o n : ℕ) → byte_count (slice at o n) ≡ n
unfolding slice byte_count
byte_count-slice at o zero = refl
byte_count-slice at o (suc n) = ground (arith, byte_count-slice at (o + 1) n)

pub nth-slice : (at : ℕ → ℕ) (o n i : ℕ) → i < n → nth (slice at o n) i ≡ at (o + i)
unfolding slice nth
nth-slice at o zero i h = absurd (omega arith)
nth-slice at o (suc n) zero h = ap at (omega arith)
nth-slice at o (suc n) (suc i) h = nth-slice at (o + 1) n i (omega arith) ∙ ap at (omega arith)

pub zero_head : (b : ℕ) (bs : Bytes) → is_zero (b ∷ bs) ≡ true → b ≡ 0
unfolding is_zero
zero_head b bs h = ground arith

pub is_zero-zeros : (bs : Bytes) → is_zero bs ≡ true → bs ≡ zeros (byte_count bs)
unfolding is_zero byte_count zeros
is_zero-zeros [] h = refl
is_zero-zeros (b ∷ bs) h = cc (is_zero-zeros bs (ground arith), zero_head b bs h)

pub nth-zero : (bs : Bytes) (i : ℕ) → is_zero bs ≡ true → nth bs i ≡ 0
unfolding is_zero nth
nth-zero [] i h = refl
nth-zero (b ∷ bs) zero h = ground arith
nth-zero (b ∷ bs) (suc i) h = nth-zero bs i (ground arith)

pub ok_injective : {E A : Type 0} {a b : A} → ◌≡◌ {A = Result E A} (ok a) (ok b) → a ≡ b
ok_injective h = cc h

pub io_ok :
    {W A : Type 0} (m : Exec W String A) (w : W) (a : A) → (io m w).0 ≡ ok a → (m w).0 ≡ ok a
unfolding io
io_ok m w a h = ground arith

pub append_nil : (bs : Bytes) → append bs [] ≡ bs
unfolding append
append_nil [] = refl
append_nil (b ∷ bs) = cc (append_nil bs)

pub append_assoc : (as1 bs cs : Bytes) → append (append as1 bs) cs ≡ append as1 (append bs cs)
unfolding append
append_assoc [] bs cs = refl
append_assoc (a ∷ as1) bs cs = cc (append_assoc as1 bs cs)
