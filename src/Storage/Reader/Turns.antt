-- ===== src/Storage/Reader/Turns.antt =====
-- The loop of internal/storage/reader.go, turn by turn.
use mathlib.Core.Path.{subst}
use beanstore.Base.{
  ◌≡◌, refl, sym, ap, ◌∙◌, ℕ, zero, suc, ◌+◌, ◌-◌, ◌≤◌, min, String, true, false, [], ltb, leb,
  arith, Bool-cases, inl, inr, ◌⊎◌,
}
use beanstore.Base.Exec.{ok, Exec, pure, ◌>>=◌, ◌>>◌, bind_ok}
use beanstore.Storage.Errors.{Error}
use beanstore.Storage.Digest.{
  Bytes, transfer_chunk_bytes, zeros, append, put_uint64, DigestBuilder, add_chunk, add_zero_chunk,
}
use beanstore.Storage.Reader.Sequential.{read_chunks_at}
use beanstore.Storage.Reader.{Files, Frame, io, is_zero, byte_count, take_chunk}
use beanstore.Storage.Reader.Content.{
  FileLaws, slice, slice-agrees, byte_count-slice, is_zero-zeros, ok_injective, io_ok,
}

module _ (sha256 : Bytes → Bytes) where
  -- The hashes of the chunks of a device from an offset on.
  pub outer_of : (ℕ → ℕ) → ℕ → ℕ → ℕ → Bytes
  outer_of at size zero o = []
  outer_of at size (suc fuel) o = elim (ltb o size) [
    | false ↦ []
    | true ↦
        append (sha256 (slice at o (min transfer_chunk_bytes (size - o))))
          (outer_of at size fuel (o + transfer_chunk_bytes))
  ]

  pub outer_nil : (at : ℕ → ℕ) (size o : ℕ) → outer_of at size zero o ≡ []
  unfolding outer_of
  outer_nil at size o = refl

  pub outer_more :
      (at : ℕ → ℕ) (size fuel o : ℕ)
      → ltb o size ≡ true
      → outer_of at size (suc fuel) o
        ≡ append
            (sha256 (slice at o (min transfer_chunk_bytes (size - o))))
            (outer_of at size fuel (o + transfer_chunk_bytes))
  unfolding outer_of
  outer_more at size fuel o h = rw (h, outer_of) refl

  pub outer_end :
      (at : ℕ → ℕ) (size fuel o : ℕ) → ltb o size ≡ false → outer_of at size (suc fuel) o ≡ []
  unfolding outer_of
  outer_end at size fuel o h = rw (h, outer_of) refl

  -- The digest of a device: the hash over the hashes of all its chunks and its size.
  abbrev pub content_digest : (ℕ → ℕ) → ℕ → Bytes
  content_digest at size = sha256 (append (outer_of at size size 0) (put_uint64 size))

  full_length :
      (n : ℕ)
      → leb transfer_chunk_bytes n ≡ true
      → n ≤ transfer_chunk_bytes
      → transfer_chunk_bytes ≡ n
  full_length n h le = ground arith

  -- A zero chunk enters the digest as any other.
  pub zero_chunk_outer :
      (c : Bytes) (b : DigestBuilder)
      → is_zero c ≡ true
      → byte_count c ≤ transfer_chunk_bytes
      → (add_zero_chunk sha256 (byte_count c) b).outer ≡ append b.outer (sha256 c)
  unfolding add_zero_chunk
  zero_chunk_outer c b z le = elim (Bool-cases (leb transfer_chunk_bytes (byte_count c))) [
    | inl full ↦ rw full (
        ap (λ (n : ℕ). append b.outer (sha256 (zeros n))) (full_length (byte_count c) full le)
        ∙ ap (λ (x : Bytes). append b.outer (sha256 x)) (sym (is_zero-zeros c z)))
    | inr short ↦ rw short (ap (λ (x : Bytes). append b.outer (sha256 x)) (sym (is_zero-zeros c z)))
  ]

  module _ {W : Type 0} (files : Files W) (laws : FileLaws files) where
    abbrev pub Sink : Type 0
    Sink = Frame → Exec W Error Unit

    -- One turn of the loop that the function goes on from.
    abbrev pub Turn : String → Sink → ℕ → ℕ → ℕ → DigestBuilder → W → DigestBuilder → Type 0
    Turn path sink size fuel o b w last =
        (chunk : Bytes) × (w2 : W) × (b1 : DigestBuilder) × (chunk
          ≡ slice (laws.byte w path) o (min transfer_chunk_bytes (size - o)))
        × ((q : String) (i : ℕ) → laws.byte w2 q i ≡ laws.byte w q i)
        × ((take_chunk sha256 files sink o chunk b w2).0 ≡ ok b1)
        × (read_chunks_at sha256 files path sink size (suc fuel) o b w
            ≡ read_chunks_at sha256 files path sink size fuel (o + transfer_chunk_bytes) b1
                (take_chunk sha256 files sink o chunk b w2).1)

    pub io_keeps :
        {A : Type 0} (m : Exec W String A) (w : W)
        → ((q : String) (i : ℕ) → laws.byte (m w).1 q i ≡ laws.byte w q i)
        → (q : String) (i : ℕ) → laws.byte (io m w).1 q i ≡ laws.byte w q i
    unfolding io
    io_keeps m w h = h

    pub more_chunks :
        (path : String) (sink : Sink) (size fuel o : ℕ) (b : DigestBuilder) (w : W)
        → ltb o size ≡ true
        → read_chunks_at sha256 files path sink size (suc fuel) o b w
          ≡ (io files.alive
                >> (io (files.read path o (min transfer_chunk_bytes (size - o))) >>= λ chunk.
                    take_chunk sha256 files sink o chunk b >>= λ b1.
                    read_chunks_at sha256 files path sink size fuel (o + transfer_chunk_bytes) b1))
              w
    unfolding read_chunks_at io
    more_chunks path sink size fuel o b w more = rw (more, read_chunks_at) refl

    pub turn :
        (path : String) (sink : Sink) (size fuel o : ℕ) (b : DigestBuilder) (w : W)
        (last : DigestBuilder)
        → ltb o size ≡ true
        → (read_chunks_at sha256 files path sink size (suc fuel) o b w).0 ≡ ok last
        → Turn path sink size fuel o b w last
    turn path sink size fuel o b w last more h =
        let n = min transfer_chunk_bytes (size - o) in
        let e0 = more_chunks path sink size fuel o b w more in
        let h0 = ap (λ r. r.0) (sym e0) ∙ h in
        let (_, _, e1) = bind_ok (io files.alive) _ w last h0 in
        let w1 = (io files.alive w).1 in
        let h1 = ap (λ r. r.0) (sym e1) ∙ h0 in
        let (chunk, got, e2) = bind_ok (io (files.read path o n)) _ w1 last h1 in
        let w2 = (io (files.read path o n) w1).1 in
        let h2 = ap (λ r. r.0) (sym e2) ∙ h1 in
        let (b1, took, e3) = bind_ok (take_chunk sha256 files sink o chunk b) _ w2 last h2 in
        let keeps1 = io_keeps files.alive w (λ q i. laws.alive_keeps q w i) in
        let keeps2 = io_keeps (files.read path o n) w1 (λ q i. laws.read_keeps path o n q w1 i) in
        (
          chunk,
          w2,
          b1,
          laws.read_done path o n w1 chunk (io_ok (files.read path o n) w1 chunk got)
              ∙ slice-agrees (laws.byte w1 path) (laws.byte w path) o n (keeps1 path),
          λ q i. keeps2 q i ∙ keeps1 q i,
          took,
          e0 ∙ e1 ∙ e2 ∙ e3,
        )

    pub done :
        (path : String) (sink : Sink) (size o : ℕ) (b : DigestBuilder) (w : W)
        → read_chunks_at sha256 files path sink size zero o b w ≡ (ok b, w)
    unfolding read_chunks_at
    done path sink size o b w = refl

    pub stop :
        (path : String) (sink : Sink) (size fuel o : ℕ) (b : DigestBuilder) (w : W)
        → ltb o size ≡ false
        → read_chunks_at sha256 files path sink size (suc fuel) o b w ≡ (ok b, w)
    unfolding read_chunks_at
    stop path sink size fuel o b w end = rw (end, read_chunks_at) refl

    pub took_zero :
        (sink : Sink) (o : ℕ) (c : Bytes) (b : DigestBuilder) (w : W)
        → is_zero c ≡ true
        → take_chunk sha256 files sink o c b w ≡ (ok (add_zero_chunk sha256 (byte_count c) b), w)
    unfolding take_chunk
    took_zero sink o c b w z = rw (z, take_chunk) refl

    pub took_frame :
        (sink : Sink) (o : ℕ) (c : Bytes) (b : DigestBuilder) (w : W)
        → is_zero c ≡ false
        → take_chunk sha256 files sink o c b w
          ≡ (sink (record { offset = o; payload = c }) >> pure (add_chunk sha256 c b)) w
    unfolding take_chunk
    took_frame sink o c b w z = rw (z, take_chunk) refl

    -- A turn adds the hash of its chunk, and sends the chunk unless it is zero.
    pub took :
        (sink : Sink) (o : ℕ) (c : Bytes) (b b1 : DigestBuilder) (w : W)
        → byte_count c ≤ transfer_chunk_bytes
        → (take_chunk sha256 files sink o c b w).0 ≡ ok b1
        → (b1.outer ≡ append b.outer (sha256 c))
          × (((is_zero c ≡ true) × ((take_chunk sha256 files sink o c b w).1 ≡ w))
              ⊎ (((sink (record { offset = o; payload = c }) w).0 ≡ ok tt)
                  × ((take_chunk sha256 files sink o c b w).1
                      ≡ (sink (record { offset = o; payload = c }) w).1)))
    took sink o c b b1 w le h = elim (Bool-cases (is_zero c)) [
      | inl z ↦
          let e = took_zero sink o c b w z in
          let is_b1 = ok_injective (sym (ap (λ r. r.0) e) ∙ h) in
          (
            sym (ap (λ (x : DigestBuilder). x.outer) is_b1) ∙ zero_chunk_outer c b z le,
            inl (z, ap (λ r. r.1) e),
          )
      | inr f ↦
          let e = took_frame sink o c b w f in
          let (_, sent, e1) =
            bind_ok (sink (record { offset = o; payload = c })) (λ _. pure (add_chunk sha256 c b)) w
              b1 (ap (λ r. r.0) (sym e) ∙ h) in
          let is_b1 = ok_injective (sym (ap (λ r. r.0) (e ∙ e1)) ∙ h) in
          (
            sym (ap (λ (x : DigestBuilder). x.outer) is_b1) ∙ unfold add_chunk in refl,
            inr (sent, ap (λ r. r.1) (e ∙ e1)),
          )
    ]

    pub fits_chunk :
        (chunk : Bytes) (at : ℕ → ℕ) (o n : ℕ)
        → chunk ≡ slice at o (min transfer_chunk_bytes n)
        → byte_count chunk ≤ transfer_chunk_bytes
    fits_chunk chunk at o n h =
        subst (λ (k : ℕ). k ≤ transfer_chunk_bytes)
          (sym (ap byte_count h ∙ byte_count-slice at o (min transfer_chunk_bytes n)))
          (ground arith)

    pub sink_kept :
        (sink : Sink) (o : ℕ) (c : Bytes) (b : DigestBuilder) (w : W) (path : String)
        → ((f : Frame) (x : W) (i : ℕ) → laws.byte (sink f x).1 path i ≡ laws.byte x path i)
        → (((is_zero c ≡ true) × ((take_chunk sha256 files sink o c b w).1 ≡ w))
            ⊎ (((sink (record { offset = o; payload = c }) w).0 ≡ ok tt)
                × ((take_chunk sha256 files sink o c b w).1
                    ≡ (sink (record { offset = o; payload = c }) w).1)))
        → (i : ℕ) → laws.byte (take_chunk sha256 files sink o c b w).1 path i ≡ laws.byte w path i
    sink_kept sink o c b w path keeps (inl (_, e)) i = ap (λ x. laws.byte x path i) e
    sink_kept sink o c b w path keeps (inr (_, e)) i = ap (λ x. laws.byte x path i) e ∙ keeps _ w i
