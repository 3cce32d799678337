-- ===== src/Examples/Devices.antt =====
-- Two small devices, `a` to read and `b` to write, that satisfy what the program relies on of
-- files.
use beanstore.Base.{
  ◌≡◌, ◌≢◌, refl, sym, ap, ◌∙◌, ℕ, ◌+◌, ◌-◌, String, true, false, ◌&&◌, [], ◌∷◌, ltb, leb,
  if◌then◌else◌, arith, str_eq, eq_iff, Bool-cases, inl, inr,
}
use beanstore.Base.Exec.{Result, ok, err, Exec}
use beanstore.Storage.Digest.{Bytes}
use beanstore.Storage.Reader.{Files, byte_count}
use beanstore.Storage.Reader.Content.{FileLaws, slice, nth}

-- The content of `b`.
abbrev pub Disk : Type 0
Disk = ℕ → ℕ

abbrev pub source_bytes : Bytes
source_bytes = 7 ∷ 0 ∷ 9 ∷ []

abbrev pub disk_byte : Disk → String → ℕ → ℕ
disk_byte w q i = if str_eq q "a" then nth source_bytes i else if str_eq q "b" then w i else 0

abbrev pub put_bytes : ℕ → Bytes → Disk → Disk
put_bytes o d w i = if leb o i && ltb i (o + byte_count d) then nth d (i - o) else w i

unfoldable pub write_b : String → ℕ → Bytes → Exec Disk String Unit
write_b p o d w = if str_eq p "b" then (ok tt, put_bytes o d w) else (err "read only", w)

abbrev pub toy_files : Files Disk
toy_files = record {
  open_file = λ p w. (ok tt, w);
  seek_end = λ p w. (ok 3, w);
  seek_start = λ p w. (ok tt, w);
  read = λ p o n w. (ok (slice (disk_byte w p) o n), w);
  write_at = write_b;
  sync = λ p w. (ok tt, w);
  alive = λ w. (ok tt, w);
}

ok_injective : {E A : Type 0} {a b : A} → ◌≡◌ {A = Result E A} (ok a) (ok b) → a ≡ b
ok_injective h = cc h

write_b-wrote :
    (p : String) (o : ℕ) (d : Bytes) (w : Disk)
    → str_eq p "b" ≡ true
    → write_b p o d w ≡ (ok tt, put_bytes o d w)
unfolding write_b
write_b-wrote p o d w h = rw h refl

write_b-refused :
    (p : String) (o : ℕ) (d : Bytes) (w : Disk)
    → str_eq p "b" ≡ false
    → (write_b p o d w).0 ≡ err "read only"
unfolding write_b
write_b-refused p o d w h = rw h refl

false_not_true : false ≢ true
false_not_true h = absurd (cc h)

a_not_b : ◌≢◌ {A = String} "a" "b"
a_not_b h = false_not_true ((eq_iff "a" "b").1 h)

wrote_byte :
    (p : String) (o : ℕ) (d : Bytes) (w : Disk) (q : String) (i : ℕ)
    → str_eq p "b" ≡ true
    → disk_byte (put_bytes o d w) q i ≡ (
        if str_eq p q && leb o i && ltb i (o + byte_count d)
        then nth d (i - o)
        else disk_byte w q i)
wrote_byte p o d w q i b =
    ground (arith, eq_iff p "b", eq_iff q "b", eq_iff q "a", eq_iff p q, a_not_b)

pub write_b-done :
    (p : String) (o : ℕ) (d : Bytes) (w : Disk)
    → (write_b p o d w).0 ≡ ok tt
    → (q : String) (i : ℕ)
    → disk_byte (write_b p o d w).1 q i ≡ (
        if str_eq p q && leb o i && ltb i (o + byte_count d)
        then nth d (i - o)
        else disk_byte w q i)
write_b-done p o d w h q i = elim (Bool-cases (str_eq p "b")) [
  | inl b ↦ ap (λ r. disk_byte r.1 q i) (write_b-wrote p o d w b) ∙ wrote_byte p o d w q i b
  | inr other ↦ absurd (cc (h, write_b-refused p o d w other))
]

pub write_b-others :
    (p : String) (o : ℕ) (d : Bytes) (w : Disk) (q : String) (i : ℕ)
    → str_eq p q ≡ false
    → disk_byte (write_b p o d w).1 q i ≡ disk_byte w q i
unfolding write_b
write_b-others p o d w q i n = ground (arith, eq_iff p "b", eq_iff q "b", eq_iff p q)

pub read-done : {E : Type 0} (d e : Bytes) → ◌≡◌ {A = Result E Bytes} (ok d) (ok e) → e ≡ d
read-done d e h = sym (ok_injective h)

pub end-done : {E : Type 0} (n : ℕ) → ◌≡◌ {A = Result E ℕ} (ok 3) (ok n) → n ≡ 3
end-done n h = sym (ok_injective h)

abbrev pub toy_file_laws : FileLaws toy_files
toy_file_laws = record {
  byte = disk_byte;
  size_of = λ w p. 3;
  open_keeps = λ p q w i. refl;
  open_size = λ p q w. refl;
  end_keeps = λ p q w i. refl;
  end_done = λ p w n h. end-done n h;
  start_keeps = λ p q w i. refl;
  read_keeps = λ p o n q w i. refl;
  read_done = λ p o n w d h. read-done _ d h;
  write_done = write_b-done;
  write_others = write_b-others;
  sync_keeps = λ p q w i. refl;
  alive_keeps = λ q w i. refl;
}
