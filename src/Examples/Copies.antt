-- ===== src/Examples/Copies.antt =====
-- The theorems on reading and copying devices at the devices of Devices, and those on pins.
use beanstore.Base.{◌≡◌, refl, [], ◌∷◌, arith, ltb, leb, ◌==◌}
use beanstore.Base.Exec.{ok, pure}
use beanstore.Storage.Digest.{transfer_chunk_bytes, sum, add_chunk, Bytes}
use beanstore.Storage.Reader.{
  io, read_chunks, rewind, take_chunk, is_zero, read_device, copy_device, write_frame,
}
use beanstore.Storage.Reader.Content.{slice, nth}
use beanstore.Storage.Reader.Turns.{content_digest}
use beanstore.Storage.Reader.Digests.{read_device_digest}
use beanstore.Storage.Reader.Copying.{copy_device_copies}
use beanstore.Storage.Pins.{new_pins, acquire, release, is_pinned}
use beanstore.Storage.Pins.Counting.{acquires, releases, pin_run, live, pins_count_exports}
use beanstore.Examples.Devices.{write_b, Disk, disk_byte, toy_files, toy_file_laws}

-- A stand-in for the hash, with the content kept.
abbrev toy_hash : Bytes → Bytes
toy_hash bs = bs

abbrev clear : Disk
clear i = 0

abbrev read_digest : Bytes
read_digest = 7 ∷ 0 ∷ 9 ∷ 0 ∷ 0 ∷ 0 ∷ 0 ∷ 0 ∷ 0 ∷ 0 ∷ 3 ∷ []

run_read : (read_device toy_hash toy_files "a" (λ f. pure tt) clear).0 ≡ ok (3, read_digest)
unfolding read_device io read_chunks rewind take_chunk is_zero slice transfer_chunk_bytes nth sum
    add_chunk
run_read = refl

read_device_digest_example :
    (toy_file_laws.size_of clear "a" ≡ toy_file_laws.size_of clear "a")
    × (read_digest ≡ content_digest toy_hash (disk_byte clear "a") 3)
read_device_digest_example =
    read_device_digest toy_hash toy_files toy_file_laws "a" (λ f. pure tt) clear 3 read_digest
      (λ f x i. refl) run_read

run_copy : (copy_device toy_hash toy_files "a" "b" (λ n x. x) clear).0 ≡ ok tt
unfolding copy_device read_device io read_chunks rewind take_chunk is_zero slice
    transfer_chunk_bytes nth write_frame write_b
run_copy = refl

copy_device_copies_example :
    disk_byte (copy_device toy_hash toy_files "a" "b" (λ n x. x) clear).1 "b" 2
    ≡ disk_byte clear "a" 2
copy_device_copies_example =
    copy_device_copies toy_hash toy_files toy_file_laws "b" "a" (λ n x. x) refl (λ n x q i. refl)
      clear (λ i. refl) run_copy 2 (omega arith)

pins_count_exports_example :
    (is_pinned "s" (pin_run (acquires "s" ∷ acquires "s" ∷ releases "s" ∷ []) new_pins)
      ≡ ltb 0 (live "s" (acquires "s" ∷ acquires "s" ∷ releases "s" ∷ []) 0))
    × ((acquire "s" (pin_run (acquires "s" ∷ acquires "s" ∷ releases "s" ∷ []) new_pins)).0
        ≡ (live "s" (acquires "s" ∷ acquires "s" ∷ releases "s" ∷ []) 0 == 0))
    × ((release "s" (pin_run (acquires "s" ∷ acquires "s" ∷ releases "s" ∷ []) new_pins)).0
        ≡ leb (live "s" (acquires "s" ∷ acquires "s" ∷ releases "s" ∷ []) 0) 1)
pins_count_exports_example =
    pins_count_exports "s" (acquires "s" ∷ acquires "s" ∷ releases "s" ∷ [])
