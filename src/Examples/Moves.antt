-- ===== src/Examples/Moves.antt =====
-- The theorems on inbound transfers at a transfer of three bytes into the volume `a`.
use beanstore.Base.{
  ◌≡◌, refl, ◌≤◌, true, false, none, some, [], ◌∷◌, arith, contains, cut_prefix, cat,
}
use beanstore.Base.StringMap.{lookup}
use beanstore.Base.Exec.{ok}
use beanstore.Storage.State.{incoming, state_tag, transfer_tag}
use beanstore.Storage.Digest.{sum, Bytes, transfer_chunk_bytes}
use beanstore.Storage.Reader.{Files, io}
use beanstore.Storage.Errors.{wrap}
use beanstore.Storage.Transfers.{add_gaps, Session, is_bad_frame, equal_bytes}
use beanstore.Storage.Transfers.Handlers.{
  commit_volume, or_destroy, outside, update, Node, commit, received_digest,
}
use beanstore.Storage.Transfers.Lives.{commit_repeats, commit_checks}
use beanstore.Storage.Transfers.Frames.{wrapping_frame_passes}
use beanstore.Storage.Transfers.Gaps.{digest_of_session}
use mathlib.Core.Path.{subst}
use beanstore.Base.{some_injective}
use beanstore.Storage.Transfers.Once.{prepares, attaches, expires, transfer_run, transfer_once}
use beanstore.Storage.Transfers.Limited.{transfers_limited}
use beanstore.Storage.Transfers.{live_sessions}
use beanstore.Config.{Config}
use beanstore.Storage.Errors.{transfer_used}
use beanstore.Base.{◌||◌}
use beanstore.Base.Exec.{err}
use beanstore.Storage.Transfers.Handlers.{has_session, prepare_receive}
use beanstore.Examples.Toy.{on, at, World, toy, toy_config, lv_of}

abbrev pub same_hash : Bytes → Bytes
same_hash bs = bs

abbrev quiet_files : Files World
quiet_files = record {
  open_file = λ p w. (ok tt, w);
  seek_end = λ p w. (ok 3, w);
  seek_start = λ p w. (ok tt, w);
  read = λ p o n w. (ok [], w);
  write_at = λ p o d w. (ok tt, w);
  sync = λ p w. (ok tt, w);
  alive = λ w. (ok tt, w);
}

-- All three bytes were received, in one frame.
abbrev received : Session
received = record {
  volume_id = "a";
  path = "/dev/vg/a";
  size_bytes = 3;
  device_open = true;
  digest = record { outer = 7 ∷ 0 ∷ 9 ∷ [] };
  next_offset = 3;
  streaming = false;
  terminal = false;
  grace_armed = true;
}

abbrev before : Node World
before = record {
  table = record { sessions = ("m1", received) ∷ []; dead = []; committed = [] };
  world =
      some
        (record { lv = lv_of "a" (state_tag incoming ∷ transfer_tag "m1" ∷ []) 3; skip = false });
}

abbrev sent_digest : Bytes
sent_digest = 7 ∷ 0 ∷ 9 ∷ 0 ∷ 0 ∷ 0 ∷ 0 ∷ 0 ∷ 0 ∷ 0 ∷ 3 ∷ []

run_commit : (commit toy toy_config same_hash quiet_files "m1" sent_digest before).0 ≡ ok tt
unfolding commit lookup equal_bytes received_digest sum add_gaps commit_volume or_destroy outside io
    wrap on cut_prefix cat at update
run_commit = refl

commit_repeats_example :
    commit toy toy_config same_hash quiet_files "m1" []
      (commit toy toy_config same_hash quiet_files "m1" sent_digest before).1
    ≡ (ok tt, (commit toy toy_config same_hash quiet_files "m1" sent_digest before).1)
commit_repeats_example =
    commit_repeats toy toy_config same_hash quiet_files "m1" sent_digest [] before run_commit

not_yet : contains "m1" before.table.committed ≡ false
unfolding contains
not_yet = refl

small_volume :
    (s : Session) → lookup "m1" before.table.sessions ≡ some s → s.size_bytes ≤ 18446744073708503040
unfolding lookup
small_volume s h =
    subst (λ (x : Session). x.size_bytes ≤ 18446744073708503040) (some_injective h) (omega arith)

commit_checks_example :
    ((s : Session) × (lookup "m1" before.table.sessions ≡ some s)
      × (s.streaming ≡ false)
      × (equal_bytes (digest_of_session same_hash s) sent_digest ≡ true))
    × (lookup "m1"
          (commit toy toy_config same_hash quiet_files "m1" sent_digest before).1.table.sessions
        ≡ none)
    × (contains "m1"
          (commit toy toy_config same_hash quiet_files "m1" sent_digest before).1.table.committed
        ≡ true)
commit_checks_example =
    commit_checks toy toy_config same_hash quiet_files "m1" sent_digest before not_yet small_volume
      run_commit

abbrev started : Session
started = record received { next_offset = 0; device_open = false }

wrapping_frame_passes_example :
    is_bad_frame started 18446744073708503040 transfer_chunk_bytes ≡ false
wrapping_frame_passes_example = wrapping_frame_passes started (omega arith)

m1_used : contains "m1" before.table.dead || has_session "m1" before.table ≡ true
unfolding has_session contains lookup
m1_used = refl

transfer_once_example :
    prepare_receive toy toy_config "m1" "a" 3
      (transfer_run toy toy_config same_hash quiet_files (attaches "m1" ∷ expires "m1" ∷ []) before)
    ≡ (
      err (transfer_used "m1"),
      transfer_run toy toy_config same_hash quiet_files (attaches "m1" ∷ expires "m1" ∷ []) before,
    )
transfer_once_example =
    transfer_once toy toy_config same_hash quiet_files "m1" "a" 3
      (attaches "m1" ∷ expires "m1" ∷ []) before m1_used

abbrev one_at_a_time : Config
one_at_a_time = record toy_config { max_inbound_transfers = 1 }

one_live : live_sessions before.table.sessions ≤ one_at_a_time.max_inbound_transfers
unfolding live_sessions
one_live = omega arith

transfers_limited_example :
    live_sessions
      (transfer_run toy one_at_a_time same_hash quiet_files
        (prepares "m2" "b" 3 ∷ expires "m1" ∷ prepares "m3" "b" 3 ∷ [])
        before).table.sessions
    ≤ 1
transfers_limited_example =
    transfers_limited toy one_at_a_time same_hash quiet_files
      (prepares "m2" "b" 3 ∷ expires "m1" ∷ prepares "m3" "b" 3 ∷ []) before one_live
