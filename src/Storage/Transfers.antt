-- ===== src/Storage/Transfers.antt =====
-- internal/storage/transfers.go: the inbound transfers of a node. The maps `dead` and `committed`
-- hold only true, so they are lists of ids; an open device and an armed timer are flags. Each
-- operation is one step here: the steps between its critical sections are not interleaved with
-- other operations. When the grace timer fires, it runs `destroy`.
pub mod Handlers
pub mod Lives
pub mod Frames
pub mod Ids
pub mod Once
pub mod Limit
pub mod Limited
pub mod Gaps
use beanstore.Base.{
  ℕ, zero, suc, ◌+◌, ◌-◌, ◌%◌, ◌^◌, min, String, Bool, true, false, ◌&&◌, ◌||◌, not, Option, none,
  some, List, [], ◌∷◌, ltb, leb, ◌==◌, contains, if◌then◌else◌,
}
use beanstore.Base.StringMap.{StringMap, lookup, insert, erase}
use beanstore.Base.Exec.{Result, ok, err, Exec, pure, fail, ◌>>=◌, ◌>>◌}
use beanstore.Config.{Config}
use beanstore.Lvm.Types.{
  no_common, no_create_thin_volume, no_change, CreateThinVolumeOptions, ChangeLogicalVolumeOptions,
}
use beanstore.Lvm.Interface.{Lvm}
use beanstore.Storage.State.{incoming, ready, state_tag, transfer_tag}
use beanstore.Storage.Errors.{
  Error, wrap, transfer_limit, transfer_used, transfer_unknown, transfer_busy, digest_mismatch,
  bad_frame,
}
use beanstore.Storage.Volume.{Volume, lv_name, get_volume}
use beanstore.Storage.Verbs.{remove_volume}
use beanstore.Storage.Digest.{
  Bytes, transfer_chunk_bytes, DigestBuilder, new_digest_builder, add_chunk, add_zero_chunk, sum,
}
use beanstore.Storage.Reader.{Files, io, byte_count}

pub record Session : Type 0 where
  pub volume_id : String
  pub path : String
  pub size_bytes : ℕ
  pub device_open : Bool
  pub digest : DigestBuilder
  pub next_offset : ℕ
  pub streaming : Bool
  pub terminal : Bool
  pub grace_armed : Bool

pub record Transfers : Type 0 where
  pub sessions : StringMap Session
  pub dead : List String
  pub committed : List String

abbrev pub new_transfers : Transfers
new_transfers = record { sessions = []; dead = []; committed = [] }

abbrev pub new_session : String → ℕ → Session
new_session volume_id size_bytes = record {
  volume_id = volume_id;
  path = "";
  size_bytes = size_bytes;
  device_open = false;
  digest = new_digest_builder;
  next_offset = 0;
  streaming = false;
  terminal = false;
  grace_armed = false;
}

-- The sessions that count for the limit.
unfoldable pub live_sessions : StringMap Session → ℕ
live_sessions [] = 0
live_sessions ((id, s) ∷ rest) = if s.terminal then live_sessions rest else suc (live_sessions rest)

-- finish: the session goes, and its id is dead.
unfoldable pub finish : String → Transfers → Transfers
finish id t = elim (lookup id t.sessions) [
  | none ↦ t
  | some s ↦ record t { sessions = erase id t.sessions; dead = id ∷ t.dead }
]

unfoldable pub put_session : String → Session → Transfers → Transfers
put_session id s t = record t { sessions = insert id s t.sessions }

-- `t.sessions[id]`, without those that are terminal.
unfoldable pub live_session : String → Transfers → Option Session
live_session id t = elim (lookup id t.sessions) [
  | none ↦ none
  | some s ↦ if s.terminal then none else some s
]

unfoldable pub next_offset_of : String → Transfers → Result Error ℕ
unfolding live_session
next_offset_of id t = elim (live_session id t) [
  | none ↦ err (transfer_unknown id)
  | some s ↦ ok s.next_offset
]

unfoldable pub attach_stream : String → Exec Transfers Error Unit
unfolding live_session put_session
attach_stream id t = elim (live_session id t) [
  | none ↦ (err (transfer_unknown id), t)
  | some s ↦
      if s.streaming
      then (err (transfer_busy id), t)
      else (ok tt, put_session id (record s { streaming = true; grace_armed = false }) t)
]

unfoldable pub detach_stream : String → Transfers → Transfers
unfolding live_session put_session
detach_stream id t = elim (live_session id t) [
  | none ↦ t
  | some s ↦ put_session id (record s { streaming = false; grace_armed = true }) t
]

-- `offset + uint64(len(data))`, which wraps around.
abbrev pub frame_end : ℕ → ℕ → ℕ
frame_end offset length = (offset + length) % 2 ^ 64

-- The cases that Write refuses.
unfoldable pub is_bad_frame : Session → ℕ → ℕ → Bool
unfolding transfer_chunk_bytes
is_bad_frame s offset length =
    not (offset % transfer_chunk_bytes == 0)
    || ltb offset s.next_offset
    || ltb s.size_bytes (frame_end offset length)
    || (length == 0 || ltb transfer_chunk_bytes length)
    || (ltb length transfer_chunk_bytes && not (frame_end offset length == s.size_bytes))

abbrev pub incoming_options : String → CreateThinVolumeOptions
incoming_options id = record no_create_thin_volume {
  add_tags = state_tag incoming ∷ transfer_tag id ∷ [];
}

abbrev pub commit_options : String → ChangeLogicalVolumeOptions
commit_options id = record no_change {
  add_tags = state_tag ready ∷ [];
  remove_tags = state_tag incoming ∷ transfer_tag id ∷ [];
}

unfoldable pub equal_bytes : Bytes → Bytes → Bool
equal_bytes [] [] = true
equal_bytes (a ∷ as1) (b ∷ bs) = a == b && equal_bytes as1 bs
equal_bytes _ _ = false

-- The loop over the skipped chunks, on fuel: `until` is enough up to 2^64 - 2^20, and above that
-- the loop of the source need not end. The next offset and `size - gap` wrap around.
unfoldable pub add_gaps : (Bytes → Bytes) → ℕ → ℕ → ℕ → ℕ → DigestBuilder → DigestBuilder
unfolding transfer_chunk_bytes
add_gaps sha256 zero gap until size b = b
add_gaps sha256 (suc fuel) gap until size b =
    let rest = add_gaps sha256 fuel ((gap + transfer_chunk_bytes) % 2 ^ 64) until size in
    if ltb gap until
    then rest (add_zero_chunk sha256 (min transfer_chunk_bytes ((size + 2 ^ 64 - gap) % 2 ^ 64)) b)
    else b
