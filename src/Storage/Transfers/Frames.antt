-- ===== src/Storage/Transfers/Frames.antt =====
-- The checks on a frame in Write of internal/storage/transfers.go.
use beanstore.Base.{◌≡◌, ◌≤◌, false, arith}
use beanstore.Storage.Digest.{transfer_chunk_bytes}
use beanstore.Storage.Transfers.{Session, is_bad_frame}

-- The last whole chunk below 2^64 passes the checks on a volume of any size, since its end wraps
-- around to zero.
pub wrapping_frame_passes :
    (s : Session)
    → s.next_offset ≤ 18446744073708503040
    → is_bad_frame s 18446744073708503040 transfer_chunk_bytes ≡ false
unfolding is_bad_frame transfer_chunk_bytes
wrapping_frame_passes s h = ground arith
