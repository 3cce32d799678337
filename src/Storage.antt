-- ===== src/Storage.antt =====
-- The storage engine (internal/storage/): volume states kept as lvm tags, the verbs on volumes,
-- snapshots, pushes and rollbacks, crash recovery, export pins, digests and inbound transfers.
pub mod State
pub mod Errors
pub mod Node
pub mod Attaching
pub mod Pushing
pub mod Recovery
pub mod Tags
pub mod Pins
pub mod Volume
pub mod Setup
pub mod Starting
pub mod Verbs
pub mod Snapshots
pub mod Pushes
pub mod Rollback
pub mod Recover
pub mod Digest
pub mod Reader
pub mod Transfers
