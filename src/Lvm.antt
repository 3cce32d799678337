-- ===== src/Lvm.antt =====
-- The Go lvm2 library (lvm/): its data, its errors, the client that runs commands, the logical
-- volume commands, and the interface through which the storage engine calls them.
pub mod Types
pub mod Errors
pub mod Client
pub mod Decimal
pub mod Report
pub mod Volumes
pub mod Interface
pub mod Laws
pub mod Groups
pub mod Physical
pub mod Extending
