-- ===== src/Api.antt =====
-- internal/api/: the handlers of the gRPC services over the storage engine.
pub mod Status
pub mod Names
pub mod Authorize
pub mod Reservations
pub mod Server
pub mod Volumes
pub mod Exports
pub mod Pushing
pub mod Copies
pub mod Rollbacks
pub mod Receiving
pub mod Jobs
