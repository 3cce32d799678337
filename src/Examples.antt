-- ===== src/Examples.antt =====
-- Concrete runs of the model on a small node, and the tests of the definitions.
pub mod Toy
pub mod Commands
pub mod Lawful
pub mod Runs
pub mod Devices
pub mod Copies
pub mod Moves
pub mod Remote
pub mod Snapshots
pub mod Settings
pub mod Start
pub mod Family
pub mod Rollback
