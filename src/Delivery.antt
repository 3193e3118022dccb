-- ===== src/Delivery.antt =====
-- pkg/eventlog/delivery.go, and what session.go and prune.go do to the same files: the journal of
-- outbound events.
pub mod Record
pub mod Stored
pub mod Outbox
pub mod Sweep
pub mod Seal
pub mod Swept
pub mod Lifecycle
pub mod Calls
pub mod Refines
pub mod Effects
pub mod Barred
pub mod Lease
pub mod Attempts
