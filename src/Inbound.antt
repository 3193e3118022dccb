-- ===== src/Inbound.antt =====
-- pkg/eventlog: the journal of inbound events, their admission by the owner and their application by
-- a runtime.
pub mod Record
pub mod Stored
pub mod Queue
pub mod Sweep
pub mod Swept
pub mod Transition
pub mod Calls
pub mod Rank
pub mod Work
pub mod Settled
pub mod Once
