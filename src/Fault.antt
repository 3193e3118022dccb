-- ===== src/Fault.antt =====
-- pkg/fault: typed failures, their retry disposition and what a peer may be told.
pub mod Codes
pub mod Retry
pub mod Response
pub mod Visibility
