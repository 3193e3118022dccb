-- ===== src/Negotiation.antt =====
-- pkg/negotiation: mandates, exact amounts, the owner's budget and the negotiation state machine.
pub mod Errors
pub mod Amount
pub mod Money
pub mod Terms
pub mod Mandate
pub mod Exact
pub mod Authority
pub mod Budget
pub mod Quote
pub mod State
pub mod Exec
pub mod Machine
pub mod Creation
pub mod Restore
pub mod Calls
pub mod Frozen
pub mod Holds
pub mod Finality
pub mod MoneyLeads
pub mod Binding
pub mod Approvals
pub mod WellFormed
pub mod Reachable
pub mod Owner
