-- ===== src/Firewall.antt =====
-- pkg/firewall: which proposed actions an agent may take without its owner.
pub mod Policy
pub mod Action
pub mod Evaluate
pub mod Reach
pub mod Origins
pub mod Channel
pub mod Cited
