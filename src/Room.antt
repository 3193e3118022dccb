-- ===== src/Room.antt =====
-- pkg/room: the members of a private group, epoch by epoch, and who may do what among them.
pub mod Membership
pub mod Delegation
pub mod Authority
pub mod Roles
pub mod Sets
pub mod Changes
pub mod Commits
pub mod Grants
pub mod Preimages
pub mod Signed
