-- ===== src/Trust.antt =====
-- casper_service/trust.py: friends, offerings, access requests, grants and invites.
pub mod Data
pub mod Users
pub mod Grants
pub mod Friends
pub mod Offerings
pub mod Invites
pub mod Groups
pub mod Tuples
pub mod Keys
pub mod Symmetry
pub mod GrantRows
pub mod Unfriend
pub mod Steps
pub mod Redemption
pub mod InviteLife
pub mod Reach
mod Examples
