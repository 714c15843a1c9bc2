-- ===== src/Backups.antt =====
-- casper_service/backups.py: moving ciphertext between two daemons, and what the owner is told.
-- Functions of the source run one after the other here: what two threads do at once is not modelled.
pub mod Data
pub mod Resolve
pub mod Push
pub mod Transfer
pub mod Manage
pub mod Restore
pub mod Rows
pub mod Deciding
pub mod Effects
pub mod Chunks
pub mod Triples
pub mod Outcomes
pub mod Sending
pub mod Endings
pub mod Runs
pub mod Termination
pub mod Ownership
pub mod Deletion
mod Examples
