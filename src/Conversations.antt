-- ===== src/Conversations.antt =====
-- casper_service/conversations.py: the tool-calling turn behind POST /conversations/step.
pub mod Data
pub mod Hosts
pub mod Dispatch
pub mod Turns
pub mod Effects
pub mod Approval
mod Examples
