-- ===== src/Service.antt =====
-- casper_service/main.py: the parts of the HTTP service that decide, its routing left out.
-- An endpoint is a function on what it keeps; it returns, or it raises an `HTTPException`.
pub mod Data
pub mod Rates
pub mod Pace
pub mod Accounts
pub mod Tokens
pub mod Layers
pub mod Requests
pub mod RuleUpdates
pub mod Places
pub mod Reorder
pub mod Storage
pub mod Cap
pub mod Files
pub mod Codes
pub mod Once
pub mod Spared
pub mod Isolation
pub mod Hosts
pub mod Environments
pub mod Pairings
pub mod Forgetting
pub mod Approvals
pub mod Decisions
mod Examples
mod HostExamples
