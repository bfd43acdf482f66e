-- ===== src/Vault.antt =====
-- The vault control plane (flowdocs/vaultops).
pub mod Audit
pub mod States
pub mod Transitions
pub mod Job
pub mod Jobs
pub mod Stale
pub mod Retry
pub mod History
pub mod Barrier
pub mod Confirmation
pub mod Retention
mod Examples
