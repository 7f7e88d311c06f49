-- ===== src/Approvals.antt =====
-- approval_store.py and the endpoints of main.py that decide and execute approvals.
pub mod State
pub mod Mfa
pub mod Handlers
pub mod Execute
pub mod Once
pub mod Lifecycle
pub mod Guarded
mod Examples
