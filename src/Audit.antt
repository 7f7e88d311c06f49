-- ===== src/Audit.antt =====
-- verify_audit.py: the chain of hashed audit records.
pub mod Chain
pub mod Verified
pub mod Appended
pub mod Committed
pub mod Tenants
mod Examples
