-- ===== src/Rbac.antt =====
-- services/rbac_matrix.py: which role may call which endpoint.
pub mod Glob
pub mod Roles
pub mod Rules
pub mod Paths
pub mod Access
pub mod Granted
pub mod Known
pub mod Hitl
pub mod Public
mod Examples
