-- ===== src/Opa.antt =====
-- policy.py: the decisions of the Open Policy Agent (OPA), and the checks built on them.
pub mod Answer
pub mod Evaluate
pub mod Calls
pub mod Tables
pub mod Enforce
pub mod FailClosed
pub mod Breaker
pub mod Agreement
pub mod Blocked
mod Examples
