-- ===== src/Policy.antt =====
-- services/policy_engine.py, a module for each of its parts.
pub mod Json
pub mod Action
pub mod Category
pub mod Patterns
pub mod Findings
pub mod Engine
pub mod Strongest
pub mod Decision
pub mod Collected
pub mod Conclusion
pub mod Verdict
pub mod Lifecycle
pub mod Loading
mod Examples
