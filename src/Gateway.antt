-- ===== src/Gateway.antt =====
-- The request pipeline: state.py, graph.py, nodes/, services/security_agent.py,
-- services/policy_agent.py, services/decision_engine.py, services/audit_agent.py, risk.py and
-- retriever.py.
pub mod State
pub mod Effects
pub mod Security
pub mod Env
pub mod Intake
pub mod Governance
pub mod Approval
pub mod Provider
pub mod Response
pub mod Graph
pub mod Guarantee
pub mod Nodes
pub mod Overridden
pub mod Safety
pub mod Audited
pub mod Ledger
pub mod Completion
pub mod Held
pub mod LetThrough
pub mod Checked
mod Examples
