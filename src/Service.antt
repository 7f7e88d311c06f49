-- ===== src/Service.antt =====
-- services/gateway_service.py: a request to the gateway around one run of the workflow.
pub mod State
pub mod Rows
pub mod Runs
pub mod Format
pub mod Agreed
pub mod Refused
mod Examples
