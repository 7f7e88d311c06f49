-- ===== src/Router.antt =====
-- services/provider_router.py: the provider, the model and the key for a tenant's requests.
pub mod State
pub mod Select
pub mod OwnKey
mod Examples
