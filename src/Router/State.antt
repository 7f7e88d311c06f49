-- ===== src/Router/State.antt =====
-- The rows and results of services/provider_router.py, and the names of providers.
use auth_claw.Prelude.{
  Bool, Option, Text, [], codes, if◌then◌else◌, lower, none, one_of, replace, some, text_eq, ℕ, ◌∷◌,
}

-- An empty text and None are both `none`-like for Python's `or`.
abbrev pub or_text : Option Text → Option Text → Option Text
or_text none t = t
or_text (some []) t = t
or_text (some (c ∷ s)) t = some (c ∷ s)

abbrev pub or_default : Option Text → Text → Text
or_default none t = t
or_default (some []) t = t
or_default (some (c ∷ s)) t = c ∷ s

-- normalize_provider of services/secret_manager.py
unfoldable pub normalize_provider : Text → Text
unfolding lower replace one_of codes
normalize_provider provider =
    let normalized = replace 32 95 (lower provider) in
    if one_of normalized (codes "google_gemini" ∷ codes "gemini" ∷ [])
    then codes "gemini"
    else if one_of normalized (codes "azure" ∷ codes "azure_openai" ∷ codes "azure-openai" ∷ [])
    then codes "azure_openai"
    else if one_of normalized (codes "anthropic" ∷ codes "claude" ∷ [])
    then codes "anthropic"
    else if one_of normalized (codes "cohere" ∷ codes "co" ∷ [])
    then codes "cohere"
    else normalized

-- A payload with the keys that normalize_provider_payload sets.
pub record Payload : Type 0 where
  pub api_key : Option Text
  pub model : Option Text
  pub api_base : Option Text
  pub api_version : Option Text
  pub deployment : Option Text

-- normalize_provider_payload of services/provider_connection_tester.py, on such a payload.
unfoldable pub normalize_provider_payload : Text → Payload → Payload
unfolding normalize_provider text_eq codes
normalize_provider_payload provider p =
    let model =
      if text_eq (normalize_provider provider) (codes "azure_openai")
      then or_text p.deployment p.model
      else p.model in
    record p { model = model; deployment = or_text p.deployment model }

-- A row of gateway_routes; the tenant of a shared route is `none`.
pub record RouteRow : Type 0 where
  pub id : Text
  pub tenant_id : Option ℕ
  pub provider : Text
  pub endpoint : Option Text
  pub model : Option Text
  pub enabled : Bool
  pub tenant_assignment : Option Text

-- A row of tenant_credentials; `secret` names what is stored encrypted.
pub record CredentialRow : Type 0 where
  pub tenant_id : ℕ
  pub provider : Text
  pub is_revoked : Bool
  pub secret : ℕ

pub record Credential : Type 0 where
  pub provider : Text
  pub payload : Payload

-- What of a route the selection reads.
pub record RouteLike : Type 0 where
  pub id : Option Text
  pub provider : Text
  pub model : Option Text
  pub endpoint : Option Text

pub data Source : Type 0 where
  tenant_route tenant_credential environment_secret : Source
  local_development_fallback legacy_provider_fallback : Source

-- The selection with the arguments of its client.
pub record ProviderSelection : Type 0 where
  pub route_id : Option Text
  pub provider_name : Text
  pub model : Text
  pub endpoint : Option Text
  pub api_key : Option Text
  pub source : Source
