-- ===== src/Router/Select.antt =====
-- `ProviderRouter.select` of services/provider_router.py. The tables are lists in the order of the
-- queries; the decryption of a row, the credential from the environment and the two fallbacks are
-- fields of `Tables`.
use auth_claw.Prelude.{
  Bool, List, Option, Text, [], any, codes, false, if◌then◌else◌, none, not, one_of, some, text_eq,
  true, ℕ, ◌&&◌, ◌==◌, ◌||◌, ◌∷◌,
}
use auth_claw.Result.{Result, ok, raised, value_error}
use auth_claw.Router.State.{
  Credential, CredentialRow, Payload, ProviderSelection, RouteLike, RouteRow, Source,
  environment_secret, normalize_provider, normalize_provider_payload, or_default, or_text,
  tenant_credential, tenant_route,
}

pub record Tables : Type 0 where
  -- gateway_routes by id
  pub routes : List RouteRow
  -- tenant_credentials, the last updated first
  pub credentials : List CredentialRow
  -- the tenant's number, "tenant:" and the number, and its name and domain, where they are set
  pub tenant_tokens : List Text
  -- SecretManager.resolve_provider_payload, or none where it raises
  pub resolve : ℕ → Option Payload
  pub environment_credential : Option Text → Option Credential
  -- GOOGLE_API_KEY of providers/config.py
  pub google_api_key : Option Text
  pub is_local_allowed : Bool
  pub local_selection : ProviderSelection
  pub legacy_selection : ProviderSelection

unfoldable pub default_model_for : Text → Text
unfolding text_eq codes
default_model_for provider =
    if text_eq provider (codes "openai")
    then codes "gpt-4o"
    else if text_eq provider (codes "anthropic")
    then codes "claude-3-5-sonnet-20241022"
    else if text_eq provider (codes "cohere")
    then codes "command-r-plus"
    else if text_eq provider (codes "azure_openai")
    then codes "gpt-4o"
    else codes "gemini-2.5-flash-lite"

abbrev is_tenant : Option ℕ → ℕ → Bool
is_tenant none tenant = false
is_tenant (some t) tenant = t == tenant

abbrev is_assigned : Option Text → List Text → Bool
is_assigned none tokens = false
is_assigned (some t) tokens = one_of t tokens

abbrev is_shared : Option ℕ → Bool
is_shared none = true
is_shared (some t) = false

-- The WHERE of the query and the tests of the loop.
unfoldable pub lookup_route : ℕ → List Text → List RouteRow → Option RouteRow
unfolding one_of
lookup_route tenant tokens [] = none
lookup_route tenant tokens (r ∷ rs) =
    let rest = lookup_route tenant tokens rs in
    if r.enabled
      && (is_tenant r.tenant_id tenant
          || is_shared r.tenant_id && is_assigned r.tenant_assignment tokens)
    then some r
    else rest

-- provider = :provider, where a provider is asked for
abbrev pub is_wanted : Option Text → Text → Bool
is_wanted none provider = true
is_wanted (some p) provider = text_eq provider (normalize_provider p)

abbrev pub or_credential : Option Credential → Option Credential → Option Credential
or_credential none c = c
or_credential (some d) c = some d

-- _decrypt_payload
abbrev pub decrypted : Text → Option Payload → Option Credential
decrypted provider none = none
decrypted provider (some p) =
    some (record { provider = provider; payload = normalize_provider_payload provider p })

unfoldable pub lookup_credential :
    (ℕ → Option Payload) → ℕ → Option Text → List CredentialRow → Option Credential
unfolding text_eq normalize_provider normalize_provider_payload
lookup_credential resolve tenant preferred [] = none
lookup_credential resolve tenant preferred (r ∷ rs) =
    let rest = lookup_credential resolve tenant preferred rs in
    if r.tenant_id == tenant && not r.is_revoked && is_wanted preferred r.provider
    then or_credential (decrypted r.provider (resolve r.secret)) rest
    else rest

abbrev pub supported : List Text
supported =
    codes "gemini" ∷ codes "openai" ∷ codes "anthropic" ∷ codes "cohere" ∷ codes "azure_openai" ∷ []

has_text : Option Text → Bool
has_text none = false
has_text (some []) = false
has_text (some (c ∷ s)) = true

-- The text without "/" at its end is not empty.
has_url : Option Text → Bool
has_url none = false
has_url (some url) = any (λ c. not (c == 47)) url

-- The tests of the providers' constructors, which raise ValueError: the key, where GeminiProvider
-- takes GOOGLE_API_KEY for one that is missing, and the endpoint of AzureOpenAIProvider.
unfoldable pub is_built : Option Text → Text → Option Text → Option Text → Bool
unfolding has_text has_url one_of text_eq codes
is_built google_api_key name api_key endpoint =
    if text_eq name (codes "gemini")
    then has_text (or_text api_key google_api_key)
    else if text_eq name (codes "azure_openai")
    then has_text api_key && has_url endpoint
    else one_of name supported && has_text api_key

-- A provider that is not supported raises ValueError, and so do the tests of the client. The key of
-- the selection is the one that the client is given.
unfoldable pub build_selection :
    Option Text → RouteLike → Credential → Source → Result ProviderSelection
unfolding normalize_provider normalize_provider_payload default_model_for is_built
build_selection google_api_key route credential source =
    let name = normalize_provider route.provider in
    let payload = normalize_provider_payload name credential.payload in
    let selection : ProviderSelection = record {
      route_id = route.id;
      provider_name = name;
      model = or_default (or_text route.model payload.model) (default_model_for name);
      endpoint = or_text route.endpoint payload.api_base;
      api_key = payload.api_key;
      source = source;
    } in
    if is_built google_api_key name payload.api_key selection.endpoint
    then ok selection
    else raised value_error

abbrev pub route_like : RouteRow → RouteLike
route_like r = record {
  id = some r.id;
  provider = r.provider;
  model = r.model;
  endpoint = r.endpoint;
}

-- The route that stands for a credential.
unfoldable pub credential_route : Credential → RouteLike
unfolding default_model_for
credential_route c = record {
  id = none;
  provider = c.provider;
  model = some (or_default c.payload.model (default_model_for c.provider));
  endpoint = c.payload.api_base;
}

-- A route for another provider than the credential's is replaced.
unfoldable pub matching_route : RouteRow → Credential → RouteLike
unfolding text_eq normalize_provider credential_route
matching_route r c =
    if not (text_eq (normalize_provider r.provider) (normalize_provider c.provider))
    then credential_route c
    else route_like r

unfoldable pub environment_route : Option RouteRow → Credential → RouteLike
unfolding default_model_for
environment_route none c = record {
  id = none;
  provider = c.provider;
  model = some (or_default c.payload.model (default_model_for c.provider));
  endpoint = c.payload.api_base;
}
environment_route (some r) c = record {
  id = some r.id;
  provider = r.provider;
  model = some (or_default (or_text r.model c.payload.model) (default_model_for c.provider));
  endpoint = or_text r.endpoint c.payload.api_base;
}

abbrev pub provider_of_route : Option RouteRow → Option Text
provider_of_route none = none
provider_of_route (some r) = some r.provider

unfoldable pub fall_back : Tables → Option RouteRow → Option Credential → Result ProviderSelection
unfolding build_selection environment_route
fall_back t route (some c) =
    build_selection t.google_api_key (environment_route route c) c environment_secret
fall_back t route none = ok (if t.is_local_allowed then t.local_selection else t.legacy_selection)

unfoldable pub select_with : Tables → Option RouteRow → Option Credential → Result ProviderSelection
unfolding build_selection matching_route credential_route fall_back
select_with t (some r) (some c) =
    build_selection t.google_api_key (matching_route r c) c tenant_route
select_with t none (some c) =
    build_selection t.google_api_key (credential_route c) c tenant_credential
select_with t route none = fall_back t route (t.environment_credential (provider_of_route route))

-- The credential for the route's provider, else any of the tenant's.
unfoldable pub credential_for : Tables → ℕ → Option RouteRow → Option Credential
unfolding lookup_credential
credential_for t tenant none = lookup_credential t.resolve tenant none t.credentials
credential_for t tenant (some r) =
    or_credential (lookup_credential t.resolve tenant (some r.provider) t.credentials)
      (lookup_credential t.resolve tenant none t.credentials)

unfoldable pub select : Tables → ℕ → Result ProviderSelection
unfolding lookup_route credential_for select_with
select t tenant =
    let route = lookup_route tenant t.tenant_tokens t.routes in
    select_with t route (credential_for t tenant route)
