-- ===== src/Router/Examples.antt =====
-- A tenant whose route names a provider for which only another tenant has a key.
use auth_claw.Prelude.{
  Option, [], codes, false, if◌then◌else◌, lower, lower_code, none, one_of, refl, replace, some,
  text_eq, true, ℕ, ◌==◌, ◌∷◌, ◌≡◌,
}
use auth_claw.Result.{ok}
use auth_claw.Router.OwnKey.{HasOwnKey, select-HasOwnKey}
use auth_claw.Router.Select.{
  Tables, build_selection, credential_for, credential_route, default_model_for, is_built,
  lookup_credential, lookup_route, matching_route, select, select_with,
}
use auth_claw.Router.State.{
  Credential, Payload, ProviderSelection, local_development_fallback, normalize_provider,
  normalize_provider_payload, tenant_route,
}

abbrev secret_of : ℕ → Option Payload
secret_of n =
    if n == 1
    then none
    else some (record {
      api_key = some (codes "key-a");
      model = none;
      api_base = none;
      api_version = none;
      deployment = none;
    })

abbrev fallback : ProviderSelection
fallback = record {
  route_id = none;
  provider_name = codes "local";
  model = codes "small";
  endpoint = none;
  api_key = none;
  source = local_development_fallback;
}

abbrev tables : Tables
tables = record {
  routes =
      record {
        id = codes "1";
        tenant_id = some 3;
        provider = codes "openai";
        endpoint = none;
        model = some (codes "gpt-4o");
        enabled = true;
        tenant_assignment = none;
      }
      ∷ [];
  credentials =
      record { tenant_id = 5; provider = codes "openai"; is_revoked = false; secret = 0 }
      ∷ record { tenant_id = 3; provider = codes "anthropic"; is_revoked = false; secret = 1 }
      ∷ record { tenant_id = 3; provider = codes "anthropic"; is_revoked = false; secret = 2 }
      ∷ [];
  tenant_tokens = codes "3" ∷ [];
  resolve = secret_of;
  environment_credential = λ p. none;
  google_api_key = none;
  is_local_allowed = false;
  local_selection = fallback;
  legacy_selection = fallback;
}

abbrev own_credential : Credential
own_credential = record {
  provider = codes "anthropic";
  payload = record {
    api_key = some (codes "key-a");
    model = none;
    api_base = none;
    api_version = none;
    deployment = none;
  };
}

abbrev anthropic_selection : ProviderSelection
anthropic_selection = record {
  route_id = none;
  provider_name = codes "anthropic";
  model = codes "claude-3-5-sonnet-20241022";
  endpoint = none;
  api_key = some (codes "key-a");
  source = tenant_route;
}

own_found :
    credential_for tables 3 (lookup_route 3 tables.tenant_tokens tables.routes)
    ≡ some own_credential
unfolding credential_for lookup_route lookup_credential normalize_provider
    normalize_provider_payload one_of text_eq lower lower_code replace codes
own_found = refl

anthropic_selected : select tables 3 ≡ ok anthropic_selection
unfolding select select_with credential_for lookup_route lookup_credential normalize_provider
    normalize_provider_payload matching_route credential_route build_selection is_built
    default_model_for one_of text_eq lower lower_code replace codes
anthropic_selected = refl

select-HasOwnKey_example : HasOwnKey tables 3 anthropic_selection
select-HasOwnKey_example =
    select-HasOwnKey tables 3 own_credential anthropic_selection own_found anthropic_selected
