-- ===== src/Router/OwnKey.antt =====
-- Whose key a selection holds.
use auth_claw.Prelude.{
  Bool, Bool-cases, Exists, List, Option, Option-cases, Text, [], ap, arith, false, here,
  if◌then◌else◌, inl, inr, none, not, refl, some, subst, sym, text_eq, text_eq_sound, there, true,
  ℕ, ◌&&◌, ◌==◌, ◌∙◌, ◌∷◌, ◌≡◌, ◌⊎◌,
}
use auth_claw.Result.{Result, ok, raised, value_error}
use auth_claw.Router.Select.{
  Tables, build_selection, credential_for, credential_route, decrypted, is_built, is_wanted,
  lookup_credential, lookup_route, matching_route, or_credential, select, select_with,
}
use auth_claw.Router.State.{
  Credential, CredentialRow, Payload, ProviderSelection, RouteLike, RouteRow, Source,
  normalize_provider, normalize_provider_payload, or_text, tenant_credential, tenant_route,
}

-- The credential is a row of the tenant that is not revoked and can be decrypted.
abbrev pub IsOwn : Tables → ℕ → Credential → CredentialRow → Type 0
IsOwn t tenant c r =
    (r.tenant_id ≡ tenant)
    × (r.is_revoked ≡ false)
    × (c.provider ≡ r.provider)
    × ((p : Payload) × (t.resolve r.secret ≡ some p) × (c.payload.api_key ≡ p.api_key))

-- The selection's key is that of a credential of the tenant, and its provider is the credential's.
abbrev pub HasOwnKey : Tables → ℕ → ProviderSelection → Type 0
HasOwnKey t tenant s =
    (c : Credential) × Exists (IsOwn t tenant c) t.credentials
    × (s.api_key ≡ c.payload.api_key)
    × (s.provider_name ≡ normalize_provider c.provider)

one_of_two :
    (o p : Option Credential) (c : Credential)
    → or_credential o p ≡ some c
    → (o ≡ some c) ⊎ (p ≡ some c)
one_of_two none p c h = inr h
one_of_two (some d) p c h = inl h

module _ (t : Tables) (tenant : ℕ) where
  first_or_later :
      (r : CredentialRow) (rows : List CredentialRow) (rest : Option Credential) (c : Credential)
      → r.tenant_id ≡ tenant
      → r.is_revoked ≡ false
      → (rest ≡ some c → Exists (IsOwn t tenant c) rows)
      → or_credential (decrypted r.provider (t.resolve r.secret)) rest ≡ some c
      → Exists (IsOwn t tenant c) (r ∷ rows)
  unfolding normalize_provider_payload
  first_or_later r rows rest c own live later h = elim (Option-cases (t.resolve r.secret)) [
    | inl e ↦ there (later (sym (ap (answer_of) e) ∙ h))
    | inr (p, e) ↦
        let new : Credential = record {
          provider = r.provider;
          payload = normalize_provider_payload r.provider p;
        } in
        let k : some new ≡ some c = sym (ap answer_of e) ∙ h in
        let same_credential : new ≡ c = cc in
        subst (λ x. Exists (IsOwn t tenant x) (r ∷ rows)) same_credential
          (here (own, live, refl, (p, e, refl)))
  ]
    where
      answer_of : Option Payload → Option Credential
      answer_of o = or_credential (decrypted r.provider o) rest

  lookup_credential-IsOwn :
      (preferred : Option Text) (rows : List CredentialRow) (c : Credential)
      → lookup_credential t.resolve tenant preferred rows ≡ some c
      → Exists (IsOwn t tenant c) rows
  unfolding lookup_credential
  lookup_credential-IsOwn preferred [] c h = cc
  lookup_credential-IsOwn preferred (r ∷ rows) c h =
      let rest = lookup_credential t.resolve tenant preferred rows in
      let wanted = is_wanted preferred r.provider in
      elim (Bool-cases (r.tenant_id == tenant && not r.is_revoked && wanted)) [
        | inl e ↦
            first_or_later r rows rest c (ground (arith, e)) (ground (arith, e))
              (lookup_credential-IsOwn preferred rows c) (sym (ap choice e) ∙ h)
        | inr e ↦ there (lookup_credential-IsOwn preferred rows c (sym (ap choice e) ∙ h))
      ]
    where
      choice : Bool → Option Credential
      choice b =
          let rest = lookup_credential t.resolve tenant preferred rows in
          if b then or_credential (decrypted r.provider (t.resolve r.secret)) rest else rest

  credential_for-IsOwn :
      (route : Option RouteRow) (c : Credential)
      → credential_for t tenant route ≡ some c
      → Exists (IsOwn t tenant c) t.credentials
  unfolding credential_for
  credential_for-IsOwn none c h = lookup_credential-IsOwn none t.credentials c h
  credential_for-IsOwn (some r) c h =
      elim (one_of_two (lookup_credential t.resolve tenant (some r.provider) t.credentials)
        (lookup_credential t.resolve tenant none t.credentials) c h) [
          | inl e ↦ lookup_credential-IsOwn (some r.provider) t.credentials c e
          | inr e ↦ lookup_credential-IsOwn none t.credentials c e
        ]

-- What build_selection keeps of its arguments.
build_selection-kept :
    (google : Option Text) (route : RouteLike) (c : Credential) (source : Source)
    (s : ProviderSelection)
    → build_selection google route c source ≡ ok s
    → (s.api_key ≡ c.payload.api_key) × (s.provider_name ≡ normalize_provider route.provider)
unfolding build_selection normalize_provider_payload
build_selection-kept google route c source s h = elim (Bool-cases built) [
  | inl e ↦ kept e
  | inr e ↦ let no_way : raised value_error ≡ ok s = sym (rw e refl) ∙ h in cc
]
  where
    built : Bool
    built =
        let payload = normalize_provider_payload (normalize_provider route.provider) c.payload in
        is_built google (normalize_provider route.provider) payload.api_key
          (or_text route.endpoint payload.api_base)

    key_of : Result ProviderSelection → Option Text
    key_of (ok x) = x.api_key
    key_of (raised fault) = none

    name_of : Result ProviderSelection → Text
    name_of (ok x) = x.provider_name
    name_of (raised fault) = []

    kept :
        built ≡ true
        → (s.api_key ≡ c.payload.api_key) × (s.provider_name ≡ normalize_provider route.provider)
    kept e = (sym (ap key_of h) ∙ rw e refl, sym (ap name_of h) ∙ rw e refl)

matching_route-provider :
    (r : RouteRow) (c : Credential)
    → normalize_provider (matching_route r c).provider ≡ normalize_provider c.provider
unfolding matching_route credential_route
matching_route-provider r c =
    elim (Bool-cases (text_eq (normalize_provider r.provider) (normalize_provider c.provider))) [
      | inl e ↦
          rw e (text_eq_sound (normalize_provider r.provider) (normalize_provider c.provider) e)
      | inr e ↦ rw e refl
    ]

own_key :
    (t : Tables) (tenant : ℕ) (route : RouteLike) (c : Credential) (source : Source)
    (s : ProviderSelection)
    → normalize_provider route.provider ≡ normalize_provider c.provider
    → Exists (IsOwn t tenant c) t.credentials
    → build_selection t.google_api_key route c source ≡ ok s
    → HasOwnKey t tenant s
own_key t tenant route c source s e own h =
    let (key, name) = build_selection-kept t.google_api_key route c source s h in
    (c, own, key, name ∙ e)

select_with-own :
    (t : Tables) (tenant : ℕ) (route : Option RouteRow) (c : Credential) (s : ProviderSelection)
    → Exists (IsOwn t tenant c) t.credentials
    → select_with t route (some c) ≡ ok s
    → HasOwnKey t tenant s
unfolding select_with credential_route
select_with-own t tenant (some r) c s own h =
    own_key t tenant (matching_route r c) c tenant_route s (matching_route-provider r c) own h
select_with-own t tenant none c s own h =
    own_key t tenant (credential_route c) c tenant_credential s refl own h

-- Where the router finds a credential for the tenant and answers a selection, the key that the
-- selection's client is given is the key of a row of that tenant which is not revoked, and its
-- provider is the one that the row is for, also where the tenant's route names another provider.
pub select-HasOwnKey :
    (t : Tables) (tenant : ℕ) (c : Credential) (s : ProviderSelection)
    → credential_for t tenant (lookup_route tenant t.tenant_tokens t.routes) ≡ some c
    → select t tenant ≡ ok s
    → HasOwnKey t tenant s
unfolding select
select-HasOwnKey t tenant c s e h =
    let route = lookup_route tenant t.tenant_tokens t.routes in
    select_with-own t tenant route c s (credential_for-IsOwn t tenant route c e)
      (sym (ap (select_with t route) e) ∙ h)
