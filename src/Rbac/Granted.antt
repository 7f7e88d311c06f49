-- ===== src/Rbac/Granted.antt =====
-- Which requests `enforce_request_access` lets through, over the table of rules.
use auth_claw.Approvals.State.{found}
use auth_claw.Prelude.{
  All, Bool, Bool-cases, List, Option, Text, [], ap, false, if◌then◌else◌, inl, inr, none, not,
  refl, some, subst, sym, true, upper, ◌&&◌, ◌++◌, ◌||◌, ◌↔◌, ◌∙◌, ◌∷◌, ◌≡◌, ◌⊎◌,
}
use auth_claw.Rbac.Access.{
  Access, Payload, enforce_request_access, first_match, forbidden_403, granted, has_tenant,
  rule_matches, needs_tenant, resolve_rule, role_allowed, role_of, rule_allows, unauthorized_401,
}
use auth_claw.Rbac.Paths.{is_public_endpoint}
use auth_claw.Rbac.Rules.{EndpointRule, endpoint_rules}

-- A rule that the loop answers is an entry of the table that matches, and none before it does.
first_match-first :
    (rules : List EndpointRule) (method path : Text) (r : EndpointRule)
    → first_match rules method path ≡ some r
    → (before : List EndpointRule) × (after : List EndpointRule) × (rules ≡ before ++ r ∷ after)
      × All (λ q. rule_matches q method path ≡ false) before
      × (rule_matches r method path ≡ true)
unfolding first_match
first_match-first [] method path r h = cc
first_match-first (q ∷ rules) method path r h = elim (Bool-cases (rule_matches q method path)) [
  | inl e ↦
      let k : some q ≡ some r = sym (ap choice e) ∙ h in
      let first : q ≡ r = cc in
      (
        [],
        rules,
        ap (λ x. x ∷ rules) first,
        tt,
        subst (λ x. rule_matches x method path ≡ true) first e,
      )
  | inr e ↦
      let later : first_match rules method path ≡ some r = sym (ap choice e) ∙ h in
      let (before, after, split, none_before, now) = first_match-first rules method path r later in
      (q ∷ before, after, ap (◌∷◌ q) split, (e, none_before), now)
]
  where
    choice : Bool → Option EndpointRule
    choice b = if b then some q else first_match rules method path

-- The rule that decides on a request is the first one of the table that matches the method and the
-- normalised path: no rule before it does.
pub resolve_rule-first :
    (method path : Text) (r : EndpointRule)
    → resolve_rule method path ≡ some r
    → (before : List EndpointRule) × (after : List EndpointRule) × (endpoint_rules
        ≡ before ++ r ∷ after)
      × All (λ q. rule_matches q (upper method) path ≡ false) before
      × (rule_matches r (upper method) path ≡ true)
unfolding resolve_rule
resolve_rule-first method path r h = first_match-first endpoint_rules (upper method) path r h

-- The rule found lets the payload's role through, and the payload has a tenant if the rule asks.
unfoldable pub AllowedBy : Option Payload → EndpointRule → Type 0
AllowedBy payload r =
    (rule_allows (role_of payload) (some r) ≡ true)
    × ((not r.tenant_required || has_tenant payload) ≡ true)

two_checks :
    (allowed required present : Bool)
    → ((if not allowed
          then forbidden_403
          else if required && not present
          then unauthorized_401
          else granted)
        ≡ granted)
      ↔ ((allowed ≡ true) × ((not required || present) ≡ true))
two_checks false required present = (λ h. cc, λ h. let no_way = h.0 in cc)
two_checks true false present = (λ h. (refl, refl), λ h. refl)
two_checks true true false = (λ h. cc, λ h. let no_way = h.1 in cc)
two_checks true true true = (λ h. (refl, refl), λ h. refl)

-- A request is granted exactly when its endpoint is public, or a rule is found for it that allows
-- the payload's role, and the payload names a tenant where the rule requires one.
pub enforce_request_access-granted :
    (method path : Text) (payload : Option Payload)
    → (enforce_request_access method path payload ≡ granted) ↔ (
        (is_public_endpoint method path ≡ true)
        ⊎ ((r : EndpointRule) × (resolve_rule method path ≡ some r) × AllowedBy payload r))
unfolding enforce_request_access role_allowed rule_allows AllowedBy
enforce_request_access-granted method path payload =
    decided (is_public_endpoint method path) (resolve_rule method path)
  where
    answer_of : Bool → Option EndpointRule → Access
    answer_of public rule =
        if public
        then granted
        else if not (if public then true else rule_allows (role_of payload) rule)
        then forbidden_403
        else if needs_tenant rule && not (has_tenant payload)
        then unauthorized_401
        else granted

    decided :
        (public : Bool) (rule : Option EndpointRule)
        → (answer_of public rule ≡ granted)
          ↔ ((public ≡ true) ⊎ ((r : EndpointRule) × (rule ≡ some r) × AllowedBy payload r))
    decided true found = (λ h. inl refl, λ h. refl)
    decided false none = (λ h. cc, λ h. elim h [ inl e ↦ cc | inr (r, e, k) ↦ cc ])
    decided false (some r) =
        let checks =
          two_checks (rule_allows (role_of payload) (some r)) r.tenant_required
            (has_tenant payload) in
        (
          λ h. inr (r, refl, checks.0 h),
          λ h. elim h [
            | inl e ↦ cc
            | inr (q, e, k) ↦ let same : q ≡ r = cc in checks.1 (subst (AllowedBy payload) same k)
          ],
        )
