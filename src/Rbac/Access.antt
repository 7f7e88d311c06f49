-- ===== src/Rbac/Access.antt =====
-- The decision on a request: `EndpointRule.matches`, `resolve_rule`, `role_allowed` and
-- `enforce_request_access` of services/rbac_matrix.py. The method of a rule is in upper case.
use auth_claw.Prelude.{
  Bool, List, Option, Text, [], codes, false, if◌then◌else◌, is_empty, none, not, one_of, some,
  text_eq, true, upper, ◌&&◌, ◌∷◌,
}
use auth_claw.Rbac.Glob.{fnmatch}
use auth_claw.Rbac.Paths.{is_public_endpoint, normalize_path_template}
use auth_claw.Rbac.Roles.{role_platform_admin}
use auth_claw.Rbac.Rules.{EndpointRule, endpoint_rules}

unfoldable pub rule_matches : EndpointRule → Text → Text → Bool
unfolding codes text_eq upper fnmatch normalize_path_template
rule_matches r method path =
    if not (text_eq r.verb (codes "*")) && not (text_eq (upper method) r.verb)
    then false
    else fnmatch (normalize_path_template r.pattern) (normalize_path_template path)

-- The first rule of the table that matches.
unfoldable pub first_match : List EndpointRule → Text → Text → Option EndpointRule
unfolding rule_matches
first_match [] method path = none
first_match (r ∷ rs) method path =
    let rest = first_match rs method path in if rule_matches r method path then some r else rest

unfoldable pub resolve_rule : Text → Text → Option EndpointRule
unfolding first_match endpoint_rules upper
resolve_rule method path = first_match endpoint_rules (upper method) path

abbrev pub role_text : Option Text → Text
role_text none = []
role_text (some r) = r

-- The tests of role_allowed after the rule is found.
unfoldable pub rule_allows : Option Text → Option EndpointRule → Bool
unfolding one_of text_eq codes
rule_allows role none = false
rule_allows role (some r) =
    if text_eq (role_text role) role_platform_admin then true else one_of (role_text role) r.roles

unfoldable pub role_allowed : Option Text → Text → Text → Bool
unfolding is_public_endpoint resolve_rule rule_allows
role_allowed role method path =
    if is_public_endpoint method path then true else rule_allows role (resolve_rule method path)

-- The claims of the session token that the checks read; a key that is missing is `none`.
pub record Payload : Type 0 where
  pub role : Option Text
  pub tenant_id : Option Text

-- The answer: the call returns, or raises HTTPException with the status.
pub data Access : Type 0 where
  granted forbidden_403 unauthorized_401 : Access

-- payload.get("role") if payload else None
abbrev pub role_of : Option Payload → Option Text
role_of none = none
role_of (some p) = p.role

-- bool(payload.get("tenant_id"))
abbrev pub has_tenant : Option Payload → Bool
has_tenant none = false
has_tenant (some p) = not (is_empty (role_text p.tenant_id))

abbrev pub needs_tenant : Option EndpointRule → Bool
needs_tenant none = false
needs_tenant (some r) = r.tenant_required

unfoldable pub enforce_request_access : Text → Text → Option Payload → Access
unfolding is_public_endpoint role_allowed resolve_rule
enforce_request_access method path payload =
    if is_public_endpoint method path
    then granted
    else if not (role_allowed (role_of payload) method path)
    then forbidden_403
    else if needs_tenant (resolve_rule method path) && not (has_tenant payload)
    then unauthorized_401
    else granted
