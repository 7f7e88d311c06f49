-- ===== src/Rbac/Examples.antt =====
-- Requests to some endpoints.
use auth_claw.Prelude.{
  Option, Text, codes, false, one_of, refl, some, text_eq, true, upper, ◌↔◌, ◌≡◌, ◌⊎◌,
}
use auth_claw.Rbac.Access.{
  Payload, enforce_request_access, first_match, forbidden_403, granted, has_tenant, resolve_rule,
  role_allowed, role_of, role_text, rule_allows, rule_matches,
}
use auth_claw.Rbac.Glob.{eat, fnmatch, some_suffix}
use auth_claw.Rbac.Granted.{AllowedBy, enforce_request_access-granted}
use auth_claw.Rbac.Hitl.{approve, approver_roles, enforce_request_access-operation, path_of}
use auth_claw.Rbac.Known.{enforce_request_access-known_role}
use auth_claw.Rbac.Paths.{
  drop_slash, has_close, is_public_endpoint, normalize_path_template, opens, star_params,
}
use auth_claw.Rbac.Roles.{all_roles, public_paths, role_security_admin, role_viewer}
use auth_claw.Rbac.Rules.{EndpointRule, endpoint_rules}

abbrev security_admin : Option Payload
security_admin = some (record { role = some role_security_admin; tenant_id = some (codes "7") })

abbrev approve_4 : Text
approve_4 = path_of approve (codes "4")

approve_4_granted : enforce_request_access (codes "POST") approve_4 security_admin ≡ granted
unfolding enforce_request_access is_public_endpoint public_paths normalize_path_template codes upper
    text_eq star_params drop_slash has_close opens fnmatch some_suffix eat role_allowed resolve_rule
    rule_allows first_match endpoint_rules rule_matches one_of
approve_4_granted = refl

enforce_request_access-operation_example :
    (one_of (role_text (role_of security_admin)) approver_roles ≡ true)
    × (has_tenant security_admin ≡ true)
enforce_request_access-operation_example =
    enforce_request_access-operation approve (codes "4") security_admin approve_4_granted

approve_4_not_public : is_public_endpoint (codes "POST") approve_4 ≡ false
unfolding is_public_endpoint public_paths normalize_path_template codes upper text_eq star_params
    drop_slash has_close opens fnmatch some_suffix eat
approve_4_not_public = refl

enforce_request_access-known_role_example :
    one_of (role_text (role_of security_admin)) all_roles ≡ true
enforce_request_access-known_role_example =
    enforce_request_access-known_role (codes "POST") approve_4 security_admin approve_4_not_public
      approve_4_granted

enforce_request_access-granted_example :
    (enforce_request_access (codes "POST") approve_4 security_admin ≡ granted) ↔ (
      (is_public_endpoint (codes "POST") approve_4 ≡ true)
      ⊎ ((r : EndpointRule) × (resolve_rule (codes "POST") approve_4 ≡ some r)
          × AllowedBy security_admin r))
enforce_request_access-granted_example =
    enforce_request_access-granted (codes "POST") approve_4 security_admin

-- A viewer may read the approvals and not approve.
viewer_refused :
    enforce_request_access
      (codes "POST")
      approve_4
      (some (record { role = some role_viewer; tenant_id = some (codes "7") }))
    ≡ forbidden_403
unfolding enforce_request_access is_public_endpoint public_paths normalize_path_template codes upper
    text_eq star_params drop_slash has_close opens fnmatch some_suffix eat role_allowed resolve_rule
    rule_allows first_match endpoint_rules rule_matches one_of
viewer_refused = refl

-- A template with a parameter is read as one with `*`.
template_normalized :
    normalize_path_template (codes "/keys/{key_id}/rotate/") ≡ codes "/keys/*/rotate"
unfolding normalize_path_template codes text_eq star_params drop_slash has_close opens
template_normalized = refl
