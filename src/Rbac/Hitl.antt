-- ===== src/Rbac/Hitl.antt =====
-- The endpoints of main.py on one approval: who may call them.
use auth_claw.Approvals.State.{found}
use auth_claw.Prelude.{
  Bool, Bool-cases, List, Option, String, Text, ap, arith, codes, false, if◌then◌else◌, inl, inr,
  none, one_of, refl, some, subst, sym, text_eq, true, upper, ◌++◌, ◌∙◌, ◌∷◌, ◌≡◌,
}
use auth_claw.Rbac.Access.{
  Payload, enforce_request_access, first_match, granted, has_tenant, rule_matches, resolve_rule,
  role_of, role_text, rule_allows,
}
use auth_claw.Rbac.Glob.{eat, fnmatch, some_suffix}
use auth_claw.Rbac.Granted.{AllowedBy, enforce_request_access-granted}
use auth_claw.Rbac.Paths.{
  drop_slash, has_close, is_public_endpoint, normalize_path_template, opens, star_params,
}
use auth_claw.Rbac.Roles.{public_paths, role_platform_admin, tenant_admin_roles}
use auth_claw.Rbac.Rules.{EndpointRule, endpoint_rules}

-- The roles of TENANT_ADMIN_ROLES, and the platform's.
abbrev pub approver_roles : List Text
approver_roles = role_platform_admin ∷ tenant_admin_roles

-- What main.py offers on an approval with a POST request.
pub data Operation : Type 0 where
  approve reject execute : Operation

abbrev pub path_of : Operation → Text → Text
path_of approve id = codes "/approve/" ++ id
path_of reject id = codes "/reject/" ++ id
path_of execute id = codes "/execute/" ++ id

abbrev hitl_rule : String → String → String → EndpointRule
hitl_rule pattern permission description = record {
  verb = codes "POST";
  pattern = codes pattern;
  roles = tenant_admin_roles;
  permission = codes permission;
  tenant_required = true;
  audit_required = true;
  description = codes description;
}

abbrev rule_at : Operation → EndpointRule
rule_at approve = hitl_rule "/approve/*" "approvals:approve" "HITL approval."
rule_at reject = hitl_rule "/reject/*" "approvals:reject" "HITL rejection."
rule_at execute = hitl_rule "/execute/*" "approvals:execute" "HITL execution."

abbrev found_if : EndpointRule → Text → Option EndpointRule
found_if r path = if fnmatch r.pattern path then some r else none

resolve_rule-approve :
    (id : Text)
    → resolve_rule (codes "POST") (path_of approve id)
      ≡ found_if (rule_at approve) (normalize_path_template (path_of approve id))
unfolding resolve_rule first_match endpoint_rules rule_matches normalize_path_template codes upper
    text_eq star_params drop_slash has_close opens fnmatch some_suffix eat
resolve_rule-approve id = refl

resolve_rule-reject :
    (id : Text)
    → resolve_rule (codes "POST") (path_of reject id)
      ≡ found_if (rule_at reject) (normalize_path_template (path_of reject id))
unfolding resolve_rule first_match endpoint_rules rule_matches normalize_path_template codes upper
    text_eq star_params drop_slash has_close opens fnmatch some_suffix eat
resolve_rule-reject id = refl

resolve_rule-execute :
    (id : Text)
    → resolve_rule (codes "POST") (path_of execute id)
      ≡ found_if (rule_at execute) (normalize_path_template (path_of execute id))
unfolding resolve_rule first_match endpoint_rules rule_matches normalize_path_template codes upper
    text_eq star_params drop_slash has_close opens fnmatch some_suffix eat
resolve_rule-execute id = refl

resolve_rule-operation :
    (op : Operation) (id : Text)
    → resolve_rule (codes "POST") (path_of op id)
      ≡ found_if (rule_at op) (normalize_path_template (path_of op id))
resolve_rule-operation approve id = resolve_rule-approve id
resolve_rule-operation reject id = resolve_rule-reject id
resolve_rule-operation execute id = resolve_rule-execute id

operation-not_public :
    (op : Operation) (id : Text) → is_public_endpoint (codes "POST") (path_of op id) ≡ false
unfolding is_public_endpoint public_paths normalize_path_template codes upper text_eq star_params
    drop_slash has_close opens fnmatch some_suffix eat
operation-not_public approve id = refl
operation-not_public reject id = refl
operation-not_public execute id = refl

found_if-eq : (r q : EndpointRule) (path : Text) → found_if r path ≡ some q → r ≡ q
found_if-eq r q path h = elim (Bool-cases (fnmatch r.pattern path)) [
  | inl e ↦ let k : some r ≡ some q = sym (ap choice e) ∙ h in cc
  | inr e ↦ let k : none ≡ some q = sym (ap choice e) ∙ h in cc
]
  where
    choice : Bool → Option EndpointRule
    choice b = if b then some r else none

rule_at-allows :
    (op : Operation) (payload : Option Payload)
    → AllowedBy payload (rule_at op)
    → (one_of (role_text (role_of payload)) approver_roles ≡ true) × (has_tenant payload ≡ true)
unfolding AllowedBy rule_allows one_of
rule_at-allows approve payload (r, t) = (ground (arith, r), t)
rule_at-allows reject payload (r, t) = (ground (arith, r), t)
rule_at-allows execute payload (r, t) = (ground (arith, r), t)

-- To approve, to reject and to execute, under any id, is granted only to a payload that names a
-- tenant and has one of the roles Platform Admin, Super Admin and Security Admin.
pub enforce_request_access-operation :
    (op : Operation) (id : Text) (payload : Option Payload)
    → enforce_request_access (codes "POST") (path_of op id) payload ≡ granted
    → (one_of (role_text (role_of payload)) approver_roles ≡ true) × (has_tenant payload ≡ true)
enforce_request_access-operation op id payload h =
    elim ((enforce_request_access-granted (codes "POST") (path_of op id) payload).0 h) [
      | inl public ↦ let private = operation-not_public op id in cc
      | inr (r, found, allowed) ↦
          let path = normalize_path_template (path_of op id) in
          let which =
            found_if-eq (rule_at op) r path (sym (resolve_rule-operation op id) ∙ found) in
          rule_at-allows op payload (subst (AllowedBy payload) (sym which) allowed)
    ]
