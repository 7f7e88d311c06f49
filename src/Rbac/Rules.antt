-- ===== src/Rbac/Rules.antt =====
-- The table of rules of services/rbac_matrix.py.
use auth_claw.Prelude.{Bool, List, String, Text, [], codes, false, true, ◌++◌, ◌∷◌}
use auth_claw.Rbac.Roles.{
  all_roles, gateway_user_roles, role_auditor, role_compliance_officer, role_developer,
  role_platform_admin, role_security_admin, role_super_admin, tenant_admin_roles, tenant_read_roles,
}

pub record EndpointRule : Type 0 where
  pub verb : Text
  pub pattern : Text
  pub roles : List Text
  pub permission : Text
  pub tenant_required : Bool
  pub audit_required : Bool
  pub description : Text

abbrev rule : String → String → List Text → String → Bool → Bool → String → EndpointRule
rule verb pattern roles permission tenant audit about = record {
  verb = codes verb;
  pattern = codes pattern;
  roles = roles;
  permission = codes permission;
  tenant_required = tenant;
  audit_required = audit;
  description = codes about;
}

unfoldable pub endpoint_rules : List EndpointRule
unfolding codes
endpoint_rules =
    rule "*" "/platform/*" (role_platform_admin ∷ []) "platform:admin" false true
      "Platform-wide tenant administration."
    ∷ rule "*" "/identity/*" tenant_admin_roles "identity:manage" true true
        "Tenant OIDC and IdP administration."
    ∷ rule "GET" "/security/posture" tenant_read_roles "security:read" true true
        "Security posture view."
    ∷ rule "GET" "/security/*" tenant_admin_roles "security:admin" true true
        "Security readiness administration."
    ∷ rule "*" "/providers*" tenant_admin_roles "providers:manage" true true
        "Provider credential lifecycle."
    ∷ rule "*" "/routes*" tenant_admin_roles "gateway-routes:manage" true true
        "Gateway route lifecycle."
    ∷ rule "GET" "/gateway/requests*" (tenant_read_roles ++ (role_developer ∷ [])) "gateway:read"
        true true "Gateway request explorer."
    ∷ rule "GET" "/gateway/approvals*" tenant_read_roles "approvals:read" true true
        "Gateway approval visibility."
    ∷ rule "*" "/gateway/documents/*" gateway_user_roles "documents:redact" true true
        "Gateway document redaction."
    ∷ rule "*" "/gateway/chat" gateway_user_roles "gateway:invoke" true true
        "Gateway chat invocation."
    ∷ rule "*" "/chat*" gateway_user_roles "chat:use" true false "Tenant chat sessions."
    ∷ rule "*" "/sessions*" gateway_user_roles "chat:use" true false
        "Legacy tenant chat session aliases."
    ∷ rule "*" "/v1/chat/completions" gateway_user_roles "gateway:invoke" true true
        "OpenAI-compatible gateway invocation."
    ∷ rule "GET" "/approvals*" tenant_read_roles "approvals:read" true true "Approval queue read."
    ∷ rule "POST" "/approve/*" tenant_admin_roles "approvals:approve" true true "HITL approval."
    ∷ rule "POST" "/reject/*" tenant_admin_roles "approvals:reject" true true "HITL rejection."
    ∷ rule "POST" "/execute/*" tenant_admin_roles "approvals:execute" true true "HITL execution."
    ∷ rule "POST" "/test/*" (role_super_admin ∷ []) "testing:local" true true
        "Local test utilities."
    ∷ rule "GET" "/audit*"
        (role_super_admin ∷ role_security_admin ∷ role_compliance_officer ∷ role_auditor ∷ [])
        "audit:read" true true "Audit and signed export read."
    ∷ rule "POST" "/audit/export/verify" all_roles "audit:verify" false false
        "Public export verification."
    ∷ rule "*" "/policies*" (role_super_admin ∷ role_security_admin ∷ role_compliance_officer ∷ [])
        "policies:manage" true true "Policy lifecycle."
    ∷ rule "*" "/policy/bundles*"
        (role_super_admin ∷ role_security_admin ∷ role_compliance_officer ∷ [])
        "policy-bundles:manage" true true "OPA policy bundle lifecycle."
    ∷ rule "POST" "/internal/policy/evaluate" gateway_user_roles "policy:evaluate" true true
        "Gateway policy preflight."
    ∷ rule "*" "/rag*" (role_super_admin ∷ role_security_admin ∷ role_compliance_officer ∷ [])
        "rag:manage" true true "Regulatory RAG corpus."
    ∷ rule "*" "/documents*" (role_super_admin ∷ role_security_admin ∷ role_compliance_officer ∷ [])
        "documents:manage" true true "Document intelligence."
    ∷ rule "*" "/compliance*"
        (role_super_admin ∷ role_security_admin ∷ role_compliance_officer ∷ role_auditor ∷ [])
        "compliance:read" true true "Framework scoring and controls."
    ∷ rule "*" "/evidence*"
        (role_super_admin ∷ role_security_admin ∷ role_compliance_officer ∷ role_auditor ∷ [])
        "evidence:read" true true "Evidence vault."
    ∷ rule "*" "/auditor/*"
        (role_super_admin ∷ role_security_admin ∷ role_compliance_officer ∷ role_auditor ∷ [])
        "audit:export" true true "Auditor packages."
    ∷ rule "*" "/access-control/*" (role_super_admin ∷ role_security_admin ∷ []) "rbac:manage" true
        true "Tenant RBAC user administration."
    ∷ rule "*" "/tenants*" tenant_admin_roles "tenant:manage" true true "Tenant settings."
    ∷ rule "*" "/tenant/plan*" tenant_admin_roles "tenant-plan:manage" true true
        "Tenant plan and quota management."
    ∷ rule "*" "/keys*" (tenant_admin_roles ++ (role_developer ∷ [])) "api-keys:manage" true true
        "Tenant API key lifecycle."
    ∷ rule "*" "/reports/*"
        (role_super_admin ∷ role_security_admin ∷ role_compliance_officer ∷ role_auditor ∷ [])
        "reports:read" true true "Governance reports."
    ∷ rule "*" "/cloud/connectors/*" tenant_admin_roles "connectors:manage" true true
        "Cloud connector sync/status."
    ∷ rule "*" "/analytics/*" tenant_read_roles "analytics:read" true true "Governance analytics."
    ∷ rule "*" "/remediation/*" (tenant_admin_roles ++ (role_compliance_officer ∷ []))
        "remediation:manage" true true "Remediation runtime."
    ∷ rule "*" "/redteam/*"
        (role_super_admin ∷ role_security_admin ∷ role_compliance_officer ∷ role_auditor ∷ [])
        "redteam:read" true true "Red-team probe history and reports."
    ∷ rule "GET" "/metrics" (tenant_read_roles ++ (role_developer ∷ [])) "metrics:read" true true
        "Tenant metrics and observability."
    ∷ rule "POST" "/observability/*" tenant_admin_roles "observability:operate" true true
        "Event pipeline operations."
    ∷ rule "GET" "/trust/public" all_roles "trust:public" false false
        "Public signed Trust Center state."
    ∷ rule "GET" "/health*" all_roles "health:read" false false "Health checks."
    ∷ rule "GET" "/" all_roles "health:read" false false "Root liveness."
    ∷ rule "*" "/auth/*" all_roles "auth:public-or-session" false false
        "Authentication and session lifecycle."
    ∷ []
