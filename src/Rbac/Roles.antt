-- ===== src/Rbac/Roles.antt =====
-- The roles of services/rbac_matrix.py and the endpoints that need no session.
use auth_claw.Prelude.{List, Text, [], codes, map, ◌++◌, ◌∷◌}

abbrev pub role_platform_admin : Text
role_platform_admin = codes "Platform Admin"

abbrev pub role_super_admin : Text
role_super_admin = codes "Super Admin"

abbrev pub role_security_admin : Text
role_security_admin = codes "Security Admin"

abbrev pub role_compliance_officer : Text
role_compliance_officer = codes "Compliance Officer"

abbrev pub role_auditor : Text
role_auditor = codes "Auditor"

abbrev pub role_developer : Text
role_developer = codes "Developer"

abbrev pub role_viewer : Text
role_viewer = codes "Viewer"

abbrev pub all_roles : List Text
all_roles =
    role_platform_admin ∷ role_super_admin ∷ role_security_admin ∷ role_compliance_officer
    ∷ role_auditor ∷ role_developer ∷ role_viewer ∷ []

abbrev pub tenant_admin_roles : List Text
tenant_admin_roles = role_super_admin ∷ role_security_admin ∷ []

abbrev pub tenant_read_roles : List Text
tenant_read_roles =
    tenant_admin_roles ++ (role_compliance_officer ∷ role_auditor ∷ role_viewer ∷ [])

abbrev pub gateway_user_roles : List Text
gateway_user_roles = tenant_read_roles ++ (role_developer ∷ [])

unfoldable pub public_paths : List Text
unfolding codes
public_paths = map codes (
    "GET /" ∷ "GET /docs" ∷ "GET /docs/oauth2-redirect" ∷ "GET /openapi.json" ∷ "GET /redoc"
    ∷ "GET /health" ∷ "GET /health/details" ∷ "GET /health/ready" ∷ "GET /.well-known/jwks.json"
    ∷ "GET /auth/jwks" ∷ "GET /auth/oidc/providers" ∷ "GET /auth/oidc/login"
    ∷ "GET /auth/oidc/callback" ∷ "POST /auth/oidc/callback" ∷ "POST /auth/login"
    ∷ "POST /auth/register" ∷ "POST /auth/verify-email" ∷ "POST /auth/verify-domain"
    ∷ "POST /auth/password/reset-request" ∷ "POST /auth/password/reset-confirm"
    ∷ "POST /auth/mfa/reset-request" ∷ "POST /auth/mfa/reset-confirm" ∷ "POST /auth/verify-otp"
    ∷ "POST /auth/refresh" ∷ "POST /auth/logout" ∷ "POST /audit/export/verify" ∷ "GET /trust/public"
    ∷ "GET /trust/public/health" ∷ [])
