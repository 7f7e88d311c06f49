-- ===== src/Rbac/Known.antt =====
-- The roles that the table of rules gives access to.
use auth_claw.Prelude.{
  Bool, Bool-cases, List, Option, Text, [], all, and-split, ap, codes, false, if◌then◌else◌, inl,
  inr, one_of, or-split, refl, some, subst, sym, text_eq, text_eq_sound, true, upper, ◌∙◌, ◌∷◌, ◌≡◌,
}
use auth_claw.Rbac.Access.{
  Payload, enforce_request_access, first_match, granted, rule_matches, resolve_rule, role_of,
  role_text, rule_allows,
}
use auth_claw.Rbac.Granted.{AllowedBy, enforce_request_access-granted}
use auth_claw.Rbac.Paths.{is_public_endpoint}
use auth_claw.Rbac.Roles.{all_roles, role_platform_admin}
use auth_claw.Rbac.Rules.{EndpointRule, endpoint_rules}

one_of-all :
    (test : Text → Bool) (ts : List Text) (k : Text)
    → all test ts ≡ true
    → one_of k ts ≡ true
    → test k ≡ true
unfolding one_of
one_of-all test [] k h e = cc
one_of-all test (t ∷ ts) k h e =
    let (now, rest) = and-split (test t) (all test ts) h in
    elim (or-split (text_eq k t) (one_of k ts) e) [
      | inl same ↦ subst (λ x. test x ≡ true) (sym (text_eq_sound k t same)) now
      | inr later ↦ one_of-all test ts k rest later
    ]

first_match-all :
    (test : EndpointRule → Bool) (rules : List EndpointRule) (method path : Text) (r : EndpointRule)
    → all test rules ≡ true
    → first_match rules method path ≡ some r
    → test r ≡ true
unfolding first_match
first_match-all test [] method path r h e = cc
first_match-all test (q ∷ rules) method path r h e =
    let (now, rest) = and-split (test q) (all test rules) h in
    elim (Bool-cases (rule_matches q method path)) [
      | inl m ↦
          let k : some q ≡ some r = sym (ap choice m) ∙ e in
          let same : q ≡ r = cc in subst (λ x. test x ≡ true) same now
      | inr m ↦ first_match-all test rules method path r rest (sym (ap choice m) ∙ e)
    ]
  where
    choice : Bool → Option EndpointRule
    choice b = if b then some q else first_match rules method path

abbrev is_known : Text → Bool
is_known role = one_of role all_roles

abbrev names_known : EndpointRule → Bool
names_known r = all is_known r.roles

endpoint_rules-known : all names_known endpoint_rules ≡ true
unfolding endpoint_rules codes one_of text_eq
endpoint_rules-known = refl

rule_allows-known :
    (role : Option Text) (r : EndpointRule)
    → names_known r ≡ true
    → rule_allows role (some r) ≡ true
    → is_known (role_text role) ≡ true
unfolding rule_allows one_of codes text_eq
rule_allows-known role r h k = elim (Bool-cases (text_eq (role_text role) role_platform_admin)) [
  | inl e ↦
      subst (λ x. is_known x ≡ true) (sym (text_eq_sound (role_text role) role_platform_admin e))
        refl
  | inr e ↦ one_of-all is_known r.roles (role_text role) h (sym (ap choice e) ∙ k)
]
  where
    choice : Bool → Bool
    choice b = if b then true else one_of (role_text role) r.roles

-- Where the endpoint is not public, only a payload whose role is one of ALL_ROLES is granted.
pub enforce_request_access-known_role :
    (method path : Text) (payload : Option Payload)
    → is_public_endpoint method path ≡ false
    → enforce_request_access method path payload ≡ granted
    → one_of (role_text (role_of payload)) all_roles ≡ true
unfolding AllowedBy resolve_rule
enforce_request_access-known_role method path payload h k =
    elim ((enforce_request_access-granted method path payload).0 k) [
      | inl e ↦ cc
      | inr (r, e, allowed) ↦
          rule_allows-known (role_of payload) r
            (first_match-all names_known endpoint_rules (upper method) path r endpoint_rules-known
              e)
            allowed.0
    ]
