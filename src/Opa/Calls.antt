-- ===== src/Opa/Calls.antt =====
-- `is_blocked`, `is_high_risk`, `validate_policy` and `check_policy_violations` of policy.py, each for
-- an answer of `evaluate_opa_policy`; the result of PolicyEngine().evaluate is an argument.
use auth_claw.Opa.Answer.{OpaResult}
use auth_claw.Policy.Action.{Action, block, require_approval}
use auth_claw.Policy.Engine.{FindingDict, PolicyEvaluationResult}
use auth_claw.Policy.Json.{Json, end, field, obj, str}
use auth_claw.Prelude.{
  Bool, List, Option, Text, [], any, codes, contains, false, if◌then◌else◌, keep, lower, none, not,
  one_of, some, text_eq, true, upper, ◌||◌, ◌∷◌,
}
use auth_claw.Result.{Result, ok, ◌>>=◌}

-- The keywords of the policy file.
pub record PolicyFile : Type 0 where
  pub blocked_keywords : List Text
  pub high_risk_keywords : List Text

unfoldable pub is_blocked : Option OpaResult → PolicyFile → Text → Bool
unfolding text_eq codes lower contains
is_blocked (some r) policy text = text_eq r.decision (codes "BLOCK") || not r.allowed
is_blocked none policy text = any (contains (lower text)) policy.blocked_keywords

-- value == "HIGH"
abbrev is_high : Json → Bool
is_high (str t) = text_eq t (codes "HIGH")
is_high _ = false

unfoldable pub is_high_risk : Option OpaResult → PolicyFile → Text → Bool
unfolding text_eq codes lower contains
is_high_risk (some r) policy text =
    text_eq r.decision (codes "REQUIRE_APPROVAL") || is_high r.risk_level
is_high_risk none policy text = any (contains (lower text)) policy.high_risk_keywords

-- action in {ACTION_BLOCK, ACTION_REQUIRE_APPROVAL}
abbrev pub stops : Action → Bool
stops block = true
stops require_approval = true
stops _ = false

unfoldable pub validate_policy : Option OpaResult → Result PolicyEvaluationResult → Result Bool
validate_policy (some r) engine = ok r.allowed
validate_policy none engine = do result ← engine; ok (not (stops result.action))

-- Findings of the agent or of the engine.
pub data Violations : Type 0 where
  from_opa : List Json → Violations
  from_engine : List FindingDict → Violations

unfoldable pub default_finding : OpaResult → Json
unfolding codes
default_finding r = obj (
    field (codes "policy_name") (str (codes "OPA Policy")) (
      field (codes "category") r.category
        (field (codes "action") (str r.decision) (field (codes "reason") r.reason end))))

-- xs or ys
abbrev pub list_or {ℓ} : {A : Type ℓ} → List A → List A → List A
list_or [] ys = ys
list_or (x ∷ xs) ys = x ∷ xs

abbrev pub is_stopping : FindingDict → Bool
is_stopping f = one_of (upper f.action) (codes "BLOCK" ∷ codes "REQUIRE_APPROVAL" ∷ [])

unfoldable pub check_policy_violations :
    Option OpaResult → Result PolicyEvaluationResult → Result (Bool × Violations)
unfolding default_finding one_of upper codes
check_policy_violations (some r) engine =
    if not r.allowed
    then ok (false, from_opa (list_or r.findings (default_finding r ∷ [])))
    else ok (true, from_engine [])
check_policy_violations none engine = do
  result ← engine
  ok (
      if stops result.action
      then (false, from_engine (list_or (keep is_stopping result.findings) result.findings))
      else (true, from_engine []))
