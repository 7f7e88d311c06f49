-- ===== src/Opa/Evaluate.antt =====
-- `evaluate_opa_policy` of policy.py. A reply is what the request to the agent comes to; the time is
-- a number and `_opa_disabled_until` the state.
use auth_claw.Opa.Answer.{OpaResult, normalize_opa_result}
use auth_claw.Policy.Json.{Json, end, field, int, obj, py_str, str}
use auth_claw.Prelude.{
  Bool, Option, Text, [], codes, false, if◌then◌else◌, leb, lower, ltb, none, not, one_of, some,
  strip, true, ℕ, ◌++◌, ◌+◌, ◌||◌, ◌∷◌,
}

-- The environment; a variable that is not set is `none`.
pub record Environment : Type 0 where
  pub authclaw_env : Option Text
  pub opa_enabled : Option Text
  pub opa_required : Option Text
  pub circuit_break_seconds : ℕ

-- _truthy
unfoldable pub is_on : Option Text → Bool → Bool
unfolding lower strip one_of codes
is_on none default = default
is_on (some v) default =
    one_of (lower (strip v)) (codes "1" ∷ codes "true" ∷ codes "yes" ∷ codes "on" ∷ [])

unfoldable pub is_opa_enabled : Environment → Bool
unfolding is_on
is_opa_enabled env = is_on env.opa_enabled true

abbrev or_development : Option Text → Text
or_development none = codes "development"
or_development (some v) = v

unfoldable pub is_opa_required : Environment → Bool
unfolding is_on lower strip one_of codes
is_opa_required env =
    one_of (lower (strip (or_development env.authclaw_env)))
      (codes "production" ∷ codes "prod" ∷ [])
    || is_on env.opa_required false

unfoldable pub opa_fail_closed : Text → OpaResult
unfolding codes
opa_fail_closed reason = record {
  allowed = false;
  decision = codes "BLOCK";
  reason = str reason;
  category = str (codes "opa_enforcement");
  findings =
      obj (
        field (codes "policy_name") (str (codes "OPA enforcement availability")) (
          field (codes "category") (str (codes "OPA")) (
            field (codes "action") (str (codes "BLOCK")) (
              field (codes "reason") (str reason)
                (field (codes "confidence") (str (codes "fail-closed")) end)))))
      ∷ [];
  risk_level = str (codes "HIGH");
}

-- The status and the parsed body (`{}` for an empty one), or the exception that the request or the
-- parsing raises, by its name and the time when it is caught.
pub data Reply : Type 0 where
  answered : ℕ → Json → Reply
  failed : Text → ℕ → Reply

-- Every branch without a decision of the agent.
abbrev pub without_decision : Bool → Text → Option OpaResult
without_decision required reason = if required then some (opa_fail_closed reason) else none

abbrev pub is_success : ℕ → Bool
is_success status = not (ltb status 200 || leb 300 status)

unfoldable pub read_reply : Environment → Reply → ℕ → Option OpaResult × ℕ
unfolding is_opa_required opa_fail_closed normalize_opa_result py_str codes
read_reply env (answered status body) disabled_until = (
  if is_success status
      then normalize_opa_result body
      else without_decision (is_opa_required env)
          (codes "OPA policy endpoint returned HTTP " ++ py_str (int status) ++ codes "."),
  disabled_until,
)
read_reply env (failed error time) disabled_until = (
  without_decision (is_opa_required env)
      (codes "OPA enforcement is required but unavailable: " ++ error ++ codes "."),
  time + env.circuit_break_seconds,
)

-- The answer and the next `_opa_disabled_until`.
unfoldable pub evaluate_opa_policy : Environment → ℕ → Reply → ℕ → Option OpaResult × ℕ
unfolding is_opa_enabled is_opa_required opa_fail_closed read_reply codes
evaluate_opa_policy env now reply disabled_until =
    if not (is_opa_enabled env)
    then (
      without_decision (is_opa_required env)
          (codes "OPA enforcement is required but AUTHCLAW_OPA_ENABLED is false."),
      disabled_until,
    )
    else if ltb now disabled_until
    then (
      without_decision (is_opa_required env)
          (codes "OPA enforcement is required but the OPA circuit breaker is open."),
      disabled_until,
    )
    else read_reply env reply disabled_until
