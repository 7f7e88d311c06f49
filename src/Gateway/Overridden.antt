-- ===== src/Gateway/Overridden.antt =====
-- nodes/policy_node.py: a refusal of the security agent behind a runtime that drops its key.
use auth_claw.Gateway.Effects.{Trace, agent_event}
use auth_claw.Gateway.Env.{Env}
use auth_claw.Gateway.Governance.{
  PolicyAgentResult, apply_policy, concluded_by_policy, policy_agent_evaluate, policy_node,
  with_defaults,
}
use auth_claw.Gateway.Intake.{apply_findings, blocked_by_security, redacted_state}
use auth_claw.Gateway.Nodes.{inspected}
use auth_claw.Gateway.Security.{inspect_input, some_action, trigger_action}
use auth_claw.Gateway.State.{AuthState, KeepsDeclared, Trigger, tenant_of, username_of}
use auth_claw.Policy.Category.{get_or}
use auth_claw.Prelude.{
  Bool, List, Option, Text, [], ap₂, codes, false, lower, lower_code, none, not, refl, some,
  text_eq, true, ◌++◌, ◌||◌, ◌∙◌, ◌∷◌, ◌≡◌,
}
use auth_claw.Result.{ok}

-- LangGraph hands on the keys that state.py declares, and "security_approved" is none of them.
abbrev pub DropsApproval : (AuthState → AuthState) → Type 0
DropsApproval carry = (s : AuthState) → (carry s).security_approved ≡ none

block-any_default :
    (o : Option Text)
    → text_eq (lower (get_or o (codes "redact"))) (codes "block")
      ≡ text_eq (lower (get_or o [])) (codes "block")
unfolding text_eq lower lower_code codes
block-any_default none = refl
block-any_default (some a) = refl

some_action-any_default :
    (ts : List Trigger)
    → some_action (codes "redact") (codes "block") ts ≡ some_action [] (codes "block") ts
unfolding some_action trigger_action
some_action-any_default [] = refl
some_action-any_default (t ∷ ts) =
    ap₂ (λ a b. a || b) (block-any_default t.action) (some_action-any_default ts)

not-false : (b : Bool) → not b ≡ false → b ≡ true
not-false true h = refl
not-false false h = cc

redacted_state-refuses :
    (env : Env) (s : AuthState)
    → (inspected env s).approved ≡ false
    → (redacted_state (inspected env s) s).allowed ≡ some false
unfolding redacted_state apply_findings blocked_by_security inspect_input
redacted_state-refuses env s h =
    rw (some_action-any_default (inspected env s).findings ∙ not-false _ h) refl

-- What policy_node returns when it goes on from a state.
abbrev pub ReturnsAllowed : Env → AuthState → Trace → Type 0
ReturnsAllowed env c t =
    (p : AuthState) × (t' : Trace) × (policy_node env c t ≡ (ok p, t')) × (p.allowed ≡ some true)

policy_node-ReturnsAllowed :
    (env : Env) (c : AuthState) (r : PolicyAgentResult) (t : Trace)
    → c.security_approved ≡ none
    → policy_agent_evaluate env c.message (username_of c) (tenant_of c) ≡ ok r
    → r.approved ≡ true
    → ReturnsAllowed env c t
unfolding policy_node apply_policy concluded_by_policy
policy_node-ReturnsAllowed env c r t d e a =
    let checked = t ++ agent_event "Policy Agent" "JAILBREAK_DETECTION_CHECK" ∷ [] in
    (
      apply_policy r (with_defaults c),
      checked ++ agent_event "Policy Agent" "POLICY_EVALUATED" ∷ [],
      rw d (rw e refl),
      rw a refl,
    )

-- If the runtime drops the key "security_approved", as it is not declared in state.py, and keeps the
-- declared ones, then where the security agent refuses a message and redact_node has therefore set
-- "allowed" to False, but the policy agent approves the redacted text, policy_node returns a state
-- that is allowed.
pub policy_node-overrides :
    (env : Env) (carry : AuthState → AuthState)
    → KeepsDeclared carry
    → DropsApproval carry
    → (s : AuthState) (r : PolicyAgentResult) (t : Trace) → (inspected env s).approved ≡ false
    → (let c = carry (redacted_state (inspected env s) s) in
        policy_agent_evaluate env c.message (username_of c) (tenant_of c) ≡ ok r)
    → r.approved ≡ true
    → let c = carry (redacted_state (inspected env s) s) in
      (c.allowed ≡ some false) × ReturnsAllowed env c t
policy_node-overrides env carry keeps drops s r t refusal e a =
    let b = redacted_state (inspected env s) s in
    (
      keeps.allowed b ∙ redacted_state-refuses env s refusal,
      policy_node-ReturnsAllowed env (carry b) r t (drops b) e a,
    )
