-- ===== src/Gateway/Safety.antt =====
-- graph.py: the events of a run whose request must be refused.
use auth_claw.Gateway.Effects.{
  Event, Run, agent_event, approval_created, audit_block, message_added, provider_called,
}
use auth_claw.Gateway.Env.{Env, ReadBack, read_fails, row_found, row_missing}
use auth_claw.Gateway.Governance.{policy_node}
use auth_claw.Gateway.Graph.{after_policy, invoke, route_after_policy, to_audit}
use auth_claw.Gateway.Guarantee.{
  Guarantees, Guarantees-bind, Guarantees-done, Guarantees-emit, Guarantees-raise,
  Guarantees-raise_some, Guarantees-weaken,
}
use auth_claw.Gateway.Intake.{orchestrator_node, redact_node, redacted_state}
use auth_claw.Gateway.Nodes.{
  IsLog, MustBlock, SameRequest, inspected, orchestrator_node-SameRequest, policy_node-refuses,
  redact_node-IsRedacted,
}
use auth_claw.Gateway.Response.{audit_block_of, audit_node, audit_record, log_stored}
use auth_claw.Gateway.Security.{inspect_input}
use auth_claw.Gateway.State.{AuthState, KeepsDeclared, tenant_of, username_of}
use auth_claw.Policy.Category.{get_or}
use auth_claw.Policy.Verdict.{HasBaselinePattern}
use auth_claw.Prelude.{Option, Text, ap, ap₂, false, inr, refl, some, subst, sym, true, ℕ, ◌∙◌, ◌≡◌}
use auth_claw.Result.{Fault}

-- No provider is called, no approval is asked for, and an audit block says that the request was
-- not allowed.
abbrev pub IsHarmless : Event → Type 0
IsHarmless (agent_event a k) = Unit
IsHarmless (message_added s r m) = Unit
IsHarmless (approval_created r) = ⊥
IsHarmless (provider_called c p) = ⊥
IsHarmless (audit_block b) = b.allowed ≡ false

log-IsHarmless : (e : Event) → IsLog e → IsHarmless e
log-IsHarmless (agent_event a k) h = tt
log-IsHarmless (message_added s r m) h = tt
log-IsHarmless (approval_created r) h = h
log-IsHarmless (provider_called c p) h = h
log-IsHarmless (audit_block b) h = elim h [ ]

abbrev pub IsDenied : AuthState → Type 0
IsDenied s = s.allowed ≡ some false

harmless :
    {A : Type 0} {Q : A → Type 0} (m : Run A) → Guarantees m IsLog Q → Guarantees m IsHarmless Q
harmless m h = Guarantees-weaken m log-IsHarmless (λ a q. q) h

audit_record-IsHarmless :
    (record_id : ℕ) (fails : Option Fault) (read : ReadBack) (s : AuthState)
    → IsDenied s
    → Guarantees (audit_record record_id fails read s) IsHarmless IsDenied
unfolding audit_record audit_block_of log_stored
audit_record-IsHarmless record_id fails row_found s h = Guarantees-raise_some fails _ (
    Guarantees-emit _ _ (ap (λ a. get_or a true) h) (
      Guarantees-emit _ _ tt
        (Guarantees-emit _ _ tt (Guarantees-emit _ _ tt (Guarantees-done _ h)))))
audit_record-IsHarmless record_id fails row_missing s h =
    Guarantees-raise_some fails _
      (Guarantees-emit _ _ (ap (λ a. get_or a true) h) (Guarantees-done _ h))
audit_record-IsHarmless record_id fails (read_fails e) s h =
    Guarantees-raise_some fails _
      (Guarantees-emit _ _ (ap (λ a. get_or a true) h) (Guarantees-raise e))

audit_node-IsHarmless :
    (env : Env) (s : AuthState) → IsDenied s → Guarantees (audit_node env s) IsHarmless IsDenied
unfolding audit_node
audit_node-IsHarmless env s h =
    audit_record-IsHarmless env.new_record_id env.audit_fails env.read_back s h

to_audit-of_denied : (s : AuthState) → IsDenied s → route_after_policy s ≡ to_audit
unfolding route_after_policy
to_audit-of_denied s h = rw h refl

module _ (env : Env) (carry : AuthState → AuthState) where
  after_policy-IsDenied :
      (s : AuthState)
      → IsDenied s
      → Guarantees (after_policy env carry s (route_after_policy s)) IsHarmless IsDenied
  unfolding after_policy
  after_policy-IsDenied s h = rw (to_audit-of_denied s h) (Guarantees-done s h)

  -- What the state after `redact_node` must be for the request to be refused.
  invoke-IsDenied :
      KeepsDeclared carry
      → (s : AuthState)
      → ((c : AuthState)
          → SameRequest (carry s) c
          → MustBlock (carry (redacted_state (inspected env (carry c)) (carry c))))
      → Guarantees (invoke env carry s) IsHarmless IsDenied
  unfolding invoke
  invoke-IsDenied keeps s must =
      Guarantees-bind (orchestrator_node (carry s)) _
        (harmless _ (orchestrator_node-SameRequest (carry s)))
        (λ c same.
          Guarantees-bind (redact_node env (carry c)) _
            (harmless _ (redact_node-IsRedacted env (carry c)))
            (λ r is.
              Guarantees-bind {Q = IsDenied} (policy_node env (carry r)) _
                (harmless _ (
                  policy_node-refuses env (carry r)
                    (subst (λ q. MustBlock (carry q)) (sym is) (must c same))))
                (λ p denied.
                  Guarantees-bind (after_policy env carry (carry p) (route_after_policy (carry p)))
                    _ (after_policy-IsDenied (carry p) (keeps.allowed p ∙ denied))
                    (λ q d. audit_node-IsHarmless env (carry q) (keeps.allowed q ∙ d)))))

  module _ (keeps : KeepsDeclared carry) (s : AuthState) (c : AuthState)
      (same : SameRequest (carry s) c) where
    message_kept : (carry c).message ≡ s.message
    message_kept = keeps.message c ∙ (same.0 ∙ keeps.message s)

    tenant_kept : tenant_of (carry c) ≡ tenant_of s
    tenant_kept = ap (λ t. get_or t 1) (keeps.tenant_id c ∙ (same.1 ∙ keeps.tenant_id s))

  -- Whatever the runtime does to undeclared keys: if the text that redaction makes of the message
  -- holds, for every name of a user, one of the policy engine's own patterns, then the run calls no
  -- provider and asks for no approval, its audit blocks say that the request was not allowed, and
  -- the state that it returns, if it returns one, is not allowed.
  pub invoke-blocks_pattern :
      KeepsDeclared carry
      → (s : AuthState)
      → ((u : Text) → HasBaselinePattern (env.redact_rich s.message u (tenant_of s)).0)
      → Guarantees (invoke env carry s) IsHarmless IsDenied
  unfolding redacted_state inspect_input
  invoke-blocks_pattern keeps s h = invoke-IsDenied keeps s (λ c same. inr (
      subst HasBaselinePattern
        (sym (
          keeps.message (redacted_state (inspected env (carry c)) (carry c))
          ∙ ap₂ (λ m t. (env.redact_rich m (username_of (carry c)) t).0)
              (message_kept keeps s c same) (tenant_kept keeps s c same)))
        (h (username_of (carry c)))))
