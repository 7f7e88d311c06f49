-- ===== src/Gateway/Audited.antt =====
-- What a run leaves in the audit chain.
use auth_claw.Gateway.Approval.{approval_node, approval_request, create_in_time}
use auth_claw.Gateway.Effects.{
  ApprovalRequest, Event, Run, agent_event, approval_created, audit_block, lift, message_added,
  provider_called, ◌>>◌,
}
use auth_claw.Gateway.Env.{Env, LegacyProvider, Timing, never, on_time, too_late}
use auth_claw.Gateway.Governance.{decision_node, risk_node}
use auth_claw.Gateway.Graph.{
  Route, after_approval, after_policy, answer, govern, route_after_approval, to_audit,
  to_provider_router, to_risk,
}
use auth_claw.Gateway.Guarantee.{
  Any, Guarantees, Guarantees-bind, Guarantees-done, Guarantees-emit, Guarantees-if,
  Guarantees-lift, Guarantees-raise, Guarantees-raise_some, Guarantees-weaken,
}
use auth_claw.Gateway.Nodes.{IsLog}
use auth_claw.Gateway.Provider.{
  build_prompt, call_legacy, call_provider, finish_call, legacy_selection, llm_node,
  provider_router_node, rag_node,
}
use auth_claw.Gateway.Response.{log_output_findings, response_checks_node}
use auth_claw.Gateway.State.{
  AuthState, Selection, Trigger, allowed_of, is_approved, is_high, is_pending, risk_of, tenant_of,
}
use auth_claw.Prelude.{List, Option, Text, [], none, not, some, ◌||◌, ◌∷◌}
use auth_claw.Result.{Result, ok, raised, timeout_error}

abbrev pub IsNotAudit : Event → Type 0
IsNotAudit (audit_block b) = ⊥
IsNotAudit _ = Unit

log-NotAudit : (e : Event) → IsLog e → IsNotAudit e
log-NotAudit (agent_event a k) h = tt
log-NotAudit (message_added s r m) h = tt
log-NotAudit (approval_created r) h = tt
log-NotAudit (provider_called c p) h = tt
log-NotAudit (audit_block b) h = h

abbrev Unaudited : {A : Type 0} → Run A → Type 0
Unaudited m = Guarantees m IsNotAudit Any

pub unaudited : {A : Type 0} {Q : A → Type 0} (m : Run A) → Guarantees m IsLog Q → Unaudited m
unaudited m h = Guarantees-weaken m log-NotAudit (λ a q. tt) h

risk_node-Unaudited : (env : Env) (s : AuthState) → Unaudited (risk_node env s)
unfolding risk_node
risk_node-Unaudited env s =
    Guarantees-if env.risk_on_time _ _
      (λ e. Guarantees-emit _ _ tt (Guarantees-emit _ _ tt (Guarantees-done _ tt)))
      (λ e. Guarantees-raise timeout_error)

decision_node-Unaudited : (s : AuthState) → Unaudited (decision_node s)
unfolding decision_node
decision_node-Unaudited s = Guarantees-emit _ _ tt (Guarantees-done _ tt)

create_in_time-Unaudited :
    (env : Env) (timing : Timing) (request : ApprovalRequest)
    → Unaudited (create_in_time env timing request)
unfolding create_in_time
create_in_time-Unaudited env on_time request = Guarantees-emit _ _ tt (Guarantees-done _ tt)
create_in_time-Unaudited env too_late request =
    Guarantees-emit _ _ tt (Guarantees-raise timeout_error)
create_in_time-Unaudited env never request = Guarantees-raise timeout_error

approval_node-Unaudited : (env : Env) (s : AuthState) → Unaudited (approval_node env s)
unfolding approval_node
approval_node-Unaudited env s =
    Guarantees-if (is_approved s.approval_status) _ _ (λ e. Guarantees-done _ tt)
      (λ e.
        Guarantees-if (is_high (risk_of s)) _ _
          (λ h.
            Guarantees-bind (create_in_time env env.approval_timing (approval_request s)) _
              (create_in_time-Unaudited env env.approval_timing (approval_request s))
              (λ i h. Guarantees-done _ tt))
          (λ h. Guarantees-done _ tt))

provider_router_node-Unaudited :
    (env : Env) (s : AuthState) → Unaudited (provider_router_node env s)
unfolding provider_router_node
provider_router_node-Unaudited env s =
    Guarantees-if (not (allowed_of s) || is_pending s.approval_status) _ _
      (λ e. Guarantees-done _ tt)
      (λ e.
        Guarantees-bind {Q = Any} (lift (env.select_provider (tenant_of s))) _
          (Guarantees-lift _ (λ a h. tt)) (λ a h. Guarantees-emit _ _ tt (Guarantees-done _ tt)))

finish_call-Unaudited : (s : AuthState) (r : Result Text) → Unaudited (finish_call s r)
unfolding finish_call
finish_call-Unaudited s (ok t) = Guarantees-emit _ _ tt (Guarantees-done _ tt)
finish_call-Unaudited s (raised e) = Guarantees-emit _ _ tt (Guarantees-done _ tt)

call_legacy-Unaudited :
    (env : Env) (s : AuthState) (prompt : Text) (o : Result LegacyProvider)
    → Unaudited (call_legacy env s prompt o)
unfolding call_legacy
call_legacy-Unaudited env s prompt (raised e) = finish_call-Unaudited s (raised e)
call_legacy-Unaudited env s prompt (ok p) = Guarantees-emit _ _ tt (
    Guarantees-emit _ _ tt
      (finish_call-Unaudited (record s { selection = some (legacy_selection p) }) _))

call_provider-Unaudited :
    (env : Env) (s : AuthState) (prompt : Text) (selection : Option Selection)
    → Unaudited (call_provider env s prompt selection)
unfolding call_provider
call_provider-Unaudited env s prompt none = call_legacy-Unaudited env s prompt env.legacy_provider
call_provider-Unaudited env s prompt (some selection) =
    Guarantees-emit _ _ tt (Guarantees-emit _ _ tt (finish_call-Unaudited s _))

llm_node-Unaudited : (env : Env) (s : AuthState) → Unaudited (llm_node env s)
unfolding llm_node
llm_node-Unaudited env s =
    Guarantees-if (is_pending s.approval_status) _ _ (λ e. Guarantees-done _ tt)
      (λ e.
        Guarantees-if (not (allowed_of s)) _ _ (λ h. Guarantees-done _ tt)
          (λ h t. call_provider-Unaudited env s (build_prompt env t s) s.selection t))

log_output_findings-Unaudited :
    (ts : List Trigger) (m : Run AuthState) → Unaudited m → Unaudited (log_output_findings ts >> m)
unfolding log_output_findings
log_output_findings-Unaudited [] m h = Guarantees-emit _ _ tt h
log_output_findings-Unaudited (x ∷ ts) m h = Guarantees-emit _ _ tt h

response_checks_node-Unaudited :
    (env : Env) (s : AuthState) → Unaudited (response_checks_node env s)
unfolding response_checks_node
response_checks_node-Unaudited env s = Guarantees-emit _ _ tt (
    Guarantees-emit _ _ tt (
      Guarantees-raise_some _ _
        (log_output_findings-Unaudited _ _ (Guarantees-emit _ _ tt (Guarantees-done _ tt)))))

rag_node-Unaudited : (env : Env) (s : AuthState) → Unaudited (rag_node env s)
unfolding rag_node
rag_node-Unaudited env s = Guarantees-done _ tt

module _ (env : Env) (carry : AuthState → AuthState) where
  answer-Unaudited : (s : AuthState) → Unaudited (answer env carry s)
  unfolding answer
  answer-Unaudited s =
      Guarantees-bind (provider_router_node env s) _ (provider_router_node-Unaudited env s) (λ a h.
        Guarantees-bind (rag_node env (carry a)) _ (rag_node-Unaudited env (carry a)) (λ b h.
          Guarantees-bind (llm_node env (carry b)) _ (llm_node-Unaudited env (carry b))
            (λ c h. response_checks_node-Unaudited env (carry c))))

  after_approval-Unaudited :
      (s : AuthState) (route : Route) → Unaudited (after_approval env carry s route)
  unfolding after_approval
  after_approval-Unaudited s to_provider_router = answer-Unaudited s
  after_approval-Unaudited s to_risk = Guarantees-done s tt
  after_approval-Unaudited s to_audit = Guarantees-done s tt

  govern-Unaudited : (s : AuthState) → Unaudited (govern env carry s)
  unfolding govern
  govern-Unaudited s = Guarantees-bind (risk_node env s) _ (risk_node-Unaudited env s) (λ a h.
      Guarantees-bind (decision_node (carry a)) _ (decision_node-Unaudited (carry a)) (λ b h.
        Guarantees-bind (approval_node env (carry b)) _ (approval_node-Unaudited env (carry b))
          (λ c h. after_approval-Unaudited (carry c) (route_after_approval (carry c)))))

  pub after_policy-Unaudited :
      (s : AuthState) (route : Route) → Unaudited (after_policy env carry s route)
  unfolding after_policy
  after_policy-Unaudited s to_risk = govern-Unaudited s
  after_policy-Unaudited s to_audit = Guarantees-done s tt
  after_policy-Unaudited s to_provider_router = Guarantees-done s tt
