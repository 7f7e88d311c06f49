-- ===== src/Gateway/Completion.antt =====
-- graph.py: when the runs of the workflow return.
use auth_claw.Gateway.Approval.{approval_node, approval_request, create_in_time}
use auth_claw.Gateway.Effects.{ApprovalRequest, Run, Trace, done, lift, raise_some, ◌>>=◌, ◌>>◌}
use auth_claw.Gateway.Env.{
  Env, LegacyProvider, ReadBack, on_time, read_fails, row_found, row_missing,
}
use auth_claw.Gateway.Governance.{
  agent_outcome, decision_node, is_refused, policy_agent_evaluate, policy_node, risk_node,
}
use auth_claw.Gateway.Graph.{
  Route, after_approval, after_policy, answer, govern, invoke, route_after_approval,
  route_after_policy, to_audit, to_provider_router, to_risk,
}
use auth_claw.Gateway.Guarantee.{continue-ok}
use auth_claw.Gateway.Intake.{log_findings, orchestrator_node, redact_node}
use auth_claw.Gateway.Nodes.{inspected}
use auth_claw.Gateway.Provider.{
  build_prompt, call_legacy, call_provider, finish_call, legacy_selection, llm_node,
  provider_router_node, rag_node,
}
use auth_claw.Gateway.Response.{
  audit_node, audit_record, log_output_findings, log_stored, response_checks_node,
}
use auth_claw.Gateway.State.{
  AuthState, Selection, Trigger, allowed_of, is_approved, is_high, is_pending, risk_of, tenant_of,
  username_of,
}
use auth_claw.Policy.Category.{get_or}
use auth_claw.Policy.Engine.{PolicyEvaluationResult}
use auth_claw.Policy.Lifecycle.Accepted.{IsAccepted}
use auth_claw.Policy.Lifecycle.Total.{evaluate-Returns}
use auth_claw.Prelude.{
  All, Bool, List, Option, Text, [], ap, false, if◌then◌else◌, none, not, refl, some, true, ℕ, ◌||◌,
  ◌∙◌, ◌∷◌, ◌≡◌, ◌≢◌,
}
use auth_claw.Result.{Fault, Result, Returns, Returns-ok, ok, raised}

-- The run returns a value, from every trace.
abbrev pub Completes : {A : Type 0} → Run A → Type 0
Completes {A} m = (t : Trace) → (a : A) × (t' : Trace) × (m t ≡ (ok a, t'))

Completes-bind :
    {A B : Type 0} (m : Run A) (f : A → Run B)
    → Completes m
    → ((a : A) → Completes (f a))
    → Completes (m >>= f)
Completes-bind m f h k t =
    let (a, u, e) = h t in let (b, v, e') = k a u in (b, v, continue-ok m f t e ∙ e')

Completes-lift : {A : Type 0} (r : Result A) → Returns r → Completes (lift r)
Completes-lift r (a, e) t = (a, t, ap (λ o. (o, t)) e)

Completes-done : {A : Type 0} (a : A) → Completes (done a)
Completes-done a t = (a, t, refl)

Completes-raise_some :
    {A : Type 0} (o : Option Fault) (m : Run A)
    → o ≡ none
    → Completes m
    → Completes (raise_some o >> m)
Completes-raise_some none m e h = h
Completes-raise_some (some x) m e h = cc

Completes-if :
    {A : Type 0} (b : Bool) (m n : Run A)
    → Completes m
    → Completes n
    → Completes (if b then m else n)
Completes-if true m n h k = h
Completes-if false m n h k = k

finish_call-Completes : (s : AuthState) (r : Result Text) → Completes (finish_call s r)
unfolding finish_call
finish_call-Completes s (ok a) t = (_, _, refl)
finish_call-Completes s (raised e) t = (_, _, refl)

call_legacy-Completes :
    (env : Env) (s : AuthState) (prompt : Text) (o : Result LegacyProvider)
    → Completes (call_legacy env s prompt o)
unfolding call_legacy
call_legacy-Completes env s prompt (raised e) t = finish_call-Completes s (raised e) t
call_legacy-Completes env s prompt (ok p) t =
    finish_call-Completes (record s { selection = some (legacy_selection p) })
      (env.generate p.client prompt) _

call_provider-Completes :
    (env : Env) (s : AuthState) (prompt : Text) (o : Option Selection)
    → Completes (call_provider env s prompt o)
unfolding call_provider
call_provider-Completes env s prompt none t =
    call_legacy-Completes env s prompt env.legacy_provider t
call_provider-Completes env s prompt (some selection) t =
    finish_call-Completes s (env.generate selection.provider_client prompt) _

llm_node-Completes : (env : Env) (s : AuthState) → Completes (llm_node env s)
unfolding llm_node
llm_node-Completes env s = Completes-if (is_pending s.approval_status) _ _ (Completes-done s) (
    Completes-if (not (allowed_of s)) _ _ (Completes-done _)
      (λ t. call_provider-Completes env s (build_prompt env t s) s.selection t))

log_output_findings-Completes : (ts : List Trigger) → Completes (log_output_findings ts)
unfolding log_output_findings
log_output_findings-Completes [] t = (tt, _, refl)
log_output_findings-Completes (x ∷ ts) t = (tt, _, refl)

orchestrator_node-Completes : (s : AuthState) → Completes (orchestrator_node s)
unfolding orchestrator_node
orchestrator_node-Completes s t = (_, _, refl)

log_findings-Completes : (ts : List Trigger) → Completes (log_findings ts)
unfolding log_findings
log_findings-Completes [] t = (tt, _, refl)
log_findings-Completes (x ∷ ts) t = (tt, _, refl)

rag_node-Completes : (env : Env) (s : AuthState) → Completes (rag_node env s)
unfolding rag_node
rag_node-Completes env s = Completes-done _

decision_node-Completes : (s : AuthState) → Completes (decision_node s)
unfolding decision_node
decision_node-Completes s t = (_, _, refl)

audit_record-Completes :
    (record_id : ℕ) (fails : Option Fault) (read : ReadBack) (s : AuthState)
    → fails ≡ none
    → ((e : Fault) → read ≢ read_fails e)
    → Completes (audit_record record_id fails read s)
unfolding audit_record log_stored
audit_record-Completes record_id (some e) read s h k = cc
audit_record-Completes record_id none row_found s h k = λ t. (_, _, refl)
audit_record-Completes record_id none row_missing s h k = λ t. (_, _, refl)
audit_record-Completes record_id none (read_fails e) s h k = elim (k e refl) [ ]

agent_outcome-Returns : (o : Result PolicyEvaluationResult) → Returns o → Returns (agent_outcome o)
unfolding agent_outcome
agent_outcome-Returns (ok r) h = Returns-ok _
agent_outcome-Returns (raised e) (a, h) = cc

-- What the workflow needs of its surroundings: accepted policies, a risk calculation and an
-- approval in time, a provider to select, and a redaction and an audit that raise nothing.
pub record IsReady (env : Env) : Type 0 where
  pub accepted :
      (tenant_id : Option ℕ) → All (λ p. IsAccepted p.rules) (env.load_policies tenant_id)
  pub risk_on_time : env.risk_on_time ≡ true
  pub approval_on_time : env.approval_timing ≡ on_time
  pub redacts :
      (text username : Text) (tenant_id : ℕ) → env.redact_fails text username tenant_id ≡ none
  pub audits : env.audit_fails ≡ none
  pub reads_back : (e : Fault) → env.read_back ≢ read_fails e
  pub selects : (tenant_id : ℕ) → Returns (env.select_provider tenant_id)

module _ (env : Env) (ready : IsReady env) where
  redact_node-Completes : (s : AuthState) → Completes (redact_node env s)
  unfolding redact_node
  redact_node-Completes s =
      Completes-raise_some (env.redact_fails s.message (username_of s) (tenant_of s)) _
        (ready.redacts s.message (username_of s) (tenant_of s))
        (Completes-bind (log_findings (inspected env s).findings) _
          (log_findings-Completes (inspected env s).findings) (λ a u. (_, _, refl)))

  response_checks_node-Completes : (s : AuthState) → Completes (response_checks_node env s)
  unfolding response_checks_node
  response_checks_node-Completes s t =
      let x = get_or s.response [] in
      let triggers = (env.redact_rich x (username_of s) (tenant_of s)).1 in
      Completes-raise_some (env.redact_fails x (username_of s) (tenant_of s)) _
        (ready.redacts x (username_of s) (tenant_of s))
        (Completes-bind (log_output_findings triggers) _ (log_output_findings-Completes triggers)
          (λ a u. (_, _, refl)))
        _

  audit_node-Completes : (s : AuthState) → Completes (audit_node env s)
  unfolding audit_node
  audit_node-Completes s =
      audit_record-Completes env.new_record_id env.audit_fails env.read_back s ready.audits
        ready.reads_back

  policy_node-Completes : (s : AuthState) → Completes (policy_node env s)
  unfolding policy_node policy_agent_evaluate
  policy_node-Completes s =
      let result = policy_agent_evaluate env s.message (username_of s) (tenant_of s) in
      Completes-if (is_refused s.security_approved) _ _ (λ t. (_, _, refl))
        (Completes-bind (lift result) _
          (Completes-lift result (
            agent_outcome-Returns _ (
              evaluate-Returns env.detect (some (tenant_of s)) (username_of s)
                (env.load_policies (some (tenant_of s))) s.message
                (ready.accepted (some (tenant_of s))))))
          (λ a t. (_, _, refl)))

  risk_node-Completes : (s : AuthState) → Completes (risk_node env s)
  unfolding risk_node
  risk_node-Completes s t = rw ready.risk_on_time (_, _, refl)

  create_in_time-Completes :
      (request : ApprovalRequest) → Completes (create_in_time env env.approval_timing request)
  unfolding create_in_time
  create_in_time-Completes request t = rw ready.approval_on_time (_, _, refl)

  approval_node-Completes : (s : AuthState) → Completes (approval_node env s)
  unfolding approval_node
  approval_node-Completes s = Completes-if (is_approved s.approval_status) _ _ (Completes-done s) (
      Completes-if (is_high (risk_of s)) _ _
        (Completes-bind (create_in_time env env.approval_timing (approval_request s)) _
          (create_in_time-Completes (approval_request s)) (λ i. Completes-done _))
        (Completes-done _))

  provider_router_node-Completes : (s : AuthState) → Completes (provider_router_node env s)
  unfolding provider_router_node
  provider_router_node-Completes s =
      Completes-if (not (allowed_of s) || is_pending s.approval_status) _ _ (Completes-done s) (
        Completes-bind (lift (env.select_provider (tenant_of s))) _
          (Completes-lift (env.select_provider (tenant_of s)) (ready.selects (tenant_of s)))
          (λ a t. (_, _, refl)))

  module _ (carry : AuthState → AuthState) where
    answer-Completes : (s : AuthState) → Completes (answer env carry s)
    unfolding answer
    answer-Completes s =
        Completes-bind (provider_router_node env s) _ (provider_router_node-Completes s) (λ a.
          Completes-bind (rag_node env (carry a)) _ (rag_node-Completes env (carry a)) (λ b.
            Completes-bind (llm_node env (carry b)) _ (llm_node-Completes env (carry b))
              (λ c. response_checks_node-Completes (carry c))))

    after_approval-Completes :
        (s : AuthState) (route : Route) → Completes (after_approval env carry s route)
    unfolding after_approval
    after_approval-Completes s to_provider_router = answer-Completes s
    after_approval-Completes s to_risk = Completes-done s
    after_approval-Completes s to_audit = Completes-done s

    govern-Completes : (s : AuthState) → Completes (govern env carry s)
    unfolding govern
    govern-Completes s = Completes-bind (risk_node env s) _ (risk_node-Completes s) (λ a.
        Completes-bind (decision_node (carry a)) _ (decision_node-Completes (carry a)) (λ b.
          Completes-bind (approval_node env (carry b)) _ (approval_node-Completes (carry b))
            (λ c. after_approval-Completes (carry c) (route_after_approval (carry c)))))

    after_policy-Completes :
        (s : AuthState) (route : Route) → Completes (after_policy env carry s route)
    unfolding after_policy
    after_policy-Completes s to_risk = govern-Completes s
    after_policy-Completes s to_audit = Completes-done s
    after_policy-Completes s to_provider_router = Completes-done s

    -- With policies that the lifecycle accepts, a risk calculation and an approval within their
    -- time limits, a provider to select for every tenant, and a redaction and an audit that raise
    -- nothing, every run of the workflow returns a state, whatever the provider answers or raises,
    -- whatever the redaction and the detector answer, and whatever the runtime does to the state.
    -- The detector and the reading of the policies and of the documents are taken to raise nothing.
    pub invoke-Completes : (s : AuthState) → Completes (invoke env carry s)
    unfolding invoke
    invoke-Completes s =
        Completes-bind (orchestrator_node (carry s)) _ (orchestrator_node-Completes (carry s)) (λ a.
          Completes-bind (redact_node env (carry a)) _ (redact_node-Completes (carry a)) (λ b.
            Completes-bind (policy_node env (carry b)) _ (policy_node-Completes (carry b)) (λ c.
              Completes-bind (after_policy env carry (carry c) (route_after_policy (carry c)))
                (λ d. audit_node env (carry d))
                (after_policy-Completes (carry c) (route_after_policy (carry c)))
                (λ d. audit_node-Completes (carry d)))))
