-- ===== src/Service/Runs.antt =====
-- `execute_chat` and `execute_approval` of services/gateway_service.py around the run of the workflow.
use auth_claw.Gateway.Effects.{Trace, agent_event}
use auth_claw.Gateway.Graph.{invoke}
use auth_claw.Gateway.State.{ApprovalStatus, AuthState}
use auth_claw.Prelude.{Option, Text, [], codes, none, some, ℕ, ◌++◌, ◌∷◌}
use auth_claw.Result.{Result, ok, raised}
use auth_claw.Service.Rows.{Around, Registered, finish_approval, finish_chat, new_state}
use auth_claw.Service.State.{
  ApprovedRequest, ChatRequest, Gateway, tenant_refused, text_or_else, username_from_authorization,
}

module _ (g : Gateway) where
  unfoldable pub chat_around : ChatRequest → ℕ → Around
  chat_around r tenant_id = record {
    request_id = g.request_id;
    session_id = text_or_else r.session_id g.new_session_id;
    tenant_id = tenant_id;
    route_id = r.route_id;
    provider = r.provider;
    model = r.model;
  }

  unfoldable pub chat_state : ChatRequest → ℕ → AuthState
  unfolding new_state username_from_authorization
  chat_state r tenant_id =
      new_state r.message (text_or_else r.session_id g.new_session_id)
        (text_or_else r.username (username_from_authorization g.decode_jwt r.authorization))
        tenant_id g.request_id

  unfoldable pub run_chat : ChatRequest → Result ℕ → Trace → Registered × Trace
  unfolding chat_around chat_state finish_chat
  run_chat r (raised fault) t = ((tenant_refused fault, []), t)
  run_chat r (ok tenant_id) t =
      let (result, t') = invoke g.env g.carry (chat_state r tenant_id) t in
      (finish_chat (chat_around r tenant_id) result, t')

  unfoldable pub execute_chat : ChatRequest → Trace → Registered × Trace
  unfolding run_chat
  execute_chat r t = run_chat r (g.resolve_tenant r.x_api_key r.authorization) t

  unfoldable pub approval_around : ApprovedRequest → Text → Text → ℕ → Around
  unfolding codes
  approval_around r provider model tenant_id = record {
    request_id = g.request_id;
    session_id = text_or_else r.correlation_id (codes "approval-" ++ r.approval_id);
    tenant_id = tenant_id;
    route_id = none;
    provider = provider;
    model = model;
  }

  unfoldable pub approval_state : ApprovedRequest → Option Text → Option Text → ℕ → AuthState
  unfolding new_state username_from_authorization codes
  approval_state r authorization username tenant_id =
      record (new_state r.query (text_or_else r.correlation_id (codes "approval-" ++ r.approval_id))
        (text_or_else username (username_from_authorization g.decode_jwt authorization)) tenant_id
        g.request_id) {
          approval_id = some r.approval_id;
          approval_status = some ApprovalStatus.approved;
        }

  -- approval_record.get("tenant_id"), else resolve_tenant
  abbrev approval_tenant : ApprovedRequest → Option Text → Option Text → Result ℕ
  approval_tenant r x_api_key authorization = elim r.tenant_id [
    | none ↦ g.resolve_tenant x_api_key authorization
    | some t ↦ ok t
  ]

  unfoldable pub run_approval :
      ApprovedRequest
      → Option Text
      → Option Text
      → Text
      → Text
      → Result ℕ
      → Trace
      → Registered × Trace
  unfolding approval_around approval_state finish_approval
  run_approval r authorization username provider model (raised fault) t =
      ((tenant_refused fault, []), t)
  run_approval r authorization username provider model (ok tenant_id) t =
      let started = t ++ agent_event "Approval Execute" "APPROVAL_EXECUTION_STARTED" ∷ [] in
      let (result, t') =
        invoke g.env g.carry (approval_state r authorization username tenant_id) started in
      (finish_approval (approval_around r provider model tenant_id) r.risk_level result, t')

  unfoldable pub execute_approval :
      ApprovedRequest
      → Option Text
      → Option Text
      → Option Text
      → Text
      → Text
      → Trace
      → Registered × Trace
  unfolding run_approval
  execute_approval r authorization x_api_key username provider model t =
      run_approval r authorization username provider model
        (approval_tenant r x_api_key authorization) t
