-- ===== src/Service/Agreed.antt =====
-- The row that a chat registers and the answer that it formats agree.
use auth_claw.Gateway.Effects.{Trace}
use auth_claw.Gateway.Graph.{invoke}
use auth_claw.Gateway.State.{AuthState, Selection, allowed_of, is_pending, risk_of}
use auth_claw.Prelude.{
  Bool-cases, Option, [], codes, false, inl, inr, none, refl, some, true, ℕ, ◌∷◌, ◌≡◌, ◌⊎◌,
}
use auth_claw.Result.{
  Result, attribute_error, ok, provider_error, raised, storage_error, timeout_error, value_error,
}
use auth_claw.Service.Format.{
  ChatResponse, approval_response, blocked_response, format_chat_response, text_response,
}
use auth_claw.Service.Rows.{
  Around, Registered, chat_status, execution_of, finish_chat, model_of, provider_of, result_row,
  route_of, unavailable_row,
}
use auth_claw.Service.Runs.{chat_around, chat_state, execute_chat, run_chat}
use auth_claw.Service.State.{
  ChatRequest, Gateway, GatewayExecution, RegisteredRequest, RequestStatus, configuration_error,
  executed, or_option, provider_unavailable, status_allowed, status_blocked, status_pending,
  status_unavailable, tenant_refused, text_or_else,
}

-- The status that an answer tells.
abbrev pub told_status : ChatResponse → RequestStatus
told_status (blocked_response category) = status_blocked
told_status (approval_response id reason risk) = status_pending
told_status (text_response t risk provider model route) = status_allowed

-- The row's status is the one that the answer tells, but for a result that is both not allowed and
-- waiting for an approval.
abbrev pub StatusAgrees : GatewayExecution → RegisteredRequest → Type 0
StatusAgrees e row =
    (row.status ≡ told_status (format_chat_response e).0)
    ⊎ ((allowed_of e.result ≡ false) × (is_pending e.result.approval_status ≡ true))

-- The identifiers of the row: those of the call, and the tenant that is resolved.
abbrev pub IsIdentified : Gateway → ChatRequest → RegisteredRequest → Type 0
IsIdentified g r row =
    (g.resolve_tenant r.x_api_key r.authorization ≡ ok row.tenant_id)
    × (row.request_id ≡ g.request_id)
    × (row.session_id ≡ text_or_else r.session_id g.new_session_id)

-- The route, the provider and the model of a row: what the run selected, else what the call names.
abbrev pub IsRouted : ChatRequest → Option Selection → RegisteredRequest → Type 0
IsRouted r selection row =
    (row.route_id ≡ or_option (route_of selection) r.route_id)
    × (row.provider ≡ text_or_else (provider_of selection) r.provider)
    × (row.model ≡ text_or_else (model_of selection) r.model)

-- The execution carries the same as the row.
abbrev pub Tells : GatewayExecution → RegisteredRequest → Type 0
Tells e row =
    (e.request_id ≡ row.request_id)
    × (e.tenant_id ≡ row.tenant_id)
    × (e.session_id ≡ row.session_id)
    × (e.provider ≡ row.provider)
    × (e.model ≡ row.model)
    × (e.route_id ≡ row.route_id)
    × (inr e.decision ≡ row.decision)

-- The verdict of the run's result.
abbrev pub HasVerdict : GatewayExecution → RegisteredRequest → Type 0
HasVerdict e row =
    StatusAgrees e row
    × (row.allowed ≡ allowed_of e.result)
    × (row.risk_level ≡ some (risk_of e.result))
    × (row.decision ≡ inr e.result.decision)

-- The one row that goes with a result, or none where the call raises before or for a wrong
-- configuration.
abbrev pub IsAccounted : Gateway → ChatRequest → Registered → Type 0
IsAccounted g r (executed e, rows) =
    (row : RegisteredRequest) × (rows ≡ row ∷ [])
    × IsIdentified g r row
    × IsRouted r e.result.selection row
    × Tells e row
    × HasVerdict e row
IsAccounted g r (provider_unavailable id, rows) =
    (row : RegisteredRequest) × (rows ≡ row ∷ [])
    × IsIdentified g r row
    × (row.request_id ≡ id)
    × (row.route_id ≡ r.route_id)
    × (row.provider ≡ r.provider)
    × (row.model ≡ r.model)
    × (row.status ≡ status_unavailable)
    × (row.allowed ≡ false)
    × (row.risk_level ≡ none)
    × (row.decision ≡ inl (codes "PROVIDER_UNAVAILABLE"))
IsAccounted g r (configuration_error, rows) = rows ≡ []
IsAccounted g r (tenant_refused fault, rows) =
    (rows ≡ []) × (g.resolve_tenant r.x_api_key r.authorization ≡ raised fault)

chat_status-told :
    (a : Around) (s : AuthState)
    → (chat_status s ≡ told_status (format_chat_response (execution_of a s)).0)
      ⊎ ((allowed_of s ≡ false) × (is_pending s.approval_status ≡ true))
unfolding chat_status format_chat_response execution_of
chat_status-told a s = elim (Bool-cases (is_pending s.approval_status)) [
  | inl p ↦ elim (Bool-cases (allowed_of s)) [ inl e ↦ inl (rw p (rw e refl)) | inr e ↦ inr (e, p) ]
  | inr p ↦ elim (Bool-cases (allowed_of s)) [
    | inl e ↦ inl (rw p (rw e refl))
    | inr e ↦ inl (rw p (rw e refl))
  ]
]

unavailable-IsAccounted :
    (g : Gateway) (r : ChatRequest) (tenant_id : ℕ)
    → g.resolve_tenant r.x_api_key r.authorization ≡ ok tenant_id
    → let a = chat_around g r tenant_id in
      IsAccounted g r (provider_unavailable a.request_id, unavailable_row a none a.route_id ∷ [])
unfolding unavailable_row chat_around
unavailable-IsAccounted g r tenant_id h = (
  unavailable_row (chat_around g r tenant_id) none r.route_id,
  refl,
  (h, refl, refl),
  refl,
  refl,
  refl,
  refl,
  refl,
  refl,
  refl,
  refl,
)

finish_chat-IsAccounted :
    (g : Gateway) (r : ChatRequest) (tenant_id : ℕ) (result : Result AuthState)
    → g.resolve_tenant r.x_api_key r.authorization ≡ ok tenant_id
    → IsAccounted g r (finish_chat (chat_around g r tenant_id) result)
unfolding finish_chat result_row chat_around execution_of
finish_chat-IsAccounted g r tenant_id (ok s) h =
    let a = chat_around g r tenant_id in
    (
      result_row a (chat_status s) (risk_of s) s,
      refl,
      (h, refl, refl),
      (refl, refl, refl),
      (refl, refl, refl, refl, refl, refl, refl),
      (chat_status-told a s, refl, refl, refl),
    )
finish_chat-IsAccounted g r tenant_id (raised value_error) h = refl
finish_chat-IsAccounted g r tenant_id (raised attribute_error) h =
    unavailable-IsAccounted g r tenant_id h
finish_chat-IsAccounted g r tenant_id (raised timeout_error) h =
    unavailable-IsAccounted g r tenant_id h
finish_chat-IsAccounted g r tenant_id (raised provider_error) h =
    unavailable-IsAccounted g r tenant_id h
finish_chat-IsAccounted g r tenant_id (raised storage_error) h =
    unavailable-IsAccounted g r tenant_id h

run_chat-IsAccounted :
    (g : Gateway) (r : ChatRequest) (tenant : Result ℕ) (t : Trace)
    → g.resolve_tenant r.x_api_key r.authorization ≡ tenant
    → IsAccounted g r (run_chat g r tenant t).0
unfolding run_chat
run_chat-IsAccounted g r (raised fault) t h = (refl, h)
run_chat-IsAccounted g r (ok tenant_id) t h =
    finish_chat-IsAccounted g r tenant_id (invoke g.env g.carry (chat_state g r tenant_id) t).0 h

-- Every call of execute_chat that ends with a result or with an unavailable provider registers one
-- request with the resolved tenant and the call's request and session. With a result the row has
-- the route, the provider and the model that the run selected, or else the call's, has the result's
-- decision, risk and `allowed`, agrees with the execution, and has the status that the answer tells
-- unless the result is both not allowed and waiting for an approval. An unavailable provider is
-- registered as such, with the call's route, provider and model. A wrong configuration and a tenant
-- that is not resolved register nothing.
pub execute_chat-IsAccounted :
    (g : Gateway) (r : ChatRequest) (t : Trace) → IsAccounted g r (execute_chat g r t).0
unfolding execute_chat
execute_chat-IsAccounted g r t =
    run_chat-IsAccounted g r (g.resolve_tenant r.x_api_key r.authorization) t refl
